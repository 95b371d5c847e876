-- ===== src/Gateway/OutputSafety.antt =====
-- output_safety.py: what is checked of a model's answer before it is used. A number is counted in
-- thousandths; of a violation its code and its severity are kept.
pub mod Patterns
pub mod Passed
pub mod Scored
pub mod Safe
use Prim.Native.Char.{code}
use praxis_interview_os.Base.{
  ℕ, suc, Bool, true, false, not, ◌&&◌, ◌||◌, ltb, leb, ◌==◌, List, [], ◌∷◌, ◌++◌, Option, none,
  some, String, str_eq, any, filter, if◌then◌else◌,
}
use praxis_interview_os.Gateway.OutputSafety.Patterns.{
  Piece, word, one_of, after_word, is_found, echo_patterns, injection_patterns,
}

pub data Violation : Type 0 where
  echo_injection_marker injection_attempt_in_output : Violation
  empty_output : Violation
  missing_required_field score_out_of_range : String → Violation

-- severity == "error".
unfoldable pub is_error : Violation → Bool
is_error echo_injection_marker = true
is_error injection_attempt_in_output = true
is_error empty_output = false
is_error (missing_required_field name) = true
is_error (score_out_of_range key) = true

-- SafetyReport, its violations the latest first.
pub record SafetyReport : Type 0 where
  pub passed : Bool
  pub violations : List Violation

abbrev pub new_report : SafetyReport
new_report = record { passed = true; violations = [] }

-- SafetyReport.add.
unfoldable pub add : Violation → SafetyReport → SafetyReport
unfolding is_error
add v r = record { passed = if is_error v then false else r.passed; violations = v ∷ r.violations }

unfoldable pub add_all : List Violation → SafetyReport → SafetyReport
unfolding add
add_all [] r = r
add_all (v ∷ vs) r = add_all vs (add v r)

-- The violations of one kind of pattern in a text.
unfoldable pub found : Violation → List (List Piece) → String → List Violation
found v [] s = []
found v (p ∷ ps) s = let rest = found v ps s in if is_found p s then v ∷ rest else rest

-- validate_text_output, by its violations.
unfoldable pub text_violations : String → List Violation
unfolding found
text_violations s =
    found echo_injection_marker echo_patterns s
    ++ found injection_attempt_in_output injection_patterns s
    ++ (if str_eq s "" then empty_output ∷ [] else [])

unfoldable pub validate_text_output : String → SafetyReport
unfolding text_violations add_all
validate_text_output s = add_all (text_violations s) new_report

-- A parsed answer. A truth value counts as 0 or 1 there, within all the bounds.
mutual
  pub data Json : Type 0 where
    null : Json
    boolean : Bool → Json
    number : Bool → ℕ → Json
    text : String → Json
    items : Items → Json
    object : Fields → Json

  pub data Items : Type 0 where
    nil : Items
    item : Json → Items → Items

  pub data Fields : Type 0 where
    end : Fields
    field : String → Json → Fields → Fields

abbrev pub max_depth : ℕ
max_depth = 8

-- _check_values.
unfoldable mutual
  unfolding add_all text_violations

  pub check_values : ℕ → Json → SafetyReport → SafetyReport
  check_values depth (text s) r = if ltb max_depth depth then r else add_all (text_violations s) r
  check_values depth (items xs) r =
      let checked = check_items (suc depth) xs r in if ltb max_depth depth then r else checked
  check_values depth (object fs) r =
      let checked = check_fields (suc depth) fs r in if ltb max_depth depth then r else checked
  check_values depth null r = r
  check_values depth (boolean b) r = r
  check_values depth (number negative n) r = r

  pub check_items : ℕ → Items → SafetyReport → SafetyReport
  check_items depth nil r = r
  check_items depth (item x xs) r = check_items depth xs (check_values depth x r)

  pub check_fields : ℕ → Fields → SafetyReport → SafetyReport
  check_fields depth end r = r
  check_fields depth (field k x fs) r = check_fields depth fs (check_values depth x r)

-- `data[name]`, where a later field of a name would replace an earlier one.
unfoldable pub lookup : String → Fields → Option Json
lookup name end = none
lookup name (field k v fs) = let rest = lookup name fs in if str_eq k name then some v else rest

unfoldable pub is_given : Option Json → Bool
is_given none = false
is_given (some null) = false
is_given (some v) = true

unfoldable pub check_required : List String → Fields → SafetyReport → SafetyReport
unfolding lookup is_given add
check_required [] fs r = r
check_required (name ∷ names) fs r =
    check_required names fs
      (if is_given (lookup name fs) then r else add (missing_required_field name) r)

-- `re.search(name + "$", key, IGNORECASE)`: the `$` also stands before a last newline.
unfoldable pub ends_with : String → String → Bool
unfolding after_word
ends_with w String.[] = str_eq w ""
ends_with w (String.◌∷◌ c s) =
    let later = ends_with w s in
    later || (elim (after_word w (String.◌∷◌ c s)) [
      | none ↦ false
      | some r ↦ str_eq r "" || str_eq r "\n"
    ])

-- _SCORE_FIELD_RANGES: the ends of a name, and the upper bound, in thousandths; each lower bound is 0.
abbrev pub score_ranges : List (List String × ℕ)
score_ranges =
    (("score" ∷ []), 10_000)
    ∷ (("confidence" ∷ []), 1_000)
    ∷ (("wpm" ∷ []), 800_000)
    ∷ (("recall_k" ∷ "precision_k" ∷ "ndcg" ∷ "mrr" ∷ []), 1_000)
    ∷ []

unfoldable pub in_range : Bool → ℕ → ℕ → Bool
in_range negative n hi = if negative then n == 0 else leb n hi

unfoldable pub check_ranges :
    List (List String × ℕ) → String → Bool → ℕ → SafetyReport → SafetyReport
unfolding ends_with in_range add
check_ranges [] key negative n r = r
check_ranges ((names, hi) ∷ rs) key negative n r = check_ranges rs key negative n (
    if any (λ w. ends_with w key) names
    then (if in_range negative n hi then r else add (score_out_of_range key) r)
    else r)

-- _check_scores: of a list it looks into the objects only.
unfoldable mutual
  unfolding check_ranges

  pub check_scores : ℕ → Json → SafetyReport → SafetyReport
  check_scores depth (object fs) r =
      let checked = score_fields depth fs r in if ltb max_depth depth then r else checked
  check_scores depth null r = r
  check_scores depth (boolean b) r = r
  check_scores depth (number negative n) r = r
  check_scores depth (text s) r = r
  check_scores depth (items xs) r = r

  pub score_fields : ℕ → Fields → SafetyReport → SafetyReport
  score_fields depth end r = r
  score_fields depth (field key v fs) r = score_fields depth fs (score_value depth key v r)

  pub score_value : ℕ → String → Json → SafetyReport → SafetyReport
  score_value depth key (number negative n) r = check_ranges score_ranges key negative n r
  score_value depth key (object fs) r =
      let checked = score_fields (suc depth) fs r in
      if ltb max_depth (suc depth) then r else checked
  score_value depth key (items xs) r = score_items (suc depth) xs r
  score_value depth key null r = r
  score_value depth key (boolean b) r = r
  score_value depth key (text s) r = r

  pub score_items : ℕ → Items → SafetyReport → SafetyReport
  score_items depth nil r = r
  score_items depth (item x xs) r = score_items depth xs (check_scores depth x r)

-- validate_structured_output: `data` is an object.
unfoldable pub validate_structured_output : Fields → List String → SafetyReport
unfolding check_values check_required check_scores
validate_structured_output data_ required =
    check_scores 0 (object data_)
      (check_required required data_ (check_values 0 (object data_) new_report))

-- assert_safe: the codes that its ValueError names, if it raises one.
unfoldable pub assert_safe : SafetyReport → Option (List Violation)
unfolding is_error
assert_safe r = if r.passed then none else some (filter is_error r.violations)
