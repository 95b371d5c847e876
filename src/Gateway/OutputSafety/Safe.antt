-- ===== src/Gateway/OutputSafety/Safe.antt =====
-- What a model's answer that passes the checks is known to hold.
use praxis_interview_os.Base.{ℕ, ◌≤◌, Bool, List, [], ◌∷◌, ◌++◌, ◌≡◌, true, subst, String, arith}
use praxis_interview_os.Gateway.OutputSafety.{
  new_report, text, object, lookup, is_given, Fields, score_ranges, validate_text_output,
  check_values, check_required, check_scores, validate_structured_output,
}
use praxis_interview_os.Gateway.OutputSafety.Passed.{
  Passes, AtField, AllGiven, required-Passes, field_text-Passes,
}
use praxis_interview_os.Gateway.OutputSafety.Scored.{
  NumberIn, IsInRanges, scores-Passes, number-IsInRanges,
}

-- The places of an answer that are checked: a text, at most eight levels below the answer; a required
-- field; and a number under a name in an object, which is the answer or stands in its objects and in
-- their lists at most eight levels below it.
pub data Place (data_ : Fields) (required : List String) : Type 0 where
  text_at : (d : ℕ) (s : String) → d ≤ 7 → AtField data_ d (text s) → Place data_ required
  required_field :
      (before after : List String) (name : String)
      → required ≡ before ++ name ∷ after
      → Place data_ required
  number_at :
      (n : ℕ) (k : String) (negative : Bool) (m : ℕ)
      → n ≤ 8
      → NumberIn data_ n k negative m
      → Place data_ required

-- What is asked of a place: its text passes on its own, its field has a value that is not null, its number
-- is at least 0 and at most each bound that the end of its name asks for.
abbrev pub IsSafeAt : {data_ : Fields} {required : List String} → Place data_ required → Type 0
IsSafeAt {data_} (text_at d s near at_) = Passes (validate_text_output s)
IsSafeAt {data_} (required_field before after name e) = is_given (lookup name data_) ≡ true
IsSafeAt {data_} (number_at n k negative m near at_) = IsInRanges score_ranges k negative m

given_at :
    (data_ : Fields) (before after : List String) (name : String)
    → AllGiven data_ (before ++ name ∷ after)
    → is_given (lookup name data_) ≡ true
given_at data_ [] after name h = h.0
given_at data_ (b ∷ before) after name h = given_at data_ before after name h.1

-- When an answer passes, it is safe at every place that is checked: a text, at most eight levels below the
-- answer, passes on its own; a required field has a value that is not null; and a number under a name
-- in an object, which is the answer or stands in its objects and in their lists at most eight levels
-- below it, is at least 0 and at most each bound that the end of the name asks for.
pub passed_safe :
    (data_ : Fields) (required : List String) (p : Place data_ required)
    → Passes (validate_structured_output data_ required)
    → IsSafeAt p
unfolding validate_structured_output check_values check_scores
passed_safe data_ required (text_at d s near at_) h =
    let values = check_values 0 (object data_) new_report in
    let checked = check_required required data_ values in
    let (given, a) =
      required-Passes required data_ values (scores-Passes 0 (object data_) checked h) in
    field_text-Passes 1 d data_ s new_report a at_ (omega arith)
passed_safe data_ required (required_field before after name e) h =
    let values = check_values 0 (object data_) new_report in
    let checked = check_required required data_ values in
    let (given, a) =
      required-Passes required data_ values (scores-Passes 0 (object data_) checked h) in
    given_at data_ before after name (subst (λ (x : List String). AllGiven data_ x) e given)
passed_safe data_ required (number_at n k negative m near at_) h =
    let checked = check_required required data_ (check_values 0 (object data_) new_report) in
    number-IsInRanges 0 n data_ k negative m checked h at_ (omega arith)
