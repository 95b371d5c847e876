-- ===== src/Backend/CandidateMemory.antt =====
-- candidate_memory.py: what is kept of a candidate's topics after each session, and what is inferred from
-- it. A correctness is counted in thousandths, where the code has floats, and the average in ten-
-- thousandths, as its column numeric(5,4) rounds it. The averages of grounding and structure, the columns
-- of SM-2 and the texts of the inferences are left out; a domain is named, "general" where the turn has
-- none.
pub mod Inferences
pub mod Rounding
pub mod Rows
pub mod Groups
pub mod Facts
use praxis_interview_os.Base.{
  ℕ, zero, suc, ◌+◌, ◌*◌, ◌/◌, Bool, true, false, not, ◌&&◌, ◌||◌, ltb, leb, ◌==◌, List, [], ◌∷◌,
  ◌++◌, Option, none, some, String, str_eq, length, sum, is_empty, if◌then◌else◌,
}

-- A scored turn of the candidate: its question's domain, if it has one, and its correctness.
pub record Turn : Type 0 where
  pub domain_code : Option String
  pub correctness : ℕ

pub data Mastery : Type 0 where
  unknown learning developing proficient mastered_for_now : Mastery

-- A row of candidate_topic_facts.
pub record TopicFacts : Type 0 where
  pub domain_code : String
  pub sessions_practiced : ℕ
  pub questions_answered : ℕ
  pub correct_count : ℕ
  pub weak_count : ℕ
  pub avg_correctness : ℕ
  pub mastery_status : Mastery

-- `avg >= c`, of thousandths.
unfoldable pub is_at_least : ℕ → ℕ × ℕ → Bool
is_at_least c (n, d) = leb (c * d) n

-- _compute_mastery, by _MASTERY_RULES in their order.
unfoldable pub compute_mastery : ℕ → ℕ × ℕ → Mastery
unfolding is_at_least
compute_mastery sessions avg =
    if sessions == 0
    then unknown
    else (if leb 5 sessions && is_at_least 850 avg
        then mastered_for_now
        else (if leb 3 sessions && is_at_least 700 avg
            then proficient
            else (if leb 2 sessions && is_at_least 500 avg then developing else learning)))

-- `row[0] or "general"`.
unfoldable pub domain_of : Turn → String
domain_of t = elim (t.domain_code) [
  | none ↦ "general"
  | some d ↦ if str_eq d "" then "general" else d
]

-- The correctness of a session's turns, by domain, in the order in which the domains come.
unfoldable pub add_score : String → ℕ → List (String × List ℕ) → List (String × List ℕ)
add_score d c [] = (d, c ∷ []) ∷ []
add_score d c ((e, cs) ∷ gs) =
    let rest = add_score d c gs in if str_eq e d then (e, cs ++ c ∷ []) ∷ gs else (e, cs) ∷ rest

unfoldable pub by_domain : List Turn → List (String × List ℕ) → List (String × List ℕ)
unfolding add_score domain_of
by_domain [] gs = gs
by_domain (t ∷ ts) gs = by_domain ts (add_score (domain_of t) t.correctness gs)

unfoldable pub correct_in : List ℕ → ℕ
correct_in [] = 0
correct_in (c ∷ cs) = let rest = correct_in cs in if leb 500 c then suc rest else rest

unfoldable pub weak_in : List ℕ → ℕ
weak_in [] = 0
weak_in (c ∷ cs) = let rest = weak_in cs in if ltb c 500 then suc rest else rest

-- `(prev_avg * prev_q + avg_corr * q_count) / new_q_total`, where avg_corr is `sum / q_count`.
unfoldable pub mean_of : List ℕ → ℕ × ℕ
mean_of cs = (sum cs, length cs)

unfoldable pub running_mean : ℕ → ℕ → ℕ × ℕ → ℕ → ℕ × ℕ
running_mean prev_avg prev_q (n, d) q =
    (prev_avg * prev_q * d + 10 * (n * q), 10 * d * (prev_q + q))

-- The column avg_correctness is numeric(5,4): an average of thousandths is rounded to ten-thousandths, its
-- half up, and read back from there.
unfoldable pub to_column : ℕ × ℕ → ℕ
to_column (n, d) = (20 * n + d) / (2 * d)

unfoldable pub average : TopicFacts → ℕ × ℕ
average f = (f.avg_correctness, 10)

-- The row that a domain gets, from its old one if there is one.
unfoldable pub new_facts : String → List ℕ → TopicFacts
unfolding correct_in weak_in mean_of to_column compute_mastery
new_facts d cs = record {
  domain_code = d;
  sessions_practiced = 1;
  questions_answered = length cs;
  correct_count = correct_in cs;
  weak_count = weak_in cs;
  avg_correctness = to_column (mean_of cs);
  mastery_status = compute_mastery 1 (mean_of cs);
}

unfoldable pub next_facts : List ℕ → TopicFacts → TopicFacts
unfolding correct_in weak_in mean_of running_mean to_column compute_mastery
next_facts cs f =
    let avg = running_mean f.avg_correctness f.questions_answered (mean_of cs) (length cs) in
    record f {
      sessions_practiced = suc f.sessions_practiced;
      questions_answered = f.questions_answered + length cs;
      correct_count = f.correct_count + correct_in cs;
      weak_count = f.weak_count + weak_in cs;
      avg_correctness = to_column avg;
      mastery_status = compute_mastery (suc f.sessions_practiced) avg;
    }

unfoldable pub update_domain : String → List ℕ → List TopicFacts → List TopicFacts
unfolding new_facts next_facts
update_domain d cs [] = new_facts d cs ∷ []
update_domain d cs (f ∷ fs) =
    let rest = update_domain d cs fs in
    if str_eq f.domain_code d then next_facts cs f ∷ fs else f ∷ rest

unfoldable pub update_domains : List (String × List ℕ) → List TopicFacts → List TopicFacts
unfolding update_domain
update_domains [] fs = fs
update_domains ((d, cs) ∷ gs) fs = update_domains gs (update_domain d cs fs)

-- update_topic_facts_from_session, up to its inferences.
unfoldable pub update_topic_facts : List Turn → List TopicFacts → List TopicFacts
unfolding by_domain update_domains
update_topic_facts turns fs = update_domains (by_domain turns []) fs

pub data InferenceType : Type 0 where
  knowledge_gap improvement_trend : InferenceType

unfoldable pub type_eq : InferenceType → InferenceType → Bool
type_eq knowledge_gap knowledge_gap = true
type_eq improvement_trend improvement_trend = true
type_eq knowledge_gap improvement_trend = false
type_eq improvement_trend knowledge_gap = false

pub data Confidence : Type 0 where
  high medium : Confidence

-- A row of candidate_inferences; it is active while it is not invalidated.
pub record Inference : Type 0 where
  pub domain_code : String
  pub inference_type : InferenceType
  pub confidence : Confidence
  pub is_active : Bool

unfoldable pub is_about : String → InferenceType → Inference → Bool
unfolding type_eq
is_about d t i = i.is_active && str_eq i.domain_code d && type_eq i.inference_type t

-- _upsert_inference: the active row of the domain and type, if there is one, is updated.
unfoldable pub upsert_inference :
    String → InferenceType → Confidence → List Inference → List Inference
unfolding is_about
upsert_inference d t c [] =
    (record { domain_code = d; inference_type = t; confidence = c; is_active = true }) ∷ []
upsert_inference d t c (i ∷ is_) =
    let rest = upsert_inference d t c is_ in
    if is_about d t i then record i { confidence = c } ∷ is_ else i ∷ rest

-- The UPDATE that invalidates the knowledge gaps of a domain.
unfoldable pub invalidate_gaps : String → List Inference → List Inference
unfolding is_about
invalidate_gaps d [] = []
invalidate_gaps d (i ∷ is_) =
    (if is_about d knowledge_gap i then record i { is_active = false } else i)
    ∷ invalidate_gaps d is_

unfoldable pub is_mastered : Mastery → Bool
is_mastered proficient = true
is_mastered mastered_for_now = true
is_mastered unknown = false
is_mastered learning = false
is_mastered developing = false

-- The body of the loop of _generate_inferences, for one row of facts.
unfoldable pub infer_gap : TopicFacts → List Inference → List Inference
unfolding is_at_least average upsert_inference
infer_gap f is_ =
    if not (is_at_least 500 (average f)) && leb 2 f.sessions_practiced
    then upsert_inference f.domain_code knowledge_gap
        (if is_at_least 350 (average f) then medium else high) is_
    else is_

unfoldable pub infer_trend : TopicFacts → List Inference → List Inference
unfolding is_mastered upsert_inference
infer_trend f is_ =
    if is_mastered f.mastery_status && leb 3 f.sessions_practiced
    then upsert_inference f.domain_code improvement_trend medium is_
    else is_

unfoldable pub forget_gap : TopicFacts → List Inference → List Inference
unfolding is_at_least average invalidate_gaps
forget_gap f is_ = if is_at_least 700 (average f) then invalidate_gaps f.domain_code is_ else is_

-- _generate_inferences.
unfoldable pub generate_inferences : List TopicFacts → List Inference → List Inference
unfolding infer_gap infer_trend forget_gap
generate_inferences [] is_ = is_
generate_inferences (f ∷ fs) is_ =
    generate_inferences fs (forget_gap f (infer_trend f (infer_gap f is_)))
