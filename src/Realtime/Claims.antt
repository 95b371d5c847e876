-- ===== src/Realtime/Claims.antt =====
-- scoring/claims.py, check_grounding: whether the candidate's documents support a claim. What the
-- language model answers about each retrieved chunk is an input.
pub mod Grounding
use text.Mathlib.Text.{find?}
use praxis_interview_os.Base.{
  ℕ, Bool, true, false, ◌||◌, List, [], ◌∷◌, Option, none, some, String, if◌then◌else◌,
}

pub data Tier : Type 0 where
  supported partially_supported unsupported contradicted uncertain : Tier

-- The answers of the two requests about one chunk: a tier with a confidence in hundredths and an
-- excerpt; after an exception, a text, given in upper case; after another exception, none.
pub data Answer : Type 0 where
  structured : Tier → ℕ → Option String → Answer
  plain : String → Answer
  no_answer : Answer

pub record Retrieved : Type 0 where
  pub id : String
  pub answer : Answer

-- The SessionClaim; `source_project_id` is left out, since a ScoredChunk has no project.
pub record SessionClaim : Type 0 where
  pub is_supported : Bool
  pub classification : Tier
  pub source_chunk_id : Option String
  pub source_excerpt : Option String
  pub confidence : Option ℕ

unfoldable pub no_evidence : SessionClaim
no_evidence = record {
  is_supported = false;
  classification = unsupported;
  source_chunk_id = none;
  source_excerpt = none;
  confidence = none;
}

abbrev is_found : Option ℕ → Bool
is_found none = false
is_found (some n) = true

-- `part in text`.
abbrev pub contains : String → String → Bool
contains text part = is_found (find? text part)

-- `"YES" in txt.upper() or "SUPPORTED" in txt.upper()`, and then `"CONTRADICT" in txt.upper()`.
unfoldable pub reads_supported : String → Bool
reads_supported text = contains text "YES" || contains text "SUPPORTED"

unfoldable pub reads_contradicted : String → Bool
reads_contradicted text = contains text "CONTRADICT"

-- One iteration: the claim after it, and whether the loop is left.
unfoldable pub judge : String → Answer → SessionClaim → SessionClaim × Bool
unfolding reads_supported reads_contradicted
judge id (structured t conf excerpt) c =
    let seen = record c { classification = t; confidence = some conf; source_excerpt = excerpt } in
    elim t [
      | supported ↦ (record seen { is_supported = true; source_chunk_id = some id }, true)
      | partially_supported ↦ (record seen { is_supported = true; source_chunk_id = some id }, true)
      | contradicted ↦ (record seen { is_supported = false; source_chunk_id = some id }, true)
      | unsupported ↦ (seen, false)
      | uncertain ↦ (seen, false)
    ]
judge id (plain text) c =
    if reads_supported text
    then (
      record c {
        is_supported = true;
        classification = supported;
        source_chunk_id = some id;
        confidence = some 90;
      },
      true,
    )
    else (if reads_contradicted text
        then (
          record c {
            is_supported = false;
            classification = contradicted;
            source_chunk_id = some id;
            confidence = some 90;
          },
          true,
        )
        else (record c { classification = uncertain; confidence = some 50 }, false))
judge id no_answer c = (record c { classification = uncertain; confidence = some 30 }, false)

-- The loop over the retrieved chunks.
unfoldable pub ground_from : SessionClaim → List Retrieved → SessionClaim
unfolding judge
ground_from c [] = c
ground_from c (r ∷ rs) =
    let (v, decided) = judge r.id r.answer c in
    let rest = ground_from v rs in if decided then v else rest

-- check_grounding, of the retrieved chunks.
unfoldable pub check_grounding : List Retrieved → SessionClaim
unfolding ground_from no_evidence
check_grounding rs = ground_from no_evidence rs
