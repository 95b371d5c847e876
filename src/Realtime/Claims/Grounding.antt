-- ===== src/Realtime/Claims/Grounding.antt =====
-- Which evidence decides about a claim.
use praxis_interview_os.Base.{
  ◌≡◌, refl, ◌∙◌, Bool, true, false, ◌||◌, List, [], ◌∷◌, Option, none, some, String, ℕ, map,
  Bool-cases, inl, inr, if◌then◌else◌,
}
use praxis_interview_os.Realtime.Claims.{
  Tier, supported, partially_supported, unsupported, contradicted, uncertain, Answer, structured,
  plain, no_answer, Retrieved, SessionClaim, no_evidence, reads_supported, reads_contradicted,
  judge, ground_from, check_grounding,
}

-- The word by which the prompt names a tier.
abbrev pub word : Tier → String
word supported = "SUPPORTED"
word partially_supported = "PARTIALLY_SUPPORTED"
word unsupported = "UNSUPPORTED"
word contradicted = "CONTRADICTED"
word uncertain = "UNCERTAIN"

-- What the language model says about a chunk, in exactly one tier, as it is asked to: by the schema, with a
-- confidence and an excerpt; when that fails, by the word alone; or not at all.
pub data Reply : Type 0 where
  by_schema : Tier → ℕ → Option String → Reply
  by_word : Tier → Reply
  fails : Reply

abbrev pub answer_of : Reply → Answer
answer_of (by_schema t conf excerpt) = structured t conf excerpt
answer_of (by_word t) = plain (word t)
answer_of fails = no_answer

abbrev pub retrieved : String × Reply → Retrieved
retrieved (id, q) = record { id = id; answer = answer_of q }

abbrev pub tier_of : Reply → Tier
tier_of (by_schema t conf excerpt) = t
tier_of (by_word t) = t
tier_of fails = uncertain

-- The only word that the code takes for another.
abbrev pub IsClear : Reply → Type 0
IsClear (by_word unsupported) = ⊥
IsClear (by_word _) = Unit
IsClear (by_schema t conf excerpt) = Unit
IsClear fails = Unit

abbrev pub AreClear : List (String × Reply) → Type 0
AreClear [] = Unit
AreClear ((id, q) ∷ qs) = IsClear q × AreClear qs

abbrev pub supports : Tier → Bool
supports supported = true
supports partially_supported = true
supports unsupported = false
supports contradicted = false
supports uncertain = false

abbrev pub contradicts : Tier → Bool
contradicts contradicted = true
contradicts _ = false

abbrev pub IsOpen : SessionClaim → Type 0
IsOpen c = (c.is_supported ≡ false) × (c.source_chunk_id ≡ none)

-- What one reply does to a claim.
abbrev Judged : String → Tier → SessionClaim × Bool → Type 0
Judged id t v =
    (v.1 ≡ supports t || contradicts t)
    × (v.0.is_supported ≡ supports t)
    × (v.0.source_chunk_id ≡ (if supports t || contradicts t then some id else none))

judged :
    (id : String) (q : Reply) (c : SessionClaim)
    → IsClear q
    → IsOpen c
    → Judged id (tier_of q) (judge id (answer_of q) c)
unfolding judge reads_supported reads_contradicted
judged id (by_schema supported n e) c l (h, k) = (refl, refl, refl)
judged id (by_schema partially_supported n e) c l (h, k) = (refl, refl, refl)
judged id (by_schema unsupported n e) c l (h, k) = (refl, h, k)
judged id (by_schema contradicted n e) c l (h, k) = (refl, refl, refl)
judged id (by_schema uncertain n e) c l (h, k) = (refl, h, k)
judged id (by_word supported) c l (h, k) = (refl, refl, refl)
judged id (by_word partially_supported) c l (h, k) = (refl, refl, refl)
judged id (by_word unsupported) c l (h, k) = absurd l
judged id (by_word contradicted) c l (h, k) = (refl, refl, refl)
judged id (by_word uncertain) c l (h, k) = (refl, h, k)
judged id fails c l (h, k) = (refl, h, k)

-- The first chunk about which the language model commits itself.
abbrev pub decisive : List (String × Reply) → Option (String × Reply)
decisive [] = none
decisive ((id, q) ∷ qs) =
    let later = decisive qs in
    if supports (tier_of q) || contradicts (tier_of q) then some (id, q) else later

abbrev pub said : Option (String × Reply) → Bool × Option String
said none = (false, none)
said (some (id, q)) = (supports (tier_of q), some id)

or_first : (a b : Bool) → a || b ≡ false → a ≡ false
or_first true b h = h
or_first false b h = refl

both :
    {a b : Bool} {x y : Option String}
    → a ≡ b
    → x ≡ y
    → ◌≡◌ {A = Bool × Option String} (a, x) (b, y)
both p q = λ i. (p i, q i)

grounded_from :
    (qs : List (String × Reply)) (c : SessionClaim)
    → AreClear qs
    → IsOpen c
    → let v = ground_from c (map retrieved qs) in
      ◌≡◌ {A = Bool × Option String} (v.is_supported, v.source_chunk_id) (said (decisive qs))
unfolding ground_from
grounded_from [] c l (h, k) = rw (h, k) refl
grounded_from ((id, q) ∷ qs) c l h =
    let t = tier_of q in
    let (decided, backs, source) = judged id q c l.0 h in
    elim (Bool-cases (supports t || contradicts t)) [
      | inl e ↦ rw e (rw (decided ∙ e, ground_from) (both backs (source ∙ (rw e refl))))
      | inr e ↦ rw e (
          rw (decided ∙ e, ground_from)
            (grounded_from qs (judge id (answer_of q) c).0 l.1
              (backs ∙ or_first (supports t) (contradicts t) e, source ∙ (rw e refl))))
    ]

-- When the language model says about each retrieved chunk in which one of the five tiers the claim is, a
-- claim is supported exactly if the first chunk with SUPPORTED, PARTIALLY_SUPPORTED or CONTRADICTED has
-- one of the first two, and that chunk is named as the source; without such a chunk it is not supported
-- and has no source. It says so by the schema, or by the tier's word where that request fails, but not
-- by the word UNSUPPORTED, which the code takes for support.
pub first_evidence_decides :
    (qs : List (String × Reply))
    → AreClear qs
    → let v = check_grounding (map retrieved qs) in
      ◌≡◌ {A = Bool × Option String} (v.is_supported, v.source_chunk_id) (said (decisive qs))
unfolding check_grounding
first_evidence_decides qs l = grounded_from qs no_evidence l (refl, refl)

-- When the structured request fails and the text answer is UNSUPPORTED, the claim is recorded as
-- supported by the very chunk that does not support it, whatever other chunks there are.
unsupported_reads_supported :
    (id : String) (rs : List Retrieved)
    → let v = check_grounding (record { id = id; answer = plain "UNSUPPORTED" } ∷ rs) in
      (v.is_supported ≡ true) × (v.classification ≡ supported) × (v.source_chunk_id ≡ some id)
unfolding check_grounding
unsupported_reads_supported id rs = (refl, refl, refl)
