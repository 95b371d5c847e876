-- ===== src/Backend/CandidateMemory/Inferences.antt =====
-- The inferences about a candidate contradict neither each other nor the facts they stand on.
use mathlib.Core.Bool.{true≢false, false≢true}
use praxis_interview_os.Base.{
  ◌≡◌, refl, sym, ap, subst, ◌∙◌, Bool, true, false, not, ◌&&◌, leb, List, [], ◌∷◌, String, str_eq,
  str_eq_iff, arith, ◌⊎◌, inl, inr, Bool-cases, All, if◌then◌else◌,
}
use praxis_interview_os.Backend.CandidateMemory.{
  TopicFacts, average, is_at_least, InferenceType, knowledge_gap, improvement_trend, type_eq,
  Confidence, high, medium, Inference, is_about, upsert_inference, invalidate_gaps, infer_gap,
  infer_trend, forget_gap, generate_inferences, is_mastered,
}

-- No inference about a domain and a type is active.
abbrev pub NoneAbout : String → InferenceType → List Inference → Type 0
NoneAbout d t is_ = All (λ i. is_about d t i ≡ false) is_

-- At most one is.
abbrev pub OneAbout : String → InferenceType → List Inference → Type 0
OneAbout d t [] = Unit
OneAbout d t (i ∷ is_) = (is_about d t i ≡ true → NoneAbout d t is_) × OneAbout d t is_

abbrev pub IsUnique : List Inference → Type 0
IsUnique is_ = (d : String) (t : InferenceType) → OneAbout d t is_

-- An update of the confidence changes nothing about what an inference is about.
upsert_none :
    (d e : String) (t u : InferenceType) (c : Confidence) (is_ : List Inference)
    → (str_eq e d && type_eq u t) ≡ false
    → NoneAbout d t is_
    → NoneAbout d t (upsert_inference e u c is_)
unfolding upsert_inference is_about
upsert_none d e t u c [] other h = (other, tt)
upsert_none d e t u c (i ∷ is_) other h = elim (Bool-cases (is_about e u i)) [
  | inl b ↦ rw (b, upsert_inference) h
  | inr b ↦ rw (b, upsert_inference) (h.0, upsert_none d e t u c is_ other h.1)
]

invalidate_none :
    (d e : String) (t : InferenceType) (is_ : List Inference)
    → NoneAbout d t is_
    → NoneAbout d t (invalidate_gaps e is_)
unfolding invalidate_gaps is_about
invalidate_none d e t [] h = tt
invalidate_none d e t (i ∷ is_) h = elim (Bool-cases (is_about e knowledge_gap i)) [
  | inl b ↦ rw (b, invalidate_gaps) (refl, invalidate_none d e t is_ h.1)
  | inr b ↦ rw (b, invalidate_gaps) (h.0, invalidate_none d e t is_ h.1)
]

invalidated :
    (d : String) (is_ : List Inference) → NoneAbout d knowledge_gap (invalidate_gaps d is_)
unfolding invalidate_gaps is_about
invalidated d [] = tt
invalidated d (i ∷ is_) = elim (Bool-cases (is_about d knowledge_gap i)) [
  | inl b ↦ rw (b, invalidate_gaps) (refl, invalidated d is_)
  | inr b ↦ rw (b, invalidate_gaps) (b, invalidated d is_)
]

and_true : (a b : Bool) → (a && b) ≡ true → (a ≡ true) × (b ≡ true)
and_true true b h = (refl, h)
and_true false b h = absurd (false≢true h)

type_same : (t u : InferenceType) → type_eq t u ≡ true → t ≡ u
unfolding type_eq
type_same knowledge_gap knowledge_gap h = refl
type_same improvement_trend improvement_trend h = refl
type_same knowledge_gap improvement_trend h = absurd (false≢true h)
type_same improvement_trend knowledge_gap h = absurd (false≢true h)

same_about :
    (d e : String) (t u : InferenceType) (i : Inference)
    → (str_eq e d && type_eq u t) ≡ true
    → is_about e u i ≡ is_about d t i
same_about d e t u i h =
    let (a, b) = and_true (str_eq e d) (type_eq u t) h in
    subst (λ x. is_about e u i ≡ is_about x t i) ((str_eq_iff e d).0 a)
      (ap (λ x. is_about e x i) (type_same u t b))

upsert_one :
    (d e : String) (t u : InferenceType) (c : Confidence) (is_ : List Inference)
    → OneAbout d t is_
    → OneAbout d t (upsert_inference e u c is_)
unfolding upsert_inference is_about
upsert_one d e t u c [] h = ((λ a. tt), tt)
upsert_one d e t u c (i ∷ is_) h = elim (Bool-cases (is_about e u i)) [
  | inl b ↦ rw (b, upsert_inference) h
  | inr b ↦
      rw (b, upsert_inference)
        (
          (λ a. elim (Bool-cases (str_eq e d && type_eq u t)) [
            | inl s ↦ absurd (true≢false (sym a ∙ sym (same_about d e t u i s) ∙ b))
            | inr s ↦ upsert_none d e t u c is_ s (h.0 a)
          ]),
          upsert_one d e t u c is_ h.1,
        )
]

invalidate_one :
    (d e : String) (t : InferenceType) (is_ : List Inference)
    → OneAbout d t is_
    → OneAbout d t (invalidate_gaps e is_)
unfolding invalidate_gaps is_about
invalidate_one d e t [] h = tt
invalidate_one d e t (i ∷ is_) h = elim (Bool-cases (is_about e knowledge_gap i)) [
  | inl b ↦ rw (b, invalidate_gaps) ((λ a. absurd (false≢true a)), invalidate_one d e t is_ h.1)
  | inr b ↦
      rw (b, invalidate_gaps)
        ((λ a. invalidate_none d e t is_ (h.0 a)), invalidate_one d e t is_ h.1)
]

-- A property that the writes keep is kept by the inferences from one row.
module _ (P : List Inference → Type 0) where
  gap_keeps :
      (f : TopicFacts) (is_ : List Inference)
      → ((c : Confidence) (js : List Inference)
          → P js
          → P (upsert_inference f.domain_code knowledge_gap c js))
      → P is_
      → P (infer_gap f is_)
  unfolding infer_gap
  gap_keeps f is_ up h =
      elim (Bool-cases (not (is_at_least 500 (average f)) && leb 2 f.sessions_practiced)) [
        | inl b ↦ rw b (up (if is_at_least 350 (average f) then medium else high) is_ h)
        | inr b ↦ rw b h
      ]

  trend_keeps :
      (f : TopicFacts) (is_ : List Inference)
      → ((c : Confidence) (js : List Inference)
          → P js
          → P (upsert_inference f.domain_code improvement_trend c js))
      → P is_
      → P (infer_trend f is_)
  unfolding infer_trend
  trend_keeps f is_ up h =
      elim (Bool-cases (is_mastered f.mastery_status && leb 3 f.sessions_practiced)) [
        | inl b ↦ rw b (up medium is_ h)
        | inr b ↦ rw b h
      ]

  forget_keeps :
      (f : TopicFacts) (is_ : List Inference)
      → ((js : List Inference) → P js → P (invalidate_gaps f.domain_code js))
      → P is_
      → P (forget_gap f is_)
  unfolding forget_gap
  forget_keeps f is_ down h = elim (Bool-cases (is_at_least 700 (average f))) [
    | inl b ↦ rw b (down is_ h)
    | inr b ↦ rw b h
  ]

one_kept :
    (d : String) (t : InferenceType) (fs : List TopicFacts) (is_ : List Inference)
    → OneAbout d t is_
    → OneAbout d t (generate_inferences fs is_)
unfolding generate_inferences
one_kept d t [] is_ h = h
one_kept d t (f ∷ fs) is_ h =
    let gap = gap_keeps (OneAbout d t) f is_ (upsert_one d f.domain_code t knowledge_gap) h in
    let trend =
      trend_keeps (OneAbout d t) f (infer_gap f is_)
        (upsert_one d f.domain_code t improvement_trend) gap in
    one_kept d t fs (forget_gap f (infer_trend f (infer_gap f is_))) (
      forget_keeps (OneAbout d t) f (infer_trend f (infer_gap f is_))
        (invalidate_one d f.domain_code t) trend)

-- The rows of other domains.
abbrev Other : String → List TopicFacts → Type 0
Other d fs = All (λ (f : TopicFacts). str_eq f.domain_code d ≡ false) fs

other_type : (e d : String) → (str_eq e d && false) ≡ false
other_type e d = ground arith

none_kept :
    (d : String) (fs : List TopicFacts) (is_ : List Inference)
    → Other d fs
    → NoneAbout d knowledge_gap is_
    → NoneAbout d knowledge_gap (generate_inferences fs is_)
unfolding generate_inferences type_eq
none_kept d [] is_ o h = h
none_kept d (f ∷ fs) is_ o h =
    let e = f.domain_code in
    let apart : (str_eq e d && type_eq knowledge_gap knowledge_gap) ≡ false = ground (arith, o.0) in
    let gap =
      gap_keeps (NoneAbout d knowledge_gap) f is_
        (λ c js. upsert_none d e knowledge_gap knowledge_gap c js apart) h in
    let trend =
      trend_keeps (NoneAbout d knowledge_gap) f (infer_gap f is_)
        (λ c js. upsert_none d e knowledge_gap improvement_trend c js (other_type e d)) gap in
    none_kept d fs (forget_gap f (infer_trend f (infer_gap f is_))) o.1 (
      forget_keeps (NoneAbout d knowledge_gap) f (infer_trend f (infer_gap f is_))
        (invalidate_none d e knowledge_gap) trend)

-- One row for each domain.
abbrev pub HasDomains : List TopicFacts → Type 0
HasDomains [] = Unit
HasDomains (f ∷ fs) = Other f.domain_code fs × HasDomains fs

-- The rows whose average is at least 0.70 have no active knowledge gap.
abbrev pub AreSettled : List Inference → List TopicFacts → Type 0
AreSettled is_ fs =
    All
      (λ (f : TopicFacts).
        (is_at_least 700 (average f) ≡ false) ⊎ NoneAbout f.domain_code knowledge_gap is_)
      fs

settled :
    (fs : List TopicFacts) (is_ : List Inference)
    → HasDomains fs
    → AreSettled (generate_inferences fs is_) fs
unfolding generate_inferences forget_gap
settled [] is_ h = tt
settled (f ∷ fs) is_ h = (
  elim (Bool-cases (is_at_least 700 (average f))) [
    | inr bad ↦ inl bad
    | inl good ↦ inr (
        none_kept f.domain_code fs (forget_gap f (infer_trend f (infer_gap f is_))) h.0
          (rw good (invalidated f.domain_code (infer_trend f (infer_gap f is_)))))
  ],
  settled fs (forget_gap f (infer_trend f (infer_gap f is_))) h.1,
)

-- Inferences are drawn from the rows so that at most one about a domain and of a type is active, as
-- before, and none says that there is a knowledge gap in a domain whose average is at least 0.70. Each
-- domain has one row.
pub inferences_consistent :
    (fs : List TopicFacts) (is_ : List Inference)
    → HasDomains fs
    → IsUnique is_
    → IsUnique (generate_inferences fs is_) × AreSettled (generate_inferences fs is_) fs
inferences_consistent fs is_ h u = ((λ d t. one_kept d t fs is_ (u d t)), settled fs is_ h)
