-- ===== src/Backend/CandidateMemory/Rows.antt =====
-- A row of facts stays exact when the scores of a session are added to it.
use mathlib.Core.Bool.{true≢false}
use praxis_interview_os.Base.{
  ℕ, ◌+◌, ◌≤◌, ◌≡◌, refl, sym, ap, subst, ◌∙◌, Bool, true, false, List, [], ◌∷◌, ◌++◌, String,
  str_eq, str_eq_iff, arith, inl, inr, Bool-cases, All, length, sum, length-append, sum-append,
  if◌then◌else◌,
}
use praxis_interview_os.Backend.CandidateMemory.{
  TopicFacts, correct_in, weak_in, mean_of, new_facts, next_facts, update_domain,
}
use praxis_interview_os.Backend.CandidateMemory.Inferences.{HasDomains}
use praxis_interview_os.Backend.CandidateMemory.Rounding.{
  IsNear, to_column-IsNear, running_mean-IsNear,
}

-- All the scores of a domain so far.
abbrev pub History : Type 0
History = String → List ℕ

-- The counts of a row are those of its domain's scores, and its average is their mean, but for half a
-- ten-thousandth for each session, of which there are no more than scores.
abbrev pub IsExact : List ℕ → TopicFacts → Type 0
IsExact cs f =
    (f.questions_answered ≡ length cs)
    × (f.correct_count ≡ correct_in cs)
    × (f.weak_count ≡ weak_in cs)
    × (f.sessions_practiced ≤ length cs)
    × IsNear f.sessions_practiced f.avg_correctness (length cs) (sum cs)

correct-append : (xs ys : List ℕ) → correct_in (xs ++ ys) ≡ correct_in xs + correct_in ys
unfolding correct_in
correct-append [] ys = omega arith
correct-append (x ∷ xs) ys = ground (arith, correct-append xs ys)

weak-append : (xs ys : List ℕ) → weak_in (xs ++ ys) ≡ weak_in xs + weak_in ys
unfolding weak_in
weak-append [] ys = omega arith
weak-append (x ∷ xs) ys = ground (arith, weak-append xs ys)

new-IsExact : (d : String) (cs : List ℕ) → 1 ≤ length cs → IsExact cs (new_facts d cs)
unfolding new_facts mean_of
new-IsExact d cs some_ = (refl, refl, refl, some_, to_column-IsNear (sum cs) (length cs) some_)

next-IsExact :
    (old cs : List ℕ) (f : TopicFacts)
    → 1 ≤ length cs
    → IsExact old f
    → IsExact (old ++ cs) (next_facts cs f)
unfolding next_facts mean_of
next-IsExact old cs f some_ (q, c, w, k, near) = (
  omega (arith, q, length-append old cs),
  omega (arith, c, correct-append old cs),
  omega (arith, w, weak-append old cs),
  omega (arith, k, some_, length-append old cs),
  rw (length-append old cs) (
      rw (sum-append old cs) (
        rw q (
          running_mean-IsNear f.sessions_practiced f.avg_correctness (length old) (sum old) (sum cs)
            (length cs) some_ near))),
)

abbrev pub AllExact : History → List TopicFacts → Type 0
AllExact h fs = All (λ (f : TopicFacts). IsExact (h f.domain_code) f) fs

abbrev pub plus_at : String → List ℕ → History → History
plus_at d cs h e = if str_eq e d then h e ++ cs else h e

abbrev pub has_row : String → List TopicFacts → Bool
has_row d [] = false
has_row d (f ∷ fs) = let rest = has_row d fs in if str_eq f.domain_code d then true else rest

str_self : (a : String) → str_eq a a ≡ true
str_self a = (str_eq_iff a a).1 refl

pub str_ne_symm : (a b : String) → str_eq a b ≡ false → str_eq b a ≡ false
str_ne_symm a b h = elim (Bool-cases (str_eq b a)) [
  | inl e ↦ absurd (true≢false (sym ((str_eq_iff a b).1 (sym ((str_eq_iff b a).0 e))) ∙ h))
  | inr e ↦ e
]

row_other :
    (d e : String) (cs : List ℕ) (fs : List TopicFacts)
    → str_eq d e ≡ false
    → All (λ (f : TopicFacts). str_eq f.domain_code e ≡ false) fs
    → All (λ (f : TopicFacts). str_eq f.domain_code e ≡ false) (update_domain d cs fs)
unfolding update_domain new_facts next_facts
row_other d e cs [] ne h = (ne, tt)
row_other d e cs (f ∷ fs) ne h = elim (Bool-cases (str_eq f.domain_code d)) [
  | inl b ↦ rw (b, update_domain) h
  | inr b ↦ rw (b, update_domain) (h.0, row_other d e cs fs ne h.1)
]

pub update_domain-HasDomains :
    (d : String) (cs : List ℕ) (fs : List TopicFacts)
    → HasDomains fs
    → HasDomains (update_domain d cs fs)
unfolding update_domain next_facts
update_domain-HasDomains d cs [] h = (tt, tt)
update_domain-HasDomains d cs (f ∷ fs) h = elim (Bool-cases (str_eq f.domain_code d)) [
  | inl b ↦ rw (b, update_domain) h
  | inr b ↦
      rw (b, update_domain)
        (
          row_other d f.domain_code cs fs (str_ne_symm f.domain_code d b) h.0,
          update_domain-HasDomains d cs fs h.1,
        )
]

-- The rows of other domains keep their scores.
others_exact :
    (d : String) (cs : List ℕ) (h : History) (fs : List TopicFacts)
    → All (λ (f : TopicFacts). str_eq f.domain_code d ≡ false) fs
    → AllExact h fs
    → AllExact (plus_at d cs h) fs
others_exact d cs h [] o e = tt
others_exact d cs h (f ∷ fs) o e = (rw o.0 e.0, others_exact d cs h fs o.1 e.1)

pub update_domain-AllExact :
    (d : String) (cs : List ℕ) (h : History) (fs : List TopicFacts)
    → 1 ≤ length cs
    → HasDomains fs
    → AllExact h fs
    → (has_row d fs ≡ false → h d ≡ [])
    → AllExact (plus_at d cs h) (update_domain d cs fs)
unfolding update_domain
update_domain-AllExact d cs h [] some_ o e new =
    let all : plus_at d cs h d ≡ cs = rw (str_self d) (ap (λ x. x ++ cs) (new refl)) in
    (subst (λ x. IsExact x (new_facts d cs)) (sym all) (new-IsExact d cs some_), tt)
update_domain-AllExact d cs h (f ∷ fs) some_ o e new = elim (Bool-cases (str_eq f.domain_code d)) [
  | inl b ↦
      let all : plus_at d cs h f.domain_code ≡ h f.domain_code ++ cs = rw b refl in
      let mine =
        subst (λ x. IsExact x (next_facts cs f)) (sym all)
          (next-IsExact (h f.domain_code) cs f some_ e.0) in
      let others =
        others_exact d cs h fs
          (subst (λ x. All (λ (g : TopicFacts). str_eq g.domain_code x ≡ false) fs)
            ((str_eq_iff f.domain_code d).0 b) o.0)
          e.1 in
      rw (b, update_domain) (mine, others)
  | inr b ↦
      rw (b, update_domain)
        (rw b e.0, update_domain-AllExact d cs h fs some_ o.1 e.1 (λ g. new (rw b g)))
]

if_false : (b rest : Bool) → (if b then true else rest) ≡ false → (b ≡ false) × (rest ≡ false)
if_false true rest h = absurd (true≢false h)
if_false false rest h = (refl, h)

pub row_missing :
    (d e : String) (cs : List ℕ) (fs : List TopicFacts)
    → has_row e (update_domain d cs fs) ≡ false
    → (str_eq d e ≡ false) × (has_row e fs ≡ false)
unfolding update_domain new_facts next_facts
row_missing d e cs [] h = (if_false (str_eq d e) false h)
row_missing d e cs (f ∷ fs) h = elim (Bool-cases (str_eq f.domain_code d)) [
  | inl b ↦
      let g : (if str_eq f.domain_code e then true else has_row e fs) ≡ false =
        rw (b, update_domain) at h in
      let (x, y) = if_false (str_eq f.domain_code e) (has_row e fs) g in
      (subst (λ z. str_eq z e ≡ false) ((str_eq_iff f.domain_code d).0 b) x, g)
  | inr b ↦
      let g : (if str_eq f.domain_code e then true else has_row e (update_domain d cs fs)) ≡ false =
        rw (b, update_domain) at h in
      let (x, y) = if_false (str_eq f.domain_code e) (has_row e (update_domain d cs fs)) g in
      let (u, v) = row_missing d e cs fs y in (u, rw x v)
]
