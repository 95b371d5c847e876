-- ===== src/Backend/CandidateMemory/Groups.antt =====
-- The scores of a session by domain, and the rows that they are added to.
use mathlib.Core.List.{append_assoc, append-nil}
use praxis_interview_os.Base.{
  ℕ, ◌≤◌, arith, length, length-append, ◌≡◌, refl, sym, ap, subst, ◌∙◌, true, false, List, [], ◌∷◌,
  ◌++◌, String, str_eq, str_eq_iff, inl, inr, Bool-cases, All, if◌then◌else◌,
}
use praxis_interview_os.Backend.CandidateMemory.{
  Turn, domain_of, TopicFacts, add_score, by_domain, update_domain, update_domains,
}
use praxis_interview_os.Backend.CandidateMemory.Inferences.{HasDomains}
use praxis_interview_os.Backend.CandidateMemory.Rows.{
  History, AllExact, plus_at, has_row, update_domain-HasDomains, update_domain-AllExact,
  row_missing, str_ne_symm,
}

-- The scores that a session's groups add.
abbrev pub hist_all : List (String × List ℕ) → History → History
hist_all [] h = h
hist_all ((d, cs) ∷ gs) h = hist_all gs (plus_at d cs h)

abbrev pub IsComplete : History → List TopicFacts → Type 0
IsComplete h fs = HasDomains fs × AllExact h fs × ((e : String) → has_row e fs ≡ false → h e ≡ [])

-- Each group has a score.
abbrev pub HaveScores : List (String × List ℕ) → Type 0
HaveScores gs = All (λ (g : String × List ℕ). 1 ≤ length g.1) gs

add_score-HaveScores :
    (d : String) (c : ℕ) (gs : List (String × List ℕ))
    → HaveScores gs
    → HaveScores (add_score d c gs)
unfolding add_score
add_score-HaveScores d c [] h = (omega arith, tt)
add_score-HaveScores d c ((x, cs) ∷ gs) h = elim (Bool-cases (str_eq x d)) [
  | inl b ↦ rw (b, add_score) (omega (arith, length-append cs (c ∷ [])), h.1)
  | inr b ↦ rw (b, add_score) (h.0, add_score-HaveScores d c gs h.1)
]

pub by_domain-HaveScores :
    (ts : List Turn) (gs : List (String × List ℕ)) → HaveScores gs → HaveScores (by_domain ts gs)
unfolding by_domain
by_domain-HaveScores [] gs h = h
by_domain-HaveScores (t ∷ ts) gs h =
    by_domain-HaveScores ts (add_score (domain_of t) t.correctness gs)
      (add_score-HaveScores (domain_of t) t.correctness gs h)

pub update_domains-IsComplete :
    (gs : List (String × List ℕ)) (h : History) (fs : List TopicFacts)
    → HaveScores gs
    → IsComplete h fs
    → IsComplete (hist_all gs h) (update_domains gs fs)
unfolding update_domains
update_domains-IsComplete [] h fs some_ c = c
update_domains-IsComplete ((d, cs) ∷ gs) h fs some_ (o, e, new) =
    update_domains-IsComplete gs (plus_at d cs h) (update_domain d cs fs) some_.1 (
      update_domain-HasDomains d cs fs o,
      update_domain-AllExact d cs h fs some_.0 o e (new d),
      λ x g. let (a, b) = row_missing d x cs fs g in rw (str_ne_symm d x a) (new x b),
    )

abbrev NotIn : String → List (String × List ℕ) → Type 0
NotIn d gs = All (λ (g : String × List ℕ). str_eq g.0 d ≡ false) gs

abbrev AreDistinct : List (String × List ℕ) → Type 0
AreDistinct [] = Unit
AreDistinct ((d, cs) ∷ gs) = NotIn d gs × AreDistinct gs

hist_other :
    (gs : List (String × List ℕ)) (h : History) (e : String) → NotIn e gs → hist_all gs h e ≡ h e
hist_other [] h e n = refl
hist_other ((d, cs) ∷ gs) h e n =
    hist_other gs (plus_at d cs h) e n.1 ∙ (rw (str_ne_symm d e n.0) refl)

-- The scores of a domain in a session.
abbrev pub scores_of : String → List Turn → List ℕ
scores_of d [] = []
scores_of d (t ∷ ts) =
    let rest = scores_of d ts in if str_eq d (domain_of t) then t.correctness ∷ rest else rest

hist_cong :
    (gs : List (String × List ℕ)) (h k : History) (e : String)
    → h e ≡ k e
    → hist_all gs h e ≡ hist_all gs k e
hist_cong [] h k e q = q
hist_cong ((d, cs) ∷ gs) h k e q =
    hist_cong gs (plus_at d cs h) (plus_at d cs k) e (ap (λ x. if str_eq e d then x ++ cs else x) q)

add_score-NotIn :
    (d e : String) (c : ℕ) (gs : List (String × List ℕ))
    → str_eq d e ≡ false
    → NotIn e gs
    → NotIn e (add_score d c gs)
unfolding add_score
add_score-NotIn d e c [] ne h = (ne, tt)
add_score-NotIn d e c ((x, cs) ∷ gs) ne h = elim (Bool-cases (str_eq x d)) [
  | inl b ↦ rw (b, add_score) h
  | inr b ↦ rw (b, add_score) (h.0, add_score-NotIn d e c gs ne h.1)
]

add_score-AreDistinct :
    (d : String) (c : ℕ) (gs : List (String × List ℕ))
    → AreDistinct gs
    → AreDistinct (add_score d c gs)
unfolding add_score
add_score-AreDistinct d c [] h = (tt, tt)
add_score-AreDistinct d c ((x, cs) ∷ gs) h = elim (Bool-cases (str_eq x d)) [
  | inl b ↦ rw (b, add_score) h
  | inr b ↦
      rw (b, add_score)
        (add_score-NotIn d x c gs (str_ne_symm x d b) h.0, add_score-AreDistinct d c gs h.1)
]

-- A score is added behind those of its domain.
hist_add :
    (d : String) (c : ℕ) (gs : List (String × List ℕ)) (h : History) (e : String)
    → AreDistinct gs
    → hist_all (add_score d c gs) h e
      ≡ (if str_eq e d then hist_all gs h e ++ c ∷ [] else hist_all gs h e)
unfolding add_score
hist_add d c [] h e dis = refl
hist_add d c ((x, cs) ∷ gs) h e dis = elim (Bool-cases (str_eq x d)) [
  | inr b ↦ rw (b, add_score) (hist_add d c gs (plus_at x cs h) e dis.1)
  | inl b ↦
      let same = (str_eq_iff x d).0 b in
      elim (Bool-cases (str_eq e d)) [
        | inr a ↦
            let apart : str_eq e x ≡ false = subst (λ z. str_eq e z ≡ false) (sym same) a in
            rw (b, add_score)
              (rw a (hist_cong gs (plus_at x (cs ++ c ∷ []) h) (plus_at x cs h) e (rw apart refl)))
        | inl a ↦
            let equal : str_eq e x ≡ true = subst (λ z. str_eq e z ≡ true) (sym same) a in
            let gone : NotIn e gs =
              subst (λ z. NotIn z gs) (sym ((str_eq_iff e x).0 equal)) dis.0 in
            let left : hist_all gs (plus_at x (cs ++ c ∷ []) h) e ≡ h e ++ (cs ++ c ∷ []) =
              hist_other gs (plus_at x (cs ++ c ∷ []) h) e gone ∙ (rw equal refl) in
            let right : hist_all gs (plus_at x cs h) e ≡ h e ++ cs =
              hist_other gs (plus_at x cs h) e gone ∙ (rw equal refl) in
            rw (b, add_score)
              (rw a
                (left ∙ sym (append_assoc (h e) cs (c ∷ [])) ∙ ap (λ z. z ++ c ∷ []) (sym right)))
      ]
]

-- The groups of a session hold the scores of each domain.
pub by_domain-scores :
    (ts : List Turn) (gs : List (String × List ℕ)) (h : History) (e : String)
    → AreDistinct gs
    → hist_all (by_domain ts gs) h e ≡ hist_all gs h e ++ scores_of e ts
unfolding by_domain
by_domain-scores [] gs h e dis = sym (append-nil (hist_all gs h e))
by_domain-scores (t ∷ ts) gs h e dis =
    let d = domain_of t in
    let c = t.correctness in
    by_domain-scores ts (add_score d c gs) h e (add_score-AreDistinct d c gs dis)
    ∙ ap (λ z. z ++ scores_of e ts) (hist_add d c gs h e dis)
    ∙ (elim (Bool-cases (str_eq e d)) [
      | inl a ↦ rw a (append_assoc (hist_all gs h e) (c ∷ []) (scores_of e ts))
      | inr a ↦ rw a refl
    ])
