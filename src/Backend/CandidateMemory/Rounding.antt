-- ===== src/Backend/CandidateMemory/Rounding.antt =====
-- How far a running average that is rounded after each session may be from the mean.
use native.Mathlib.Nat.{
  mul_comm, mul_assoc, mul-add, div-mul-le_self, lt-div-mul-add, le_of_mul-le-mul_left, mul-le-mul,
  suc-mul,
}
use praxis_interview_os.Base.{ℕ, suc, ◌+◌, ◌*◌, ◌/◌, ◌≤◌, ◌<◌, ◌≡◌, sym, ap, subst, ◌∙◌, arith}
use praxis_interview_os.Backend.CandidateMemory.{to_column, running_mean}

-- An average `a` of ten-thousandths is at most `k` halves of one away from the mean of `n` scores in
-- thousandths with the sum `s`.
abbrev pub IsNear : ℕ → ℕ → ℕ → ℕ → Type 0
IsNear k a n s = (2 * (a * n) ≤ 20 * s + k * n) × (20 * s ≤ 2 * (a * n) + k * n)

pub to_column-IsNear : (s n : ℕ) → 1 ≤ n → IsNear 1 (to_column (s, n)) n s
unfolding to_column
to_column-IsNear s n pos =
    let a = (20 * s + n) / (2 * n) in
    let low : a * (2 * n) ≤ 20 * s + n = div-mul-le_self (20 * s + n) (2 * n) in
    let high : 20 * s + n < a * (2 * n) + 2 * n = lt-div-mul-add (omega arith) in
    let double : a * (2 * n) ≡ 2 * (a * n) =
      sym (mul_assoc a 2 n) ∙ ap (λ x. x * n) (mul_comm a 2) ∙ mul_assoc 2 a n in
    (omega (arith, low, double), omega (arith, high, double))

-- The mean of a running average and a session's scores, without the fractions.
running_part : (p q s l : ℕ) → p * q * l + 10 * (s * l) ≡ l * (p * q + 10 * s)
running_part p q s l = sym (
    mul-add l (p * q) (10 * s)
    ∙ ap (λ x. x + l * (10 * s)) (mul_comm l (p * q))
    ∙ ap (λ x. p * q * l + x) (mul_comm l (10 * s) ∙ mul_assoc 10 s l))

divided :
    (a l t m : ℕ)
    → 1 ≤ l
    → IsNear 1 a (10 * l * t) (l * m)
    → (2 * (a * t) ≤ 2 * m + t) × (2 * m ≤ 2 * (a * t) + t)
divided a l t m pos (low, high) =
    let d : 10 * l * t ≡ 10 * (l * t) = mul_assoc 10 l t in
    let e : a * (10 * l * t) ≡ 10 * (l * (a * t)) =
      ap (λ x. a * x) d
      ∙ sym (mul_assoc a 10 (l * t))
      ∙ ap (λ x. x * (l * t)) (mul_comm a 10)
      ∙ mul_assoc 10 a (l * t)
      ∙ ap (λ x. 10 * x)
          (sym (mul_assoc a l t) ∙ ap (λ x. x * t) (mul_comm a l) ∙ mul_assoc l a t) in
    let two_at : l * (2 * (a * t)) ≡ 2 * (l * (a * t)) =
      sym (mul_assoc l 2 (a * t)) ∙ ap (λ x. x * (a * t)) (mul_comm l 2) ∙ mul_assoc 2 l (a * t) in
    let two_m : l * (2 * m) ≡ 2 * (l * m) =
      sym (mul_assoc l 2 m) ∙ ap (λ x. x * m) (mul_comm l 2) ∙ mul_assoc 2 l m in
    let left = mul-add l (2 * m) t in
    let right = mul-add l (2 * (a * t)) t in
    (
      le_of_mul-le-mul_left {k = l} (omega (arith, low, d, e, two_at, two_m, left)) (omega arith),
      le_of_mul-le-mul_left {k = l} (omega (arith, high, d, e, two_at, two_m, right)) (omega arith),
    )

the_pos : (q l : ℕ) → 1 ≤ l → 1 ≤ q + l
the_pos q l h = omega arith

-- One session adds at most one half of a ten-thousandth.
pub running_mean-IsNear :
    (k p q t s l : ℕ)
    → 1 ≤ l
    → IsNear k p q t
    → IsNear (suc k) (to_column (running_mean p q (s, l) l)) (q + l) (t + s)
unfolding running_mean
running_mean-IsNear k p q t s l pos (low, high) =
    let n = p * q * l + 10 * (s * l) in
    let a = to_column (n, 10 * l * (q + l)) in
    let pos_d : 1 ≤ 10 * l * (q + l) =
      omega (arith, mul-le-mul pos (the_pos q l pos), mul_assoc 10 l (q + l)) in
    let near = to_column-IsNear n (10 * l * (q + l)) pos_d in
    let (x, y) =
      divided a l (q + l) (p * q + 10 * s) pos
        (subst (λ z. IsNear 1 a (10 * l * (q + l)) z) (running_part p q s l) near) in
    let more : k * (q + l) ≡ k * q + k * l = mul-add k q l in
    let one_more : suc k * (q + l) ≡ k * (q + l) + (q + l) = suc-mul k (q + l) in
    (omega (arith, x, low, more, one_more), omega (arith, y, high, more, one_more))
