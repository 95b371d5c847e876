-- ===== src/Backend/Sm2/Schedule.antt =====
-- What a run of reviews does to a card.
use praxis_interview_os.Base.{ℕ, suc, ◌+◌, ◌*◌, ◌≤◌, ◌≡◌, List, [], ◌∷◌, none, some, arith}
use praxis_interview_os.Backend.Sm2.{Card, round_div, ease, next_interval, calculate_sm2}

-- Reviews one after another; a review that raises leaves the card.
abbrev pub review : Card → ℕ → Card
review c q = elim (calculate_sm2 q c) [ none ↦ c | some d ↦ d ]

abbrev pub review_all : Card → List ℕ → Card
review_all c [] = c
review_all c (q ∷ qs) = review_all (review c q) qs

-- A card that is not due before a day has passed, and whose intervals grow.
pub record IsSound (c : Card) : Type 0 where
  pub a_day : 100 ≤ c.interval
  pub grows : 1300 ≤ c.ease_factor

mul_le : (a b c : ℕ) → a ≤ b → c * a ≤ c * b
mul_le a b ℕ.zero h = omega arith
mul_le a b (suc c) h = omega (arith, mul_le a b c h)

-- Rounding misses by half a unit at most.
pub round_div_near :
    (x : ℕ) → (1000 * round_div x 1000 ≤ x + 500) × (x ≤ 1000 * round_div x 1000 + 500)
unfolding round_div
round_div_near x = ground arith

ease_floor : (q e : ℕ) → 1300 ≤ ease q e
unfolding ease
ease_floor q e = omega arith

interval_floor : (n i e : ℕ) → 100 ≤ i → 1300 ≤ e → 100 ≤ next_interval n i e
unfolding next_interval
interval_floor n i e day floor = ground (arith, round_div_near (i * e), mul_le 1300 e i floor)

review-IsSound : (c : Card) (q : ℕ) → IsSound c → IsSound (review c q)
unfolding calculate_sm2
review-IsSound c q s = record {
  a_day = ground (
    arith,
    s.a_day,
    interval_floor (c.repetitions + 1) c.interval (ease q c.ease_factor) s.a_day
        (ease_floor q c.ease_factor),
  );
  grows = ground (arith, s.grows, ease_floor q c.ease_factor);
}

-- Whatever grades a card is given, valid or not, it is never due again within a day, and its ease
-- factor never falls under 1.3.
pub reviews-IsSound : (c : Card) (qs : List ℕ) → IsSound c → IsSound (review_all c qs)
reviews-IsSound c [] s = s
reviews-IsSound c (q ∷ qs) s = reviews-IsSound (review c q) qs (review-IsSound c q s)

-- From the third success in a row on, the interval grows by a factor of at least 1.3, up to the
-- rounding to hundredths of a day.
success_grows :
    (c : Card) (q : ℕ)
    → q ≤ 5
    → 3 ≤ q
    → 2 ≤ c.repetitions
    → ((review c q).repetitions ≡ c.repetitions + 1)
      × (1300 * c.interval ≤ 1000 * (review c q).interval + 500)
unfolding calculate_sm2 next_interval
success_grows c q valid good long = ground (
  arith,
  round_div_near (c.interval * ease q c.ease_factor),
  mul_le 1300 (ease q c.ease_factor) c.interval (ease_floor q c.ease_factor),
)
