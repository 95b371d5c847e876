-- ===== src/Gateway/Budget/Caps.antt =====
-- What the caps of budget.py promise, and what they do not.
use praxis_interview_os.Base.{
  ℕ, ◌+◌, ◌≤◌, ◌<◌, ◌≡◌, refl, ◌≢◌, ◌⊎◌, List, [], ◌∷◌, Option, none, some, String, arith, true,
  false, str_eq, ap, ◌∙◌, All,
}
use praxis_interview_os.Redis.{Redis, RedisKey, budget_daily, budget_session}
use praxis_interview_os.Gateway.World.{World, wait}
use praxis_interview_os.Gateway.Budget.{
  ConsentTables, check_consent, default_daily_cap, default_session_cap, truthy, day_ms,
  check_and_reserve, add_spend, add_session_spend, commit_spend,
}

-- A paid provider is allowed only with a database that answers, and then only to a user who has
-- paid before or has acknowledged paid providers.
consent_fails_closed :
    (c : ConsentTables) (user : String)
    → check_consent c user ≡ true
    → (c.connected ≡ true)
      × ((c.paid_before user ≡ some true)
          ⊎ ((c.paid_before user ≡ some false) × (c.acknowledged user ≡ some true)))
unfolding check_consent
consent_fails_closed c user h = ground arith

-- A call with what it is expected to cost and what it does cost.
pub record Request : Type 0 where
  pub session : Option String
  pub delay : ℕ
  pub estimated : ℕ
  pub actual : ℕ

module _ (r : Redis) where
  open r use {counter}

  counter-add_spend_self :
      (k : RedisKey) (n : ℕ) (w : World r)
      → counter w.now k (add_spend r k n w).store ≡ counter w.now k w.store + n
  unfolding add_spend
  counter-add_spend_self k n w = ground (
    arith,
    r.counter-expire_self w.now w.now k day_ms (r.incr w.now k n w.store),
    r.counter-incr_self w.now k n w.store,
  )

  counter-add_spend_ne :
      (k j : RedisKey) (n u : ℕ) (w : World r)
      → k ≢ j
      → counter u j (add_spend r k n w).store ≡ counter u j w.store
  unfolding add_spend
  counter-add_spend_ne k j n u w h = ground (
    arith,
    r.counter-expire_ne w.now u k j day_ms (r.incr w.now k n w.store) h,
    r.counter-incr_ne w.now u k j n w.store h,
  )

  -- The spending that the daily key shows.
  abbrev pub daily : String → String → World r → ℕ
  daily user today w = counter w.now (budget_daily user today) w.store

  add_session_spend-daily :
      (user today : String) (s : Option String) (n : ℕ) (w : World r)
      → (daily user today (add_session_spend r s n w) ≡ daily user today w)
  unfolding add_session_spend
  add_session_spend-daily user today none n w = refl
  add_session_spend-daily user today (some s) n w =
      counter-add_spend_ne (budget_session s) (budget_daily user today) n w.now w (λ e. cc)

  daily-commit_spend :
      (user today : String) (s : Option String) (n : ℕ) (w : World r)
      → daily user today (commit_spend r user s today n w) ≡ daily user today w + n
  unfolding commit_spend
  daily-commit_spend user today s n w =
      add_session_spend-daily user today (truthy s) n (add_spend r (budget_daily user today) n w)
      ∙ counter-add_spend_self (budget_daily user today) n w

  -- The spending that a session's key shows.
  abbrev pub session_spend : String → World r → ℕ
  session_spend s w = counter w.now (budget_session s) w.store

  session-commit_spend :
      (user today s : String) (n : ℕ) (w : World r)
      → str_eq s "" ≡ false
      → session_spend s (commit_spend r user (some s) today n w) ≡ session_spend s w + n
  unfolding commit_spend
  session-commit_spend user today s n w h = rw h (
      counter-add_spend_self (budget_session s) n (add_spend r (budget_daily user today) n w)
      ∙ ap (λ (k : ℕ). k + n)
          (counter-add_spend_ne (budget_daily user today) (budget_session s) n w.now w (λ e. cc)))

  -- After a check that passed, committing at most what was estimated keeps the day's spending and
  -- the session's spending within their caps.
  commit_within_caps :
      (user today s : String) (estimated actual : ℕ) (w : World r)
      → str_eq s "" ≡ false
      → check_and_reserve r user (some s) today estimated w ≡ none
      → actual ≤ estimated
      → let v = commit_spend r user (some s) today actual w in
        (daily user today v ≤ default_daily_cap) × (session_spend s v ≤ default_session_cap)
  unfolding check_and_reserve
  commit_within_caps user today s estimated actual w named passed h = (
    ground (arith, daily-commit_spend user today (some s) actual w),
    ground (arith, session-commit_spend user today s actual w named),
  )

  -- A passed check holds nothing back: two calls checked before either is committed both pass, and
  -- together they exceed the day's cap whenever twice the estimate does.
  reserve_holds_nothing :
      (user today : String) (estimated : ℕ) (w : World r)
      → daily user today w + estimated ≤ default_daily_cap
      → default_daily_cap < daily user today w + estimated + estimated
      → (check_and_reserve r user none today estimated w ≡ none)
        × (default_daily_cap
            < daily user today (
                commit_spend r user none today estimated
                  (commit_spend r user none today estimated w)))
  unfolding check_and_reserve
  reserve_holds_nothing user today estimated w fits over = (
    ground arith,
    ground (
      arith,
      daily-commit_spend user today none estimated w,
      daily-commit_spend user today none estimated (commit_spend r user none today estimated w),
    ),
  )

  -- One call after another: each waits, is checked, and commits if the check passed.
  abbrev pub serve : String → String → World r → Request → World r
  serve user today w q =
      let v = wait r q.delay w in
      elim (check_and_reserve r user q.session today q.estimated v) [
        | none ↦ commit_spend r user q.session today q.actual v
        | some _ ↦ v
      ]

  abbrev pub serve_all : String → String → World r → List Request → World r
  serve_all user today w [] = w
  serve_all user today w (q ∷ qs) = serve_all user today (serve user today w q) qs

  serve_within_cap :
      (user today : String) (w : World r) (q : Request)
      → q.actual ≤ q.estimated
      → daily user today w ≤ default_daily_cap
      → daily user today (serve user today w q) ≤ default_daily_cap
  unfolding check_and_reserve
  serve_within_cap user today w q honest h = ground (
    arith,
    daily-commit_spend user today q.session q.actual (wait r q.delay w),
    r.counter-le_later w.now (w.now + q.delay) (budget_daily user today) w.store,
  )

  -- While calls are served one after another and none costs more than its estimate, the day's
  -- spending never exceeds the cap, however many calls are made and in whatever sessions.
  pub serve_all_within_cap :
      (user today : String) (w : World r) (qs : List Request)
      → All (λ q. q.actual ≤ q.estimated) qs
      → daily user today w ≤ default_daily_cap
      → daily user today (serve_all user today w qs) ≤ default_daily_cap
  serve_all_within_cap user today w [] honest h = h
  serve_all_within_cap user today w (q ∷ qs) honest h =
      serve_all_within_cap user today (serve user today w q) qs honest.1
        (serve_within_cap user today w q honest.0 h)
