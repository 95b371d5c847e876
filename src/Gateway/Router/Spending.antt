-- ===== src/Gateway/Router/Spending.antt =====
-- What a request may do to the budget counters.
use praxis_interview_os.Base.{
  ℕ, ◌≡◌, refl, ◌≢◌, true, List, [], ◌∷◌, Option, none, some, String, arith, All, Bool-cases, inl,
  inr,
}
use praxis_interview_os.Redis.{
  Redis, RedisKey, breaker_failures, breaker_state, budget_daily, budget_session,
}
use praxis_interview_os.Gateway.World.{World, write_usage}
use praxis_interview_os.Gateway.Breaker.{breaker_for, can_execute}
use praxis_interview_os.Gateway.Retries.{
  RetryResult, done, exhausted, cancelled, returned_none, out_of_fuel,
}
use praxis_interview_os.Gateway.Retries.Frame.{
  Same, Same-refl, Same-trans, can_execute-Same, with_retries-Same,
}
use praxis_interview_os.Gateway.Registry.{Candidate, Providers, Aliases}
use praxis_interview_os.Gateway.Router.Selected.{IsSuitable, select-IsSuitable}
use praxis_interview_os.Gateway.Router.{
  RoutingContext, select, RouteResult, Failures, note_failure, Outside, paid_checks, log_usage,
  conclude, try_candidate, route_candidates, route,
}

-- A key that no breaker uses.
abbrev IsNoBreakerKey : RedisKey → Type 0
IsNoBreakerKey j =
    ((p c : String) → breaker_failures p c ≢ j) × ((p c : String) → breaker_state p c ≢ j)

abbrev pub IsFree : Candidate → Type 0
IsFree c = c.0.capabilities.is_free_tier ≡ true

module _ (r : Redis) {A : Type 0} (out : Outside A) (ctx : RoutingContext) (method : String) where
  pub paid_checks-free :
      (c : Candidate) (w : World r) → IsFree c → paid_checks r out ctx method c w ≡ none
  unfolding paid_checks
  paid_checks-free (p, config) w h = rw h

module _ (r : Redis) {A : Type 0} (out : Outside A) (ctx : RoutingContext) (method : String)
    (j : RedisKey) (apart : IsNoBreakerKey j) where
  log_usage-Same :
      (c : Candidate) (a : A) (last : Option String) (w : World r)
      → IsFree c
      → Same r j w (log_usage r out ctx method c a last w)
  unfolding log_usage write_usage
  log_usage-Same (p, config) a last w h = rw h (elim (Bool-cases out.user_is_uuid) [
    | inl e ↦ rw e (record { later = omega arith; values = λ u. refl; counts = λ u. refl })
    | inr e ↦ rw e (Same-refl r j w)
  ])

  abbrev Rest : Type 0
  Rest = Failures → Option String → World r → World r × RouteResult A

  conclude-Same :
      (c : Candidate) (fs : Failures) (last : Option String) (q : World r × RetryResult A)
      (rest : Rest)
      → IsFree c
      → ((gs : Failures) (l : Option String) (v : World r) → Same r j v (rest gs l v).0)
      → Same r j q.0 (conclude r out ctx method c fs last q rest).0
  unfolding conclude
  conclude-Same c fs last (w, done a) rest h more = log_usage-Same c a last w h
  conclude-Same (p, config) fs last (w, exhausted cause) rest h more =
      more (note_failure p.name cause fs) (some p.name) w
  conclude-Same c fs last (w, cancelled) rest h more = Same-refl r j w
  conclude-Same c fs last (w, returned_none) rest h more = Same-refl r j w
  conclude-Same c fs last (w, out_of_fuel) rest h more = Same-refl r j w

  try-Same :
      (c : Candidate) (fs : Failures) (last : Option String) (w : World r) (rest : Rest)
      → IsFree c
      → ((gs : Failures) (l : Option String) (v : World r) → Same r j v (rest gs l v).0)
      → Same r j w (try_candidate r out ctx method c fs last w rest).0
  unfolding try_candidate breaker_for
  try-Same (p, config) fs last w rest h more =
      let b = breaker_for p.name method in
      let asked = can_execute-Same r j b (apart.0 p.name method) (apart.1 p.name method) w in
      let v = (can_execute r b w).0 in
      elim (Bool-cases (can_execute r b w).1) [
        | inl go ↦ rw go (
            Same-trans r j asked (
              Same-trans r j
                (with_retries-Same r j b (apart.0 p.name method) (apart.1 p.name method)
                  (out.calls (p, config)) 2 200 v)
                (conclude-Same (p, config) fs last _ rest h more)))
        | inr no_go ↦ rw no_go (Same-trans r j asked (more fs last v))
      ]

  candidates-Same :
      (cs : List Candidate) (fs : Failures) (last : Option String) (w : World r)
      → All IsFree cs
      → Same r j w (route_candidates r out ctx method cs fs last w).0
  unfolding route_candidates
  candidates-Same [] fs last w h = Same-refl r j w
  candidates-Same (c ∷ cs) fs last w h =
      rw (paid_checks-free r out ctx method c w h.0, route_candidates)
        (try-Same c fs last w _ h.0 (λ gs l v. candidates-Same cs gs l v h.1))

All-free :
    (providers : Providers) (ctx : RoutingContext) (cs : List Candidate)
    → ctx.zero_spend_mode ≡ true
    → All (IsSuitable providers ctx) cs
    → All (λ c. c.0.capabilities.is_free_tier ≡ true) cs
All-free providers ctx [] z h = tt
All-free providers ctx (c ∷ cs) z h =
    (ground (arith, h.0.free_if_asked), All-free providers ctx cs z h.1)

-- In zero-spend mode a request, however it ends and however often it falls back, leaves the day's
-- and every session's spending as it was.
pub zero_spend_spends_nothing :
    (r : Redis) {A : Type 0} (out : Outside A) (ctx : RoutingContext) (method task : String)
    (aliases : Aliases) (providers : Providers) (w : World r) (u : ℕ) (user today s : String)
    → ctx.zero_spend_mode ≡ true
    → let v = (route r out ctx method aliases task providers w).0 in
      (r.counter u (budget_daily user today) v.store
        ≡ r.counter u (budget_daily user today) w.store)
      × (r.counter u (budget_session s) v.store ≡ r.counter u (budget_session s) w.store)
unfolding route
zero_spend_spends_nothing r out ctx method task aliases providers w u user today s z =
    let cs = select aliases task providers ctx in
    let free = All-free providers ctx cs z (select-IsSuitable aliases task providers ctx) in
    (
      (candidates-Same r out ctx method (budget_daily user today) ((λ p c e. cc), (λ p c e. cc)) cs
            [] none w free).counts
          u,
      (candidates-Same r out ctx method (budget_session s) ((λ p c e. cc), (λ p c e. cc)) cs [] none
            w free).counts
          u,
    )
