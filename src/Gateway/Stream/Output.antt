-- ===== src/Gateway/Stream/Output.antt =====
-- What a consumer of a stream receives, and what a stream costs.
use praxis_interview_os.Base.{
  ℕ, ◌≡◌, refl, ◌≢◌, true, not, ◌&&◌, List, [], ◌∷◌, ◌++◌, none, some, String, Bool-cases,
  Option-cases, inl, inr,
}
use praxis_interview_os.Redis.{
  Redis, RedisKey, breaker_failures, breaker_state, budget_daily, budget_session,
}
use praxis_interview_os.Gateway.World.{World, wait}
use praxis_interview_os.Gateway.Breaker.{breaker_for, can_execute, record_failure}
use praxis_interview_os.Gateway.Retries.{ProviderFailure}
use praxis_interview_os.Gateway.Retries.Frame.{
  Same, Same-refl, Same-trans, Same-wait, can_execute-Same, record_failure-Same,
  record_success-Same,
}
use praxis_interview_os.Gateway.Registry.{Candidate}
use praxis_interview_os.Gateway.Router.{
  RoutingContext, Failures, note_failure, Outside, paid_checks,
}
use praxis_interview_os.Gateway.Stream.{
  Delta, StreamEnd, ends, raises, is_cancelled, StreamRun, is_complete, Streamed, stream_failed,
  stream_ended, stream_candidate, stream_candidates,
}

module _ (r : Redis) (out : Outside (Unit {0})) (streams : Candidate → StreamRun)
    (ctx : RoutingContext) (j : RedisKey) (not_failures : (p c : String) → breaker_failures p c ≢ j)
    (not_state : (p c : String) → breaker_state p c ≢ j) where
  abbrev Rest : Type 0
  Rest = Failures → World r → Streamed r

  abbrev RestSame : Rest → Type 0
  RestSame rest = (fs : Failures) (v : World r) → Same r j v (rest fs v).world

  failed-Same :
      (c : Candidate) (fs : Failures) (ds : List Delta) (kind : ProviderFailure) (w : World r)
      (rest : Rest)
      → RestSame rest
      → Same r j w (stream_failed r out streams ctx c fs ds kind w rest).world
  unfolding stream_failed breaker_for
  failed-Same (p, config) fs ds kind w rest more =
      let b = breaker_for p.name "stream" in
      Same-trans r j
        (record_failure-Same r j b (not_failures p.name "stream") (not_state p.name "stream") w)
        (more (note_failure p.name (some kind) fs) (record_failure r b w))

  ended-Same :
      (c : Candidate) (fs : Failures) (s : StreamRun) (e : StreamEnd) (w : World r) (rest : Rest)
      → RestSame rest
      → Same r j w (stream_ended r out streams ctx c fs s e w rest).world
  unfolding stream_ended breaker_for
  ended-Same (p, config) fs s ends w rest more =
      elim (Bool-cases (not (is_complete s) && not s.token_cancelled)) [
        | inl e ↦ rw e (failed-Same (p, config) fs s.deltas _ w rest more)
        | inr e ↦ rw e (
            record_success-Same r j (breaker_for p.name "stream") (not_failures p.name "stream")
              (not_state p.name "stream") w)
      ]
  ended-Same c fs s (raises kind) w rest more = failed-Same c fs s.deltas kind w rest more
  ended-Same c fs s is_cancelled w rest more = Same-refl r j w

  candidate-Same :
      (c : Candidate) (fs : Failures) (w : World r) (rest : Rest)
      → RestSame rest
      → Same r j w (stream_candidate r out streams ctx c fs w rest).world
  unfolding stream_candidate breaker_for
  candidate-Same (p, config) fs w rest more =
      let b = breaker_for p.name "stream" in
      let s = streams (p, config) in
      let v = (can_execute r b w).0 in
      let asked =
        can_execute-Same r j b (not_failures p.name "stream") (not_state p.name "stream") w in
      elim (Bool-cases (can_execute r b w).1) [
        | inl go ↦ rw go (
            Same-trans r j asked (
              Same-trans r j (Same-wait r j s.took v)
                (ended-Same (p, config) fs s s.ending (wait r s.took v) rest more)))
        | inr no_go ↦ rw no_go (Same-trans r j asked (more fs v))
      ]

  candidates-Same :
      (cs : List Candidate) (fs : Failures) (w : World r)
      → Same r j w (stream_candidates r out streams ctx cs fs w).world
  unfolding stream_candidates
  candidates-Same [] fs w = Same-refl r j w
  candidates-Same (c ∷ cs) fs w = elim (Option-cases (paid_checks r out ctx "stream" c w)) [
    | inl e ↦ rw (e, stream_candidates) (candidate-Same c fs w _ (λ gs v. candidates-Same cs gs v))
    | inr (x, e) ↦ rw (e, stream_candidates) (Same-refl r j w)
  ]

-- A streamed request, paid candidates included and however it ends, never adds to the spending of
-- the day or of any session: the budget is checked and nothing is committed.
stream_commits_nothing :
    (r : Redis) (out : Outside (Unit {0})) (streams : Candidate → StreamRun) (ctx : RoutingContext)
    (cs : List Candidate) (w : World r) (u : ℕ) (user today s : String)
    → let v = (stream_candidates r out streams ctx cs [] w).world in
      (r.counter u (budget_daily user today) v.store
        ≡ r.counter u (budget_daily user today) w.store)
      × (r.counter u (budget_session s) v.store ≡ r.counter u (budget_session s) w.store)
stream_commits_nothing r out streams ctx cs w u user today s = (
  (candidates-Same r out streams ctx (budget_daily user today) (λ p c e. cc) (λ p c e. cc) cs []
        w).counts
      u,
  (candidates-Same r out streams ctx (budget_session s) (λ p c e. cc) (λ p c e. cc) cs [] w).counts
      u,
)

module _ (r : Redis) (out : Outside (Unit {0})) (streams : Candidate → StreamRun)
    (ctx : RoutingContext) where
  -- A provider that is let through and whose stream raises after some deltas does not take them
  -- back: the consumer receives them, and behind them all that the remaining candidates stream.
  fallback_repeats :
      (c : Candidate) (cs : List Candidate) (fs : Failures) (kind : ProviderFailure) (w : World r)
      → paid_checks r out ctx "stream" c w ≡ none
      → (can_execute r (breaker_for c.0.name "stream") w).1 ≡ true
      → (streams c).ending ≡ raises kind
      → let v =
          record_failure r
            (breaker_for c.0.name "stream")
            (wait r (streams c).took (can_execute r (breaker_for c.0.name "stream") w).0) in
        let rest =
          stream_candidates r out streams ctx cs (note_failure c.0.name (some kind) fs) v in
        let all = stream_candidates r out streams ctx (c ∷ cs) fs w in
        (all.received ≡ (streams c).deltas ++ rest.received) × (all.result ≡ rest.result)
  unfolding stream_candidates
  fallback_repeats c cs fs kind w unpaid go fails = (
    rw (unpaid, stream_candidates) (rw go (rw (fails, stream_ended) refl)),
    rw (unpaid, stream_candidates) (rw go (rw (fails, stream_ended) refl)),
  )
