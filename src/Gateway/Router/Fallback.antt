-- ===== src/Gateway/Router/Fallback.antt =====
-- When a request falls back to another provider, and when it does not.
use praxis_interview_os.Base.{
  ℕ, zero, suc, ◌+◌, ◌≤◌, ◌≡◌, ◌≢◌, refl, true, false, List, [], ◌∷◌, ◌++◌, Option, none, some,
  String, arith, le→leb, All, Bool-cases, inl, inr, ltb, ◌∙◌,
}
use native.Mathlib.Numerals.{add-one}
use praxis_interview_os.Redis.{Redis, breaker_state}
use praxis_interview_os.Gateway.World.{World, wait}
use praxis_interview_os.Gateway.Breaker.{
  Breaker, key_state, breaker_for, can_execute, record_failure,
}
use praxis_interview_os.Gateway.Breaker.States.{can_execute_missing}
use praxis_interview_os.Gateway.Budget.{check_consent}
use praxis_interview_os.Gateway.Retries.{
  ProviderFailure, CallResult, success, failure, RetryResult, done, exhausted, cancelled,
  returned_none, out_of_fuel, Surroundings, attempt, on_failure, is_retryable, backoff_delay,
  retry_loop, with_retries,
}
use praxis_interview_os.Gateway.Retries.Outcomes.{with_retries-Succeeds}
use praxis_interview_os.Gateway.Retries.Frame.{
  Same, Same-trans, can_execute-Same, with_retries-Same,
}
use praxis_interview_os.Gateway.Registry.{Candidate}
use praxis_interview_os.Gateway.Router.Spending.{paid_checks-free}
use praxis_interview_os.Gateway.Router.{
  RoutingContext, RouteResult, routed, consent_required, Failures, Outside, paid_checks, conclude,
  try_candidate, route_candidates,
}

abbrev IsExhausted : {A : Type 0} → RetryResult A → Type 0
IsExhausted (exhausted cause) = Unit
IsExhausted _ = ⊥

-- Calls that all fail, while nobody cancels.
pub record AlwaysFails {A : Type 0} (env : Surroundings A) : Type 0 where
  pub kind : ℕ → ProviderFailure
  pub fails : (i : ℕ) → env.call i ≡ failure (kind i)
  pub never_cancelled : (i : ℕ) → env.is_cancelled i ≡ false
  pub never_cancelled_in_delay : (i : ℕ) → env.cancelled_in_delay i ≡ false

module _ (r : Redis) {A : Type 0} (env : Surroundings A) (b : Breaker)
    (max_retries base_delay_ms : ℕ) (down : AlwaysFails env) where
  on_failure-IsExhausted :
      (k : ℕ) (kind : ProviderFailure) (w : World r) (rest : World r → World r × RetryResult A)
      → k ≤ max_retries
      → ((u : World r) → suc k ≤ max_retries → IsExhausted (rest u).1)
      → IsExhausted (on_failure r env b max_retries base_delay_ms k kind w rest).1
  unfolding on_failure
  on_failure-IsExhausted k kind w rest h more = elim (Bool-cases (is_retryable kind)) [
    | inr never ↦ rw never tt
    | inl again ↦ elim (Bool-cases (ltb max_retries (k + 1))) [
      | inl last ↦ rw (again, last) tt
      | inr left ↦
          rw (again, left, down.never_cancelled_in_delay k)
            (more
              (wait r (backoff_delay base_delay_ms (k + 1) (env.jitter k)) (record_failure r b w))
              (ground arith))
    ]
  ]

  attempt-IsExhausted :
      (k : ℕ) (res : CallResult A) (kind : ProviderFailure) (w : World r)
      (rest : World r → World r × RetryResult A)
      → res ≡ failure kind
      → k ≤ max_retries
      → ((u : World r) → suc k ≤ max_retries → IsExhausted (rest u).1)
      → IsExhausted (attempt r env b max_retries base_delay_ms k res w rest).1
  unfolding attempt
  attempt-IsExhausted k res kind w rest e h more =
      rw (e, attempt) (on_failure-IsExhausted k kind w rest h more)

  loop-IsExhausted :
      (fuel k : ℕ) (w : World r)
      → k ≤ max_retries
      → max_retries + 1 ≤ fuel + k
      → IsExhausted (retry_loop r env b max_retries base_delay_ms fuel k w).1
  unfolding retry_loop
  loop-IsExhausted zero k w h enough = absurd (omega arith)
  loop-IsExhausted (suc fuel) k w h enough =
      rw (le→leb k max_retries h, down.never_cancelled k, add-one k)
        (attempt-IsExhausted k (env.call k) (down.kind k) (wait r (env.took k) w)
          (λ u. retry_loop r env b max_retries base_delay_ms fuel (suc k) u) (down.fails k) h
          (λ u more. loop-IsExhausted fuel (suc k) u more (omega arith)))

  with_retries-IsExhausted :
      (w : World r) → IsExhausted (with_retries r env b max_retries base_delay_ms w).1
  unfolding with_retries
  with_retries-IsExhausted w = elim (Bool-cases (can_execute r b w).1) [
    | inl go ↦
        rw go
          (loop-IsExhausted (max_retries + 2) 0 (can_execute r b w).0 (omega arith) (omega arith))
    | inr no_go ↦ rw no_go tt
  ]

module _ (r : Redis) {A : Type 0} (out : Outside A) (ctx : RoutingContext) (method : String)
    (d : Candidate) where
  -- A free provider under another name, whose calls all fail.
  pub record IsDown (c : Candidate) : Type 0 where
    pub free : c.0.capabilities.is_free_tier ≡ true
    pub other_name : c.0.name ≢ d.0.name
    pub down : AlwaysFails (out.calls c)

  -- A free provider whose calls all fail.
  pub record IsFailing (c : Candidate) : Type 0 where
    pub free : c.0.capabilities.is_free_tier ≡ true
    pub down : AlwaysFails (out.calls c)

  -- A free provider whose breaker is as new, and whose first call succeeds.
  pub record IsUp (a : A) (w : World r) : Type 0 where
    pub free : d.0.capabilities.is_free_tier ≡ true
    pub breaker_new : r.get w.now (breaker_state d.0.name method) w.store ≡ none
    pub succeeds : (out.calls d).call 0 ≡ success a
    pub not_cancelled : (i : ℕ) → (out.calls d).is_cancelled i ≡ false
    pub not_cancelled_in_delay : (i : ℕ) → (out.calls d).cancelled_in_delay i ≡ false

  IsUp-later :
      (a : A) (w v : World r) → Same r (breaker_state d.0.name method) w v → IsUp a w → IsUp a v
  IsUp-later a w v same up = record {
    free = up.free;
    breaker_new =
        same.values v.now
        ∙ r.get-none_later w.now v.now (breaker_state d.0.name method) w.store same.later
            up.breaker_new;
    succeeds = up.succeeds;
    not_cancelled = up.not_cancelled;
    not_cancelled_in_delay = up.not_cancelled_in_delay;
  }

  abbrev Rest : Type 0
  Rest = Failures → Option String → World r → World r × RouteResult A

  conclude_exhausted :
      (c : Candidate) (fs : Failures) (last : Option String) (q : World r × RetryResult A)
      (rest : Rest) (res : RouteResult A)
      → IsExhausted q.1
      → ((gs : Failures) (l : Option String) → (rest gs l q.0).1 ≡ res)
      → (conclude r out ctx method c fs last q rest).1 ≡ res
  unfolding conclude
  conclude_exhausted c fs last (w, done a) rest res h more = absurd h
  conclude_exhausted (p, config) fs last (w, exhausted cause) rest res h more = more _ _
  conclude_exhausted c fs last (w, cancelled) rest res h more = absurd h
  conclude_exhausted c fs last (w, returned_none) rest res h more = absurd h
  conclude_exhausted c fs last (w, out_of_fuel) rest res h more = absurd h

  conclude_done :
      (c : Candidate) (fs : Failures) (last : Option String) (q : World r × RetryResult A)
      (rest : Rest) (a : A)
      → q.1 ≡ done a
      → (conclude r out ctx method c fs last q rest).1 ≡ routed c a
  unfolding conclude
  conclude_done c fs last (w, done x) rest a h = cc
  conclude_done (p, config) fs last (w, exhausted cause) rest a h = cc
  conclude_done c fs last (w, cancelled) rest a h = cc
  conclude_done c fs last (w, returned_none) rest a h = cc
  conclude_done c fs last (w, out_of_fuel) rest a h = cc

  try_down :
      (c : Candidate) (fs : Failures) (last : Option String) (a : A) (w : World r) (rest : Rest)
      → IsDown c
      → IsUp a w
      → ((gs : Failures) (l : Option String) (v : World r)
          → IsUp a v
          → (rest gs l v).1 ≡ routed d a)
      → (try_candidate r out ctx method c fs last w rest).1 ≡ routed d a
  unfolding try_candidate breaker_for
  try_down (p, config) fs last a w rest h up more =
      let b = breaker_for p.name method in
      let j = breaker_state d.0.name method in
      let ne : key_state b ≢ j = λ e. h.other_name (ground arith) in
      let asked = can_execute-Same r j b (λ e. cc) ne w in
      let v = (can_execute r b w).0 in
      elim (Bool-cases (can_execute r b w).1) [
        | inl go ↦ rw go (
            conclude_exhausted (p, config) fs last
              (with_retries r (out.calls (p, config)) b 2 200 v) rest (routed d a)
              (with_retries-IsExhausted r (out.calls (p, config)) b 2 200 h.down v)
              (λ gs l. more gs l _ (
                IsUp-later a w _
                  (Same-trans r j asked
                    (with_retries-Same r j b (λ e. cc) ne (out.calls (p, config)) 2 200 v))
                  up)))
        | inr no_go ↦ rw no_go (more fs last v (IsUp-later a w v asked up))
      ]

  try_up :
      (fs : Failures) (last : Option String) (a : A) (w : World r) (rest : Rest)
      → IsUp a w
      → (try_candidate r out ctx method d fs last w rest).1 ≡ routed d a
  unfolding try_candidate breaker_for
  try_up fs last a w rest up =
      let b = breaker_for d.0.name method in
      let allowed : can_execute r b w ≡ (w, true) = can_execute_missing r b w up.breaker_new in
      rw allowed (
        conclude_done d fs last (with_retries r (out.calls d) b 2 200 w) rest a (
          with_retries-Succeeds r (out.calls d) b 2 200 0 a w (rw allowed) (record {
            in_order = omega arith;
            within = omega arith;
            result = up.succeeds;
            earlier = λ i lo hi. absurd (omega arith);
            never_cancelled = up.not_cancelled;
            never_cancelled_in_delay = up.not_cancelled_in_delay;
          })))

  -- Free providers whose calls all fail never keep a request from a later one that works: however
  -- many of them come first, in whatever state their breakers are, the request is served by the
  -- first free provider under another name whose breaker is as new and whose call succeeds.
  pub falls_back :
      (cs ds : List Candidate) (fs : Failures) (last : Option String) (a : A) (w : World r)
      → All IsDown cs
      → IsUp a w
      → (route_candidates r out ctx method (cs ++ d ∷ ds) fs last w).1 ≡ routed d a
  unfolding route_candidates
  falls_back [] ds fs last a w h up =
      rw (paid_checks-free r out ctx method d w up.free, route_candidates) (try_up fs last a w _ up)
  falls_back (c ∷ cs) ds fs last a w h up =
      rw (paid_checks-free r out ctx method c w h.0.free, route_candidates)
        (try_down c fs last a w _ h.0 up (λ gs l v up'. falls_back cs ds gs l a v h.1 up'))

  paid_checks-refused :
      (c : Candidate) (w : World r)
      → c.0.capabilities.is_free_tier ≡ false
      → check_consent out.consent ctx.user_id ≡ false
      → paid_checks r out ctx method c w ≡ some consent_required
  unfolding paid_checks
  paid_checks-refused (p, config) w paid refused = simp (paid, refused)

  try_failing :
      (c : Candidate) (fs : Failures) (last : Option String) (w : World r) (rest : Rest)
      (res : RouteResult A)
      → IsFailing c
      → ((gs : Failures) (l : Option String) (v : World r) → (rest gs l v).1 ≡ res)
      → (try_candidate r out ctx method c fs last w rest).1 ≡ res
  unfolding try_candidate breaker_for
  try_failing (p, config) fs last w rest res h more =
      let b = breaker_for p.name method in
      let v = (can_execute r b w).0 in
      elim (Bool-cases (can_execute r b w).1) [
        | inl go ↦ rw go (
            conclude_exhausted (p, config) fs last
              (with_retries r (out.calls (p, config)) b 2 200 v) rest res
              (with_retries-IsExhausted r (out.calls (p, config)) b 2 200 h.down v)
              (λ gs l. more gs l _))
        | inr no_go ↦ rw no_go (more fs last v)
      ]

  -- When the free providers that come first all fail, in whatever state their breakers are, and a paid
  -- candidate for which there is no consent comes next, the request ends with the error of the missing
  -- consent, whatever candidates come after it.
  pub consent_stops_fallback :
      (cs ds : List Candidate) (fs : Failures) (last : Option String) (w : World r)
      → All IsFailing cs
      → d.0.capabilities.is_free_tier ≡ false
      → check_consent out.consent ctx.user_id ≡ false
      → (route_candidates r out ctx method (cs ++ d ∷ ds) fs last w).1 ≡ consent_required
  unfolding route_candidates
  consent_stops_fallback [] ds fs last w h paid refused =
      rw (paid_checks-refused d w paid refused, route_candidates) refl
  consent_stops_fallback (c ∷ cs) ds fs last w h paid refused =
      rw (paid_checks-free r out ctx method c w h.0.free, route_candidates)
        (try_failing c fs last w _ consent_required h.0
          (λ gs l v. consent_stops_fallback cs ds gs l v h.1 paid refused))
