-- ===== src/Gateway/Breaker/States.antt =====
-- Which states a breaker passes through, and for how long it stays open.
use praxis_interview_os.Base.{
  ℕ, ◌+◌, ◌*◌, ◌≤◌, ◌≡◌, refl, ◌⊎◌, inl, inr, ◌≢◌, Bool, true, false, not, List, [], ◌∷◌, Option,
  none, some, String, leb, ltb, if◌then◌else◌, str_eq, Bool-cases, arith, sym, ◌∙◌, ap, subst,
}
use praxis_interview_os.Redis.{Redis}
use praxis_interview_os.Gateway.World.{World, wait}
use praxis_interview_os.Gateway.Breaker.{
  Breaker, key_failures, key_state, decode_state, get_state, transition_to, record_failure,
  record_success, can_execute,
}

keys_differ : (b : Breaker) → key_failures b ≢ key_state b
keys_differ b e = cc

-- A value that the state key may hold.
abbrev IsPlain : Option String → Type 0
IsPlain v = (v ≡ none) ⊎ ((v ≡ some "OPEN") ⊎ (v ≡ some "CLOSED"))

module _ (r : Redis) (b : Breaker) where
  open r use {get, get-set_self, get-set_ne, get-delete_ne, get-incr_ne}

  open_store :
      (w : World r)
      → (transition_to r b "OPEN" w).store
        ≡ r.set w.now (key_state b) "OPEN" (some (b.cooldown_seconds * 1000)) w.store
  unfolding transition_to
  open_store w = refl

  closed_store :
      (w : World r)
      → (transition_to r b "CLOSED" w).store
        ≡ r.delete (key_failures b) (r.set w.now (key_state b) "CLOSED" none w.store)
  unfolding transition_to
  closed_store w = refl

  -- The state key after a failure: as it was, or OPEN for the cooldown.
  get-record_failure :
      (w : World r) (u : ℕ)
      → w.now ≤ u
      → (get u (key_state b) (record_failure r b w).store ≡ get u (key_state b) w.store)
        ⊎ (get u (key_state b) (record_failure r b w).store
            ≡ (if ltb u (w.now + b.cooldown_seconds * 1000) then some "OPEN" else none))
  unfolding record_failure
  get-record_failure w u h = ground (
    arith,
    get-incr_ne w.now u (key_failures b) (key_state b) 1 w.store (keys_differ b),
    get-set_self w.now u (key_state b) "OPEN" (some (b.cooldown_seconds * 1000))
        (r.incr w.now (key_failures b) 1 w.store) h,
  )

  -- The state key after a success: as it was, or CLOSED for good.
  get-record_success :
      (w : World r) (u : ℕ)
      → w.now ≤ u
      → (get u (key_state b) (record_success r b w).store ≡ get u (key_state b) w.store)
        ⊎ (get u (key_state b) (record_success r b w).store ≡ some "CLOSED")
  unfolding record_success
  get-record_success w u h = ground (
    arith,
    get-set_self w.now u (key_state b) "CLOSED" none w.store h,
    get-delete_ne u (key_failures b) (key_state b) (r.set w.now (key_state b) "CLOSED" none w.store)
        (keys_differ b),
    get-delete_ne u (key_failures b) (key_state b)
        (r.delete (key_failures b) (r.set w.now (key_state b) "CLOSED" none w.store))
        (keys_differ b),
    get-delete_ne u (key_failures b) (key_state b) w.store (keys_differ b),
  )

  -- With a plain value in the state key, a probe answers by it and changes nothing.
  can_execute_plain :
      (w : World r)
      → IsPlain (get w.now (key_state b) w.store)
      → can_execute r b w ≡ (w, not (str_eq (get_state r b w) "OPEN"))
  unfolding can_execute
  can_execute_plain w (inl e) = rw e
  can_execute_plain w (inr (inl e)) = rw e
  can_execute_plain w (inr (inr e)) = rw e

  pub can_execute_missing :
      (w : World r) → get w.now (key_state b) w.store ≡ none → can_execute r b w ≡ (w, true)
  unfolding can_execute
  can_execute_missing w e = rw e

  can_execute_open :
      (w : World r) → get w.now (key_state b) w.store ≡ some "OPEN" → can_execute r b w ≡ (w, false)
  unfolding can_execute
  can_execute_open w e = rw e

  record_failure_now : (w : World r) → (record_failure r b w).now ≡ w.now
  unfolding record_failure
  record_failure_now w = ground arith

  record_success_now : (w : World r) → (record_success r b w).now ≡ w.now
  unfolding record_success
  record_success_now w = ground arith

  -- A failure that reaches the limit while the breaker is not OPEN.
  opened :
      (w : World r) (u : ℕ)
      → w.now ≤ u
      → b.max_failures ≤ r.counter w.now (key_failures b) w.store + 1
      → str_eq (get_state r b w) "OPEN" ≡ false
      → get u (key_state b) (record_failure r b w).store
        ≡ (if ltb u (w.now + b.cooldown_seconds * 1000) then some "OPEN" else none)
  unfolding record_failure
  opened w u h full closed = ground (
    arith,
    r.counter-incr_self w.now (key_failures b) 1 w.store,
    get-incr_ne w.now w.now (key_failures b) (key_state b) 1 w.store (keys_differ b),
    get-set_self w.now u (key_state b) "OPEN" (some (b.cooldown_seconds * 1000))
        (r.incr w.now (key_failures b) 1 w.store) h,
  )

  -- A failure that brings the count of failures to the limit, while the breaker is not OPEN, makes
  -- it refuse every call until the cooldown has passed, and accept every call from then on, as long
  -- as nothing else is recorded.
  pub open_for_cooldown :
      (w : World r) (n : ℕ)
      → b.max_failures ≤ r.counter w.now (key_failures b) w.store + 1
      → str_eq (get_state r b w) "OPEN" ≡ false
      → let v = wait r n (record_failure r b w) in
        can_execute r b v ≡ (v, leb (b.cooldown_seconds * 1000) n)
  open_for_cooldown w n full closed =
      let v = wait r n (record_failure r b w) in
      let at : get v.now (key_state b) v.store
          ≡ (if ltb (w.now + n) (w.now + b.cooldown_seconds * 1000) then some "OPEN" else none) =
        rw (record_failure_now w) (opened w (w.now + n) (omega arith) full closed) in
      elim (Bool-cases (leb (b.cooldown_seconds * 1000) n)) [
        | inl late ↦ rw late (can_execute_missing v (at ∙ (ground arith)))
        | inr early ↦ rw early (can_execute_open v (at ∙ (ground arith)))
      ]

  -- The calls that reach one breaker.
  pub data Call : Type 0 where
    fails succeeds probes : Call
    waits : ℕ → Call

  abbrev pub step : World r → Call → World r
  step w fails = record_failure r b w
  step w succeeds = record_success r b w
  step w probes = (can_execute r b w).0
  step w (waits n) = wait r n w

  abbrev pub steps : World r → List Call → World r
  steps w [] = w
  steps w (c ∷ cs) = steps (step w c) cs

  abbrev AllPlain : World r → Type 0
  AllPlain w = (u : ℕ) → w.now ≤ u → IsPlain (get u (key_state b) w.store)

  step-AllPlain : (w : World r) (c : Call) → AllPlain w → AllPlain (step w c)
  step-AllPlain w fails p u h =
      let h' : w.now ≤ u = rw (record_failure_now w) at h in
      ground (arith, get-record_failure w u h', p u h')
  step-AllPlain w succeeds p u h =
      let h' : w.now ≤ u = rw (record_success_now w) at h in
      ground (arith, get-record_success w u h', p u h')
  step-AllPlain w probes p u h =
      let same : (can_execute r b w).0 ≡ w =
        ap (λ (q : World r × Bool). q.0) (can_execute_plain w (p w.now (omega arith))) in
      subst (λ (v : World r). IsPlain (get u (key_state b) v.store)) (sym same)
        (p u (subst (λ (v : World r). v.now ≤ u) same h))
  step-AllPlain w (waits n) p u h = p u (omega arith)

  steps-AllPlain : (w : World r) (cs : List Call) → AllPlain w → AllPlain (steps w cs)
  steps-AllPlain w [] p = p
  steps-AllPlain w (c ∷ cs) p = steps-AllPlain (step w c) cs (step-AllPlain w c p)

  decode_plain :
      (v : Option String) → IsPlain v → (decode_state v ≡ "CLOSED") ⊎ (decode_state v ≡ "OPEN")
  unfolding decode_state
  decode_plain v (inl e) = inl (rw e)
  decode_plain v (inr (inl e)) = inr (rw e)
  decode_plain v (inr (inr e)) = inl (rw e)

  -- Whatever is recorded and probed, and however time passes, a breaker whose state key was missing
  -- at first is CLOSED or OPEN: HALF_OPEN is never entered, and a probe answers by the state alone
  -- and changes nothing, so that it lets through any number of callers or none.
  never_half_open :
      (w : World r) (cs : List Call)
      → get w.now (key_state b) w.store ≡ none
      → let v = steps w cs in
        ((get_state r b v ≡ "CLOSED") ⊎ (get_state r b v ≡ "OPEN"))
        × (can_execute r b v ≡ (v, not (str_eq (get_state r b v) "OPEN")))
  unfolding get_state
  never_half_open w cs e =
      let p =
        steps-AllPlain w cs (λ u h. inl (r.get-none_later w.now u (key_state b) w.store h e)) in
      (
        decode_plain _ (p (steps w cs).now (omega arith)),
        can_execute_plain (steps w cs) (p (steps w cs).now (omega arith)),
      )
