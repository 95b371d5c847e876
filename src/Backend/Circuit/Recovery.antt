-- ===== src/Backend/Circuit/Recovery.antt =====
-- When a process's breaker opens, recovers and closes, and what its half-open state lets through.
use praxis_interview_os.Base.{
  ℕ, suc, ◌+◌, ◌-◌, ◌≤◌, ◌<◌, ◌≡◌, refl, ◌∙◌, true, false, List, [], ◌∷◌, leb, arith, Bool-cases,
  inl, inr, if◌then◌else◌,
}
use praxis_interview_os.Backend.Circuit.{
  closed, opened, half_open, Settings, Circuit, new_circuit, can_call, record_success,
  record_failure,
}

-- The calls that reach the breaker, with their times.
pub data Call : Type 0 where
  asks : ℕ → Call
  succeeds : Call
  fails : ℕ → Call

module _ (settings : Settings) where
  abbrev pub step : Circuit → Call → Circuit
  step c (asks now) = (can_call settings now c).0
  step c succeeds = record_success settings c
  step c (fails now) = record_failure settings now c

  abbrev pub steps : Circuit → List Call → Circuit
  steps c [] = c
  steps c (x ∷ xs) = steps (step c x) xs

  abbrev pub all_fail : ℕ → ℕ → Circuit → Circuit
  all_fail ℕ.zero now c = c
  all_fail (suc n) now c = all_fail n now (record_failure settings now c)

  uncounted : (c : Circuit) (x : Call) → c.half_open_calls ≡ 0 → (step c x).half_open_calls ≡ 0
  unfolding can_call record_success record_failure
  uncounted c (asks now) h = ground arith
  uncounted c succeeds h = ground arith
  uncounted c (fails now) h = ground arith

  steps_uncounted :
      (c : Circuit) (xs : List Call) → c.half_open_calls ≡ 0 → (steps c xs).half_open_calls ≡ 0
  steps_uncounted c [] h = h
  steps_uncounted c (x ∷ xs) h = steps_uncounted (step c x) xs (uncounted c x h)

  open_to_all :
      (c : Circuit) (now : ℕ)
      → 0 < settings.half_open_max_calls
      → c.half_open_calls ≡ 0
      → c.state ≡ half_open
      → can_call settings now c ≡ (c, true)
  unfolding can_call
  open_to_all c now some_allowed h e = rw (e, can_call) (ground arith)

  -- The calls that a half-open breaker lets through are not counted: whatever happened before, if any
  -- is allowed then every call is, however many came before it, and nothing changes.
  half_open_unlimited :
      (xs : List Call) (now : ℕ)
      → 0 < settings.half_open_max_calls
      → let c = steps new_circuit xs in c.state ≡ half_open → can_call settings now c ≡ (c, true)
  unfolding new_circuit
  half_open_unlimited xs now some_allowed e =
      open_to_all (steps new_circuit xs) now some_allowed (steps_uncounted new_circuit xs refl) e

  abbrev pub all_succeed : ℕ → Circuit → Circuit
  all_succeed ℕ.zero c = c
  all_succeed (suc n) c = all_succeed n (record_success settings c)

  fails_open :
      (c : Circuit) (now : ℕ)
      → c.state ≡ closed
      → leb settings.failure_threshold (suc c.failures) ≡ true
      → (record_failure settings now c).state ≡ opened
  unfolding record_failure
  fails_open c now e full = ground arith

  fails_closed :
      (c : Circuit) (now : ℕ)
      → c.state ≡ closed
      → leb settings.failure_threshold (suc c.failures) ≡ false
      → let v = record_failure settings now c in (v.state ≡ closed) × (v.failures ≡ suc c.failures)
  unfolding record_failure
  fails_closed c now e room = ground arith

  fails_opened :
      (c : Circuit) (now : ℕ) → c.state ≡ opened → (record_failure settings now c).state ≡ opened
  unfolding record_failure
  fails_opened c now e = ground arith

  stays_open : (n now : ℕ) (c : Circuit) → c.state ≡ opened → (all_fail n now c).state ≡ opened
  stays_open ℕ.zero now c e = e
  stays_open (suc n) now c e =
      stays_open n now (record_failure settings now c) (fails_opened c now e)

  succeeds_half_open :
      (c : Circuit)
      → c.state ≡ half_open
      → suc c.successes < settings.success_threshold
      → let v = record_success settings c in (v.state ≡ half_open) × (v.successes ≡ suc c.successes)
  unfolding record_success
  succeeds_half_open c e few = ground arith

  half_opens :
      (c : Circuit) (now : ℕ)
      → c.state ≡ opened
      → settings.recovery_timeout ≤ now - c.last_failure_time
      → let v = (can_call settings now c).0 in
        ((can_call settings now c).1 ≡ true) × (v.state ≡ half_open) × (v.successes ≡ 0)
  unfolding can_call
  half_opens c now e passed = ground arith

  fails_half_open :
      (c : Circuit) (now : ℕ) → c.state ≡ half_open → (record_failure settings now c).state ≡ opened
  unfolding record_failure
  fails_half_open c now e = ground arith

  -- A closed breaker that sees one failure after another opens at the threshold, and not before.
  opens_at_threshold :
      (n now : ℕ) (c : Circuit)
      → c.state ≡ closed
      → c.failures < settings.failure_threshold
      → (all_fail n now c).state
        ≡ (if leb settings.failure_threshold (c.failures + n) then opened else closed)
  opens_at_threshold ℕ.zero now c e small = e ∙ (ground arith)
  opens_at_threshold (suc n) now c e small =
      let v = record_failure settings now c in
      elim (Bool-cases (leb settings.failure_threshold (suc c.failures))) [
        | inl full ↦ stays_open n now v (fails_open c now e full) ∙ (ground arith)
        | inr room ↦
            let (still, more) = fails_closed c now e room in
            opens_at_threshold n now v still (ground (arith, more)) ∙ (ground (arith, more))
      ]

  closes :
      (n : ℕ) (c : Circuit)
      → c.state ≡ half_open
      → c.successes + suc n ≡ settings.success_threshold
      → let w = all_succeed (suc n) c in (w.state ≡ closed) × (w.failures ≡ 0)
  unfolding record_success
  closes ℕ.zero c e reaches = ground arith
  closes (suc n) c e reaches =
      let (still, more) = succeeds_half_open c e (ground arith) in
      closes n (record_success settings c) still (ground (arith, more))

  -- An open breaker whose recovery time has passed since the last failure lets a call through and is
  -- half open. One more failure opens it again, and as many successes as the threshold, which is not
  -- zero, close it with no failure counted.
  recovers :
      (n : ℕ) (c : Circuit) (now later : ℕ)
      → c.state ≡ opened
      → settings.recovery_timeout ≤ now - c.last_failure_time
      → settings.success_threshold ≡ suc n
      → let v = (can_call settings now c).0 in
        let w = all_succeed (suc n) v in
        ((can_call settings now c).1 ≡ true)
        × ((record_failure settings later v).state ≡ opened)
        × (w.state ≡ closed)
        × (w.failures ≡ 0)
  recovers n c now later e passed enough =
      let v = (can_call settings now c).0 in
      let (goes, half, none_yet) = half_opens c now e passed in
      let (shut, cleared) = closes n v half (omega (arith, none_yet)) in
      (goes, fails_half_open v later half, shut, cleared)
