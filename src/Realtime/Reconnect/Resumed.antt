-- ===== src/Realtime/Reconnect/Resumed.antt =====
-- The steps keep a session resumable, and so it is never reaped while its client comes back.
use praxis_interview_os.Base.{
  ℕ, suc, ◌+◌, ◌≤◌, ◌<◌, ◌≡◌, ◌≢◌, refl, sym, ap, subst, ◌∙◌, true, false, List, [], ◌∷◌, ◌++◌,
  Option, some, All, arith, Bool-cases, Option-cases, inl, inr,
}
use mathlib.Core.Bool.{true≢false}
use praxis_interview_os.Realtime.Session.{SessionState, failed, state_eq}
use praxis_interview_os.Realtime.Reconnect.{
  Status, created, active, completed, failed_status, is_terminal, Saved, Connection, Reaper, World,
  grace, reap_margin, hgetall, is_waiting, first_sequence, arriving, connect, claimed_key, start,
  numbered, renumber, enqueue, is_final, final_status, without, save_for_reconnect, disconnect,
  reap, passes, initial,
}
use praxis_interview_os.Realtime.Reconnect.Serial.{
  arrive, AwayUntil, IsWithin, IsPrompt, Step, comes, sends, leaves, wakes, waits, Reach, here,
  next, IsDescending,
}
use praxis_interview_os.Realtime.Reconnect.Modes.{
  Due, Mode, fresh, live, away, over, Kept, All-weaken, hgetall_alive, wakes_spared, not_both,
  connected,
}

reap-Kept :
    (w : World) (r : Reaper) (xs ys : List Reaper)
    → w.reapers ≡ xs ++ r ∷ ys
    → r.due ≤ w.now
    → Kept w
    → Kept (reap r w)
reap-Kept w r xs ys at t h = subst Kept (sym (wakes_spared w r xs ys at t h)) h

enqueue-Kept : (w : World) (c : Connection) → w.connections ≡ c ∷ [] → Kept w → Kept (enqueue c w)
unfolding enqueue renumber numbered
enqueue-Kept w c at (m, s) =
    let (k, b, rs, ns, t) = connected w c at m in
    (
      live (record c { next = suc c.next }) (rw at (ground arith))
          (
            k,
            b,
            rs,
            (
              omega arith,
              All-weaken (λ n. n < c.next) (λ n. n < suc c.next) w.sent (λ n h. omega arith) ns,
            ),
            t,
          ),
      (ns, s),
    )

without_self :
    (w : World) (c : Connection) → w.connections ≡ c ∷ [] → without c.conn_id w.connections ≡ []
unfolding without
without_self w c at = rw at (ground arith)

disconnect-Kept :
    (w : World) (c : Connection) (f : SessionState)
    → w.connections ≡ c ∷ []
    → state_eq f failed ≡ false
    → Kept w
    → Kept (disconnect c f w)
unfolding disconnect final_status without save_for_reconnect
disconnect-Kept w c f at ok (m, s) =
    let (k, b, rs, ns, t) = connected w c at m in
    let alone = without_self w c at in
    elim (Bool-cases (is_final f)) [
      | inl e ↦ rw (e, disconnect) (over alone refl (rw (ok, final_status) refl), s)
      | inr e ↦
          rw (e, disconnect)
            (
              away
                  (record {
                    is_reconnecting = true;
                    conn_id = c.conn_id;
                    sequence = some c.next;
                    deadline = some (w.now + (grace + reap_margin));
                  })
                  (w.now + (grace + reap_margin)) c.next alone refl refl refl refl (omega arith)
                  (
                    b,
                    All-weaken (λ (r : Reaper). r.conn_id < c.conn_id)
                        (λ (r : Reaper). r.conn_id < w.next_id) w.reapers (λ r h. omega arith) rs,
                  )
                  (
                    (λ h. omega arith),
                    All-weaken (λ (r : Reaper). r.conn_id < c.conn_id)
                        (Due c.conn_id (w.now + (grace + reap_margin))) w.reapers
                        (λ r h. λ g. absurd (ground arith)) rs,
                  )
                  ns t,
              s,
            )
    ]

claimed_not_waiting :
    (now id : ℕ) (key : Option Saved) → is_waiting (claimed_key now id key) ≡ false
unfolding claimed_key is_waiting
claimed_not_waiting now id key = elim (Option-cases (hgetall now key)) [
  | inl e ↦ rw (e, claimed_key, is_waiting) refl
  | inr (v, e) ↦ rw (e, claimed_key, is_waiting) refl
]

start_fresh :
    (c : Connection) (w : World) → c.is_reconnect ≡ false → start c w ≡ record w { status = active }
unfolding start
start_fresh c w e = rw e refl

start_resumed :
    (c : Connection) (w : World)
    → c.is_reconnect ≡ true
    → start c w ≡ record w { key = claimed_key w.now c.conn_id w.key }
unfolding start
start_resumed c w e = rw e refl

arrive-Kept : (w : World) → w.connections ≡ [] → Kept w → Kept (arrive w)
unfolding connect arriving first_sequence is_waiting hgetall is_terminal
arrive-Kept w at (fresh a k b c t, s) =
    let new : (arriving w).is_reconnect ≡ false = rw k refl in
    rw t (
      rw
        (start_fresh (arriving w)
          (record w { connections = arriving w ∷ w.connections; next_id = suc w.next_id }) new)
        (
          live (arriving w) (ap (λ cs. arriving w ∷ cs) a)
              (rw k refl, omega arith, rw b tt, rw c tt, refl),
          s,
        ))
arrive-Kept w at (live c e f, s) = absurd (not_both w c e at)
arrive-Kept w at (away v d n e k rec dl sq h b dues sent open_, s) =
    let found = hgetall_alive w.now d w.key v k dl (ground arith) in
    let back : (arriving w).is_reconnect ≡ true = rw found rec in
    let first : n ≡ (arriving w).next = rw found (rw (sq, first_sequence) refl) in
    rw open_ (
      rw
        (start_resumed (arriving w)
          (record w { connections = arriving w ∷ w.connections; next_id = suc w.next_id }) back)
        (
          live (arriving w) (ap (λ cs. arriving w ∷ cs) e) (
            claimed_not_waiting w.now w.next_id w.key,
            omega arith,
            b,
            subst (λ i. All (λ m. m < i) w.sent) first sent,
            open_,
          ),
          s,
        ))
arrive-Kept w at (over e k st, s) = rw st (over e k refl, s)

in_time :
    (w : World) (d e : ℕ) (v : Saved)
    → IsPrompt d w
    → w.connections ≡ []
    → w.key ≡ some v
    → v.deadline ≡ some e
    → (w.now + d) + reap_margin < e
in_time w d e v p a k dl = subst (IsWithin (w.now + d)) dl (subst (AwayUntil (w.now + d)) k (p a))

passes-Kept : (w : World) (d : ℕ) → IsPrompt d w → Kept w → Kept (passes d w)
passes-Kept w d p (fresh a k b c t, s) = (fresh a k b c t, s)
passes-Kept w d p (live c e f, s) = (live c e f, s)
passes-Kept w d p (away v e n a k rec dl sq h b dues sent open_, s) =
    (away v e n a k rec dl sq (in_time w d e v p a k dl) b dues sent open_, s)
passes-Kept w d p (over e k st, s) = (over e k st, s)

Step-Kept : {w v : World} → Step w v → Kept w → Kept v
Step-Kept (comes w at) h = arrive-Kept w at h
Step-Kept (sends w c at) h = enqueue-Kept w c at h
Step-Kept (leaves w c f at ok) h = disconnect-Kept w c f at ok h
Step-Kept (wakes w r xs ys at t) h = reap-Kept w r xs ys at t h
Step-Kept (waits w d p) h = passes-Kept w d p h

created_open : is_terminal created ≡ false
unfolding is_terminal
created_open = refl

Reach-Kept : {w : World} → Reach initial w → Kept w
Reach-Kept here = (fresh refl refl refl refl created_open, tt)
Reach-Kept (next r st) = Step-Kept st (Reach-Kept r)

open_not_failed : (s : Status) → is_terminal s ≡ false → s ≢ failed_status
unfolding is_terminal
open_not_failed s h e = absurd (true≢false (subst (λ t. is_terminal t ≡ false) e h))

completed_ne : completed ≢ failed_status
completed_ne e = ground arith

Mode-not_failed : (w : World) → Mode w → w.status ≢ failed_status
Mode-not_failed w (fresh a k b c t) = open_not_failed w.status t
Mode-not_failed w (live c e f) = open_not_failed w.status f.4
Mode-not_failed w (away v d n e k rec dl sq h b dues sent t) = open_not_failed w.status t
Mode-not_failed w (over e k st) = λ f. completed_ne (sym st ∙ f)

-- The reaper of a connection that has ended never fails the session of a client that comes back within
-- the grace period each time, and no two messages of all its connections carry one number: each number
-- is larger than all those before it. The client is on one connection at a time, which resumes the session before a
-- reaper wakes, and the interview itself does not fail.
pub resumed_not_reaped :
    {w : World} → Reach initial w → (w.status ≢ failed_status) × IsDescending w.sent
resumed_not_reaped {w} r = let (m, s) = Reach-Kept r in (Mode-not_failed w m, s)
