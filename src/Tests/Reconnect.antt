-- ===== src/Tests/Reconnect.antt =====
-- Runs of a session over several connections.
use praxis_interview_os.Base.{ℕ, ◌≡◌, ◌≢◌, refl, true, false, [], ◌∷◌, arith}
use praxis_interview_os.Realtime.Session.{scoring}
use praxis_interview_os.Realtime.Reconnect.{
  failed_status, Connection, World, connect, start, enqueue, disconnect, reap, passes, initial,
}
use praxis_interview_os.Realtime.Reconnect.Serial.{
  Reach, here, next, comes, sends, leaves, wakes, waits, arrive, IsDescending,
}
use praxis_interview_os.Realtime.Reconnect.Resumed.{resumed_not_reaped}

abbrev connection : ℕ → ℕ → Connection
connection id n = record { conn_id = id; is_reconnect = false; next = n }

-- A client sends a message, goes away for 20 seconds, comes back and sends another; the reaper of its
-- first connection wakes after that.
abbrev first : World
first = enqueue (connection 0 1) (arrive initial)

abbrev back : World
back = arrive (passes 20 (disconnect (connection 0 2) scoring first))

abbrev resumed : Connection
resumed = record { conn_id = 1; is_reconnect = true; next = 2 }

abbrev woken : World
woken = reap (record { conn_id = 0; due = 30 }) (passes 15 (enqueue resumed back))

back_run : Reach initial back
unfolding connect start enqueue disconnect
back_run =
    next
      (next
        (next (next (next here (comes initial refl)) (sends (arrive initial) (connection 0 1) refl))
          (leaves first (connection 0 2) scoring refl refl))
        (waits (disconnect (connection 0 2) scoring first) 20 (λ e. (omega arith))))
      (comes (passes 20 (disconnect (connection 0 2) scoring first)) refl)

woken_run : Reach initial woken
unfolding connect start enqueue disconnect reap
woken_run =
    next
      (next (next back_run (sends back resumed refl))
        (waits (enqueue resumed back) 15 (λ e. ground (arith, e))))
      (wakes (passes 15 (enqueue resumed back)) (record { conn_id = 0; due = 30 }) [] [] refl
        (omega arith))

resumed_not_reaped_example : (woken.status ≢ failed_status) × IsDescending woken.sent
resumed_not_reaped_example = resumed_not_reaped woken_run

woken_sent : woken.sent ≡ 2 ∷ 1 ∷ []
unfolding connect start enqueue disconnect reap
woken_sent = refl

-- Two connections of one session are open, and the older one ends: its reaper fails the session that the
-- other one is still running.
reaped_alive :
    let both = arrive (arrive initial) in
    let w =
      reap
        (record { conn_id = 0; due = 30 })
        (passes 31 (disconnect (connection 0 1) scoring both)) in
    (w.status ≡ failed_status) × (w.connections ≡ connection 1 1 ∷ [])
unfolding connect start disconnect reap
reaped_alive = (refl, refl)
