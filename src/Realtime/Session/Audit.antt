-- ===== src/Realtime/Session/Audit.antt =====
-- What session/manager.py records: the announced transitions, the audit rows and the final status.
use Prim.Native.String.{◌++◌ as str_append}
use praxis_interview_os.Base.{
  ℕ, suc, ◌+◌, ◌≡◌, refl, ◌⊎◌, inl, inr, true, false, List, [], ◌∷◌, none, some, String, arith,
  length, Bool, if◌then◌else◌, ap, sym, ◌∙◌,
}
use praxis_interview_os.Realtime.Session.{
  SessionState, idle, failed, stopped, transition, Transitioned, Manager, completed, failure,
  new_manager, manage, run, log_transition, announce, close_if_terminal, or_valid, LogRow,
}
use praxis_interview_os.Realtime.Session.Table.{transition_cases, terminal_absorbs, IsTerminal}

-- The announcements, newest first, are accepted transitions that lead from `s` to `t` without a gap.
abbrev pub Chain : SessionState → List Transitioned → SessionState → Type 0
Chain s [] t = t ≡ s
Chain s (e ∷ es) t =
    (e.to_state ≡ t)
    × (transition e.from_state e.to_state ≡ some e.to_state)
    × Chain s es e.from_state

pub record Inv (m : Manager) : Type 0 where
  pub chained : Chain idle m.events m.state
  pub completed_stopped : m.status ≡ some completed → m.state ≡ stopped
  pub failure_failed : m.status ≡ some failure → m.state ≡ failed

pub new_manager-Inv : (db_up : ℕ → Bool) → Inv (new_manager db_up)
unfolding new_manager
new_manager-Inv db_up = ground arith

-- The audit row that is kept if the write of this moment is committed.
abbrev pub logged : Manager → SessionState → String → List LogRow
logged m t reason =
    if m.db_up m.writes
    then record { from_state = m.state; to_state = t; reason = reason } ∷ m.log
    else m.log

-- What one request does, on both of its branches.
pub data Managed (m : Manager) (t : SessionState) (reason : String) (q : Manager)
    : Bool → Type 0 where
  refused :
      transition m.state t ≡ none
      → q.state ≡ m.state
      → q.events ≡ m.events
      → q.status ≡ m.status
      → q.log ≡ logged m t (str_append "rejected: " reason)
      → Managed m t reason q false
  accepted :
      transition m.state t ≡ some t
      → q.state ≡ t
      → q.events ≡ record { from_state = m.state; to_state = t; reason = reason } ∷ m.events
      → q.log ≡ logged m t (or_valid reason)
      → Managed m t reason q true

close-state : (m : Manager) (t : SessionState) → (close_if_terminal m t).state ≡ m.state
unfolding close_if_terminal
close-state m t = ground arith

close-events : (m : Manager) (t : SessionState) → (close_if_terminal m t).events ≡ m.events
unfolding close_if_terminal
close-events m t = ground arith

close-log : (m : Manager) (t : SessionState) → (close_if_terminal m t).log ≡ m.log
unfolding close_if_terminal
close-log m t = ground arith

abbrev moved : Manager → SessionState → String → Manager
moved m t reason = log_transition (record m { state = t }) m.state t (or_valid reason)

-- A refused request changes neither the state, the final status nor what was announced, is audited
-- as rejected if that write is committed, and is reported as a failure. An accepted request moves
-- to the state asked for, is announced once, from the old state to the new one, and is audited with
-- its reason if that write is committed.
pub manage-Managed :
    (m : Manager) (t : SessionState) (reason : String)
    → Managed m t reason (manage m t reason).0 (manage m t reason).1
unfolding manage log_transition announce
manage-Managed m t reason = elim (transition_cases m.state t) [
  | inl e ↦ rw (e, manage) (refused e refl refl refl refl)
  | inr e ↦
      let w = moved m t reason in
      rw (e, manage)
        (accepted e (close-state w t)
          (ap (◌∷◌ (record { from_state = m.state; to_state = t; reason = reason }))
            (close-events w t))
          (close-log w t))
]

-- The final status that a state calls for.
close-status :
    (m : Manager) (t : SessionState)
    → ((close_if_terminal m t).status ≡ m.status)
      ⊎ (((t ≡ stopped) × ((close_if_terminal m t).status ≡ some completed))
          ⊎ ((t ≡ failed) × ((close_if_terminal m t).status ≡ some failure)))
unfolding close_if_terminal
close-status m t = ground arith

abbrev Status : Manager → Manager → Type 0
Status m q =
    (q.status ≡ m.status)
    ⊎ (((q.state ≡ stopped) × (q.status ≡ some completed))
        ⊎ ((q.state ≡ failed) × (q.status ≡ some failure)))

manage-Status : (m : Manager) (t : SessionState) (reason : String) → Status m (manage m t reason).0
unfolding manage log_transition announce
manage-Status m t reason = elim (transition_cases m.state t) [
  | inl e ↦ rw (e, manage) (inl refl)
  | inr e ↦
      let w = moved m t reason in rw (e, manage) (ground (arith, close-status w t, close-state w t))
]

not_terminal : {A : Type 0} (s t : SessionState) → transition s t ≡ some t → IsTerminal s → A
not_terminal s t e h = absurd (ground (arith, terminal_absorbs s t h))

Status-completed :
    (m q : Manager)
    → Status m q
    → ¬ IsTerminal m.state
    → Inv m
    → (q.status ≡ some completed → q.state ≡ stopped) × (q.status ≡ some failure → q.state ≡ failed)
Status-completed m q (inl e) live v = (
  λ c. absurd (live (inr (v.completed_stopped (sym e ∙ c)))),
  λ c. absurd (live (inl (v.failure_failed (sym e ∙ c)))),
)
Status-completed m q (inr (inl (s, e))) live v = (λ c. s, λ c. ground arith)
Status-completed m q (inr (inr (s, e))) live v = (λ c. ground arith, λ c. s)

Managed-Inv :
    {m q : Manager} {t : SessionState} {reason : String} {b : Bool}
    → Managed m t reason q b
    → Status m q
    → Inv m
    → Inv q
Managed-Inv (refused e s ev st l) c v = record {
  chained = rw (s, ev) v.chained;
  completed_stopped = rw (s, st) v.completed_stopped;
  failure_failed = rw (s, st) v.failure_failed;
}
Managed-Inv {m} {q} {t} (accepted e s ev l) c v =
    let f = Status-completed m q c (λ h. not_terminal m.state t e h) v in
    record {
      chained = rw (s, ev) (refl, e, v.chained);
      completed_stopped = f.0;
      failure_failed = f.1;
    }

pub run-Inv : (m : Manager) (rs : List (SessionState × String)) → Inv m → Inv (run m rs)
unfolding run
run-Inv m [] v = v
run-Inv m ((t, reason) ∷ rs) v =
    run-Inv (manage m t reason).0 rs
      (Managed-Inv (manage-Managed m t reason) (manage-Status m t reason) v)

-- After any sequence of requests on a new session, whichever database writes are lost: the
-- announced transitions lead from IDLE to the present state without a gap and are all accepted by
-- the table, a recorded status `completed` means that the session is STOPPED, and a recorded
-- status `failed` that it is FAILED.
run-new_manager-Inv :
    (db_up : ℕ → Bool) (rs : List (SessionState × String)) → Inv (run (new_manager db_up) rs)
run-new_manager-Inv db_up rs = run-Inv (new_manager db_up) rs (new_manager-Inv db_up)

manage-db_up :
    (m : Manager) (t : SessionState) (reason : String) → (manage m t reason).0.db_up ≡ m.db_up
unfolding manage log_transition announce close_if_terminal
manage-db_up m t reason = ground arith

logged_length :
    (m : Manager) (t : SessionState) (reason : String)
    → ((n : ℕ) → m.db_up n ≡ true)
    → length (manage m t reason).0.log ≡ suc (length m.log)
logged_length m t reason up = go (manage-Managed m t reason)
  where
    go : {q : Manager} {b : Bool} → Managed m t reason q b → length q.log ≡ suc (length m.log)
    go (refused e s ev st l) = rw l (ground (arith, up m.writes))
    go (accepted e s ev l) = rw l (ground (arith, up m.writes))

-- While every write is committed, each request leaves exactly one audit row, refused ones included.
pub run_audited :
    (m : Manager) (rs : List (SessionState × String))
    → ((n : ℕ) → m.db_up n ≡ true)
    → length (run m rs).log ≡ length m.log + length rs
unfolding run
run_audited m [] up = omega arith
run_audited m ((t, reason) ∷ rs) up = omega (
  arith,
  logged_length m t reason up,
  run_audited (manage m t reason).0 rs (λ n. rw (manage-db_up m t reason) (up n)),
)
