-- ===== src/Realtime/Session/Table.antt =====
-- The transition table of session/state_machine.py: exits, aborts, and the ways through an interview.
use praxis_interview_os.Base.{◌≡◌, refl, ◌⊎◌, inl, inr, none, some, arith}
use praxis_interview_os.Realtime.Session.{
  SessionState, idle, preflight, warming, ready, interviewer_turn, awaiting_answer, candidate_turn,
  yielding, turn_end, scoring, planning_next, debrief, degraded_stt, degraded_llm, degraded_tts,
  reconnecting, paused, failed, stopped, transition,
}

abbrev pub IsTerminal : SessionState → Type 0
IsTerminal s = (s ≡ failed) ⊎ (s ≡ stopped)

pub terminal_absorbs : (s t : SessionState) → IsTerminal s → transition s t ≡ none
unfolding transition
terminal_absorbs s t (inl e) = ground arith
terminal_absorbs s t (inr e) = ground arith

abort_open_failed : (s : SessionState) → IsTerminal s ⊎ (transition s failed ≡ some failed)
unfolding transition
abort_open_failed s = ground arith

abort_open_stopped : (s : SessionState) → IsTerminal s ⊎ (transition s stopped ≡ some stopped)
unfolding transition
abort_open_stopped s = ground arith

-- A state either is terminal, FAILED or STOPPED, and then refuses every transition, or it accepts
-- both FAILED and STOPPED.
abort_or_absorb :
    (s : SessionState)
    → (IsTerminal s × ((t : SessionState) → transition s t ≡ none))
      ⊎ ((transition s failed ≡ some failed) × (transition s stopped ≡ some stopped))
abort_or_absorb s = elim (abort_open_failed s) [
  | inl h ↦ inl (h, λ t. terminal_absorbs s t h)
  | inr f ↦ elim (abort_open_stopped s) [
    | inl h ↦ inl (h, λ t. terminal_absorbs s t h)
    | inr g ↦ inr (f, g)
  ]
]

pub idle_not_entered : (s : SessionState) → transition s idle ≡ none
unfolding transition
idle_not_entered s = ground arith

pub transition_target : (s t : SessionState) {u : SessionState} → transition s t ≡ some u → u ≡ t
unfolding transition
transition_target s t h = ground arith

pub transition_cases : (s t : SessionState) → (transition s t ≡ none) ⊎ (transition s t ≡ some t)
unfolding transition
transition_cases s t = ground arith

-- A path of accepted transitions.
pub data Reach : SessionState → SessionState → Type 0 where
  here : {s : SessionState} → Reach s s
  next : {s t u : SessionState} → transition s t ≡ some t → Reach t u → Reach s u

ruleset steps = (here, next)

to_debrief : (s : SessionState) → IsTerminal s ⊎ Reach s debrief
unfolding transition
to_debrief idle =
    inr
      (next {t = preflight} refl (next {t = warming} refl (next {t = ready} refl (next refl here))))
to_debrief preflight = inr (next {t = warming} refl (next {t = ready} refl (next refl here)))
to_debrief warming = inr (next {t = ready} refl (next refl here))
to_debrief yielding = inr (next {t = awaiting_answer} refl (next refl here))
to_debrief turn_end = inr (next {t = planning_next} refl (next refl here))
to_debrief scoring = inr (next {t = planning_next} refl (next refl here))
to_debrief failed = inl (inl refl)
to_debrief stopped = inl (inr refl)
to_debrief debrief = inr here
to_debrief _ = inr (next refl here)

from_idle : (t : SessionState) → Reach idle t
unfolding transition
from_idle idle = here
from_idle preflight = next refl here
from_idle failed = next refl here
from_idle stopped = next refl here
from_idle warming = next {t = preflight} refl (next refl here)
from_idle reconnecting = next {t = preflight} refl (next refl here)
from_idle paused =
    next {t = preflight} refl
      (next {t = reconnecting} refl (next {t = ready} refl (next refl here)))
from_idle degraded_stt =
    next {t = preflight} refl
      (next {t = reconnecting} refl (next {t = candidate_turn} refl (next refl here)))
from_idle degraded_llm =
    next {t = preflight} refl
      (next {t = reconnecting} refl (next {t = scoring} refl (next refl here)))
from_idle degraded_tts =
    next {t = preflight} refl
      (next {t = reconnecting} refl (next {t = interviewer_turn} refl (next refl here)))
from_idle _ = next {t = preflight} refl (next {t = reconnecting} refl (next refl here))

-- Every state can be reached from IDLE by accepted transitions, and from every state that is not
-- terminal the interview can still reach its DEBRIEF; no transition leads back to IDLE.
table_connected :
    (s : SessionState)
    → Reach idle s × (IsTerminal s ⊎ Reach s debrief) × (transition s idle ≡ none)
table_connected s = (from_idle s, to_debrief s, idle_not_entered s)
