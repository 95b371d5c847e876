-- ===== src/Realtime/Orchestrator.antt =====
-- session/orchestrator.py, class SessionOrchestrator: one live interview, turn by turn. This file has
-- the state and what every turn uses: transitions, degradations, database writes and turn rows.
pub mod Asking
pub mod Scoring
pub mod Turns
use praxis_interview_os.Base.{
  ℕ, suc, ◌+◌, Bool, true, false, not, ◌&&◌, ◌||◌, List, [], ◌∷◌, ◌++◌, Option, none, some, String,
  ltb, leb, max, any, length, map, str_eq, if◌then◌else◌,
}
use praxis_interview_os.Realtime.Session.{SessionState, awaiting_answer, Manager, manage, state_eq}
use praxis_interview_os.Realtime.Generation.{Generations}
use praxis_interview_os.Realtime.Coaching.{Coaching}
use praxis_interview_os.Realtime.Policy.{PolicyDecision, InterviewSession, Answers}
use praxis_interview_os.Realtime.TurnDetection.{Completeness}

-- The names that _degraded is called with.
pub data Component : Type 0 where
  turn_detection llm tts classifier claims scoring memory debriefing stt vad : Component

pub Component-discrete : Discrete Component
Component-discrete = hlevel

-- `component in self.degraded_components`.
unfoldable pub is_in : Component → List Component → Bool
unfolding Component-discrete
is_in c [] = false
is_in c (d ∷ ds) = elim (Component-discrete d c) [ yes _ ↦ true | no _ ↦ is_in c ds ]

-- The overall score of an AnswerScore in thousandths; `none` when the scoring was unavailable.
pub record AnswerScore : Type 0 where
  pub overall : Option ℕ
  pub rationale : String

-- The messages for the client.
pub data Event : Type 0 where
  interviewer_text : String → Event
  nudge : Event
  degraded : Component → Event
  audio_chunk : ℕ → Event
  stop_playback : String → Event
  scoring_result : Option String → ℕ → Event
  debrief_ready : Bool → Event

-- The rows that the session writes.
pub record TurnRow : Type 0 where
  pub id : String
  pub turn_index : ℕ
  pub speaker : String
  pub parent_turn_id : Option String
  pub text : String

pub record SegmentRow : Type 0 where
  pub turn_id : String
  pub text : String

-- How the speech of one question ends: spoken to the end, by an exception, or by a barge-in.
pub data SpeechEnd : Type 0 where
  spoken speech_fails barged_in : SpeechEnd

-- What the session meets outside. Each field is asked with the number of the call, so that every
-- call may come out differently: the clock, fresh ids, whether a query or a write succeeds, and what
-- the language model, the classifier, the scoring and the speech synthesis do; `none` is an exception.
pub record Outside : Type 0 where
  pub clock : ℕ → ℕ
  pub uuid : ℕ → String
  pub select_ok : ℕ → Bool
  pub write_ok : ℕ → Bool
  pub policy : ℕ → Answers
  pub summary : ℕ → Option String
  pub completeness : ℕ → Option Completeness
  pub is_question : ℕ → Option Bool
  pub score : ℕ → Option AnswerScore
  pub claims_ok : ℕ → Bool
  pub chunks : ℕ → ℕ
  pub speech : ℕ → SpeechEnd
  pub debrief_ok : ℕ → Bool

pub record Orchestrator : Type 0 where
  pub manager : Manager
  pub session : InterviewSession
  pub generations : Generations
  pub coaching : Coaching
  pub current_candidate_answer : String
  pub last_interviewer_question : String
  pub last_interviewer_turn_id : Option String
  pub awaiting_since : Option ℕ
  pub nudges_sent : ℕ
  pub degraded_components : List Component
  pub pending_segments : List String
  pub turn_lock : Bool
  pub turn_rows : List TurnRow
  pub segment_rows : List SegmentRow
  pub score_rows : List (String × AnswerScore)
  pub events : List Event
  pub calls : ℕ

module _ (env : Outside) where
  -- enqueue_event; the newest event is the first of the list.
  abbrev pub enqueue_event : Event → Orchestrator → Orchestrator
  enqueue_event e o = record o { events = e ∷ o.events }

  abbrev pub called : Orchestrator → Orchestrator
  called o = record o { calls = suc o.calls }

  -- _transition: `false` for an InvalidTransitionError, which is logged.
  unfoldable pub to : SessionState → String → Orchestrator → Orchestrator × Bool
  unfolding manage state_eq
  to s reason o =
      let m = (manage o.manager s reason).0 in
      if (manage o.manager s reason).1
      then (
        record o {
          manager = m;
          awaiting_since =
              if state_eq s awaiting_answer then some (env.clock o.calls) else o.awaiting_since;
          calls = suc o.calls;
        },
        true,
      )
      else (record o { manager = m }, false)

  -- _degraded: the component is announced the first time only.
  unfoldable pub note_degraded : Component → Orchestrator → Orchestrator
  unfolding is_in
  note_degraded c o = if is_in c o.degraded_components then o else record o {
    degraded_components = c ∷ o.degraded_components;
    events = degraded c ∷ o.events;
  }

  -- `COALESCE(MAX(turn_index), -1) + 1`.
  unfoldable pub next_index : List TurnRow → ℕ
  next_index [] = 0
  next_index (t ∷ ts) = max (suc t.turn_index) (next_index ts)

  -- One attempt after another of _insert_turn, `range(3)` times: an index is looked up and a row
  -- inserted through _db, which commits it or rolls it back.
  unfoldable pub insert_attempts :
      ℕ → String → String → Option String → String → Orchestrator → Orchestrator × Option String
  unfolding next_index
  insert_attempts ℕ.zero id speaker parent text o = (o, none)
  insert_attempts (suc n) id speaker parent text o =
      let again = insert_attempts n id speaker parent text (called o) in
      let row : TurnRow = record {
        id = id;
        turn_index = next_index o.turn_rows;
        speaker = speaker;
        parent_turn_id = parent;
        text = text;
      } in
      if not (env.select_ok o.calls)
      then (called o, none)
      else (if env.write_ok o.calls
          then (record o { turn_rows = row ∷ o.turn_rows; calls = suc o.calls }, some id)
          else again)

  -- _insert_turn.
  unfoldable pub insert_turn :
      String → String → Option String → Orchestrator → Orchestrator × Option String
  unfolding insert_attempts
  insert_turn speaker text parent o =
      insert_attempts 3 (env.uuid o.calls) speaker parent text (called o)

  -- The writes of _flush_segments, one after another.
  unfoldable pub write_segments : String → List String → Orchestrator → Orchestrator
  write_segments turn_id [] o = o
  write_segments turn_id (seg ∷ segs) o = write_segments turn_id segs (record o {
    segment_rows =
        if env.write_ok o.calls
        then record { turn_id = turn_id; text = seg } ∷ o.segment_rows
        else o.segment_rows;
    calls = suc o.calls;
  })

  -- _flush_segments: the buffer is emptied first.
  unfoldable pub flush_segments : String → Orchestrator → Orchestrator
  unfolding write_segments
  flush_segments turn_id o =
      write_segments turn_id o.pending_segments (record o { pending_segments = [] })
