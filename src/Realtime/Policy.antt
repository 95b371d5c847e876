-- ===== src/Realtime/Policy.antt =====
-- interview/policy.py, classes SessionMemory and InterviewSession: what the interviewer remembers of
-- the conversation, and which prepared question comes next. What the language model answers is a
-- parameter of each call; the prompts are not modelled, but for the turns that enter them.
pub mod Memory
use Prim.Native.String.{◌++◌ as str_append}
use praxis_interview_os.Base.{
  ℕ, ◌+◌, ◌-◌, Bool, true, false, not, ◌&&◌, List, [], ◌∷◌, ◌++◌, Option, none, some, String, leb,
  ltb, length, take, drop, decimal, str_eq, if◌then◌else◌,
}

pub record Turn : Type 0 where
  pub id : String
  pub role : String
  pub text : String
  pub parent_turn_id : Option String
  pub is_follow_up : Bool

pub record PolicyDecision : Type 0 where
  pub is_clarifying_follow_up : Bool
  pub response_text : String

pub record SessionMemory : Type 0 where
  pub turns : List Turn
  pub compressed_summary : String
  pub turn_count_threshold : ℕ

-- SessionMemory.__init__.
unfoldable pub new_memory : SessionMemory
new_memory = record { turns = []; compressed_summary = ""; turn_count_threshold = 6 }

-- add_turn.
unfoldable pub add_turn : Turn → SessionMemory → SessionMemory
add_turn t m = record m { turns = m.turns ++ t ∷ [] }

-- `turns[-3:]` and `turns[:-3]`.
abbrev pub last_three : List Turn → List Turn
last_three ts = drop (length ts - 3) ts

abbrev pub but_last_three : List Turn → List Turn
but_last_three ts = take (length ts - 3) ts

-- The summary after a compression; `none` is a request that raised.
unfoldable pub summarised : Option String → SessionMemory → String
summarised (some text) m = text
summarised none m = str_append m.compressed_summary (
    str_append "\n[Auto-compressed "
      (str_append (decimal (length (but_last_three m.turns))) " turns]"))

-- compress.
unfoldable pub compress : Option String → SessionMemory → SessionMemory
unfolding summarised
compress answer m =
    if leb (length m.turns) m.turn_count_threshold
    then m
    else record m { turns = last_three m.turns; compressed_summary = summarised answer m }

-- The part of InterviewSession that changes after the warm-up.
pub record InterviewSession : Type 0 where
  pub memory : SessionMemory
  pub prep_pack : List String
  pub current_question_idx : ℕ

-- A new turn that the candidate or the interviewer adds.
abbrev turn_of : String → String → String → Option String → Bool → SessionMemory → Turn
turn_of prefix role text parent follow_up m = record {
  id = str_append prefix (decimal (length m.turns));
  role = role;
  text = text;
  parent_turn_id = parent;
  is_follow_up = follow_up;
}

-- What the two requests of generate_next_turn come back with; `none` is a request that raised.
pub record Answers : Type 0 where
  pub summary : Option String
  pub decision : Option PolicyDecision

-- generate_next_turn up to the request: the candidate's turn is added and the memory compressed.
unfoldable pub remember :
    String → Bool → Option String → Option String → InterviewSession → InterviewSession
unfolding compress add_turn
remember answer follow_up parent summary s = record s {
  memory =
      compress summary
        (add_turn (turn_of "c_" "Candidate" answer parent follow_up s.memory) s.memory);
}

-- generate_next_turn after a decision.
unfoldable pub conclude_turn : PolicyDecision → InterviewSession → InterviewSession
unfolding add_turn
conclude_turn d s = record s {
  current_question_idx =
      if not d.is_clarifying_follow_up && ltb s.current_question_idx (length s.prep_pack)
      then s.current_question_idx + 1
      else s.current_question_idx;
  memory = add_turn (turn_of "i_" "Interviewer" d.response_text none false s.memory) s.memory;
}

-- generate_next_turn: the decision, or `none` for the exception that is raised again.
unfoldable pub generate_next_turn :
    String
    → Bool
    → Option String
    → Answers
    → InterviewSession
    → InterviewSession × Option PolicyDecision
unfolding remember conclude_turn
generate_next_turn answer follow_up parent oracle s =
    let v = remember answer follow_up parent oracle.summary s in
    elim (oracle.decision) [ none ↦ (v, none) | some d ↦ (conclude_turn d v, some d) ]
