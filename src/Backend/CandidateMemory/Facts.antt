-- ===== src/Backend/CandidateMemory/Facts.antt =====
-- The facts about a topic are those of all its scored turns.
use praxis_interview_os.Base.{ℕ, List, [], ◌∷◌, ◌++◌, String}
use praxis_interview_os.Backend.CandidateMemory.{Turn, TopicFacts, update_topic_facts}
use praxis_interview_os.Backend.CandidateMemory.Groups.{scores_of}

-- A candidate's sessions, one after the other.
abbrev pub update_all : List (List Turn) → List TopicFacts → List TopicFacts
update_all [] fs = fs
update_all (ts ∷ sessions) fs = update_all sessions (update_topic_facts ts fs)

abbrev pub all_scores : String → List (List Turn) → List ℕ
all_scores d [] = []
all_scores d (ts ∷ sessions) = scores_of d ts ++ all_scores d sessions
