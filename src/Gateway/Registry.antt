-- ===== src/Gateway/Registry.antt =====
-- registry.py, class ModelRegistry, and the capabilities of base.py: which configured models may
-- serve a task. The YAML file is a list of aliases with their configurations.
pub mod Selection
use praxis_interview_os.Base.{
  ℕ, Bool, true, false, not, ◌&&◌, ◌||◌, List, [], ◌∷◌, Option, none, some, String, leb,
  if◌then◌else◌, str_eq,
}

-- ProviderCapabilities.
pub record Capabilities : Type 0 where
  pub streaming : Bool
  pub structured_output : Bool
  pub vision : Bool
  pub embeddings : Bool
  pub realtime_audio : Bool
  pub max_context_tokens : ℕ
  pub is_local : Bool
  pub is_free_tier : Bool

-- A configured model; prices are in millionths of a dollar for 1000 tokens.
pub record Config : Type 0 where
  pub provider : String
  pub model : String
  pub cost_per_1k_input : ℕ
  pub cost_per_1k_output : ℕ

-- LLMProvider: its name and what `capabilities()` returns.
pub record Provider : Type 0 where
  pub name : String
  pub capabilities : Capabilities

module _ {ℓ} {V : Type ℓ} where
  -- `dict.get(key)`.
  unfoldable pub lookup : String → List (String × V) → Option V
  lookup k [] = none
  lookup k ((j, v) ∷ d) = if str_eq j k then some v else lookup k d

  abbrev pub or_else : Option V → V → V
  or_else none d = d
  or_else (some v) d = v

abbrev is_reasoning_alias : String → Bool
is_reasoning_alias t =
    str_eq t "question_generation"
    || str_eq t "claim_extraction"
    || str_eq t "claim_grounding"
    || str_eq t "study_plan_generation"
    || str_eq t "behavioral_evaluation"

abbrev is_deep_alias : String → Bool
is_deep_alias t =
    str_eq t "answer_evaluation"
    || str_eq t "debrief_generation"
    || str_eq t "coding_evaluation"
    || str_eq t "system_design_evaluation"

abbrev pub Aliases : Type 0
Aliases = List (String × List Config)

-- candidates_for, for an alias that the file does not name.
unfoldable pub fallback_candidates : Aliases → String → List Config
unfolding lookup
fallback_candidates aliases alias =
    if is_reasoning_alias alias
    then or_else (lookup "reasoning" aliases) []
    else (if is_deep_alias alias
        then or_else (lookup "deep_reasoning" aliases) (or_else (lookup "reasoning" aliases) [])
        else [])

-- candidates_for.
unfoldable pub candidates_for : Aliases → String → List Config
unfolding fallback_candidates
candidates_for aliases alias = or_else (lookup alias aliases) (fallback_candidates aliases alias)

-- The loop over `required_capabilities`: a flag that is set must be set in `caps`.
abbrev flag_met : Bool → Bool → Bool
flag_met wanted has = not wanted || has

unfoldable pub meets : Capabilities → Capabilities → Bool
meets wanted caps =
    flag_met wanted.streaming caps.streaming
    && flag_met wanted.structured_output caps.structured_output
    && flag_met wanted.vision caps.vision
    && flag_met wanted.embeddings caps.embeddings
    && flag_met wanted.realtime_audio caps.realtime_audio
    && leb wanted.max_context_tokens caps.max_context_tokens
    && flag_met wanted.is_local caps.is_local
    && flag_met wanted.is_free_tier caps.is_free_tier

-- The tests of one iteration of filter_candidates, for a provider that is registered.
unfoldable pub admits : Option Capabilities → Bool → Provider → Bool
unfolding meets
admits wanted local_only p =
    (not local_only || p.capabilities.is_local)
    && elim wanted [ none ↦ true | some c ↦ meets c p.capabilities ]

abbrev pub Candidate : Type 0
Candidate = Provider × Config

abbrev pub Providers : Type 0
Providers = List (String × Provider)

-- One iteration of filter_candidates over the result of the later ones.
unfoldable pub consider :
    Option Capabilities → Bool → Config → Option Provider → List Candidate → List Candidate
unfolding admits
consider wanted local_only config none rest = rest
consider wanted local_only config (some p) rest =
    if admits wanted local_only p then (p, config) ∷ rest else rest

unfoldable pub filter_configs :
    Providers → Option Capabilities → Bool → List Config → List Candidate
unfolding consider lookup
filter_configs providers wanted local_only [] = []
filter_configs providers wanted local_only (config ∷ configs) =
    consider wanted local_only config (lookup config.provider providers)
      (filter_configs providers wanted local_only configs)

-- filter_candidates.
unfoldable pub filter_candidates :
    Aliases → String → Providers → Option Capabilities → Bool → List Candidate
unfolding filter_configs candidates_for
filter_candidates aliases task providers wanted local_only =
    filter_configs providers wanted local_only (candidates_for aliases task)
