-- ===== src/Gateway/Router.antt =====
-- router.py, class GatewayRouter: candidates in order, with consent, budget, breaker and fallback.
pub mod Selected
pub mod Spending
pub mod Fallback
use praxis_interview_os.Base.{
  ℕ, ◌+◌, ◌*◌, Bool, true, false, not, ◌&&◌, List, [], ◌∷◌, ◌++◌, Option, none, some, String, ltb,
  if◌then◌else◌, str_eq, any, all, is_empty,
}
use praxis_interview_os.Redis.{Redis}
use praxis_interview_os.Gateway.World.{World, write_usage}
use praxis_interview_os.Gateway.Breaker.{
  Breaker, breaker_for, can_execute, record_failure, record_success,
}
use praxis_interview_os.Gateway.Retries.{
  ProviderFailure, auth_error, rate_limit_error, timeout_error, server_error, unknown_error,
  Surroundings, RetryResult, done, exhausted, cancelled, returned_none, out_of_fuel, with_retries,
}
use praxis_interview_os.Gateway.Budget.{
  ConsentTables, check_consent, BudgetError, check_and_reserve, commit_spend,
}
use praxis_interview_os.Gateway.Registry.{
  Capabilities, Config, Provider, Candidate, Providers, Aliases, filter_candidates,
}

-- RoutingContext; the latency budget is not read by the router.
pub record RoutingContext : Type 0 where
  pub user_id : String
  pub session_id : Option String
  pub local_only : Bool
  pub zero_spend_mode : Bool
  pub preferred_provider : Option String
  pub allowed_providers : Option (List String)

-- `req_caps` of `route`.
unfoldable pub required_capabilities : RoutingContext → Capabilities
required_capabilities ctx = record {
  streaming = false;
  structured_output = false;
  vision = false;
  embeddings = false;
  realtime_audio = false;
  max_context_tokens = 0;
  is_local = false;
  is_free_tier = ctx.zero_spend_mode;
}

abbrev pub keep : (Candidate → Bool) → List Candidate → List Candidate
keep p [] = []
keep p (c ∷ cs) = let rest = keep p cs in if p c then c ∷ rest else rest

abbrev pub named : String → Candidate → Bool
named n c = str_eq c.0.name n

-- The filter by `allowed_providers`; an empty list filters nothing.
unfoldable pub restrict : Option (List String) → List Candidate → List Candidate
restrict none cs = cs
restrict (some ns) cs = if is_empty ns then cs else keep (λ c. any (λ n. named n c) ns) cs

-- `sorted(candidates, key=lambda c: c[0].name != preferred)`: sorting by a Boolean key is stable,
-- so the candidates of that name come first and both groups keep their order.
unfoldable pub prefer : Option String → List Candidate → List Candidate
prefer none cs = cs
prefer (some n) cs = if str_eq n "" then cs else keep (named n) cs ++ keep (λ c. not (named n c)) cs

-- The candidates that `route` tries, in order.
unfoldable pub select : Aliases → String → Providers → RoutingContext → List Candidate
unfolding restrict prefer required_capabilities
select aliases task providers ctx = prefer ctx.preferred_provider (
    restrict ctx.allowed_providers
      (filter_candidates aliases task providers (some (required_capabilities ctx)) ctx.local_only))

-- How a request ends. `unavailable` is AllProvidersUnavailableError, `provider_failed` the provider
-- error that is raised when all attempts failed alike, `ended_early` a retry loop without a result.
pub data RouteResult (A : Type 0) : Type 0 where
  routed : Candidate → A → RouteResult A
  unavailable : RouteResult A
  provider_failed : ProviderFailure → RouteResult A
  consent_required : RouteResult A
  over_budget : BudgetError → RouteResult A
  route_cancelled : RouteResult A
  ended_early : RouteResult A

-- failure_exceptions: the cause of each provider's last failure, by name.
abbrev pub Failures : Type 0
Failures = List (String × Option ProviderFailure)

unfoldable pub note_failure : String → Option ProviderFailure → Failures → Failures
note_failure n cause [] = (n, cause) ∷ []
note_failure n cause ((m, c) ∷ fs) =
    if str_eq m n then (m, cause) ∷ fs else (m, c) ∷ note_failure n cause fs

-- isinstance tests of the three kinds that are raised as they are.
abbrev pub is_auth : String × Option ProviderFailure → Bool
is_auth (n, none) = false
is_auth (n, some auth_error) = true
is_auth (n, some _) = false

abbrev pub is_rate_limit : String × Option ProviderFailure → Bool
is_rate_limit (n, none) = false
is_rate_limit (n, some rate_limit_error) = true
is_rate_limit (n, some _) = false

abbrev pub is_timeout : String × Option ProviderFailure → Bool
is_timeout (n, none) = false
is_timeout (n, some timeout_error) = true
is_timeout (n, some _) = false

-- What is raised when no candidate is left.
unfoldable pub give_up : {A : Type 0} → Failures → RouteResult A
give_up fs =
    if is_empty fs
    then unavailable
    else (if all is_auth fs
        then provider_failed auth_error
        else (if all is_rate_limit fs
            then provider_failed rate_limit_error
            else (if all is_timeout fs then provider_failed timeout_error else unavailable)))

-- What the router meets outside: the date, the consent tables, the providers' calls, the tokens
-- that a result reports, and whether the user id is a UUID.
pub record Outside (A : Type 0) : Type 0 where
  pub today : String
  pub consent : ConsentTables
  pub calls : Candidate → Surroundings A
  pub input_tokens : A → ℕ
  pub output_tokens : A → ℕ
  pub user_is_uuid : Bool

-- `1000 / 1000 * cost_per_1k_input + 1000 / 1000 * cost_per_1k_output`.
unfoldable pub estimated_cost : Config → ℕ
estimated_cost c = c.cost_per_1k_input * 1000 + c.cost_per_1k_output * 1000

module _ (r : Redis) {A : Type 0} (out : Outside A) (ctx : RoutingContext) (method : String) where
  -- The consent and budget checks before a paid candidate: the error that leaves `route`, if any.
  unfoldable pub paid_checks : Candidate → World r → Option (RouteResult A)
  unfolding estimated_cost
  paid_checks (p, config) w =
      if p.capabilities.is_free_tier
      then none
      else (if check_consent out.consent ctx.user_id
          then elim (check_and_reserve r ctx.user_id ctx.session_id out.today
              (estimated_cost config) w) [ none ↦ none | some e ↦ some (over_budget e) ]
          else some consent_required)

  -- The cost that _log_usage computes.
  unfoldable pub actual_cost : Candidate → A → ℕ
  actual_cost (p, config) a =
      if p.capabilities.is_free_tier
      then 0
      else out.input_tokens a * config.cost_per_1k_input
        + out.output_tokens a * config.cost_per_1k_output

  -- _log_usage.
  unfoldable pub log_usage : Candidate → A → Option String → World r → World r
  unfolding actual_cost
  log_usage (p, config) a last w =
      let cost = actual_cost (p, config) a in
      let v =
        if out.user_is_uuid
        then write_usage r
            (record {
              user = ctx.user_id;
              session = ctx.session_id;
              provider = p.name;
              model = config.model;
              cost = cost;
              free = p.capabilities.is_free_tier;
              fell_back_from = last;
            })
            w
        else w in
      if ltb 0 cost then commit_spend r ctx.user_id ctx.session_id out.today cost v else v

  -- What follows `with_retries`: a result is logged and returned, a failure goes on to the rest.
  unfoldable pub conclude :
      Candidate
      → Failures
      → Option String
      → World r × RetryResult A
      → (Failures → Option String → World r → World r × RouteResult A)
      → World r × RouteResult A
  unfolding log_usage note_failure
  conclude c fs last (w, done a) rest = (log_usage c a last w, routed c a)
  conclude (p, config) fs last (w, exhausted cause) rest =
      rest (note_failure p.name cause fs) (some p.name) w
  conclude c fs last (w, cancelled) rest = (w, route_cancelled)
  conclude c fs last (w, returned_none) rest = (w, ended_early)
  conclude c fs last (w, out_of_fuel) rest = (w, ended_early)

  -- A candidate that may be called: the breaker, then the call with its retries.
  unfoldable pub try_candidate :
      Candidate
      → Failures
      → Option String
      → World r
      → (Failures → Option String → World r → World r × RouteResult A)
      → World r × RouteResult A
  unfolding conclude
  try_candidate (p, config) fs last w rest =
      let b = breaker_for p.name method in
      let (v, allowed) = can_execute r b w in
      if allowed
      then conclude (p, config) fs last (with_retries r (out.calls (p, config)) b 2 200 v) rest
      else rest fs last v

  -- The loop over the candidates.
  unfoldable pub route_candidates :
      List Candidate → Failures → Option String → World r → World r × RouteResult A
  unfolding paid_checks try_candidate give_up
  route_candidates [] fs last w = (w, give_up fs)
  route_candidates (c ∷ cs) fs last w =
      let rest = λ (gs : Failures) (l : Option String) (v : World r). route_candidates cs gs l v in
      elim (paid_checks c w) [ some e ↦ (w, e) | none ↦ try_candidate c fs last w rest ]

  -- route, for the methods that do not stream.
  unfoldable pub route : Aliases → String → Providers → World r → World r × RouteResult A
  unfolding route_candidates select
  route aliases task providers w = route_candidates (select aliases task providers ctx) [] none w
