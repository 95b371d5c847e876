-- ===== src/Tests/Routing.antt =====
-- Runs of the router over two providers, one of them paid.
use praxis_interview_os.Base.{
  ◌≡◌, ◌≢◌, refl, Bool, true, false, List, [], ◌∷◌, none, some, String, str_eq, if◌then◌else◌,
}
use praxis_interview_os.Redis.{budget_daily, budget_session}
use praxis_interview_os.Redis.Memory.{memory, empty, get}
use praxis_interview_os.Gateway.Breaker.{can_execute}
use praxis_interview_os.Gateway.Retries.{
  Surroundings, CallResult, success, failure, server_error, with_retries,
}
use praxis_interview_os.Gateway.Budget.{ConsentTables, check_consent}
use praxis_interview_os.Gateway.Registry.{
  Capabilities, Config, Provider, Candidate, Providers, Aliases, filter_candidates,
}
use praxis_interview_os.Gateway.Router.{
  RoutingContext, routed, consent_required, Outside, route_candidates, route,
}
use praxis_interview_os.Gateway.Router.Selected.{IsSuitable, route-IsSuitable}
use praxis_interview_os.Gateway.Router.Spending.{zero_spend_spends_nothing}
use praxis_interview_os.Gateway.Router.Fallback.{AlwaysFails, falls_back, consent_stops_fallback}
use praxis_interview_os.Tests.Resilience.{fresh}

abbrev capable : Bool → Capabilities
capable free = record {
  streaming = true;
  structured_output = true;
  vision = false;
  embeddings = false;
  realtime_audio = false;
  max_context_tokens = 8192;
  is_local = false;
  is_free_tier = free;
}

abbrev provider : String → Bool → Provider
provider n free = record { name = n; capabilities = capable free }

abbrev config : String → Config
config n = record { provider = n; model = "small"; cost_per_1k_input = 50; cost_per_1k_output = 80 }

abbrev candidate : String → Bool → Candidate
candidate n free = (provider n free, config n)

abbrev providers : Providers
providers =
    ("groq", provider "groq" true)
    ∷ ("gemini", provider "gemini" true)
    ∷ ("openai", provider "openai" false)
    ∷ []

abbrev aliases : Aliases
aliases = ("reasoning", config "groq" ∷ config "gemini" ∷ config "openai" ∷ []) ∷ []

abbrev answers : CallResult String → Surroundings String
answers res = record {
  call = λ n. res;
  took = λ n. 100;
  is_cancelled = λ n. false;
  jitter = λ n. 10;
  cancelled_in_delay = λ n. false;
}

-- groq is down, the others answer.
abbrev called : Candidate → Surroundings String
called c =
    if str_eq c.0.name "groq" then answers (failure server_error) else answers (success "hello")

abbrev consents : ConsentTables
consents = record {
  connected = true;
  paid_before = λ u. some false;
  acknowledged = λ u. some false;
}

abbrev outside : Outside String
outside = record {
  today = "2026-01-01";
  consent = consents;
  calls = called;
  input_tokens = λ a. 10;
  output_tokens = λ a. 20;
  user_is_uuid = true;
}

abbrev context : RoutingContext
context = record {
  user_id = "u";
  session_id = some "s";
  local_only = false;
  zero_spend_mode = true;
  preferred_provider = none;
  allowed_providers = none;
}

abbrev gemini_first : RoutingContext
gemini_first = record context { preferred_provider = some "gemini" }

route-IsSuitable_example : IsSuitable providers gemini_first (candidate "gemini" true)
unfolding memory empty get route filter_candidates can_execute with_retries
route-IsSuitable_example =
    route-IsSuitable memory outside gemini_first "generate" "reasoning" aliases providers fresh
      (candidate "gemini" true) "hello" refl

abbrev both : List Candidate
both = candidate "groq" true ∷ candidate "gemini" true ∷ []

zero_spend_spends_nothing_example :
    let v = (route memory outside context "generate" aliases "reasoning" providers fresh).0 in
    (memory.counter 100 (budget_daily "u" "2026-01-01") v.store
      ≡ memory.counter 100 (budget_daily "u" "2026-01-01") fresh.store)
    × (memory.counter 100 (budget_session "s") v.store
        ≡ memory.counter 100 (budget_session "s") fresh.store)
zero_spend_spends_nothing_example =
    zero_spend_spends_nothing memory outside context "generate" "reasoning" aliases providers fresh
      100 "u" "2026-01-01" "s" refl

groq_down : AlwaysFails (called (candidate "groq" true))
groq_down = record {
  kind = λ i. server_error;
  fails = λ i. refl;
  never_cancelled = λ i. refl;
  never_cancelled_in_delay = λ i. refl;
}

groq_differs : ◌≢◌ {A = String} "groq" "gemini"
groq_differs e = cc

falls_back_example :
    (route_candidates memory outside context "generate" both [] none fresh).1
    ≡ routed (candidate "gemini" true) "hello"
unfolding memory empty get
falls_back_example =
    falls_back memory outside context "generate" (candidate "gemini" true)
      (candidate "groq" true ∷ []) [] [] none "hello" fresh
      (record { free = refl; other_name = groq_differs; down = groq_down }, tt)
      (record {
        free = refl;
        breaker_new = refl;
        succeeds = refl;
        not_cancelled = λ i. refl;
        not_cancelled_in_delay = λ i. refl;
      })

abbrev others : List Candidate
others = candidate "gemini" true ∷ []

consent_stops_fallback_example :
    (route_candidates memory outside context "generate"
      (candidate "groq" true ∷ candidate "openai" false ∷ others)
      []
      none
      fresh).1
    ≡ consent_required
unfolding check_consent
consent_stops_fallback_example =
    consent_stops_fallback memory outside context "generate" (candidate "openai" false)
      (candidate "groq" true ∷ []) others [] none fresh
      (record { free = refl; down = groq_down }, tt) refl refl
