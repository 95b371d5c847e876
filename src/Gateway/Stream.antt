-- ===== src/Gateway/Stream.antt =====
-- router.py, _stream_with_fallback: streamed answers, with fallback also in the middle of a stream.
pub mod Output
use praxis_interview_os.Base.{
  ℕ, Bool, true, false, not, ◌&&◌, List, [], ◌∷◌, ◌++◌, Option, none, some, String, any,
  if◌then◌else◌,
}
use praxis_interview_os.Redis.{Redis}
use praxis_interview_os.Gateway.World.{World, wait}
use praxis_interview_os.Gateway.Breaker.{
  Breaker, breaker_for, can_execute, record_failure, record_success,
}
use praxis_interview_os.Gateway.Retries.{ProviderFailure, unknown_error}
use praxis_interview_os.Gateway.Registry.{Candidate}
use praxis_interview_os.Gateway.Router.{
  RoutingContext, RouteResult, routed, route_cancelled, Failures, note_failure, give_up, Outside,
  paid_checks,
}

-- LLMDelta.
pub record Delta : Type 0 where
  pub text : String
  pub is_final : Bool

-- How a provider's generator ends: by itself, by an exception, or by a cancellation.
pub data StreamEnd : Type 0 where
  ends : StreamEnd
  raises : ProviderFailure → StreamEnd
  is_cancelled : StreamEnd

-- What one provider streams, and whether the token is cancelled when it ends by itself.
pub record StreamRun : Type 0 where
  pub deltas : List Delta
  pub ending : StreamEnd
  pub took : ℕ
  pub token_cancelled : Bool

-- `completed_successfully`.
abbrev pub is_complete : StreamRun → Bool
is_complete s = any (λ d. d.is_final) s.deltas

-- The deltas that the consumer receives, with the way in which the generator ends.
pub record Streamed (r : Redis) : Type 0 where
  pub world : World r
  pub received : List Delta
  pub result : RouteResult (Unit {0})

module _ (r : Redis) (out : Outside (Unit {0})) (streams : Candidate → StreamRun)
    (ctx : RoutingContext) where
  unfoldable pub received_first : List Delta → Streamed r → Streamed r
  received_first ds s = record s { received = ds ++ s.received }

  -- The except clause: the failure is recorded, and the rest of the candidates are tried.
  unfoldable pub stream_failed :
      Candidate
      → Failures
      → List Delta
      → ProviderFailure
      → World r
      → (Failures → World r → Streamed r)
      → Streamed r
  unfolding received_first note_failure
  stream_failed (p, config) fs ds kind w rest =
      received_first ds (
        rest (note_failure p.name (some kind) fs)
          (record_failure r (breaker_for p.name "stream") w))

  -- The end of one provider's stream. One that stops without a final delta raises RuntimeError,
  -- unless the token was cancelled.
  unfoldable pub stream_ended :
      Candidate
      → Failures
      → StreamRun
      → StreamEnd
      → World r
      → (Failures → World r → Streamed r)
      → Streamed r
  unfolding stream_failed
  stream_ended (p, config) fs s ends w rest =
      if not (is_complete s) && not s.token_cancelled
      then stream_failed (p, config) fs s.deltas unknown_error w rest
      else (record {
        world = record_success r (breaker_for p.name "stream") w;
        received = s.deltas;
        result = routed (p, config) tt;
      })
  stream_ended c fs s (raises kind) w rest = stream_failed c fs s.deltas kind w rest
  stream_ended c fs s is_cancelled w rest = record {
    world = w;
    received = s.deltas;
    result = route_cancelled;
  }

  -- A candidate that may be called.
  unfoldable pub stream_candidate :
      Candidate → Failures → World r → (Failures → World r → Streamed r) → Streamed r
  unfolding stream_ended
  stream_candidate (p, config) fs w rest =
      let (v, allowed) = can_execute r (breaker_for p.name "stream") w in
      let s = streams (p, config) in
      if allowed then stream_ended (p, config) fs s s.ending (wait r s.took v) rest else rest fs v

  -- The loop over the candidates.
  unfoldable pub stream_candidates : List Candidate → Failures → World r → Streamed r
  unfolding stream_candidate
  stream_candidates [] fs w = record { world = w; received = []; result = give_up fs }
  stream_candidates (c ∷ cs) fs w =
      let rest = λ (gs : Failures) (v : World r). stream_candidates cs gs v in
      elim (paid_checks r out ctx "stream" c w) [
        | some e ↦ record { world = w; received = []; result = e }
        | none ↦ stream_candidate c fs w rest
      ]
