-- ===== src/Lib.antt =====
-- Praxis is an interview trainer. A candidate talks to an interviewer played by a language model: the
-- realtime agent listens, asks, scores and moves on; the AI gateway chooses providers for every request to
-- a model, keeps within budgets, survives failures and searches a candidate's documents; the backend
-- checks tokens and uploads, keeps every candidate's rows apart, runs the jobs and keeps the limits. This
-- library models those three parts and how they use one another.
--
-- Shared modules. Base holds the library names that all files use, tests on the native numbers, list and
-- text helpers, and a stable sort (Base/Sorting) for Python's sort and SQL's ORDER BY. Redis is the
-- interface to the store (keys as data, strings with a time to live, counters) with the documented laws
-- the code relies on; Redis/Memory implements it by association lists, so that the laws can hold. Every
-- component over Redis takes that interface as a parameter.
--
-- realtime-agent/realtime_agent/app (module Realtime)
--   Session             session/state_machine.py (SessionState, TRANSITIONS,
--                       StateMachine.transition) and session/manager.py
--                       (SessionManager.transition: `manage`, with its audit rows, the
--                       terminal status and the broadcast).
--   Orchestrator        the state of session/orchestrator.py and its database helpers
--                       (_transition: `to`, _degraded: `note_degraded`, _insert_turn,
--                       _flush_segments). What the language model, the classifier, the
--                       scoring, the synthesis, the database and the clock answer is
--                       `Outside`, functions of the number of calls made so far, so that
--                       every sequence of answers and failures is covered.
--   Orchestrator/Asking its begin_interviewer_turn, with BargeInController.trigger of
--                       interview/barge_in.py.
--   Orchestrator/Scoring the halves of _on_candidate_turn_end that score an answer and
--                       check its claims.
--   Orchestrator/Turns  its other handlers: start_candidate_turn, handle_vad_event,
--                       on_candidate_turn_end, handle_transcript_update,
--                       record_final_segment, handle_vad_silence,
--                       handle_no_answer_timeout, end_session_and_debrief. The modules
--                       below it are about the state in which every turn leaves the
--                       interview, and about what the client has been told by then.
--   Transport           main.py, _run_session: the start and the resumption of a
--                       connection with snapshot and restore of the orchestrator, and the
--                       client's text messages.
--   Frames              main.py, _run_session: the guards on the binary audio frames.
--   Reconnect           main.py, _run_session and _save_for_reconnect: the hash under the
--                       state key, the connections that claim it, their sequence numbers,
--                       and the reapers. Its steps (Reconnect/Serial) are those of a
--                       client on one connection at a time.
--   Policy              interview/policy.py: SessionMemory.compress and
--                       InterviewSession.generate_next_turn.
--   Generation          interview/generation.py and the token of cancellation.py, tokens
--                       being numbered.
--   TurnDetection       interview/turn_detection.py: TurnEndDetector.evaluate.
--   Vad                 audio/vad.py: frames and the hysteresis of starts and ends.
--   Coaching            coaching/accumulator.py: the state the orchestrator changes.
--   Lock                session/redis_state.py: the session lock, whose renewal and
--                       release are two commands each, the stored state, the sequence
--                       numbers.
--   Claims              scoring/claims.py: check_grounding.
--
-- packages/ai-gateway/praxis_ai_gateway (module Gateway)
--   World               the store, the clock and the rows written through persistence.py.
--   Breaker, Retries    resilience.py: CircuitBreaker and with_retries.
--   Budget              budget.py: consent, check_and_reserve, commit_spend.
--   Registry            registry.py: candidates_for and filter_candidates.
--   Router, Stream      router.py: route and _stream_with_fallback.
--   Chunking            chunking.py: the assembly of units into chunks.
--   ContextPacker       context_packer.py.
--   Retrieval           retrieval.py: vector_search, fulltext_search, hybrid_search; what the database
--                       computes for a query stands with each chunk.
--   OutputSafety        output_safety.py: validate_text_output and validate_structured_output, their
--                       patterns in OutputSafety/Patterns.
--
-- backend/app (module Backend)
--   Sm2                 services/sm2.py.
--   Difficulty          services/adaptive_difficulty.py.
--   Circuit             services/provider_resilience.py.
--   Idempotency         services/worker_idempotency.py.
--   RateLimiter         rate_limiter.py.
--   Pagination, Owned   repositories/base.py (paginate and its cursors) and
--                       repositories/owned.py (list, get, create, update, delete).
--   Jobs                worker_tasks.py: the wrapper `job`; Jobs/Resume is process_resume,
--                       with store_chunks of services/document_processing.py.
--   Auth, Principal     auth.py (verify_jwt with its lists of algorithms and the options
--                       of _decode, the cached keys, the forced refresh) and
--                       dependencies.py (who a request comes from).
--   CandidateMemory     services/candidate_memory.py: update_topic_facts_from_session and
--                       _generate_inferences.
--   Uploads             core/uploads.py: validate_resume_upload; Uploads/Filename is
--                       sanitize_filename.
--
-- How they interact. The orchestrator calls the policy, the turn detector, the generations and the
-- session manager; the router calls the registry, the budget, the breaker and the retry loop on one
-- World; the resume job runs inside the wrapper of jobs, and a candidate's lists go through the
-- pagination. The proofs of each component stand in the modules below it; Tests runs them on concrete
-- inputs.
--
-- Numbers. Times are milliseconds, money is billionths of a dollar, ease factors, levels and scores
-- are thousandths and intervals hundredths of a day, all natural numbers, a rank's share and a fresh
-- average are fractions, a stored average is in ten-thousandths as its column rounds it, and ids and times of rows are numbers with the database's order; where the code rounds or
-- stops at a bound, this is written out. Python's floating-point rounding is not modelled.
--
-- Fuel and bounds. The loop of the chunker gets fuel for twice the number of units and one step more: each
-- step takes a unit, or finalizes a chunk and carries fewer units on. The retry loop gets one step more
-- than its `max_retries` + 1 calls, the last one for its test. _insert_turn makes three attempts, as in
-- the code. A walk over pages gets one step more than the owner has rows, since each page but the last
-- shows at least one, and a job gets as many tries as the wrapper allows. All other functions are by
-- recursion on lists.
--
-- Not modelled: the sockets, the HTTP routers and the database models, which are input and output; the
-- adapters of the providers, speech and vision, which call vendors; PyJWT, the key endpoint and the
-- archive reader, which are parameters; the embeddings, the scoring prompts and the debrief, which are
-- parameters of what uses them; the other jobs of worker_tasks.py, the matching and readiness scores, the
-- study and session services and the account deletion; the web and desktop applications, the scripts and
-- the evaluation.
pub mod Base
pub mod Redis
pub mod Realtime
pub mod Gateway
pub mod Backend
mod Tests
