-- ===== src/Gateway.antt =====
-- The AI gateway (packages/ai-gateway/praxis_ai_gateway): routing, resilience, budget, retrieval.
pub mod World
pub mod Breaker
pub mod Retries
pub mod Budget
pub mod Registry
pub mod Router
pub mod Stream
pub mod Chunking
pub mod ContextPacker
pub mod Retrieval
pub mod OutputSafety
