-- ===== src/Llm.antt =====
-- app/llm: the circuit breaker of each provider, the calls of the model, and their runs.
pub mod Breaker
pub mod Client
pub mod Counted
pub mod Runs
pub mod Structured
mod Tests
