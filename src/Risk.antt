-- ===== src/Risk.antt =====
-- packages/risk: the circuit breaker, and the engine that every intent passes.
pub mod Breaker
pub mod Engine
