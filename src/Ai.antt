-- ===== src/Ai.antt =====
-- packages/ai-gateway/src: the provider with its circuit breaker, and the gateway's policy.
mod Tests
pub mod Provider
