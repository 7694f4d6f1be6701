-- ===== src/Resilience.antt =====
-- storage/resilience/strategies: how calls of the database are protected.
pub mod Breaker
pub mod Backoff
