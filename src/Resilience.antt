-- ===== src/Resilience.antt =====
-- The parts that protect the pipeline: circuit breaker, permits, quotas, signed webhooks, retries.
pub mod Breaker
pub mod Permits
pub mod Quota
pub mod Webhook
pub mod Errors
pub mod Script
