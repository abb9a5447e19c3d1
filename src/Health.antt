-- ===== src/Health.antt =====
-- modules/health: what the service does about its own load.
pub mod Classification
pub mod Alerting
pub mod Mitigation
