-- ===== src/Pipeline.antt =====
-- The pipeline of a project: which stages it has, how it is started, advanced and cancelled
-- (modules/jobs).
pub mod Source
pub mod Transition
pub mod Store
pub mod Reasons
pub mod Quality
pub mod Reconciliation
pub mod Lifecycle
