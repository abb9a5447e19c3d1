-- ===== src/Jobs.antt =====
-- The jobs of the pipeline: their rows, their dispatch to the queues, their supervision
-- (modules/jobs).
pub mod Crud
pub mod State
pub mod Dispatch
pub mod Coordinator
pub mod Watchdog
pub mod DeadLetter
pub mod Progress
