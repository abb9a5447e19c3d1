-- ===== src/Events.antt =====
-- modules/events: the sockets that follow a project, and what they are sent.
pub mod Metrics
pub mod Gateway
pub mod Messages
