-- ===== src/Events.antt =====
-- The events of events: who listens to them.
pub mod Listeners
