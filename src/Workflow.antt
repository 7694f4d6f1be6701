-- ===== src/Workflow.antt =====
-- The engine of workflows: a node runs through the hooks of its lifecycle, is retried, and routes to the next node.
mod Tests
pub mod State
pub mod Failures
pub mod Retry
pub mod Routing
pub mod Intents
pub mod Lifecycle
pub mod Dispatch
