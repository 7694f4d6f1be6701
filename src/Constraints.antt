-- ===== src/Constraints.antt =====
-- identity/authorization/constraints: conditions on who asks, for what, when and from where.
pub mod Models
pub mod Time
pub mod Resource
pub mod Location
pub mod Context
pub mod Registry
mod Tests
