-- ===== src/Licensing.antt =====
-- identity/licensing: limits of what an organisation may use.
pub mod Usage
