-- ===== src/Authorization.antt =====
-- identity/authorization: providers of decisions.
pub mod Memory
