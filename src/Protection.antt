-- ===== src/Protection.antt =====
-- identity/protection: the rules of protected resources and their enforcement.
mod Enforcement
mod Manager
mod Permissions
mod Rules
mod Tests
