-- ===== src/Authentication.antt =====
-- identity/authentication: who may try to log in, and with which keys tokens are verified.
pub mod RateLimiter
pub mod KeyRotation
pub mod Middleware
pub mod Fallback
pub mod Health
pub mod Manager
pub mod Credentials
