-- ===== src/Configuration.antt =====
-- The configuration of config: nested dicts, with overrides merged into them.
pub mod Merger
pub mod Manager
