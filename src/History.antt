-- ===== src/History.antt =====
-- history: messages and their filters.
pub mod Filters
