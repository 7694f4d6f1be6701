-- ===== src/Llm.antt =====
-- llm: one invocation of a language model, from its messages to its costs.
pub mod Lifecycle
pub mod ToolExecutor
pub mod ToolResultCache
pub mod Pool
