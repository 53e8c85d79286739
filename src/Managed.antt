-- ===== src/Managed.antt =====
-- src/llmcut/managed: the managed protocol, its planner and its retrieval service.
pub mod Protocol
pub mod Planner
pub mod Retrieval
pub mod Tools
pub mod Runtime
