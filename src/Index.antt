-- ===== src/Index.antt =====
-- src/llmcut/index: what of a repository is relevant for a task.
pub mod Content
pub mod Score
