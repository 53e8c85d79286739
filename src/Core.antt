-- ===== src/Core.antt =====
-- src/llmcut/core: deduplication, the optimizer, recovery, checkpoints and history compaction.
pub mod Dedupe
pub mod Pack
pub mod Optimize
pub mod Recover
pub mod History
pub mod Command
pub mod Checkpoints
