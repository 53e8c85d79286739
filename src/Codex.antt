-- ===== src/Codex.antt =====
-- src/llmcut/integrations/codex: what is kept of the events of the program that is driven.
pub mod Events
