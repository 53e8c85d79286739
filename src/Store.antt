-- ===== src/Store.antt =====
-- src/llmcut/store: the content-addressed evidence store. `Database` has the tables that it writes
-- and the SQL statements of `Evidence`'s methods as functions on them.
pub mod Database
pub mod Evidence
