-- ===== src/Proxy.antt =====
-- src/llmcut/proxy: what the proxy does to the requests that pass through it.
pub mod Native
pub mod Security
