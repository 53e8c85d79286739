-- ===== src/Tests.antt =====
-- Concrete inputs, and what the theorems say of them.
pub mod Fixtures
pub mod Stored
pub mod Optimized
pub mod Modelled
pub mod Planned
pub mod Retrieved
pub mod Proxied
pub mod Commanded
pub mod Running
pub mod Closed
pub mod Adapted
pub mod Evented
pub mod Indexed
