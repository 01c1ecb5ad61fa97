-- ===== src/Modules.antt =====
-- The built-in module registry, src/memoriesql/application/module_registry.py, and version ranges.
pub mod Compose
pub mod Versions
pub mod Allowed
pub mod Degraded
pub mod Settled
mod Tests
