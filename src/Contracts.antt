-- ===== src/Contracts.antt =====
-- What every contract model shares: text patterns (src/memoriesql/domain/module_manifest.py,
-- src/memoriesql/application/semantic_task_contracts.py), canonical JSON and hashing, and effects.
pub mod Text
pub mod Hex
pub mod Runtime
pub mod Exec
pub mod Samples
