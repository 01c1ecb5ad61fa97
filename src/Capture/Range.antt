-- ===== src/Capture/Range.antt =====
-- source_range.py of src/memoriesql/application/capture: raw bytes captured before any
-- interpretation. `Command` and `Cursor` hold the contract models, `Build` the command builder and
-- `Loop` the capture loop; the other modules prove what they do.
pub mod Command
pub mod Build
pub mod Cursor
pub mod Loop
pub mod Chunks
pub mod Built
pub mod Sound
pub mod Once
pub mod Runs
pub mod Tiling
mod Tests
