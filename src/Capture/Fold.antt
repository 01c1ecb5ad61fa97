-- ===== src/Capture/Fold.antt =====
-- Folding of retained bytes into records: transcript_fold.py.
pub mod Frame
pub mod Source
pub mod Exact
pub mod Outcome
pub mod Command
pub mod Commit
pub mod Cursor
pub mod State
pub mod Framed
pub mod Sliced
pub mod ExactRead
pub mod Sound
pub mod Span
pub mod Sealed
pub mod SealedOnce
pub mod Adapter
pub mod Records
pub mod Reads
pub mod Settle
pub mod Resolve
pub mod Migrate
pub mod Run
pub mod Assembled
pub mod Resolved
pub mod Committed
pub mod Finished
pub mod Reported
pub mod RunOnce
pub mod Moved
pub mod Bounded
pub mod Stuck
pub mod Built
mod Tests
mod SealedTests
mod RunTests
mod MoveTests
mod StuckTests
