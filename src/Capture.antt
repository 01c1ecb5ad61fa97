-- ===== src/Capture.antt =====
-- Capture (src/memoriesql/application/capture): the host reader's protocol, the raw source-range
-- loop and the transcript fold.
pub mod Host
pub mod Range
pub mod Fold
