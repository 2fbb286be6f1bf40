-- ===== src/Runner.antt =====
-- runner/src/runner.ts: scanning blocks, auditing what they deploy, and reporting it.
pub mod Ids
pub mod Detect
pub mod Results
pub mod Process
pub mod Reorg
pub mod Range
pub mod Replay
pub mod Bounded
pub mod Follow
