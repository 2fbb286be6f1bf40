-- ===== src/Utils.antt =====
-- runner/src/utils.ts, by subject.
pub mod Hex
pub mod ParseInt
pub mod Transient
pub mod Retry
pub mod Checks
