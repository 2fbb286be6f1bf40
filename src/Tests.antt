-- ===== src/Tests.antt =====
-- Examples: each applies a theorem at a concrete value.
mod Data
mod State
mod Emit
mod Proxy
mod Audit
mod Utils
mod Range
mod Detect
mod Replay
mod Reorg
mod Bounded
mod Lease
mod Startup
mod Child
mod Follow
mod Panel
mod Abi
