-- ===== src/Types.antt =====
-- runner/src/types.ts: the data that the runner's parts exchange. An optional property is an
-- `Option`, a union of literals is a data type, and a time (an ISO text that `nowIso` makes) is the
-- number of milliseconds since the epoch, which that text and `Date.parse` determine.
pub mod Proxy
pub mod Audit
pub mod Events
pub mod Checkpoint
pub mod Rpc
pub mod Config
