-- ===== src/Panel.antt =====
-- The web panel beside the runner, as far as it shares files with it.
pub mod EnvStore
pub mod Abi
