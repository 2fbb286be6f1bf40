-- ===== src/Runner/Range.antt =====
-- `processRange` of runner/src/runner.ts.
pub mod Progress
use evm_contract_auditor_hon.Prelude.{ℕ, zero, suc, ◌+◌, ◌-◌, true, Text, length}
use evm_contract_auditor_hon.Types.Config.{RunnerConfig, CliOptions}
use evm_contract_auditor_hon.Types.Audit.{RunnerRuntime}
use evm_contract_auditor_hon.Types.Events.{RunSummary}
use evm_contract_auditor_hon.Types.Rpc.{RpcBlock, DeploymentScanResult}
use evm_contract_auditor_hon.State.{BlockRef, update_history}
use evm_contract_auditor_hon.World.{
  World, M, pure, ◌>>=◌, ◌>>◌, count, for_each, get_checkpoint, assign_checkpoint, read_clock, Env,
}
use evm_contract_auditor_hon.Client.{get_block_by_number}
use evm_contract_auditor_hon.Emit.{save}
use evm_contract_auditor_hon.Runner.Detect.{detect_deployments}
use evm_contract_auditor_hon.Runner.Process.{process_deployment}
use evm_contract_auditor_hon.Runner.Reorg.{ensure_reorg_safe_checkpoint}

-- The counters after a scan.
abbrev count_scan : DeploymentScanResult → RunSummary → RunSummary
count_scan scan s = record s {
  scanned_blocks = s.scanned_blocks + 1;
  deployments = s.deployments + length scan.deployments;
  top_level_create_deployments = s.top_level_create_deployments + scan.top_level_create_tx_count;
  internal_create_deployments = s.internal_create_deployments + scan.internal_create_count;
}

module _ (config : RunnerConfig) (env : Env) (options : CliOptions) (runtime : RunnerRuntime) where
  -- The end of a round: the block is the last processed one, and the checkpoint is saved.
  unfoldable pub finish_block : ℕ → RpcBlock → M (Unit {0})
  finish_block block_number block = do
    checkpoint ← get_checkpoint
    now ← read_clock env
    let ref : BlockRef = record {
      number = block_number;
      hash = block.hash;
      parent_hash = block.parent_hash;
    }
    assign_checkpoint (update_history checkpoint ref config.max_history now)
    save config env

  -- The first part of a round: the block, the check for a reorganisation, the deployments.
  unfoldable pub scan_block : ℕ → M RpcBlock
  scan_block block_number = do
    block ← get_block_by_number config env block_number true
    ensure_reorg_safe_checkpoint config env block
    checkpoint ← get_checkpoint
    scan ← detect_deployments config env block checkpoint.chain_id
    count (count_scan scan)
    for_each scan.deployments (process_deployment config env options runtime)
    pure block

  -- One round of the loop.
  unfoldable pub process_block : ℕ → M (Unit {0})
  process_block block_number = do block ← scan_block block_number; finish_block block_number block

  -- The rounds that are left, from `block_number` on.
  unfoldable pub process_blocks : ℕ → ℕ → M (Unit {0})
  process_blocks zero block_number = pure tt
  process_blocks (suc left) block_number =
      process_block block_number >>= λ _. process_blocks left (block_number + 1)

  -- `for (blockNumber = fromBlock; blockNumber <= toBlock; …)`
  unfoldable pub process_range : ℕ → ℕ → M (Unit {0})
  process_range from_block to_block = process_blocks (to_block + 1 - from_block) from_block
