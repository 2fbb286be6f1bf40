-- ===== src/State/Saving.antt =====
-- `load` and `saveNow` of runner/src/state.ts.
use evm_contract_auditor_hon.Prelude.{ℕ, ◌≤◌, ◌≡◌, arith, length, length-slice_last}
use evm_contract_auditor_hon.Types.Checkpoint.{RunnerCheckpoint, Limits}
use evm_contract_auditor_hon.State.{
  save_now, load, CheckpointFile, missing, refused, valid, checkpoint,
}
use evm_contract_auditor_hon.State.Prune.{prune_record_map-Pruned}
use evm_contract_auditor_hon.State.Distinct.{Distinct, slice_last-Distinct}

-- Whatever the file holds, a checkpoint that `load` returns is one of the chain that was asked for.
pub load-chain_id :
    (chain_id start_block now : ℕ) (file : CheckpointFile) (c : RunnerCheckpoint)
    → load chain_id start_block now file ≡ checkpoint c
    → c.chain_id ≡ chain_id
unfolding load
load-chain_id chain_id start_block now missing c h = ground arith
load-chain_id chain_id start_block now (refused message) c h = cc
load-chain_id chain_id start_block now (valid d) c h = ground arith

-- What a save leaves in memory and in the file: each part is within its limit, and no block number
-- occurs twice if none did.
pub record IsSaved (limits : Limits) (c : RunnerCheckpoint) : Type 0 where
  pub history : length c.history ≤ limits.max_history
  pub results : length c.result_cache ≤ limits.max_result_cache_entries
  pub delivered : length c.delivered_events ≤ limits.max_delivered_event_entries
  pub pending : length c.pending_webhook_events ≤ limits.max_pending_webhook_entries
  pub distinct : Distinct c.history

-- A save brings any checkpoint with distinct block numbers within the limits, if the history may
-- hold a block at all.
pub save_now-IsSaved :
    (limits : Limits) (now : ℕ) (c : RunnerCheckpoint)
    → 1 ≤ limits.max_history
    → Distinct c.history
    → IsSaved limits (save_now limits now c)
unfolding save_now
save_now-IsSaved limits now c positive h = record {
  history = omega (arith, length-slice_last limits.max_history c.history positive);
  results =
      omega
        (arith, (prune_record_map-Pruned _ limits.max_result_cache_entries c.result_cache).size);
  delivered = omega (
    arith,
    (prune_record_map-Pruned _ limits.max_delivered_event_entries c.delivered_events).size,
  );
  pending = omega (
    arith,
    (prune_record_map-Pruned _ limits.max_pending_webhook_entries c.pending_webhook_events).size,
  );
  distinct = slice_last-Distinct limits.max_history c.history h;
}
