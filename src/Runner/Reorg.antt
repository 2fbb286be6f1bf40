-- ===== src/Runner/Reorg.antt =====
-- `ensureReorgSafeCheckpoint` of runner/src/runner.ts.
pub mod Search
use evm_contract_auditor_hon.Prelude.{
  ℕ, ◌+◌, List, [], ◌∷◌, Bool, false, Option, none, some, leb, ltb, ◌==◌, if◌then◌else◌, text_eq,
  find?,
}
use evm_contract_auditor_hon.Prelude.Int.{ℤ, pos, negsuc, max_ℤ, ◌-ℤ◌}
use evm_contract_auditor_hon.Types.Config.{RunnerConfig}
use evm_contract_auditor_hon.Types.Checkpoint.{BlockHistoryEntry, RunnerCheckpoint}
use evm_contract_auditor_hon.Types.Rpc.{RpcBlock}
use evm_contract_auditor_hon.State.{rewind_checkpoint}
use evm_contract_auditor_hon.World.{
  M, pure, ◌>>=◌, ◌>>◌, get_checkpoint, assign_checkpoint, read_clock, Env,
}
use evm_contract_auditor_hon.Client.{get_block_by_number}
use evm_contract_auditor_hon.Emit.{save}

-- `entry.number === blockNumber - 1`; block 0 has no predecessor.
abbrev pub is_previous : ℕ → BlockHistoryEntry → Bool
is_previous block_number entry = entry.number + 1 == block_number

unfoldable pub previous_entry : ℕ → List BlockHistoryEntry → Option BlockHistoryEntry
unfolding find?
previous_entry block_number history = find? (is_previous block_number) history

-- `sort((a, b) => b.number - a.number)`: the highest number first, stable.
unfoldable pub insert_descending :
    BlockHistoryEntry → List BlockHistoryEntry → List BlockHistoryEntry
insert_descending a [] = a ∷ []
insert_descending a (b ∷ bs) =
    if leb b.number a.number then a ∷ b ∷ bs else b ∷ insert_descending a bs

unfoldable pub sort_descending : List BlockHistoryEntry → List BlockHistoryEntry
unfolding insert_descending
sort_descending [] = []
sort_descending (a ∷ bs) = insert_descending a (sort_descending bs)

-- `blockNumber - entry.number > maxReorgDepth`
abbrev pub too_deep : RunnerConfig → ℕ → BlockHistoryEntry → Bool
too_deep config block_number entry = ltb (entry.number + config.max_reorg_depth) block_number

module _ (config : RunnerConfig) (env : Env) where
  -- The loop over the history. The entry whose hash the node still has ends it.
  unfoldable pub find_common : ℕ → List BlockHistoryEntry → M (Option ℕ)
  find_common block_number [] = pure none
  find_common block_number (entry ∷ entries) =
      let rest = find_common block_number entries in
      let check = get_block_by_number config env entry.number false >>= λ chain_block.
      if text_eq chain_block.hash entry.hash then pure (some entry.number) else rest in
      if too_deep config block_number entry then pure none else check

  unfoldable pub fallback : ℤ
  unfolding ◌-ℤ◌
  fallback = max_ℤ (pos config.start_block -ℤ pos 1) (negsuc 0)

  abbrev pub rewind_target : Option ℕ → ℤ
  rewind_target none = fallback
  rewind_target (some number) = pos number

  unfoldable pub rewind : RpcBlock → RunnerCheckpoint → M (Unit {0})
  rewind block c = do
    found ← find_common block.number (sort_descending c.history)
    now ← read_clock env
    assign_checkpoint (rewind_checkpoint c (rewind_target found) now)
    save config env

  -- The decision on the entry of the block before.
  unfoldable pub compare_parent :
      RpcBlock → RunnerCheckpoint → Option BlockHistoryEntry → M (Unit {0})
  compare_parent block c none = pure tt
  compare_parent block c (some previous) =
      if text_eq previous.hash block.parent_hash then pure tt else rewind block c

  unfoldable pub ensure_reorg_safe_checkpoint : RpcBlock → M (Unit {0})
  ensure_reorg_safe_checkpoint block = do
    c ← get_checkpoint
    compare_parent block c (previous_entry block.number c.history)
