-- ===== src/Runner/Range/Progress.antt =====
-- Where `processRange` of runner/src/runner.ts leaves the checkpoint.
use evm_contract_auditor_hon.Prelude.{ℕ, zero, suc, ◌+◌, ◌-◌, ◌≤◌, ◌≡◌, refl, ap, arith, some}
use mathlib.Core.Path.{subst}
use evm_contract_auditor_hon.Prelude.Int.{pos}
use evm_contract_auditor_hon.Types.Config.{RunnerConfig, CliOptions}
use evm_contract_auditor_hon.Types.Audit.{RunnerRuntime}
use evm_contract_auditor_hon.Types.Rpc.{RpcBlock}
use evm_contract_auditor_hon.State.{update_history, save_now}
use evm_contract_auditor_hon.Utils.Retry.{Result, ok, err}
use evm_contract_auditor_hon.World.{
  World, pure, modify, ◌>>=◌, get_checkpoint, assign_checkpoint, read_clock, Env,
}
use evm_contract_auditor_hon.World.Keeps.{bind-ok}
use evm_contract_auditor_hon.Emit.{save, write_checkpoint}
use evm_contract_auditor_hon.Runner.Range.{
  finish_block, scan_block, process_block, process_blocks, process_range,
}

-- Block `n` is the last processed one, and the file holds the checkpoint of the process.
pub record ReachedBlock (n : ℕ) (w : World) : Type 0 where
  pub last_block : w.checkpoint.last_processed_block ≡ pos n
  pub written : w.saved ≡ some w.checkpoint

module _ (config : RunnerConfig) (env : Env) where
  write_checkpoint-ok :
      (n : ℕ) (w w' : World)
      → w.checkpoint.last_processed_block ≡ pos n
      → write_checkpoint env w ≡ (ok tt, w')
      → ReachedBlock n w'
  unfolding write_checkpoint
  write_checkpoint-ok n w w' h e = by_answer (env.write_file w.ticks) e
    where
      by_answer :
          (r : Result (Unit {0}))
          → ◌≡◌ {A = Result (Unit {0}) × World}
              (
                r,
                elim r [
                  | ok _ ↦ record w { ticks = w.ticks + 1; saved = some w.checkpoint }
                  | err message ↦ record w { ticks = w.ticks + 1 }
                ],
              )
              (ok tt, w')
          → ReachedBlock n w'
      by_answer (ok _) k =
          subst (ReachedBlock n) (ap (λ (p : Result (Unit {0}) × World). p.1) k)
            (record { last_block = h; written = refl })
      by_answer (err message) k = cc

  save-ReachedBlock :
      (n : ℕ) (w w' : World)
      → w.checkpoint.last_processed_block ≡ pos n
      → save config env w ≡ (ok tt, w')
      → ReachedBlock n w'
  unfolding save modify read_clock ◌>>=◌ save_now
  save-ReachedBlock n w w' h e = write_checkpoint-ok n _ w' h e

  module _ (options : CliOptions) (runtime : RunnerRuntime) where
    finish_block-ReachedBlock :
        (n : ℕ) (block : RpcBlock) (w w' : World)
        → finish_block config env options runtime n block w ≡ (ok tt, w')
        → ReachedBlock n w'
    unfolding finish_block get_checkpoint assign_checkpoint read_clock ◌>>=◌ update_history
    finish_block-ReachedBlock n block w w' e = save-ReachedBlock n _ w' refl e

    -- A round that returns, whatever the node answered and whether or not it found a
    -- reorganisation and rewound the checkpoint, ends with its block as the last processed one, and
    -- the saved file holds that checkpoint.
    pub process_block-ReachedBlock :
        (n : ℕ) (w w' : World)
        → process_block config env options runtime n w ≡ (ok tt, w')
        → ReachedBlock n w'
    unfolding process_block
    process_block-ReachedBlock n w w' e =
        let (block, w₁, _, f) =
          bind-ok (scan_block config env options runtime n)
            (finish_block config env options runtime n) w w' tt e in
        finish_block-ReachedBlock n block w₁ w' f

    -- After the block `n` and `left` further ones.
    process_blocks-ReachedBlock :
        (left n : ℕ) (w w' : World)
        → process_blocks config env options runtime (suc left) n w ≡ (ok tt, w')
        → ReachedBlock (n + left) w'
    unfolding process_blocks pure
    process_blocks-ReachedBlock zero n w w' e =
        let (_, w₁, f, g) =
          bind-ok (process_block config env options runtime n)
            (λ _. process_blocks config env options runtime 0 (n + 1)) w w' tt e in
        let here : w₁ ≡ w' = ap (λ (p : Result (Unit {0}) × World). p.1) g in
        subst (λ m. ReachedBlock m w') (omega arith)
          (subst (ReachedBlock n) here (process_block-ReachedBlock n w w₁ f))
    process_blocks-ReachedBlock (suc left) n w w' e =
        let (_, w₁, _, g) =
          bind-ok (process_block config env options runtime n)
            (λ _. process_blocks config env options runtime (suc left) (n + 1)) w w' tt e in
        subst (λ m. ReachedBlock m w') (omega arith)
          (process_blocks-ReachedBlock left (n + 1) w₁ w' g)

    -- A range with at least one block that is processed without an error, whatever reorganisations
    -- its rounds found, ends with `to_block` as the last processed block, and the saved file holds
    -- that checkpoint.
    pub process_range-ReachedBlock :
        (from_block to_block : ℕ) (w w' : World)
        → from_block ≤ to_block
        → process_range config env options runtime from_block to_block w ≡ (ok tt, w')
        → ReachedBlock to_block w'
    unfolding process_range
    process_range-ReachedBlock from_block to_block w w' h e =
        let left : ℕ = to_block - from_block in
        let sized : (to_block + 1 - from_block) ≡ suc left = omega arith in
        subst (λ m. ReachedBlock m w') (omega arith)
          (process_blocks-ReachedBlock left from_block w w' (
            subst (λ m. process_blocks config env options runtime m from_block w ≡ (ok tt, w'))
              sized e))
