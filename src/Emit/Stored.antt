-- ===== src/Emit/Stored.antt =====
-- `StateStore.save` of runner/src/state.ts: the checkpoint and the file that a save leaves, whether
-- the file could be written or not.
use mathlib.Core.Path.{subst}
use evm_contract_auditor_hon.Prelude.{ℕ, ◌+◌, ◌≡◌, refl, ◌∙◌, List, Option, some, Text}
use evm_contract_auditor_hon.Types.Config.{RunnerConfig, CliOptions}
use evm_contract_auditor_hon.Types.Checkpoint.{RunnerCheckpoint}
use evm_contract_auditor_hon.Types.Events.{WebhookEvent}
use evm_contract_auditor_hon.Utils.Retry.{Result, ok, err}
use evm_contract_auditor_hon.World.{World, Env, ◌>>=◌, read_clock, modify, count}
use evm_contract_auditor_hon.Emit.{limits_of, write_checkpoint, save, record_failure}
use evm_contract_auditor_hon.State.{save_now, record_pending_webhook}

module _ (env : Env) where
  -- How the outside call `n`, a write of the file, ends: the file holds the checkpoint, or the error
  -- of the write is thrown and the file is the one before, `last`.
  pub data Written (last : Option RunnerCheckpoint) (n : ℕ) (r : Result (Unit {0})) (w : World)
      : Type 0 where
    written :
        env.write_file n ≡ ok tt → r ≡ ok tt → w.saved ≡ some w.checkpoint → Written last n r w
    unwritten :
        (reason : Text)
        → env.write_file n ≡ err reason
        → r ≡ err reason
        → w.saved ≡ last
        → Written last n r w

  -- What a save leaves, with the write of the file as the last outside call, `n`.
  pub record Stored (last : Option RunnerCheckpoint) (posts : List WebhookEvent)
      (c : RunnerCheckpoint) (n : ℕ) (r : Result (Unit {0})) (w : World) : Type 0 where
    pub posted : w.posted ≡ posts
    pub checkpoint : w.checkpoint ≡ c
    pub ticks : w.ticks ≡ n + 1
    pub file : Written last n r w

  pub Stored-same :
      (last last' : Option RunnerCheckpoint) (posts posts' : List WebhookEvent)
      (c c' : RunnerCheckpoint) (n n' : ℕ) (r : Result (Unit {0})) (w : World)
      → last ≡ last'
      → posts ≡ posts'
      → c ≡ c'
      → n ≡ n'
      → Stored last posts c n r w
      → Stored last' posts' c' n' r w
  Stored-same last last' posts posts' c c' n n' r w p q s t h =
      subst (λ k. Stored last' posts' c' k r w) t
        (record {
          posted = h.posted ∙ q;
          checkpoint = h.checkpoint ∙ s;
          ticks = h.ticks;
          file = subst (λ l. Written l n r w) p h.file;
        })

  write_checkpoint-Stored :
      (w : World)
      → let out = write_checkpoint env w in Stored w.saved w.posted w.checkpoint w.ticks out.0 out.1
  unfolding write_checkpoint
  write_checkpoint-Stored w = by_answer (env.write_file w.ticks) refl
    where
      by_answer :
          (answer : Result (Unit {0}))
          → env.write_file w.ticks ≡ answer
          → let out = write_checkpoint env w in
            Stored w.saved w.posted w.checkpoint w.ticks out.0 out.1
      by_answer (ok _) e =
          rw e
            (record { posted = refl; checkpoint = refl; ticks = refl; file = written e refl refl })
      by_answer (err reason) e = rw e (record {
        posted = refl;
        checkpoint = refl;
        ticks = refl;
        file = unwritten reason e refl refl;
      })

  module _ (config : RunnerConfig) where
    pub save-Stored :
        (w : World)
        → let out = save config env w in
          Stored w.saved w.posted
            (save_now (limits_of config) (env.now w.ticks) w.checkpoint)
            (w.ticks + 1)
            out.0
            out.1
    unfolding save read_clock modify ◌>>=◌
    save-Stored w = write_checkpoint-Stored _

    pub record_failure-Stored :
        (options : CliOptions) (event : WebhookEvent) (reason : Text) (w : World)
        → let out = record_failure config env options event reason w in
          Stored w.saved w.posted
            (save_now
              (limits_of config)
              (env.now (w.ticks + 1))
              (record_pending_webhook w.checkpoint event reason (env.now w.ticks)))
            (w.ticks + 1 + 1)
            out.0
            out.1
    unfolding record_failure read_clock modify count ◌>>=◌
    record_failure-Stored options event reason w = save-Stored _
