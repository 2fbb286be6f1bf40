-- ===== src/Emit.antt =====
-- `StateStore.save` of runner/src/state.ts as an action, and `emitEvent` of runner/src/runner.ts.
-- The log lines are left out.
pub mod Frame
pub mod Quiet
pub mod Posted
pub mod Stored
pub mod Delivery
use evm_contract_auditor_hon.Prelude.{
  ℕ, ◌+◌, ◌≡◌, List, [], ◌∷◌, Bool, true, false, ◌&&◌, not, Option, none, some, Text, if◌then◌else◌,
}
use evm_contract_auditor_hon.Prelude.Dict.{lookup}
use evm_contract_auditor_hon.Types.Config.{RunnerConfig, CliOptions}
use evm_contract_auditor_hon.Types.Checkpoint.{RunnerCheckpoint, Limits, DeliveredEventRecord}
use evm_contract_auditor_hon.Types.Events.{WebhookEvent, RunSummary}
use evm_contract_auditor_hon.State.{save_now, mark_event_delivered, record_pending_webhook}
use evm_contract_auditor_hon.Utils.Retry.{Result, ok, err}
use evm_contract_auditor_hon.World.{
  World, M, pure, modify, ◌>>=◌, ◌>>◌, try_catch, count, read_clock, Env,
}
use evm_contract_auditor_hon.Webhook.{post_webhook}

-- The limits that `runRunner` gives to the store.
abbrev pub limits_of : RunnerConfig → Limits
limits_of config = record {
  max_history = config.max_history;
  max_result_cache_entries = config.max_result_cache_entries;
  max_delivered_event_entries = config.max_delivered_event_entries;
  max_pending_webhook_entries = config.max_pending_webhook_entries;
  max_persisted_artifact_bytes = config.max_persisted_artifact_bytes;
}

-- `writeJsonFile` of the checkpoint: the file is replaced whole or left as it was.
unfoldable pub write_checkpoint : Env → M (Unit {0})
write_checkpoint env w = (
  env.write_file w.ticks,
  elim (env.write_file w.ticks) [
    | ok _ ↦ record w { ticks = w.ticks + 1; saved = some w.checkpoint }
    | err message ↦ record w { ticks = w.ticks + 1 }
  ],
)

module _ (config : RunnerConfig) (env : Env) where
  -- The saves of the program run one after the other, so each is one action.
  unfoldable pub save : M (Unit {0})
  save = do
    now ← read_clock env
    modify (λ w. record w { checkpoint = save_now (limits_of config) now w.checkpoint })
    write_checkpoint env

module _ (config : RunnerConfig) (env : Env) (options : CliOptions) where
  -- The body of the `try`.
  unfoldable pub deliver : WebhookEvent → M (Unit {0})
  deliver event = do
    post_webhook config env event options.dry_run_webhook
    if options.dry_run_webhook then pure tt else do
      now ← read_clock env
      modify (λ w. record w { checkpoint = mark_event_delivered w.checkpoint event now })
      save config env

  -- The `catch`.
  unfoldable pub record_failure : WebhookEvent → Text → M (Unit {0})
  record_failure event failure_reason = do
    count (λ s. record s { webhook_failures = s.webhook_failures + 1 })
    now ← read_clock env
    modify (λ w. record w {
      checkpoint = record_pending_webhook w.checkpoint event failure_reason now;
    })
    save config env

  -- An event that is known to be delivered is skipped.
  unfoldable pub emit_unless_delivered : WebhookEvent → Option DeliveredEventRecord → M (Unit {0})
  emit_unless_delivered event (some delivered) = pure tt
  emit_unless_delivered event none =
      if options.no_webhook then pure tt else try_catch (deliver event) (record_failure event)

  unfoldable pub emit_event : WebhookEvent → M (Unit {0})
  unfolding emit_unless_delivered
  emit_event event w = emit_unless_delivered event (lookup event.id w.checkpoint.delivered_events) w
