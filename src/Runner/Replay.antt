-- ===== src/Runner/Replay.antt =====
-- `replayPendingWebhookEvents` of runner/src/runner.ts; the events are emitted one after the other.
use evm_contract_auditor_hon.Prelude.{◌≤◌, ◌≡◌, refl, List, map, Text, length}
use evm_contract_auditor_hon.Types.Config.{RunnerConfig, CliOptions}
use evm_contract_auditor_hon.Types.Checkpoint.{RunnerCheckpoint, PendingWebhookRecord}
use evm_contract_auditor_hon.World.{World, M, for_each, Env}
use evm_contract_auditor_hon.World.Keeps.{Keeps-for_each}
use evm_contract_auditor_hon.Emit.{emit_event}
use evm_contract_auditor_hon.Emit.Frame.{Keeps-emit_event}

-- `Object.values(checkpoint.pendingWebhookEvents)`
abbrev pending_records : RunnerCheckpoint → List PendingWebhookRecord
pending_records c = map (λ (entry : Text × PendingWebhookRecord). entry.1) c.pending_webhook_events

module _ (config : RunnerConfig) (env : Env) (options : CliOptions) where
  -- The records are those that are pending at the start.
  unfoldable pub replay_pending_webhook_events : M (Unit {0})
  replay_pending_webhook_events w =
      for_each (pending_records w.checkpoint) (λ r. emit_event config env options r.event) w

  -- However the posts and the saves of a replay end, a history that is within its limit and the
  -- last processed block are left as they were.
  pub replay_pending_webhook_events_lem :
      (w : World)
      → length w.checkpoint.history ≤ config.max_history
      → ((replay_pending_webhook_events w).1.checkpoint.history ≡ w.checkpoint.history)
        × ((replay_pending_webhook_events w).1.checkpoint.last_processed_block
            ≡ w.checkpoint.last_processed_block)
  unfolding replay_pending_webhook_events
  replay_pending_webhook_events_lem w short =
      let kept =
        (Keeps-for_each (pending_records w.checkpoint) (λ r. emit_event config env options r.event)
            (λ r.
              Keeps-emit_event config env w.checkpoint.history w.checkpoint.last_processed_block
                options r.event)).at
          w (record { short = short; history = refl; last_block = refl }) in
      (kept.history, kept.last_block)
