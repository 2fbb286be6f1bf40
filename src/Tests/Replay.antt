-- ===== src/Tests/Replay.antt =====
-- An example for `replayPendingWebhookEvents` of runner/src/runner.ts: one event is pending.
use evm_contract_auditor_hon.Prelude.{◌≡◌, arith, [], ◌∷◌, codes}
use evm_contract_auditor_hon.World.{World}
use evm_contract_auditor_hon.Runner.Replay.{
  replay_pending_webhook_events, replay_pending_webhook_events_lem,
}
use evm_contract_auditor_hon.Tests.Data.{config, env, options, event, world}

abbrev waiting : World
waiting = record world {
  checkpoint = record world.checkpoint {
    pending_webhook_events =
        (
          codes "e1",
          record {
            event = event;
            first_failed_at = 6;
            last_failed_at = 7;
            failure_reason = codes "webhook http 503";
            attempts = 2;
          },
        )
        ∷ [];
  };
}

replay_pending_webhook_events_lem_example :
    ((replay_pending_webhook_events config env options waiting).1.checkpoint.history
      ≡ waiting.checkpoint.history)
    × ((replay_pending_webhook_events config env options waiting).1.checkpoint.last_processed_block
        ≡ waiting.checkpoint.last_processed_block)
replay_pending_webhook_events_lem_example =
    replay_pending_webhook_events_lem config env options waiting (omega arith)
