-- ===== src/Emit/Frame.antt =====
-- What emitting an event leaves alone: the block history and the last processed block.
use evm_contract_auditor_hon.Prelude.{
  ℕ, ◌+◌, ◌≤◌, ◌≡◌, refl, ◌∙◌, List, Bool, not, ◌&&◌, Option, none, some, Text, length, arith,
  Bool-cases, inl, inr,
}
use evm_contract_auditor_hon.Prelude.Int.{ℤ}
use evm_contract_auditor_hon.Types.Config.{RunnerConfig, CliOptions}
use evm_contract_auditor_hon.Types.Checkpoint.{DeliveredEventRecord, BlockHistoryEntry}
use evm_contract_auditor_hon.Types.Events.{WebhookEvent, RunSummary}
use evm_contract_auditor_hon.State.{save_now, mark_event_delivered, record_pending_webhook}
use evm_contract_auditor_hon.State.History.{slice_last_of_short}
use evm_contract_auditor_hon.World.{
  World, count, read_clock, Env, PostAnswer, unreachable, answered,
}
use evm_contract_auditor_hon.World.Keeps.{
  Keeps, Keeps-pure, Keeps-if, Keeps-try_catch, Keeps-bind, Keeps-modify,
}
use evm_contract_auditor_hon.Client.Frame.{Keeps-retry}
use evm_contract_auditor_hon.Webhook.{
  post_webhook, post_once, receive, post_options, is_success, has_url,
}
use evm_contract_auditor_hon.Emit.{
  limits_of, write_checkpoint, save, deliver, record_failure, emit_unless_delivered, emit_event,
}

-- The history and the last processed block are the given ones, and the history is within the limit,
-- so that a save cuts nothing off.
pub record At (max_history : ℕ) (h : List BlockHistoryEntry) (last : ℤ) (w : World) : Type 0 where
  pub short : length h ≤ max_history
  pub history : w.checkpoint.history ≡ h
  pub last_block : w.checkpoint.last_processed_block ≡ last

module _ (config : RunnerConfig) (env : Env) (h : List BlockHistoryEntry) (last : ℤ) where
  abbrev Here : World → Type 0
  Here = At config.max_history h last

  -- A step that touches neither.
  pub Here-same :
      (w w' : World)
      → w'.checkpoint.history ≡ w.checkpoint.history
      → w'.checkpoint.last_processed_block ≡ w.checkpoint.last_processed_block
      → Here w
      → Here w'
  Here-same w w' p q k = record {
    short = k.short;
    history = p ∙ k.history;
    last_block = q ∙ k.last_block;
  }

  pub next_id : (w : World) → Here w → Here (record w { id = w.id + 1 })
  next_id w k = Here-same w _ refl refl k

  Keeps-receive : (event : WebhookEvent) (answer : PostAnswer) → Keeps Here (receive event answer)
  unfolding receive
  Keeps-receive event (unreachable message) = record { at = λ w k. k }
  Keeps-receive event (answered status) = record {
    at = λ w k. elim (Bool-cases (is_success status)) [
      | inl good ↦ rw good (Here-same w _ refl refl k)
      | inr bad ↦ rw bad k
    ];
  }

  Keeps-post_once : (event : WebhookEvent) → Keeps Here (post_once env event)
  unfolding post_once
  Keeps-post_once event = record {
    at = λ w k. (Keeps-receive event (env.post w.ticks event)).at _ (Here-same w _ refl refl k);
  }

  pub Keeps-post_webhook :
      (event : WebhookEvent) (dry : Bool) → Keeps Here (post_webhook config env event dry)
  unfolding post_webhook
  Keeps-post_webhook event dry =
      Keeps-if (has_url config.webhook_url && not dry) _ _
        (Keeps-retry Here (λ _. post_once env event) (post_options config)
          (λ _. Keeps-post_once event))
        (Keeps-pure tt)

  pub Keeps-read_clock : Keeps Here (read_clock env)
  unfolding read_clock
  Keeps-read_clock = record { at = λ w k. Here-same w _ refl refl k }

  Keeps-write_checkpoint : Keeps Here (write_checkpoint env)
  unfolding write_checkpoint
  Keeps-write_checkpoint = record { at = λ w k. ground arith }

  save_now-Here :
      (now : ℕ) (w : World)
      → Here w
      → Here (record w { checkpoint = save_now (limits_of config) now w.checkpoint })
  unfolding save_now
  save_now-Here now w k = record {
    short = k.short;
    history = rw k.history (slice_last_of_short config.max_history h k.short);
    last_block = k.last_block;
  }

  pub Keeps-save : Keeps Here (save config env)
  unfolding save
  Keeps-save =
      Keeps-bind _ _ Keeps-read_clock
        (λ now. Keeps-bind _ _ (Keeps-modify _ (save_now-Here now)) (λ _. Keeps-write_checkpoint))

  Keeps-count : (f : RunSummary → RunSummary) → Keeps Here (count f)
  unfolding count
  Keeps-count f = record { at = λ w k. Here-same w _ refl refl k }

  module _ (options : CliOptions) where
    Keeps-deliver : (event : WebhookEvent) → Keeps Here (deliver config env options event)
    unfolding deliver mark_event_delivered
    Keeps-deliver event = Keeps-bind _ _ (Keeps-post_webhook event options.dry_run_webhook) (λ _.
        Keeps-if options.dry_run_webhook _ _ (Keeps-pure tt) (
          Keeps-bind _ _ Keeps-read_clock (λ now.
            Keeps-bind _ _ (Keeps-modify _ (λ w k. Here-same w _ refl refl k)) (λ _. Keeps-save))))

    Keeps-record_failure :
        (event : WebhookEvent) (reason : Text)
        → Keeps Here (record_failure config env options event reason)
    unfolding record_failure record_pending_webhook
    Keeps-record_failure event reason = Keeps-bind _ _ (Keeps-count _) (λ _.
        Keeps-bind _ _ Keeps-read_clock (λ now.
          Keeps-bind _ _ (Keeps-modify _ (λ w k. Here-same w _ refl refl k)) (λ _. Keeps-save)))

    Keeps-emit_unless_delivered :
        (event : WebhookEvent) (o : Option DeliveredEventRecord)
        → Keeps Here (emit_unless_delivered config env options event o)
    unfolding emit_unless_delivered
    Keeps-emit_unless_delivered event (some d) = Keeps-pure tt
    Keeps-emit_unless_delivered event none =
        Keeps-if options.no_webhook _ _ (Keeps-pure tt)
          (Keeps-try_catch _ _ (Keeps-deliver event) (Keeps-record_failure event))

    -- Emitting an event, delivered or not, leaves a history within the limit and the last processed
    -- block as they were.
    pub Keeps-emit_event : (event : WebhookEvent) → Keeps Here (emit_event config env options event)
    unfolding emit_event
    Keeps-emit_event event = record { at = λ w k. (Keeps-emit_unless_delivered event _).at w k }
