-- ===== src/Emit/Quiet.antt =====
-- What emitting an event leaves alone beside the checkpoint: the requests to the node, the files of
-- artifacts, the metrics and the counts of audits.
use evm_contract_auditor_hon.Prelude.{
  ℕ, ◌≡◌, refl, ◌∙◌, Bool, not, ◌&&◌, Option, none, some, Text, arith, Bool-cases, inl, inr,
}
use evm_contract_auditor_hon.Prelude.Dict.{Dict}
use evm_contract_auditor_hon.Types.Config.{RunnerConfig, CliOptions}
use evm_contract_auditor_hon.Types.Checkpoint.{DeliveredEventRecord}
use evm_contract_auditor_hon.Types.Events.{WebhookEvent}
use evm_contract_auditor_hon.World.{
  World, Metrics, ArtifactFile, count, read_clock, Env, PostAnswer, unreachable, answered,
}
use evm_contract_auditor_hon.World.Keeps.{
  Keeps, Keeps-pure, Keeps-if, Keeps-try_catch, Keeps-bind, Keeps-modify,
}
use evm_contract_auditor_hon.Client.Frame.{Keeps-retry}
use evm_contract_auditor_hon.Webhook.{
  post_webhook, post_once, receive, post_options, is_success, has_url,
}
use evm_contract_auditor_hon.Emit.{
  write_checkpoint, save, deliver, record_failure, emit_unless_delivered, emit_event,
}

-- The counts, the metrics, the artifacts and the number of requests are the given ones.
pub record Quiet (targets failures : ℕ) (measured : Metrics) (files : Dict ArtifactFile)
    (requests : ℕ) (w : World) : Type 0 where
  pub audit_targets : w.summary.audit_targets ≡ targets
  pub audit_failures : w.summary.audit_failures ≡ failures
  pub metrics : w.metrics ≡ measured
  pub artifacts : w.artifacts ≡ files
  pub id : w.id ≡ requests

module _ (config : RunnerConfig) (env : Env) (targets failures : ℕ) (measured : Metrics)
    (files : Dict ArtifactFile) (requests : ℕ) where
  abbrev Still : World → Type 0
  Still = Quiet targets failures measured files requests

  -- A step that touches none of them.
  same :
      (w w' : World)
      → (w'.summary.audit_targets ≡ w.summary.audit_targets)
        × (w'.summary.audit_failures ≡ w.summary.audit_failures)
        × (w'.metrics ≡ w.metrics)
        × (w'.artifacts ≡ w.artifacts)
        × (w'.id ≡ w.id)
      → Still w
      → Still w'
  same w w' (a, b, c, d, e) k = record {
    audit_targets = a ∙ k.audit_targets;
    audit_failures = b ∙ k.audit_failures;
    metrics = c ∙ k.metrics;
    artifacts = d ∙ k.artifacts;
    id = e ∙ k.id;
  }

  Keeps-receive : (event : WebhookEvent) (answer : PostAnswer) → Keeps Still (receive event answer)
  unfolding receive
  Keeps-receive event (unreachable message) = record { at = λ w k. k }
  Keeps-receive event (answered status) = record {
    at = λ w k. elim (Bool-cases (is_success status)) [
      | inl good ↦ rw good (same w _ (refl, refl, refl, refl, refl) k)
      | inr bad ↦ rw bad k
    ];
  }

  Keeps-post_once : (event : WebhookEvent) → Keeps Still (post_once env event)
  unfolding post_once
  Keeps-post_once event = record {
    at = λ w k.
        (Keeps-receive event (env.post w.ticks event)).at _
          (same w _ (refl, refl, refl, refl, refl) k);
  }

  Keeps-post_webhook :
      (event : WebhookEvent) (dry : Bool) → Keeps Still (post_webhook config env event dry)
  unfolding post_webhook
  Keeps-post_webhook event dry =
      Keeps-if (has_url config.webhook_url && not dry) _ _
        (Keeps-retry Still (λ _. post_once env event) (post_options config)
          (λ _. Keeps-post_once event))
        (Keeps-pure tt)

  pub Keeps-read_clock : Keeps Still (read_clock env)
  unfolding read_clock
  Keeps-read_clock = record { at = λ w k. same w _ (refl, refl, refl, refl, refl) k }

  Keeps-write_checkpoint : Keeps Still (write_checkpoint env)
  unfolding write_checkpoint
  Keeps-write_checkpoint = record { at = λ w k. ground arith }

  Keeps-save : Keeps Still (save config env)
  unfolding save
  Keeps-save = Keeps-bind _ _ Keeps-read_clock (λ now.
      Keeps-bind _ _ (Keeps-modify _ (λ w k. same w _ (refl, refl, refl, refl, refl) k))
        (λ _. Keeps-write_checkpoint))

  module _ (options : CliOptions) (event : WebhookEvent) where
    Keeps-deliver : Keeps Still (deliver config env options event)
    unfolding deliver
    Keeps-deliver = Keeps-bind _ _ (Keeps-post_webhook event options.dry_run_webhook) (λ _.
        Keeps-if options.dry_run_webhook _ _ (Keeps-pure tt) (
          Keeps-bind _ _ Keeps-read_clock (λ now.
            Keeps-bind _ _ (Keeps-modify _ (λ w k. same w _ (refl, refl, refl, refl, refl) k))
              (λ _. Keeps-save))))

    Keeps-record_failure :
        (reason : Text) → Keeps Still (record_failure config env options event reason)
    unfolding record_failure count
    Keeps-record_failure reason =
        Keeps-bind _ _ (record { at = λ w k. same w _ (refl, refl, refl, refl, refl) k })
          (λ _. Keeps-bind _ _ Keeps-read_clock (λ now.
            Keeps-bind _ _ (Keeps-modify _ (λ w k. same w _ (refl, refl, refl, refl, refl) k))
              (λ _. Keeps-save)))

    Keeps-emit_unless_delivered :
        (o : Option DeliveredEventRecord)
        → Keeps Still (emit_unless_delivered config env options event o)
    unfolding emit_unless_delivered
    Keeps-emit_unless_delivered (some d) = Keeps-pure tt
    Keeps-emit_unless_delivered none =
        Keeps-if options.no_webhook _ _ (Keeps-pure tt)
          (Keeps-try_catch _ _ Keeps-deliver Keeps-record_failure)

    pub Keeps-emit_event : Keeps Still (emit_event config env options event)
    unfolding emit_event
    Keeps-emit_event = record { at = λ w k. (Keeps-emit_unless_delivered _).at w k }
