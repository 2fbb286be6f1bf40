-- ===== src/Emit/Delivery.antt =====
-- Delivery of events by `emitEvent` of runner/src/runner.ts.
use mathlib.Core.Path.{subst}
use evm_contract_auditor_hon.Prelude.{
  ℕ, ◌+◌, ◌≡◌, refl, sym, ◌∙◌, ap, List, [], ◌∷◌, ◌++◌, Bool, true, false, none, some, Text, arith,
  if◌then◌else◌,
}
use evm_contract_auditor_hon.Types.Config.{RunnerConfig, CliOptions}
use evm_contract_auditor_hon.Types.Checkpoint.{DeliveredEventRecord, RunnerCheckpoint}
use evm_contract_auditor_hon.Types.Events.{WebhookEvent}
use evm_contract_auditor_hon.State.Pending.{delivered_at}
use evm_contract_auditor_hon.Utils.Retry.{Result, ok, err}
use evm_contract_auditor_hon.Webhook.{post_webhook, has_url}
use evm_contract_auditor_hon.World.{
  World, M, pure, Env, continue, ◌>>=◌, ◌>>◌, handle, try_catch, read_clock, modify,
}
use evm_contract_auditor_hon.Emit.{limits_of, save, deliver, record_failure, emit_event}
use evm_contract_auditor_hon.Emit.Posted.{Either, Shows, post_webhook-Either}
use evm_contract_auditor_hon.Emit.Stored.{
  Written, written, unwritten, Stored, Stored-same, save-Stored, record_failure-Stored,
}
use evm_contract_auditor_hon.State.{save_now, mark_event_delivered, record_pending_webhook}

module _ (config : RunnerConfig) (env : Env) (options : CliOptions) where
  -- An event whose identifier is recorded as delivered is not posted again: emitting it changes
  -- nothing at all, and in particular a pending record that it still has stays.
  pub emit_event_of_delivered :
      (event : WebhookEvent) (w : World) (d : DeliveredEventRecord)
      → delivered_at event.id w.checkpoint ≡ some d
      → emit_event config env options event w ≡ (ok tt, w)
  unfolding emit_event pure
  emit_event_of_delivered event w d h = rw h

module _ (config : RunnerConfig) (env : Env) (event : WebhookEvent) (before : World)
    (answer : Result (Unit {0})) (tick : ℕ) where
  -- The checkpoint with the event recorded as delivered, as the save after the post leaves it.
  abbrev delivered_checkpoint : RunnerCheckpoint
  delivered_checkpoint =
      save_now (limits_of config) (env.now (tick + 1))
        (mark_event_delivered before.checkpoint event (env.now tick))

  -- A checkpoint with the event recorded as failed, as the save after the failure leaves it.
  abbrev failed_checkpoint : RunnerCheckpoint → Text → ℕ → RunnerCheckpoint
  failed_checkpoint c reason now =
      save_now (limits_of config) (env.now (now + 1))
        (record_pending_webhook c event reason (env.now now))

  -- How an emission ends, seen from the posts, the checkpoint and the file before it. `answer` is
  -- what the post gave, with all its attempts, and `tick` the number of outside calls after it.
  pub data Emitted (r : Result (Unit {0})) (w : World) : Type 0 where
    acknowledged :
        answer ≡ ok tt
        → env.write_file (tick + 2) ≡ ok tt
        → r ≡ ok tt
        → w.posted ≡ before.posted ++ event ∷ []
        → w.checkpoint ≡ delivered_checkpoint
        → w.saved ≡ some w.checkpoint
        → Emitted r w
    acknowledged_unsaved :
        (reason : Text)
        → answer ≡ ok tt
        → env.write_file (tick + 2) ≡ err reason
        → w.posted ≡ before.posted ++ event ∷ []
        → w.checkpoint ≡ failed_checkpoint delivered_checkpoint reason (tick + 3)
        → Written env before.saved (tick + 5) r w
        → Emitted r w
    failed :
        (reason : Text)
        → answer ≡ err reason
        → w.posted ≡ before.posted
        → w.checkpoint ≡ failed_checkpoint before.checkpoint reason tick
        → Written env before.saved (tick + 2) r w
        → Emitted r w

  -- What the body of the `try` leaves: a result of the save, or an error of the post.
  data Tried (r : Result (Unit {0})) (w : World) : Type 0 where
    saved :
        answer ≡ ok tt
        → Stored env before.saved (before.posted ++ event ∷ []) delivered_checkpoint (tick + 2) r w
        → Tried r w
    unsent :
        (reason : Text)
        → answer ≡ err reason
        → r ≡ err reason
        → w.ticks ≡ tick
        → Shows before.posted before.checkpoint before.saved w
        → Tried r w

module _ (config : RunnerConfig) (env : Env) (options : CliOptions) (event : WebhookEvent)
    (before : World) where
  rest_of_deliver : M (Unit {0})
  rest_of_deliver = do
    now ← read_clock env
    modify (λ w. record w { checkpoint = mark_event_delivered w.checkpoint event now })
    save config env

  continue-Tried :
      (r : Result (Unit {0})) (w : World)
      → Either
          (Shows before.posted before.checkpoint before.saved)
          (Shows (before.posted ++ event ∷ []) before.checkpoint before.saved)
          (r, w)
      → let out = continue r (λ _. rest_of_deliver) w in
        Tried config env event before r w.ticks out.0 out.1
  unfolding rest_of_deliver read_clock modify ◌>>=◌
  continue-Tried (ok _) w h = saved refl (
      Stored-same env _ _ _ _ _ _ _ _ _ _ h.saved h.posted
        (ap
          (λ c.
            save_now (limits_of config) (env.now (w.ticks + 1))
              (mark_event_delivered c event (env.now w.ticks)))
          h.checkpoint)
        (omega arith)
        (save-Stored env config (record w {
          ticks = w.ticks + 1;
          checkpoint = mark_event_delivered w.checkpoint event (env.now w.ticks);
        })))
  continue-Tried (err reason) w h = unsent reason refl refl refl h

  abbrev handled : Result (Unit {0}) → World → Result (Unit {0}) × World
  handled r w = handle r (record_failure config env options event) w

  module _ (answer : Result (Unit {0})) (tick : ℕ) where
    -- The failure recorded on top of what the body of the `try` left.
    recorded-Stored :
        (reason : Text) (w : World) (posts : List WebhookEvent) (c : RunnerCheckpoint) (n : ℕ)
        → w.saved ≡ before.saved
        → w.posted ≡ posts
        → w.checkpoint ≡ c
        → w.ticks ≡ n
        → let out = record_failure config env options event reason w in
          Stored env before.saved posts
            (failed_checkpoint config env event before answer tick c reason n)
            (n + 2)
            out.0
            out.1
    recorded-Stored reason w posts c n s p k t =
        Stored-same env _ _ _ _ _ _ _ _ _ _ s p
          (ap
              (λ v.
                save_now (limits_of config) (env.now (w.ticks + 1))
                  (record_pending_webhook v event reason (env.now w.ticks)))
              k
            ∙ ap (λ m. failed_checkpoint config env event before answer tick c reason m) t)
          (omega arith) (record_failure-Stored env config options event reason w)

    abbrev Ends : Result (Unit {0}) × World → Type 0
    Ends out = Emitted config env event before answer tick out.0 out.1

    handle-Emitted :
        (r : Result (Unit {0})) (w : World)
        → Tried config env event before answer tick r w
        → Ends (handled r w)
    handle-Emitted r w (saved sent h) = by_file r h.file
      where
        by_file :
            (r : Result (Unit {0})) → Written env before.saved (tick + 2) r w → Ends (handled r w)
        by_file (ok _) (written e _ f) = acknowledged sent e refl h.posted h.checkpoint f
        by_file (ok _) (unwritten reason e k f) = cc
        by_file (err reason) (written e k f) = cc
        by_file (err reason) (unwritten given e k f) =
            let stored =
              recorded-Stored reason w _ _ (tick + 3) f h.posted h.checkpoint
                (h.ticks ∙ omega arith) in
            let out = record_failure config env options event reason w in
            acknowledged_unsaved reason sent (e ∙ sym k) stored.posted stored.checkpoint
              (subst (λ n. Written env before.saved n out.0 out.1) (omega arith) stored.file)
    handle-Emitted (ok _) w (unsent reason sent e t h) = cc
    handle-Emitted (err reason) w (unsent given sent e t h) =
        let stored = recorded-Stored reason w _ _ tick h.saved h.posted h.checkpoint t in
        failed reason (sent ∙ sym e) stored.posted stored.checkpoint stored.file

  abbrev deliver_if : Bool → Result (Unit {0}) × World
  deliver_if dry =
      let (r, w) = post_webhook config env event dry before in
      continue r (λ _. if dry then pure tt else rest_of_deliver) w

  abbrev emit_if : Bool → Result (Unit {0}) × World
  emit_if off =
      (if off
          then pure tt
          else try_catch (deliver config env options event)
              (record_failure config env options event))
        before

  module _ (real : options.dry_run_webhook ≡ false) (url : has_url config.webhook_url ≡ true) where
    deliver-Tried :
        let post = post_webhook config env event false before in
        let out = deliver config env options event before in
        Tried config env event before post.0 post.1.ticks out.0 out.1
    unfolding deliver rest_of_deliver ◌>>=◌
    deliver-Tried =
        let post = post_webhook config env event false before in
        subst
          (λ dry.
            let out = deliver_if dry in
            Tried config env event before post.0 post.1.ticks out.0 out.1)
          (sym real)
          (continue-Tried post.0 post.1 (
            post_webhook-Either config env event before.posted before.checkpoint before.saved before
              url (record { posted = refl; checkpoint = refl; saved = refl })))

    -- With a webhook's URL, no dry run and the webhook not switched off, emitting an event that is
    -- not recorded as delivered ends in one of three ways. If the post was acknowledged and the
    -- file could be written after it, the event is acknowledged once and recorded as delivered, the
    -- file holds that checkpoint, and the call returns. If it was acknowledged but the file could
    -- not be written, it is recorded as failed beside, with the error of the write as the reason;
    -- if it was not acknowledged, it is recorded as failed, with the error of the post. In these two
    -- cases the checkpoint is saved again, and either the file holds it and the call returns, or
    -- the file is as it was before and the call throws the error of the write. The checkpoint is
    -- always the one before with just these changes, pruned to the limits.
    pub emit_event-Emitted :
        delivered_at event.id before.checkpoint ≡ none
        → options.no_webhook ≡ false
        → let post = post_webhook config env event false before in
          let out = emit_event config env options event before in
          Emitted config env event before post.0 post.1.ticks out.0 out.1
    unfolding emit_event try_catch
    emit_event-Emitted fresh on =
        let post = post_webhook config env event false before in
        let tried = deliver config env options event before in
        rw fresh (
          subst (λ off. Ends post.0 post.1.ticks (emit_if off)) (sym on)
            (handle-Emitted post.0 post.1.ticks tried.0 tried.1 deliver-Tried))
