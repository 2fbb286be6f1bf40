-- ===== src/State/Pending.antt =====
-- `markEventDelivered` and `recordPendingWebhook` of runner/src/state.ts.
use evm_contract_auditor_hon.Prelude.{
  ℕ, suc, ◌+◌, ◌≡◌, refl, ◌∙◌, List, [], ◌∷◌, Option, some, none, Text, length, arith,
  if◌then◌else◌, text_eq, text_eq_refl,
}
use evm_contract_auditor_hon.Prelude.Dict.{lookup, lookup-insert, lookup-remove}
use evm_contract_auditor_hon.Types.Checkpoint.{
  RunnerCheckpoint, PendingWebhookRecord, DeliveredEventRecord,
}
use evm_contract_auditor_hon.Types.Events.{WebhookEvent}
use evm_contract_auditor_hon.State.{mark_event_delivered, record_pending_webhook, next_pending}

abbrev pub pending_at : Text → RunnerCheckpoint → Option PendingWebhookRecord
pending_at id c = lookup id c.pending_webhook_events

abbrev pub delivered_at : Text → RunnerCheckpoint → Option DeliveredEventRecord
delivered_at id c = lookup id c.delivered_events

-- Marking an event delivered records it under its identifier, takes its pending record away, and
-- changes what is known of no other event.
pub mark_event_delivered_lem :
    (c : RunnerCheckpoint) (event : WebhookEvent) (now : ℕ) (id : Text)
    → (delivered_at id (mark_event_delivered c event now) ≡ (
        if text_eq event.id id
        then some (record { delivered_at = now; kind = event.kind })
        else delivered_at id c))
      × (pending_at id (mark_event_delivered c event now)
          ≡ (if text_eq event.id id then none else pending_at id c))
unfolding mark_event_delivered
mark_event_delivered_lem c event now id = (
  lookup-insert event.id id _ c.delivered_events,
  lookup-remove event.id id c.pending_webhook_events,
)

pub pending_at-record_pending_webhook :
    (c : RunnerCheckpoint) (event : WebhookEvent) (reason : Text) (now : ℕ) (id : Text)
    → pending_at id (record_pending_webhook c event reason now) ≡ (
        if text_eq event.id id
        then some (next_pending (pending_at event.id c) event reason now)
        else pending_at id c)
unfolding record_pending_webhook
pending_at-record_pending_webhook c event reason now id =
    lookup-insert event.id id _ c.pending_webhook_events

-- Several failures of one event, one after the other: each with its reason and its time.
pub fail_all : RunnerCheckpoint → WebhookEvent → List (Text × ℕ) → RunnerCheckpoint
fail_all c event [] = c
fail_all c event ((reason, now) ∷ rest) =
    fail_all (record_pending_webhook c event reason now) event rest

-- The count and the first time of a record, with 0 and the given time where there is none.
abbrev attempts_of : Option PendingWebhookRecord → ℕ
attempts_of none = 0
attempts_of (some r) = r.attempts

abbrev first_of_record : Option PendingWebhookRecord → ℕ → ℕ
first_of_record none now = now
first_of_record (some r) now = r.first_failed_at

pending_at_self :
    (c : RunnerCheckpoint) (event : WebhookEvent) (reason : Text) (now : ℕ)
    → pending_at event.id (record_pending_webhook c event reason now)
      ≡ some (next_pending (pending_at event.id c) event reason now)
pending_at_self c event reason now =
    rw (pending_at-record_pending_webhook c event reason now event.id) (rw (text_eq_refl event.id))

next_pending_parts :
    (o : Option PendingWebhookRecord) (event : WebhookEvent) (reason : Text) (now : ℕ)
    → ((next_pending o event reason now).attempts ≡ attempts_of o + 1)
      × ((next_pending o event reason now).first_failed_at ≡ first_of_record o now)
unfolding next_pending
next_pending_parts none event reason now = (refl, refl)
next_pending_parts (some r) event reason now = (refl, refl)

fail_all_from :
    (c : RunnerCheckpoint) (event : WebhookEvent) (r : PendingWebhookRecord)
    (failures : List (Text × ℕ))
    → pending_at event.id c ≡ some r
    → (r' : PendingWebhookRecord) × (pending_at event.id (fail_all c event failures) ≡ some r')
      × (r'.attempts ≡ r.attempts + length failures)
      × (r'.first_failed_at ≡ r.first_failed_at)
unfolding fail_all
fail_all_from c event r [] h = (r, h, omega arith, refl)
fail_all_from c event r ((reason, now) ∷ rest) h =
    let next : PendingWebhookRecord = next_pending (some r) event reason now in
    let here = pending_at_self c event reason now in
    let parts = next_pending_parts (some r) event reason now in
    let (r', found, count, first) =
      fail_all_from (record_pending_webhook c event reason now) event next rest (rw h at here) in
    (r', found, omega (arith, count, parts.0), first ∙ parts.1)

-- An event that was not pending and then fails several times in a row has one pending record, which
-- counts every failure and keeps the time of the first.
pub fail_all_counts :
    (c : RunnerCheckpoint) (event : WebhookEvent) (reason : Text) (now : ℕ)
    (failures : List (Text × ℕ))
    → pending_at event.id c ≡ none
    → (r : PendingWebhookRecord) × (pending_at event.id
          (fail_all c event ((reason, now) ∷ failures))
        ≡ some r)
      × (r.attempts ≡ suc (length failures))
      × (r.first_failed_at ≡ now)
unfolding fail_all
fail_all_counts c event reason now failures h =
    let next : PendingWebhookRecord = next_pending none event reason now in
    let here = pending_at_self c event reason now in
    let parts = next_pending_parts none event reason now in
    let (r, found, count, first) =
      fail_all_from (record_pending_webhook c event reason now) event next failures
        (rw h at here) in
    (r, found, omega (arith, count, parts.0), first ∙ parts.1)
