-- ===== src/State.antt =====
-- runner/src/state.ts: the operations on a checkpoint, and what `StateStore` does with it apart
-- from the file system. `now` is the value of `nowIso()` at the call.
pub mod Prune
pub mod Distinct
pub mod History
pub mod Pending
pub mod Saving
pub mod Artifacts
use evm_contract_auditor_hon.Prelude.{
  ℕ, ◌+◌, ◌-◌, List, [], ◌∷◌, ◌++◌, Bool, not, Option, none, some, Text, length, drop, leb, ◌==◌,
  if◌then◌else◌, slice_last, select,
}
use evm_contract_auditor_hon.Prelude.Int.{ℤ, pos, negsuc, max_ℤ, leb_ℤ, ◌-ℤ◌}
use evm_contract_auditor_hon.Prelude.Dict.{Dict, lookup, insert, remove}
use evm_contract_auditor_hon.Types.Checkpoint.{
  BlockHistoryEntry, CachedAuditRecord, DeliveredEventRecord, PendingWebhookRecord,
  RunnerCheckpoint, Limits,
}
use evm_contract_auditor_hon.Types.Events.{WebhookEvent}

-- `left ?? ""` parses to NaN, which `|| 0` replaces by 0.
abbrev or_zero : Option ℕ → ℕ
or_zero none = 0
or_zero (some t) = t

pub compare_timestamp : Option ℕ → Option ℕ → ℤ
compare_timestamp left right = pos (or_zero left) -ℤ pos (or_zero right)

module _ {ℓ} {V : Type ℓ} (get_timestamp : V → Option ℕ) where
  -- `entries.sort(…)` is stable: of two entries that compare equal the earlier stays first.
  pub insert_sorted : Text × V → Dict V → Dict V
  insert_sorted a [] = a ∷ []
  insert_sorted a (b ∷ bs) =
      if leb_ℤ (compare_timestamp (get_timestamp a.1) (get_timestamp b.1)) (pos 0)
      then a ∷ b ∷ bs
      else b ∷ insert_sorted a bs

  pub sort_entries : Dict V → Dict V
  sort_entries [] = []
  sort_entries (a ∷ bs) = insert_sorted a (sort_entries bs)

  unfoldable pub prune_record_map : ℕ → Dict V → Dict V
  unfolding sort_entries insert_sorted compare_timestamp ◌-ℤ◌
  prune_record_map max_entries records =
      if leb (length records) max_entries
      then records
      else drop (length records - max_entries) (sort_entries records)

-- What `saveNow` leaves in memory and writes to the file.
unfoldable pub save_now : Limits → ℕ → RunnerCheckpoint → RunnerCheckpoint
unfolding slice_last
save_now limits now checkpoint = record checkpoint {
  updated_at = now;
  history = slice_last limits.max_history checkpoint.history;
  result_cache =
      prune_record_map (λ e. some e.created_at) limits.max_result_cache_entries
        checkpoint.result_cache;
  delivered_events =
      prune_record_map (λ e. some e.delivered_at) limits.max_delivered_event_entries
        checkpoint.delivered_events;
  pending_webhook_events =
      prune_record_map (λ e. some e.last_failed_at) limits.max_pending_webhook_entries
        checkpoint.pending_webhook_events;
}

unfoldable pub create_empty_checkpoint : ℕ → ℕ → ℕ → RunnerCheckpoint
unfolding ◌-ℤ◌
create_empty_checkpoint chain_id start_block now = record {
  chain_id = chain_id;
  last_processed_block = max_ℤ (pos start_block -ℤ pos 1) (negsuc 0);
  updated_at = now;
  history = [];
  result_cache = [];
  delivered_events = [];
  pending_webhook_events = [];
}

-- What reading checkpoint.json gives: no such file, another error or a document that is refused,
-- or a document that `validateCheckpointDocument` accepts.
pub data CheckpointFile : Type 0 where
  missing : CheckpointFile
  refused : Text → CheckpointFile
  valid : RunnerCheckpoint → CheckpointFile

pub data Loaded : Type 0 where
  checkpoint : RunnerCheckpoint → Loaded
  throws : Text → Loaded

unfoldable pub read_checkpoint_or_fallback : CheckpointFile → RunnerCheckpoint → Loaded
read_checkpoint_or_fallback missing fallback = checkpoint fallback
read_checkpoint_or_fallback (refused message) fallback = throws message
read_checkpoint_or_fallback (valid c) fallback = checkpoint c

unfoldable pub load : ℕ → ℕ → ℕ → CheckpointFile → Loaded
unfolding read_checkpoint_or_fallback create_empty_checkpoint
load chain_id start_block now file =
    let fallback = create_empty_checkpoint chain_id start_block now in
    elim (read_checkpoint_or_fallback file fallback) [
      | throws message ↦ throws message
      | checkpoint c ↦ checkpoint (if c.chain_id == chain_id then c else fallback)
    ]

-- The block that `updateHistory` is given.
pub record BlockRef : Type 0 where
  pub number : ℕ
  pub hash : Text
  pub parent_hash : Text

unfoldable pub update_history : RunnerCheckpoint → BlockRef → ℕ → ℕ → RunnerCheckpoint
unfolding slice_last select
update_history c block max_history now = record c {
  last_processed_block = pos block.number;
  updated_at = now;
  history = slice_last max_history (
      select (λ entry. not (entry.number == block.number)) c.history
      ++ record {
        number = block.number;
        hash = block.hash;
        parent_hash = block.parent_hash;
        processed_at = now;
      }
        ∷ []);
}

unfoldable pub rewind_checkpoint : RunnerCheckpoint → ℤ → ℕ → RunnerCheckpoint
unfolding select
rewind_checkpoint c to_block now = record c {
  last_processed_block = to_block;
  updated_at = now;
  history = select (λ entry. leb_ℤ (pos entry.number) to_block) c.history;
}

unfoldable pub mark_event_delivered : RunnerCheckpoint → WebhookEvent → ℕ → RunnerCheckpoint
mark_event_delivered c event now = record c {
  delivered_events =
      insert event.id (record { delivered_at = now; kind = event.kind }) c.delivered_events;
  pending_webhook_events = remove event.id c.pending_webhook_events;
}

-- The record that `recordPendingWebhook` stores and returns.
unfoldable pub next_pending :
    Option PendingWebhookRecord → WebhookEvent → Text → ℕ → PendingWebhookRecord
next_pending none event failure_reason now = record {
  event = event;
  first_failed_at = now;
  last_failed_at = now;
  failure_reason = failure_reason;
  attempts = 0 + 1;
}
next_pending (some previous) event failure_reason now = record {
  event = event;
  first_failed_at = previous.first_failed_at;
  last_failed_at = now;
  failure_reason = failure_reason;
  attempts = previous.attempts + 1;
}

unfoldable pub record_pending_webhook :
    RunnerCheckpoint → WebhookEvent → Text → ℕ → RunnerCheckpoint
unfolding next_pending
record_pending_webhook c event failure_reason now = record c {
  pending_webhook_events =
      insert event.id
        (next_pending (lookup event.id c.pending_webhook_events) event failure_reason now)
        c.pending_webhook_events;
}

unfoldable pub get_cached_record : RunnerCheckpoint → Text → Option CachedAuditRecord
get_cached_record c cache_key = lookup cache_key c.result_cache
