-- ===== src/Tests/State.antt =====
-- Examples for runner/src/state.ts.
use evm_contract_auditor_hon.Prelude.{
  ℕ, ◌≡◌, refl, arith, [], ◌∷◌, none, some, codes, text_eq, if◌then◌else◌, ◌==◌,
}
use evm_contract_auditor_hon.Prelude.Int.{pos, leb_ℤ}
use evm_contract_auditor_hon.Prelude.Dict.{Dict, lookup}
use evm_contract_auditor_hon.Types.Checkpoint.{PendingWebhookRecord}
use evm_contract_auditor_hon.State.{
  update_history, rewind_checkpoint, save_now, load, missing, prune_record_map,
  create_empty_checkpoint,
}
use evm_contract_auditor_hon.State.Distinct.{entry_at}
use evm_contract_auditor_hon.State.History.{
  IsBounded, entry_of, update_history-IsBounded, entry_at-update_history,
}
use evm_contract_auditor_hon.State.Prune.{Pruned, prune_record_map-Pruned}
use evm_contract_auditor_hon.State.Saving.{IsSaved, save_now-IsSaved, load-chain_id}
use evm_contract_auditor_hon.State.Pending.{pending_at, fail_all, fail_all_counts}
use evm_contract_auditor_hon.State.{mark_event_delivered}
use evm_contract_auditor_hon.State.Artifacts.{
  Sanitized, sanitize_audit_result_for_persistence, sanitize_audit_result_for_persistence_lem,
}
use evm_contract_auditor_hon.State.Pending.{delivered_at, mark_event_delivered_lem}
use evm_contract_auditor_hon.State.History.{entry_at-rewind_checkpoint}
use evm_contract_auditor_hon.Tests.Data.{failed_result, after_one, block_two, limits, event}

after_one-IsBounded : IsBounded 2 after_one
after_one-IsBounded = record { distinct = (tt, tt); short = omega arith }

update_history-IsBounded_example : IsBounded 2 (update_history after_one block_two 2 9)
update_history-IsBounded_example =
    update_history-IsBounded after_one block_two 2 9 (omega arith) (tt, tt)

entry_at-update_history_example :
    entry_at 2 (update_history after_one block_two 2 9).history
    ≡ (if block_two.number == 2 then some (entry_of block_two 9) else entry_at 2 after_one.history)
entry_at-update_history_example = entry_at-update_history after_one block_two 2 9 2 (omega arith)

entry_at-rewind_checkpoint_example :
    entry_at 1 (rewind_checkpoint after_one (pos 0) 9).history
    ≡ (if leb_ℤ (pos 1) (pos 0) then entry_at 1 after_one.history else none)
entry_at-rewind_checkpoint_example = entry_at-rewind_checkpoint after_one (pos 0) 9 1

save_now-IsSaved_example : IsSaved limits (save_now limits 9 after_one)
save_now-IsSaved_example = save_now-IsSaved limits 9 after_one (omega arith) (tt, tt)

load-chain_id_example : (create_empty_checkpoint 7 1 9).chain_id ≡ 7
unfolding load
load-chain_id_example = load-chain_id 7 1 9 missing (create_empty_checkpoint 7 1 9) refl

abbrev times : Dict ℕ
times = (codes "a", 3) ∷ (codes "b", 1) ∷ (codes "c", 2) ∷ []

prune_record_map-Pruned_example :
    Pruned (λ t. some t) 2 times (prune_record_map (λ t. some t) 2 times)
prune_record_map-Pruned_example = prune_record_map-Pruned (λ t. some t) 2 times

mark_event_delivered_lem_example :
    (delivered_at (codes "e1") (mark_event_delivered after_one event 9) ≡ (
      if text_eq event.id (codes "e1")
      then some (record { delivered_at = 9; kind = event.kind })
      else delivered_at (codes "e1") after_one))
    × (pending_at (codes "e1") (mark_event_delivered after_one event 9)
        ≡ (if text_eq event.id (codes "e1") then none else pending_at (codes "e1") after_one))
mark_event_delivered_lem_example = mark_event_delivered_lem after_one event 9 (codes "e1")

fail_all_counts_example :
    (r : PendingWebhookRecord) × (pending_at event.id
        (fail_all after_one event ((codes "x", 9) ∷ (codes "y", 10) ∷ []))
      ≡ some r)
    × (r.attempts ≡ 2)
    × (r.first_failed_at ≡ 9)
unfolding lookup
fail_all_counts_example = fail_all_counts after_one event (codes "x") 9 ((codes "y", 10) ∷ []) refl

sanitize_audit_result_for_persistence_lem_example :
    let written = sanitize_audit_result_for_persistence (λ r. 50) failed_result 20 in
    Sanitized (λ r. 50) 20 failed_result written
    × (written.is_ok ≡ failed_result.is_ok)
    × (written.cache_key ≡ failed_result.cache_key)
    × (written.target ≡ failed_result.target)
    × (written.auditor_exit_code ≡ failed_result.auditor_exit_code)
sanitize_audit_result_for_persistence_lem_example =
    sanitize_audit_result_for_persistence_lem (λ r. 50) failed_result 20
