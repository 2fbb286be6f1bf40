-- ===== src/Tests/Lease.antt =====
-- Examples for runner/src/lease.ts.
use evm_contract_auditor_hon.Prelude.{ℕ, ◌≡◌, ◌≢◌, refl, some, ◌==◌, Bool-cases, inl, inr}
use evm_contract_auditor_hon.Lease.{
  idle, writing, holding, ended, System, at, Reach, by, here, next, fresh, any_kind,
  without_recovery, created, opened, exists, unreadable, failed, written, owner_ended, removed,
  opened_again,
}
use evm_contract_auditor_hon.Lease.Exclusion.{without_recovery-exclusive}
use evm_contract_auditor_hon.Lease.Recovery.{
  Acquired, IsStuck, stale_lock-Acquired, empty_lock-blocks, held_by,
}

abbrev first_holds : System
first_holds = record { file = some (held_by 1 5); phase = at 1 holding (at 1 writing (λ p. idle)) }

to_first_holds : Reach without_recovery fresh first_holds
to_first_holds = next (next here refl (by 1 opened)) refl (by 1 (written {now = 5} refl))

without_recovery-exclusive_example : ◌≡◌ {A = ℕ} 1 1
without_recovery-exclusive_example = without_recovery-exclusive to_first_holds 1 1 refl refl

-- Process 9 ended with the lock in its hands.
abbrev left_behind : System
left_behind = record { file = some (held_by 9 5); phase = at 9 ended (λ p. idle) }

stale_lock-Acquired_example : Acquired left_behind 1 7
stale_lock-Acquired_example =
    stale_lock-Acquired left_behind (held_by 9 5) (record { pid = 9; acquired_at = 5 }) 1 7 refl
      refl refl refl

-- Process 1 was killed between `open` and `writeFile`.
abbrev never_written : System
never_written = record { file = some (created 1); phase = at 1 ended (λ p. idle) }

never_written-IsStuck : IsStuck never_written
never_written-IsStuck = record {
  file = created 1;
  there = refl;
  empty = refl;
  outside = λ p. elim (Bool-cases (1 == p)) [ inl same ↦ rw same refl | inr other ↦ rw other refl ];
}

empty_lock-blocks_example : failed ≢ holding
empty_lock-blocks_example =
    empty_lock-blocks 2 never_written-IsStuck
      (next (next here refl (by 2 exists)) refl (by 2 (unreadable refl)))

-- Two processes that both find the lock of an ended owner both take it: the second removes the file
-- of the first.
both_hold :
    (s : System) × Reach any_kind left_behind s × (s.phase 1 ≡ holding) × (s.phase 2 ≡ holding)
both_hold =
    let r₁ = next (next here refl (by 1 exists)) refl (by 2 exists) in
    let r₂ =
      next (next r₁ refl (by 1 (owner_ended refl refl))) refl (by 2 (owner_ended refl refl)) in
    let r₃ =
      next (next (next r₂ refl (by 1 removed)) refl (by 1 opened_again)) refl
        (by 1 (written {now = 7} refl)) in
    let r₄ =
      next (next (next r₃ refl (by 2 removed)) refl (by 2 opened_again)) refl
        (by 2 (written {now = 8} refl)) in
    (_, r₄, refl, refl)
