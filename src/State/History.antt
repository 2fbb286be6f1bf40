-- ===== src/State/History.antt =====
-- The block history of a checkpoint under `updateHistory`, `rewindCheckpoint` and `saveNow`.
use evm_contract_auditor_hon.Prelude.{
  ℕ, zero, suc, ◌-◌, ◌≤◌, ◌<◌, ◌≡◌, ◌≢◌, refl, List, [], ◌∷◌, ◌++◌, not, some, none, length, All,
  arith, ◌==◌, if◌then◌else◌, select, find?, slice_last, All-map, select_sound, length-select,
  length-slice_last, length-append, slice_last-append,
}
use evm_contract_auditor_hon.Prelude.Int.{ℤ, pos, leb_ℤ}
use evm_contract_auditor_hon.Types.Checkpoint.{BlockHistoryEntry, RunnerCheckpoint}
use evm_contract_auditor_hon.State.{BlockRef, update_history, rewind_checkpoint}
use evm_contract_auditor_hon.State.Distinct.{
  Distinct, entry_at, select-Distinct, slice_last-Distinct, append-Distinct,
}

-- The history holds each block number once, and no more entries than the limit.
pub record IsBounded (max_history : ℕ) (c : RunnerCheckpoint) : Type 0 where
  pub distinct : Distinct c.history
  pub short : length c.history ≤ max_history

abbrev pub entry_of : BlockRef → ℕ → BlockHistoryEntry
entry_of block now = record {
  number = block.number;
  hash = block.hash;
  parent_hash = block.parent_hash;
  processed_at = now;
}

abbrev others : ℕ → List BlockHistoryEntry → List BlockHistoryEntry
others n history = select (λ entry. not (entry.number == n)) history

others_sound : (n : ℕ) (es : List BlockHistoryEntry) → All (λ e. e.number ≢ n) (others n es)
others_sound n es = All-map (λ e h. ground arith) (others n es) (select_sound _ es)

-- Writing a block keeps the numbers of the history distinct, and leaves at most `max_history`
-- entries, however long the history was.
pub update_history-IsBounded :
    (c : RunnerCheckpoint) (block : BlockRef) (max_history now : ℕ)
    → 1 ≤ max_history
    → Distinct c.history
    → IsBounded max_history (update_history c block max_history now)
unfolding update_history
update_history-IsBounded c block max_history now positive h = record {
  distinct = slice_last-Distinct max_history _ (
      append-Distinct _ (entry_of block now) (select-Distinct _ c.history h)
        (others_sound block.number c.history));
  short = omega (
    arith,
    length-slice_last max_history (others block.number c.history ++ entry_of block now ∷ [])
        positive,
  );
}

-- Rewinding and saving keep the history bounded.
pub rewind_checkpoint-IsBounded :
    (c : RunnerCheckpoint) (to_block : ℤ) (max_history now : ℕ)
    → IsBounded max_history c
    → IsBounded max_history (rewind_checkpoint c to_block now)
unfolding rewind_checkpoint
rewind_checkpoint-IsBounded c to_block max_history now h = record {
  distinct = select-Distinct _ c.history h.distinct;
  short = omega (arith, length-select (λ e. leb_ℤ (pos e.number) to_block) c.history, h.short);
}

entry_at-append :
    (m : ℕ) (es : List BlockHistoryEntry) (e : BlockHistoryEntry)
    → All (λ f. f.number ≢ e.number) es
    → entry_at m (es ++ e ∷ []) ≡ (if e.number == m then some e else entry_at m es)
unfolding find?
entry_at-append m [] e h = refl
entry_at-append m (f ∷ es) e (p, h) = ground (arith, entry_at-append m es e h)

entry_at-others :
    (m n : ℕ) (es : List BlockHistoryEntry) → m ≢ n → entry_at m (others n es) ≡ entry_at m es
unfolding find? select
entry_at-others m n [] h = refl
entry_at-others m n (e ∷ es) h = ground (arith, entry_at-others m n es h)

pub slice_last_of_short :
    (n : ℕ) (es : List BlockHistoryEntry) → length es ≤ n → slice_last n es ≡ es
unfolding slice_last
slice_last_of_short zero es h = refl
slice_last_of_short (suc n) es h =
    let none_dropped : length es - suc n ≡ 0 = omega arith in rw none_dropped

length-others_lt : (n : ℕ) (es : List BlockHistoryEntry) → length (others n es) ≤ length es
length-others_lt n es = length-select _ es

-- While the history has room, looking a block number up after `updateHistory` gives the new entry
-- for the block that was written and what was there before for any other.
pub entry_at-update_history :
    (c : RunnerCheckpoint) (block : BlockRef) (max_history now m : ℕ)
    → length c.history < max_history
    → entry_at m (update_history c block max_history now).history
      ≡ (if block.number == m then some (entry_of block now) else entry_at m c.history)
unfolding update_history
entry_at-update_history c block max_history now m room =
    let e : BlockHistoryEntry = entry_of block now in
    let kept : List BlockHistoryEntry = others block.number c.history in
    rw
      (slice_last_of_short max_history (kept ++ e ∷ [])
        (omega (arith, length-append kept (e ∷ []), length-others_lt block.number c.history)))
      (rw (entry_at-append m kept e (others_sound block.number c.history))
        (ground (arith, entry_at-others m block.number c.history)))

-- However full the history is, the block that was written is its last entry and is the last
-- processed block.
pub update_history_newest :
    (c : RunnerCheckpoint) (block : BlockRef) (max_history now : ℕ)
    → 1 ≤ max_history
    → ((update_history c block max_history now).last_processed_block ≡ pos block.number)
      × ((older : List BlockHistoryEntry) × ((update_history c block max_history now).history
            ≡ older ++ entry_of block now ∷ []))
unfolding update_history
update_history_newest c block max_history now positive = (
  refl,
  slice_last-append max_history (others block.number c.history) (entry_of block now) positive,
)

entry_at-select :
    (m : ℕ) (to_block : ℤ) (es : List BlockHistoryEntry)
    → entry_at m (select (λ entry. leb_ℤ (pos entry.number) to_block) es)
      ≡ (if leb_ℤ (pos m) to_block then entry_at m es else none)
unfolding find? select
entry_at-select m to_block [] = ground arith
entry_at-select m to_block (e ∷ es) = ground (arith, entry_at-select m to_block es)

-- After a rewind to a block the history forgets exactly the entries above it.
pub entry_at-rewind_checkpoint :
    (c : RunnerCheckpoint) (to_block : ℤ) (now m : ℕ)
    → entry_at m (rewind_checkpoint c to_block now).history
      ≡ (if leb_ℤ (pos m) to_block then entry_at m c.history else none)
unfolding rewind_checkpoint
entry_at-rewind_checkpoint c to_block now m = entry_at-select m to_block c.history
