-- ===== src/State/Distinct.antt =====
-- Block histories in which no block number occurs twice.
use evm_contract_auditor_hon.Prelude.{
  ℕ, zero, suc, ◌-◌, ◌≢◌, sym, List, [], ◌∷◌, ◌++◌, Bool, Option, length, drop, All, arith, ◌==◌,
  select, find?, slice_last, All-append, All-select,
}
use evm_contract_auditor_hon.Types.Checkpoint.{BlockHistoryEntry}

abbrev pub Distinct : List BlockHistoryEntry → Type 0
Distinct [] = Unit
Distinct (e ∷ es) = All (λ f. f.number ≢ e.number) es × Distinct es

-- The entry that `history.find((entry) => entry.number === n)` gives.
abbrev pub entry_at : ℕ → List BlockHistoryEntry → Option BlockHistoryEntry
entry_at n history = find? (λ entry. entry.number == n) history

pub select-Distinct :
    (p : BlockHistoryEntry → Bool) (es : List BlockHistoryEntry)
    → Distinct es
    → Distinct (select p es)
unfolding select
select-Distinct p [] h = tt
select-Distinct p (e ∷ es) (q, h) =
    ground (arith, select-Distinct p es h, All-select (λ f. f.number ≢ e.number) p es q)

pub drop-Distinct : (n : ℕ) (es : List BlockHistoryEntry) → Distinct es → Distinct (drop n es)
drop-Distinct zero es h = h
drop-Distinct (suc n) [] h = tt
drop-Distinct (suc n) (e ∷ es) (q, h) = drop-Distinct n es h

pub slice_last-Distinct :
    (n : ℕ) (es : List BlockHistoryEntry) → Distinct es → Distinct (slice_last n es)
unfolding slice_last
slice_last-Distinct zero es h = h
slice_last-Distinct (suc n) es h = drop-Distinct (length es - suc n) es h

pub append-Distinct :
    (es : List BlockHistoryEntry) (e : BlockHistoryEntry)
    → Distinct es
    → All (λ f. f.number ≢ e.number) es
    → Distinct (es ++ e ∷ [])
append-Distinct [] e h k = (tt, tt)
append-Distinct (f ∷ es) e (q, h) (p, k) =
    (All-append _ es (e ∷ []) q ((λ same. p (sym same)), tt), append-Distinct es e h k)
