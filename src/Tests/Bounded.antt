-- ===== src/Tests/Bounded.antt =====
-- Examples for `runBounded` of runner/src/runner.ts: three items and two runners.
use Prim.Native.Nat.{◌*◌}
use evm_contract_auditor_hon.Prelude.{
  ℕ, ◌+◌, ◌≤◌, ◌≡◌, refl, ◌⊎◌, List, [], ◌∷◌, length, min, true, all, ◌==◌,
}
use evm_contract_auditor_hon.Runner.Bounded.{
  ready, working, ended, Pool, Step, take_item, leave, resolve, Steps, here, next, limit_of,
  run_bounded, busy,
}
use evm_contract_auditor_hon.Runner.Bounded.Counts.{count_of, everywhere, run_bounded-counts}
use evm_contract_auditor_hon.Runner.Bounded.Ending.{settled, run_bounded-ends, run_bounded-resolved}

abbrev items : List ℕ
items = 7 ∷ 8 ∷ 7 ∷ []

abbrev midway : Pool ℕ
midway = record { rest = 7 ∷ []; runners = ready ∷ working 8 ∷ []; resolved = 7 ∷ []; thrown = [] }

-- The first runner returns while the second still works.
to_midway : Steps (run_bounded items 2) 3 midway
unfolding run_bounded
to_midway =
    next
      (next (next here (take_item [] (ready ∷ []) 7 (8 ∷ 7 ∷ []) refl refl))
        (take_item (working 7 ∷ []) [] 8 (7 ∷ []) refl refl))
      (resolve [] (working 8 ∷ []) 7 refl)

abbrev over : Pool ℕ
over = record { rest = []; runners = ended ∷ ended ∷ []; resolved = 7 ∷ 8 ∷ 7 ∷ []; thrown = [] }

to_over : Steps (run_bounded items 2) 8 over
to_over =
    let second = next to_midway (resolve (ready ∷ []) [] 8 refl) in
    let third = next second (take_item [] (ready ∷ []) 7 [] refl refl) in
    let returned = next third (resolve [] (ready ∷ []) 7 refl) in
    next (next returned (leave [] (ready ∷ []) refl refl)) (leave (ended ∷ []) [] refl refl)

run_bounded-counts_example :
    (everywhere (λ x. x == 7) midway ≡ count_of (λ x. x == 7) items)
    × (length (busy midway.runners) ≤ limit_of 2)
run_bounded-counts_example = run_bounded-counts items 2 to_midway (λ x. x == 7)

run_bounded-ends_example :
    (3 ≤ 2 * length items + min (limit_of 2) (length items))
    × ((all settled midway.runners ≡ true) ⊎ ((t : Pool ℕ) × Step midway t))
run_bounded-ends_example = run_bounded-ends items 2 to_midway

run_bounded-resolved_example :
    (count_of (λ x. x == 7) over.resolved ≡ count_of (λ x. x == 7) items) × (over.thrown ≡ [])
run_bounded-resolved_example = run_bounded-resolved items 2 to_over refl (λ x. x == 7)
