-- ===== src/Runner/Bounded.antt =====
-- `runBounded` of runner/src/runner.ts: several runners take the items one after the other and call
-- the worker on them. The calls overlap, and any of them may settle next.
pub mod Counts
pub mod Ending
use evm_contract_auditor_hon.Prelude.{
  ℕ, zero, suc, ◌≡◌, List, [], ◌∷◌, ◌++◌, length, ltb, min, if◌then◌else◌,
}

-- Where a runner is: at the head of its `while`, waiting for the worker on an item, past the loop, or
-- stopped by an error of the worker.
pub data Runner {ℓ} (A : Type ℓ) : Type ℓ where
  ready : Runner A
  working : A → Runner A
  ended : Runner A
  rejected : Runner A

module _ {ℓ} (A : Type ℓ) where
  -- `rest` are the items from `index` on. `resolved` and `thrown` are the items on which the worker
  -- returned or threw, the latest first.
  pub record Pool : Type ℓ where
    pub rest : List A
    pub runners : List (Runner A)
    pub resolved : List A
    pub thrown : List A

-- `Math.max(1, concurrency)`
abbrev pub limit_of : ℕ → ℕ
limit_of concurrency = if ltb 1 concurrency then concurrency else 1

module _ {ℓ} {A : Type ℓ} where
  abbrev pub with_runner : Pool A → List (Runner A) → Runner A → List (Runner A) → Pool A
  with_runner s before r after = record s { runners = before ++ r ∷ after }

  -- One runner goes on to its next `await` or to its end.
  pub data Step (s : Pool A) : Pool A → Type ℓ where
    take_item :
        (before after : List (Runner A)) (x : A) (xs : List A)
        → s.runners ≡ before ++ ready ∷ after
        → s.rest ≡ x ∷ xs
        → Step s (record (with_runner s before (working x) after) { rest = xs })
    leave :
        (before after : List (Runner A))
        → s.runners ≡ before ++ ready ∷ after
        → s.rest ≡ []
        → Step s (with_runner s before ended after)
    resolve :
        (before after : List (Runner A)) (x : A)
        → s.runners ≡ before ++ working x ∷ after
        → Step s (record (with_runner s before ready after) { resolved = x ∷ s.resolved })
    reject :
        (before after : List (Runner A)) (x : A)
        → s.runners ≡ before ++ working x ∷ after
        → Step s (record (with_runner s before rejected after) { thrown = x ∷ s.thrown })

  abbrev pub ready_runners : ℕ → List (Runner A)
  ready_runners zero = []
  ready_runners (suc n) = ready ∷ ready_runners n

  unfoldable pub run_bounded : List A → ℕ → Pool A
  run_bounded items concurrency = record {
    rest = items;
    runners = ready_runners (min (limit_of concurrency) (length items));
    resolved = [];
    thrown = [];
  }

  -- `n` steps lead from one state to another.
  pub data Steps (s : Pool A) : ℕ → Pool A → Type ℓ where
    here : Steps s 0 s
    next : {n : ℕ} {t u : Pool A} → Steps s n t → Step t u → Steps s (suc n) u

  -- The items that a worker is called on.
  abbrev pub busy : List (Runner A) → List A
  busy [] = []
  busy (working x ∷ rs) = x ∷ busy rs
  busy (ready ∷ rs) = busy rs
  busy (ended ∷ rs) = busy rs
  busy (rejected ∷ rs) = busy rs
