-- ===== src/Runner/Bounded/Counts.antt =====
-- Each item of `runBounded` of runner/src/runner.ts is in one place, and the limit holds.
use evm_contract_auditor_hon.Prelude.{
  ℕ, zero, suc, ◌+◌, ◌≤◌, ◌≡◌, refl, ◌∙◌, ap, List, [], ◌∷◌, ◌++◌, length, length-append, Bool,
  arith, if◌then◌else◌, min,
}
use evm_contract_auditor_hon.Runner.Bounded.{
  Runner, ready, working, ended, rejected, Pool, Step, take_item, leave, resolve, reject, Steps,
  here, next, limit_of, ready_runners, run_bounded, busy,
}

pub length-ready_runners {ℓ} : (B : Type ℓ) (n : ℕ) → length (ready_runners {A = B} n) ≡ n
length-ready_runners B zero = refl
length-ready_runners B (suc n) = omega (arith, length-ready_runners B n)

busy-ready_runners {ℓ} : (B : Type ℓ) (n : ℕ) → busy (ready_runners {A = B} n) ≡ []
busy-ready_runners B zero = refl
busy-ready_runners B (suc n) = busy-ready_runners B n

module _ {ℓ} {A : Type ℓ} where
  -- How many items pass a test.
  abbrev pub count_of : (A → Bool) → List A → ℕ
  count_of test [] = 0
  count_of test (x ∷ xs) = (if test x then 1 else 0) + count_of test xs

  pub count_of-append :
      (test : A → Bool) (xs ys : List A)
      → count_of test (xs ++ ys) ≡ count_of test xs + count_of test ys
  count_of-append test [] ys = omega arith
  count_of-append test (x ∷ xs) ys = omega (arith, count_of-append test xs ys)

  pub busy-append : (rs qs : List (Runner A)) → busy (rs ++ qs) ≡ busy rs ++ busy qs
  busy-append [] qs = refl
  busy-append (working x ∷ rs) qs = ap (λ l. x ∷ l) (busy-append rs qs)
  busy-append (ready ∷ rs) qs = busy-append rs qs
  busy-append (ended ∷ rs) qs = busy-append rs qs
  busy-append (rejected ∷ rs) qs = busy-append rs qs

  length-busy : (rs : List (Runner A)) → length (busy rs) ≤ length rs
  length-busy [] = omega arith
  length-busy (working x ∷ rs) = omega (arith, length-busy rs)
  length-busy (ready ∷ rs) = omega (arith, length-busy rs)
  length-busy (ended ∷ rs) = omega (arith, length-busy rs)
  length-busy (rejected ∷ rs) = omega (arith, length-busy rs)

  abbrev pub everywhere : (A → Bool) → Pool A → ℕ
  everywhere test s =
      count_of test s.resolved
      + count_of test s.thrown
      + count_of test (busy s.runners)
      + count_of test s.rest

  busy_of :
      (test : A → Bool) (before after : List (Runner A)) (r : Runner A)
      → count_of test (busy (before ++ r ∷ after))
        ≡ count_of test (busy before) + count_of test (busy (r ∷ after))
  busy_of test before after r =
      ap (count_of test) (busy-append before (r ∷ after))
      ∙ count_of-append test (busy before) (busy (r ∷ after))

  Step-everywhere :
      {s t : Pool A} (test : A → Bool) → Step s t → everywhere test t ≡ everywhere test s
  Step-everywhere {s} test (take_item before after x xs e d) =
      rw (e, d)
        (omega (arith, busy_of test before after (working x), busy_of test before after ready))
  Step-everywhere {s} test (leave before after e d) =
      rw e (omega (arith, busy_of test before after ended, busy_of test before after ready))
  Step-everywhere {s} test (resolve before after x e) =
      rw e (omega (arith, busy_of test before after ready, busy_of test before after (working x)))
  Step-everywhere {s} test (reject before after x e) =
      rw e
        (omega (arith, busy_of test before after rejected, busy_of test before after (working x)))

  Step-length : {s t : Pool A} → Step s t → length t.runners ≡ length s.runners
  Step-length (take_item before after x xs e d) = rw e (
      omega (arith, length-append before (working x ∷ after), length-append before (ready ∷ after)))
  Step-length (leave before after e d) =
      rw e
        (omega (arith, length-append before (ended ∷ after), length-append before (ready ∷ after)))
  Step-length (resolve before after x e) = rw e (
      omega (arith, length-append before (ready ∷ after), length-append before (working x ∷ after)))
  Step-length (reject before after x e) = rw e (
      omega
        (arith, length-append before (rejected ∷ after), length-append before (working x ∷ after)))

  pub Steps-length : {s t : Pool A} {n : ℕ} → Steps s n t → length t.runners ≡ length s.runners
  Steps-length here = refl
  Steps-length (next r st) = Step-length st ∙ Steps-length r

  Steps-everywhere :
      {s t : Pool A} {n : ℕ} (test : A → Bool) → Steps s n t → everywhere test t ≡ everywhere test s
  Steps-everywhere test here = refl
  Steps-everywhere test (next r st) = Step-everywhere test st ∙ Steps-everywhere test r

  run_bounded-everywhere :
      (items : List A) (concurrency : ℕ) (test : A → Bool)
      → everywhere test (run_bounded items concurrency) ≡ count_of test items
  unfolding run_bounded
  run_bounded-everywhere items concurrency test =
      let none_busy = busy-ready_runners A (min (limit_of concurrency) (length items)) in
      rw none_busy (omega arith)

  -- Whatever order the calls of the worker settle in, no more of them run at once than the limit,
  -- which is one at least, and each item is in one place as often as it was given: not yet taken,
  -- with a worker, returned, or failed. Items are told apart by any test.
  pub run_bounded-counts :
      (items : List A) (concurrency : ℕ) {n : ℕ} {s : Pool A}
      → Steps (run_bounded items concurrency) n s
      → (test : A → Bool)
      → (everywhere test s ≡ count_of test items) × (length (busy s.runners) ≤ limit_of concurrency)
  unfolding run_bounded
  run_bounded-counts items concurrency {n} {s} r test = (
    Steps-everywhere test r ∙ run_bounded-everywhere items concurrency test,
    omega (
      arith,
      length-busy s.runners,
      Steps-length r,
      length-ready_runners A (min (limit_of concurrency) (length items)),
    ),
  )
