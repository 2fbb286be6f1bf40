-- ===== src/Runner/Bounded/Ending.antt =====
-- `runBounded` of runner/src/runner.ts comes to an end, and then every item was worked on.
use evm_contract_auditor_hon.Prelude.{
  ℕ, zero, suc, ◌+◌, ◌≤◌, ◌≡◌, refl, ap, ◌∙◌, ◌⊎◌, inl, inr, List, [], ◌∷◌, ◌++◌, length, Bool,
  true, false, all, arith, min,
}
use Prim.Native.Nat.{◌*◌}
use evm_contract_auditor_hon.Runner.Bounded.{
  Runner, ready, working, ended, rejected, Pool, Step, take_item, leave, resolve, reject, Steps,
  here, next, limit_of, ready_runners, run_bounded, busy,
}
use evm_contract_auditor_hon.Runner.Bounded.Counts.{
  count_of, run_bounded-counts, Steps-length, length-ready_runners,
}

limit_of-pos : (concurrency : ℕ) → 1 ≤ limit_of concurrency
limit_of-pos concurrency = ground arith

module _ {ℓ} {A : Type ℓ} where
  -- A number for each runner, added up.
  abbrev sum_of : (Runner A → ℕ) → List (Runner A) → ℕ
  sum_of w [] = 0
  sum_of w (r ∷ rs) = w r + sum_of w rs

  sum_of-append :
      (w : Runner A → ℕ) (rs qs : List (Runner A)) → sum_of w (rs ++ qs) ≡ sum_of w rs + sum_of w qs
  sum_of-append w [] qs = omega arith
  sum_of-append w (r ∷ rs) qs = omega (arith, sum_of-append w rs qs)

  sum_of-ready_runners : (w : Runner A → ℕ) (n : ℕ) → sum_of w (ready_runners n) ≡ n * w ready
  sum_of-ready_runners w zero = omega arith
  sum_of-ready_runners w (suc n) = ground (arith, sum_of-ready_runners w n)

  -- The steps that a runner has left if it takes no further item; taking one costs it one step more.
  abbrev weight : Runner A → ℕ
  weight ready = 1
  weight (working x) = 2
  weight ended = 0
  weight rejected = 0

  abbrev steps_left : Pool A → ℕ
  steps_left s = 2 * length s.rest + sum_of weight s.runners

  Step-steps_left : {s t : Pool A} → Step s t → suc (steps_left t) ≤ steps_left s
  Step-steps_left (take_item before after x xs e d) =
      rw (e, d)
        (omega (
          arith,
          sum_of-append weight before (working x ∷ after),
          sum_of-append weight before (ready ∷ after),
        ))
  Step-steps_left (leave before after e d) =
      rw (e, d)
        (omega (
          arith,
          sum_of-append weight before (ended ∷ after),
          sum_of-append weight before (ready ∷ after),
        ))
  Step-steps_left (resolve before after x e) = rw e (
      omega (
        arith,
        sum_of-append weight before (ready ∷ after),
        sum_of-append weight before (working x ∷ after),
      ))
  Step-steps_left (reject before after x e) = rw e (
      omega (
        arith,
        sum_of-append weight before (rejected ∷ after),
        sum_of-append weight before (working x ∷ after),
      ))

  Steps-steps_left : {s t : Pool A} {n : ℕ} → Steps s n t → n + steps_left t ≤ steps_left s
  Steps-steps_left here = omega arith
  Steps-steps_left (next r st) = omega (arith, Steps-steps_left r, Step-steps_left st)

  abbrev pub settled : Runner A → Bool
  settled ready = false
  settled (working x) = false
  settled ended = true
  settled rejected = true

  -- A state in which some runner is not settled has a next step.
  data Split (rs : List (Runner A)) : Type ℓ where
    all_settled : all settled rs ≡ true → Split rs
    waits_at :
        (before after : List (Runner A)) (r : Runner A)
        → settled r ≡ false
        → rs ≡ before ++ r ∷ after
        → Split rs

  split : (rs : List (Runner A)) → Split rs
  split [] = all_settled refl
  split (ready ∷ rs) = waits_at [] rs ready refl refl
  split (working x ∷ rs) = waits_at [] rs (working x) refl refl
  split (ended ∷ rs) = elim (split rs) [
    | all_settled h ↦ all_settled h
    | waits_at before after r h e ↦ waits_at (ended ∷ before) after r h (ap (λ l. ended ∷ l) e)
  ]
  split (rejected ∷ rs) = elim (split rs) [
    | all_settled h ↦ all_settled h
    | waits_at before after r h e ↦
        waits_at (rejected ∷ before) after r h (ap (λ l. rejected ∷ l) e)
  ]

  Step-at :
      (s : Pool A) (before after : List (Runner A)) (r : Runner A) (rest : List A)
      → s.rest ≡ rest
      → settled r ≡ false
      → s.runners ≡ before ++ r ∷ after
      → (t : Pool A) × Step s t
  Step-at s before after ready [] d h e = (_, leave before after e d)
  Step-at s before after ready (x ∷ xs) d h e = (_, take_item before after x xs e d)
  Step-at s before after (working x) rest d h e = (_, resolve before after x e)
  Step-at s before after ended rest d h e = cc
  Step-at s before after rejected rest d h e = cc

  -- `Promise.all` does not wait for ever on the pool itself: from every state that is reached either
  -- all runners are settled or a further step is possible, and no run takes more than two steps for
  -- each item and one for each runner.
  pub run_bounded-ends :
      (items : List A) (concurrency : ℕ) {n : ℕ} {s : Pool A}
      → Steps (run_bounded items concurrency) n s
      → (n ≤ 2 * length items + min (limit_of concurrency) (length items))
        × ((all settled s.runners ≡ true) ⊎ ((t : Pool A) × Step s t))
  unfolding run_bounded
  run_bounded-ends items concurrency {n} {s} r = (
    omega (
      arith,
      Steps-steps_left r,
      sum_of-ready_runners weight (min (limit_of concurrency) (length items)),
    ),
    elim (split s.runners) [
      | all_settled h ↦ inl h
      | waits_at before after w h e ↦ inr (Step-at s before after w s.rest refl h e)
    ],
  )

  abbrev one_if_ended : Runner A → ℕ
  one_if_ended ended = 1
  one_if_ended _ = 0

  abbrev one_if_rejected : Runner A → ℕ
  one_if_rejected rejected = 1
  one_if_rejected _ = 0

  -- A sum over the runners before a step, and over those after it.
  sum_at :
      (w : Runner A → ℕ) (before after : List (Runner A)) (r : Runner A) {rs : List (Runner A)}
      → rs ≡ before ++ r ∷ after
      → sum_of w rs ≡ sum_of w before + (w r + sum_of w after)
  sum_at w before after r e = ap (sum_of w) e ∙ sum_of-append w before (r ∷ after)

  Step-stopped :
      {s t : Pool A}
      → Step s t
      → length s.thrown ≡ sum_of one_if_rejected s.runners
      → length t.thrown ≡ sum_of one_if_rejected t.runners
  Step-stopped {s} (take_item before after x xs e d) h = omega (
    arith,
    h,
    sum_at one_if_rejected before after ready e,
    sum_at one_if_rejected before after (working x) refl,
  )
  Step-stopped {s} (leave before after e d) h = omega (
    arith,
    h,
    sum_at one_if_rejected before after ready e,
    sum_at one_if_rejected before after ended refl,
  )
  Step-stopped {s} (resolve before after x e) h = omega (
    arith,
    h,
    sum_at one_if_rejected before after (working x) e,
    sum_at one_if_rejected before after ready refl,
  )
  Step-stopped {s} (reject before after x e) h = omega (
    arith,
    h,
    sum_at one_if_rejected before after (working x) e,
    sum_at one_if_rejected before after rejected refl,
  )

  abbrev Drained : Pool A → Type 0
  Drained s = (sum_of one_if_ended s.runners ≡ 0) ⊎ (length s.rest ≡ 0)

  none_ended :
      (s : Pool A) (before after : List (Runner A)) (r q : Runner A)
      → s.runners ≡ before ++ r ∷ after
      → one_if_ended q ≡ one_if_ended r
      → sum_of one_if_ended s.runners ≡ 0
      → sum_of one_if_ended (before ++ q ∷ after) ≡ 0
  none_ended s before after r q e same h = omega (
    arith,
    h,
    same,
    sum_at one_if_ended before after r e,
    sum_at one_if_ended before after q refl,
  )

  Step-Drained : {s t : Pool A} → Step s t → Drained s → Drained t
  Step-Drained {s} (take_item before after x xs e d) (inl h) =
      inl (none_ended s before after ready (working x) e refl h)
  Step-Drained {s} (take_item before after x xs e d) (inr h) =
      absurd (omega (arith, h, ap length d))
  Step-Drained (leave before after e d) _ = inr (ap length d)
  Step-Drained {s} (resolve before after x e) (inl h) =
      inl (none_ended s before after (working x) ready e refl h)
  Step-Drained (resolve before after x e) (inr h) = inr h
  Step-Drained {s} (reject before after x e) (inl h) =
      inl (none_ended s before after (working x) rejected e refl h)
  Step-Drained (reject before after x e) (inr h) = inr h

  Steps-stopped :
      {s t : Pool A} {n : ℕ}
      → Steps s n t
      → length s.thrown ≡ sum_of one_if_rejected s.runners
      → length t.thrown ≡ sum_of one_if_rejected t.runners
  Steps-stopped here h = h
  Steps-stopped (next r st) h = Step-stopped st (Steps-stopped r h)

  Steps-Drained : {s t : Pool A} {n : ℕ} → Steps s n t → Drained s → Drained t
  Steps-Drained here h = h
  Steps-Drained (next r st) h = Step-Drained st (Steps-Drained r h)

  abbrev pub is_ended : Runner A → Bool
  is_ended ended = true
  is_ended _ = false

  all_ended_sums :
      (rs : List (Runner A))
      → all is_ended rs ≡ true
      → (sum_of one_if_ended rs ≡ length rs) × (sum_of one_if_rejected rs ≡ 0) × (busy rs ≡ [])
  all_ended_sums [] h = (refl, refl, refl)
  all_ended_sums (ended ∷ rs) h =
      let (a, b, c) = all_ended_sums rs h in (omega (arith, a), omega (arith, b), c)
  all_ended_sums (ready ∷ rs) h = cc
  all_ended_sums (working x ∷ rs) h = cc
  all_ended_sums (rejected ∷ rs) h = cc

  count_all : (xs : List A) → count_of (λ x. true) xs ≡ length xs
  count_all [] = refl
  count_all (x ∷ xs) = omega (arith, count_all xs)

  nil_of_length : (xs : List A) → length xs ≡ 0 → xs ≡ []
  nil_of_length [] h = refl
  nil_of_length (x ∷ xs) h = absurd (omega arith)

  count_of_none : (test : A → Bool) (xs : List A) → length xs ≡ 0 → count_of test xs ≡ 0
  count_of_none test [] h = refl
  count_of_none test (x ∷ xs) h = absurd (omega arith)

  -- When every runner has come to the end of its loop, the worker has returned for each item exactly
  -- as often as the item was given, and failed for none.
  pub run_bounded-resolved :
      (items : List A) (concurrency : ℕ) {n : ℕ} {s : Pool A}
      → Steps (run_bounded items concurrency) n s
      → all is_ended s.runners ≡ true
      → (test : A → Bool) → (count_of test s.resolved ≡ count_of test items) × (s.thrown ≡ [])
  unfolding run_bounded
  run_bounded-resolved items concurrency {n} {s} r h test =
      let (ended_sum, rejected_sum, idle) = all_ended_sums s.runners h in
      let runners = min (limit_of concurrency) (length items) in
      let few : length s.runners ≡ runners = Steps-length r ∙ length-ready_runners A runners in
      let stopped = Steps-stopped r (omega (arith, sum_of-ready_runners one_if_rejected runners)) in
      let drained =
        Steps-Drained r (inl (omega (arith, sum_of-ready_runners one_if_ended runners))) in
      let counts = run_bounded-counts items concurrency r in
      let none_thrown : length s.thrown ≡ 0 = omega (arith, stopped, rejected_sum) in
      let none_left : length s.rest ≡ 0 = elim drained [
        | inl no_ended ↦
            let nothing : length items ≡ 0 =
              omega (arith, few, ended_sum, no_ended, limit_of-pos concurrency) in
            omega (arith, (counts (λ x. true)).0, count_all items, count_all s.rest, nothing)
        | inr none ↦ none
      ] in
      (
        omega (
          arith,
          (counts test).0,
          ap (count_of test) idle,
          count_of_none test s.rest none_left,
          count_of_none test s.thrown none_thrown,
        ),
        nil_of_length s.thrown none_thrown,
      )
