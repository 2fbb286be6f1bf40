-- ===== src/State/Prune.antt =====
-- `pruneRecordMap` of runner/src/state.ts: the sort, and which entries are kept.
use mathlib.Core.List.{Perm}
use mathlib.Core.List.Perm
use native.Mathlib.Nat.{le_trans}
use evm_contract_auditor_hon.Prelude.{
  ℕ, suc, ◌-◌, ◌≤◌, min, ◌≡◌, refl, inl, inr, [], ◌∷◌, ◌++◌, Option, Text, length, take, drop, All,
  arith, leb, leb→le, sym, ◌∙◌, Bool-cases, length-drop, take-append-drop, All-map,
  All-append_right,
}
use evm_contract_auditor_hon.Prelude.Int.{pos, leb_ℤ, ◌-ℤ◌}
use evm_contract_auditor_hon.Prelude.Dict.{Dict}
use evm_contract_auditor_hon.State.{
  or_zero, compare_timestamp, insert_sorted, sort_entries, prune_record_map,
}

-- The comparison that `sort` is given orders by time.
compare_timestamp-leb :
    (a b : Option ℕ) → leb_ℤ (compare_timestamp a b) (pos 0) ≡ leb (or_zero a) (or_zero b)
unfolding compare_timestamp ◌-ℤ◌
compare_timestamp-leb a b = ground arith

module _ {ℓ} {V : Type ℓ} (get_timestamp : V → Option ℕ) where
  abbrev pub time : Text × V → ℕ
  time e = or_zero (get_timestamp e.1)

  abbrev Sorted : Dict V → Type ℓ
  Sorted [] = Unit
  Sorted (a ∷ bs) = All (λ b. time a ≤ time b) bs × Sorted bs

  insert_sorted-perm :
      (a : Text × V) (bs : Dict V) → Perm (insert_sorted get_timestamp a bs) (a ∷ bs)
  unfolding insert_sorted
  insert_sorted-perm a [] = Perm.refl _
  insert_sorted-perm a (b ∷ bs) =
      elim (Bool-cases
        (leb_ℤ (compare_timestamp (get_timestamp a.1) (get_timestamp b.1)) (pos 0))) [
          | inl before ↦ rw before (Perm.refl _)
          | inr after ↦
              rw after (Perm.trans (Perm.cons b (insert_sorted-perm a bs)) (Perm.swap a b bs))
        ]

  sort_entries-perm : (records : Dict V) → Perm (sort_entries get_timestamp records) records
  unfolding sort_entries
  sort_entries-perm [] = Perm.refl _
  sort_entries-perm (a ∷ bs) =
      Perm.trans (insert_sorted-perm a _) (Perm.cons a (sort_entries-perm bs))

  All-insert_sorted {κ} :
      (P : Text × V → Type κ) (a : Text × V) (bs : Dict V)
      → P a
      → All P bs
      → All P (insert_sorted get_timestamp a bs)
  unfolding insert_sorted
  All-insert_sorted P a [] p h = (p, tt)
  All-insert_sorted P a (b ∷ bs) p (q, h) = ground (arith, All-insert_sorted P a bs p h)

  insert_sorted-Sorted :
      (a : Text × V) (bs : Dict V) → Sorted bs → Sorted (insert_sorted get_timestamp a bs)
  unfolding insert_sorted
  insert_sorted-Sorted a [] h = (tt, tt)
  insert_sorted-Sorted a (b ∷ bs) (q, h) =
      elim (Bool-cases
        (leb_ℤ (compare_timestamp (get_timestamp a.1) (get_timestamp b.1)) (pos 0))) [
          | inl before ↦
              let le : time a ≤ time b =
                leb→le _ _
                  (sym (compare_timestamp-leb (get_timestamp a.1) (get_timestamp b.1)) ∙ before) in
              rw before ((le, All-map (λ c p. le_trans le p) bs q), (q, h))
          | inr after ↦
              let le : time b ≤ time a =
                ground (arith, compare_timestamp-leb (get_timestamp a.1) (get_timestamp b.1)) in
              rw after
                (All-insert_sorted (λ c. time b ≤ time c) a bs le q, insert_sorted-Sorted a bs h)
        ]

  sort_entries-Sorted : (records : Dict V) → Sorted (sort_entries get_timestamp records)
  unfolding sort_entries
  sort_entries-Sorted [] = tt
  sort_entries-Sorted (a ∷ bs) = insert_sorted-Sorted a _ (sort_entries-Sorted bs)

  length-insert_sorted :
      (a : Text × V) (bs : Dict V) → length (insert_sorted get_timestamp a bs) ≡ suc (length bs)
  unfolding insert_sorted
  length-insert_sorted a [] = refl
  length-insert_sorted a (b ∷ bs) = ground (arith, length-insert_sorted a bs)

  length-sort_entries :
      (records : Dict V) → length (sort_entries get_timestamp records) ≡ length records
  unfolding sort_entries
  length-sort_entries [] = refl
  length-sort_entries (a ∷ bs) =
      omega (arith, length-insert_sorted a (sort_entries get_timestamp bs), length-sort_entries bs)

  Sorted-append : (xs ys : Dict V) → Sorted (xs ++ ys) → All (λ x. All (λ y. time x ≤ time y) ys) xs
  Sorted-append [] ys h = tt
  Sorted-append (x ∷ xs) ys (p, h) = (All-append_right _ xs ys p, Sorted-append xs ys h)

  -- What pruning promises: a split of the entries into those dropped and those kept, where nothing
  -- dropped is newer than anything kept.
  pub record Pruned (max_entries : ℕ) (records kept : Dict V) : Type ℓ where
    pub dropped : Dict V
    pub all_there : Perm (dropped ++ kept) records
    pub oldest : All (λ d. All (λ k. time d ≤ time k) kept) dropped
    pub size : length kept ≡ min max_entries (length records)

  -- Pruning keeps as many entries as the limit allows, and those are the newest: every entry of the
  -- map is kept or dropped, exactly as often as it was there, no dropped entry has a later time than a kept one, and the
  -- number kept is the smaller of the limit and the number of entries.
  pub prune_record_map-Pruned :
      (max_entries : ℕ) (records : Dict V)
      → Pruned max_entries records (prune_record_map get_timestamp max_entries records)
  unfolding prune_record_map
  prune_record_map-Pruned max_entries records =
      elim (Bool-cases (leb (length records) max_entries)) [
        | inl fits ↦
            rw fits
              (record { dropped = []; all_there = Perm.refl _; oldest = tt; size = ground arith })
        | inr over ↦
            let n : ℕ = length records - max_entries in
            let sorted : Dict V = sort_entries get_timestamp records in
            let whole : take n sorted ++ drop n sorted ≡ sorted = take-append-drop n sorted in
            rw over (record {
              dropped = take n sorted;
              all_there = rw whole (sort_entries-perm records);
              oldest =
                  Sorted-append (take n sorted) (drop n sorted)
                    (rw whole (sort_entries-Sorted records));
              size = ground (arith, length-drop n sorted, length-sort_entries records);
            })
      ]
