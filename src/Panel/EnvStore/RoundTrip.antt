-- ===== src/Panel/EnvStore/RoundTrip.antt =====
-- What the readers of the environment file make of the text that panel/src/server/env-store.ts writes.
use mathlib.Core.List.{append_assoc}
use evm_contract_auditor_hon.Prelude.{
  suc, ◌+◌, ◌≡◌, ◌≢◌, refl, sym, ap, ◌∙◌, List, [], ◌∷◌, ◌++◌, map, All, All-append, All-map, some,
  Text, length, take, drop, arith, inl, inr,
}
use evm_contract_auditor_hon.Prelude.Dict.{Dict, insert}
use evm_contract_auditor_hon.Prelude.Texts.{trim, index_of, is_space, join}
use evm_contract_auditor_hon.Utils.Retry.{ok}
use evm_contract_auditor_hon.Utils.Checks.{◌>>=◌}
use evm_contract_auditor_hon.Documents.{
  pair, read_line, read_lines, parse_env_file_document, split_at_equals, line_pair, store,
  split_lines, lines_of,
}
use evm_contract_auditor_hon.Panel.EnvStore.{
  read_pair, read_pairs, add_pair, pair_at, parse_env_file, written, line_for, serialize_env_file,
  from_entries, without_quotes,
}
use evm_contract_auditor_hon.Panel.EnvStore.Texts.{
  IsLineUnit, take-length, trim-same, index_of-first, join-unlines, lines_of-unlines,
}
use evm_contract_auditor_hon.Panel.EnvStore.Values.{
  IsKeyUnit, IsValueUnit, key_unit, written-end, written-IsLineUnit, key-IsNoSpace, trim-key,
  trim-written, unquote-written, without_quotes-written,
}

-- A key of capitals, digits and `_`, and a value without quotes and line ends.
abbrev pub IsStorable : Text × Text → Type 0
IsStorable (key, value) = (key ≢ []) × All IsKeyUnit key × All IsValueUnit value

drop-key : (key rest : Text) → drop (length key + 1) (key ++ 61 ∷ rest) ≡ rest
drop-key key rest =
    let more : length key + 1 ≡ suc (length key) = omega arith in
    ap (λ n. drop n (key ++ 61 ∷ rest)) more ∙ after key
  where
    after : (k : Text) → drop (suc (length k)) (k ++ 61 ∷ rest) ≡ rest
    after [] = refl
    after (c ∷ k) = after k

-- The parts of a line at its first `=`.
module _ (key value : Text) (keys : All IsKeyUnit key) (values : All IsValueUnit value) where
  first_equals : index_of (61 ∷ []) (line_for (key, value)) ≡ some (length key)
  first_equals = index_of-first key (written value) (All-map (λ c h. (key_unit c h).0) key keys)

  key_part : trim (take (length key) (line_for (key, value))) ≡ key
  key_part = ap trim (take-length key (61 ∷ written value)) ∙ trim-key key keys

  value_part : trim (drop (length key + 1) (line_for (key, value))) ≡ written value
  value_part = ap trim (drop-key key (written value)) ∙ trim-written value values

split_at_equals-line :
    (key value : Text)
    → IsStorable (key, value)
    → split_at_equals (line_for (key, value)) (index_of (61 ∷ []) (line_for (key, value)))
      ≡ ok (pair key value)
split_at_equals-line [] value (set, keys, values) = absurd (set refl)
split_at_equals-line (c ∷ key) value (set, keys, values) =
    let line = line_for (c ∷ key, value) in
    ap (split_at_equals line) (first_equals (c ∷ key) value keys values)
    ∙ ap (λ k. line_pair line k (trim (drop (length (c ∷ key) + 1) line)))
        (key_part (c ∷ key) value keys values)
    ∙ ap (λ v. line_pair line (c ∷ key) v) (value_part (c ∷ key) value keys values)
    ∙ ap (λ v. ok (pair (c ∷ key) v)) (unquote-written value values)

pair_at-line :
    (key value : Text)
    → IsStorable (key, value)
    → pair_at (line_for (key, value)) (index_of (61 ∷ []) (line_for (key, value)))
      ≡ some (key, value)
pair_at-line [] value (set, keys, values) = absurd (set refl)
pair_at-line (c ∷ key) value (set, keys, values) =
    let line = line_for (c ∷ key, value) in
    ap (pair_at line) (first_equals (c ∷ key) value keys values)
    ∙ ap (λ k. some (k, without_quotes (trim (drop (length (c ∷ key) + 1) line))))
        (key_part (c ∷ key) value keys values)
    ∙ ap (λ v. some (c ∷ key, without_quotes v)) (value_part (c ∷ key) value keys values)
    ∙ ap (λ v. some (c ∷ key, v)) (without_quotes-written value values)

-- The line begins with its key and ends with no space.
trim-line :
    (key value : Text)
    → IsStorable (key, value)
    → trim (line_for (key, value)) ≡ line_for (key, value)
unfolding is_space
trim-line [] value (set, keys, values) = absurd (set refl)
trim-line (c ∷ key) value (set, keys, values) = elim (written-end value values) [
  | inl e ↦
      trim-same c (key ++ 61 ∷ written value) (c ∷ key) 61 (ap (λ w. c ∷ (key ++ 61 ∷ w)) e)
        (key-IsNoSpace c keys.0) refl
  | inr (t, y, e, plain) ↦
      trim-same c (key ++ 61 ∷ written value) ((c ∷ key) ++ 61 ∷ t) y
        (ap (λ w. c ∷ (key ++ 61 ∷ w)) e ∙ sym (append_assoc (c ∷ key) (61 ∷ t) (y ∷ [])))
        (key-IsNoSpace c keys.0) plain
]

-- No unit of the line ends a line.
line_for-IsLineUnit : (p : Text × Text) → IsStorable p → All IsLineUnit (line_for p)
line_for-IsLineUnit (key, value) (set, keys, values) =
    All-append IsLineUnit key (61 ∷ written value) (All-map (λ c h. (key_unit c h).2) key keys)
      ((refl, refl), written-IsLineUnit value values)

read_line-line :
    (p : Text × Text) → IsStorable p → read_line (trim (line_for p)) ≡ ok (pair p.0 p.1)
unfolding read_line
read_line-line ([], value) (set, keys, values) = absurd (set refl)
read_line-line (c ∷ key, value) h =
    ap read_line (trim-line (c ∷ key) value h)
    ∙ rw (key_unit c h.1.0).1 (split_at_equals-line (c ∷ key) value h)

read_pair-line : (p : Text × Text) → IsStorable p → read_pair (trim (line_for p)) ≡ some p
unfolding read_pair
read_pair-line ([], value) (set, keys, values) = absurd (set refl)
read_pair-line (c ∷ key, value) h =
    ap read_pair (trim-line (c ∷ key) value h)
    ∙ rw (key_unit c h.1.0).1 (pair_at-line (c ∷ key) value h)

-- The last line of the file is empty.
read_lines-lines :
    (pairs : List (Text × Text)) (d : Dict Text)
    → All IsStorable pairs
    → read_lines (map line_for pairs ++ [] ∷ []) d ≡ ok (from_entries pairs d)
unfolding read_lines read_line trim ◌>>=◌
read_lines-lines [] d h = refl
read_lines-lines (p ∷ pairs) d (h, k) =
    ap (λ r. r >>= λ line. read_lines (map line_for pairs ++ [] ∷ []) (store line d))
      (read_line-line p h)
    ∙ read_lines-lines pairs (insert p.0 p.1 d) k

read_pairs-lines :
    (pairs : List (Text × Text))
    → All IsStorable pairs
    → read_pairs (map line_for pairs ++ [] ∷ []) ≡ pairs
unfolding read_pairs read_pair trim
read_pairs-lines [] h = refl
read_pairs-lines (p ∷ pairs) (h, k) =
    ap (λ o. add_pair o (read_pairs (map line_for pairs ++ [] ∷ []))) (read_pair-line p h)
    ∙ ap (λ ps. p ∷ ps) (read_pairs-lines pairs k)

lines_of-serialize_env_file :
    (p : Text × Text) (pairs : List (Text × Text))
    → All IsStorable (p ∷ pairs)
    → lines_of (split_lines (serialize_env_file (p ∷ pairs))) ≡ map line_for (p ∷ pairs) ++ [] ∷ []
unfolding serialize_env_file
lines_of-serialize_env_file p pairs h =
    ap (λ t. lines_of (split_lines t)) (join-unlines (line_for p) (map line_for pairs))
    ∙ lines_of-unlines (map line_for (p ∷ pairs)) (all_lines (p ∷ pairs) h)
  where
    all_lines :
        (ps : List (Text × Text)) → All IsStorable ps → All (All IsLineUnit) (map line_for ps)
    all_lines [] k = tt
    all_lines (q ∷ ps) (k, ks) = (line_for-IsLineUnit q k, all_lines ps ks)

nothing_stored :
    (parse_env_file (serialize_env_file []) ≡ [])
    × (parse_env_file_document (serialize_env_file []) ≡ ok [])
unfolding parse_env_file read_pairs lines_of split_lines serialize_env_file join read_pair
    parse_env_file_document ◌>>=◌ read_line
nothing_stored = (refl, refl)

-- If every key is a non-empty word of capitals, digits and `_` and no value has a double quote or
-- the end of a line, then the panel reads the pairs back from the file that it wrote, in their
-- order, and the runner reads them from it as the record of these pairs, in which the last one of a
-- key counts.
pub serialize_env_file-read :
    (pairs : List (Text × Text))
    → All IsStorable pairs
    → (parse_env_file (serialize_env_file pairs) ≡ pairs)
      × (parse_env_file_document (serialize_env_file pairs) ≡ ok (from_entries pairs []))
unfolding parse_env_file parse_env_file_document
serialize_env_file-read [] h = nothing_stored
serialize_env_file-read (p ∷ pairs) h =
    let lines = lines_of-serialize_env_file p pairs h in
    (
      ap read_pairs lines ∙ read_pairs-lines (p ∷ pairs) h,
      ap (λ ls. read_lines ls []) lines ∙ read_lines-lines (p ∷ pairs) [] h,
    )
