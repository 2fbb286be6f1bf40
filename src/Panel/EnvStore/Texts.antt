-- ===== src/Panel/EnvStore/Texts.antt =====
-- Lines and trimmed texts, for panel/src/server/env-store.ts and runner/src/schemas.ts.
use mathlib.Core.Path.{subst}
use mathlib.Core.List.{reverse, reverse-append, reverse-reverse, append_assoc}
use evm_contract_auditor_hon.Prelude.{
  ℕ, ◌+◌, ◌-◌, ◌≡◌, refl, sym, ap, ◌∙◌, List, [], ◌∷◌, ◌++◌, false, All, All-append,
  All-append_right, some, Text, length, length-append, take, drop, ◌==◌, if◌then◌else◌, text_eq,
  arith, ◌⊎◌, inl, inr, Bool-cases,
}
use evm_contract_auditor_hon.Prelude.Texts.{
  trim, trim_start, starts_with, ends_with, index_of, is_space, join,
}
use evm_contract_auditor_hon.Documents.{split_lines, lines_of, without_return}

-- `split_lines` always gives a line.
split_lines-cons : (s : Text) → (line : Text) × (lines : List Text) × (split_lines s ≡ line ∷ lines)
unfolding split_lines
split_lines-cons [] = ([], [], refl)
split_lines-cons (c ∷ s) =
    let (line, lines, e) = split_lines-cons s in
    elim (Bool-cases (c == 10)) [
      | inl feed ↦ ([], line ∷ lines, rw (e, feed) refl)
      | inr other ↦ (c ∷ line, lines, rw (e, other) refl)
    ]

-- A unit that neither ends a line nor is removed from its end.
abbrev pub IsLineUnit : ℕ → Type 0
IsLineUnit c = ((c == 10) ≡ false) × ((c == 13) ≡ false)

split_lines-line :
    (line rest : Text)
    → All IsLineUnit line
    → split_lines (line ++ 10 ∷ rest) ≡ line ∷ split_lines rest
unfolding split_lines
split_lines-line [] rest h = let (l, ls, e) = split_lines-cons rest in rw e refl
split_lines-line (c ∷ line) rest ((feed, return), h) = rw (split_lines-line line rest h, feed) refl

-- Each line with its line feed.
abbrev pub unlines : List Text → Text
unlines [] = []
unlines (line ∷ lines) = line ++ 10 ∷ unlines lines

pub join-unlines :
    (line : Text) (lines : List Text)
    → join (10 ∷ []) (line ∷ lines) ++ 10 ∷ [] ≡ unlines (line ∷ lines)
unfolding join
join-unlines line [] = refl
join-unlines line (next ∷ lines) =
    append_assoc line (10 ∷ join (10 ∷ []) (next ∷ lines)) (10 ∷ [])
    ∙ ap (λ r. line ++ 10 ∷ r) (join-unlines next lines)

split_lines-unlines :
    (lines : List Text)
    → All (All IsLineUnit) lines
    → split_lines (unlines lines) ≡ lines ++ [] ∷ []
unfolding split_lines
split_lines-unlines [] h = refl
split_lines-unlines (line ∷ lines) (h, k) =
    split_lines-line line (unlines lines) h ∙ ap (λ ls. line ∷ ls) (split_lines-unlines lines k)

-- A text is empty, or it has a last unit.
pub last_unit : (s : Text) → (s ≡ []) ⊎ ((t : Text) × (y : ℕ) × (s ≡ t ++ y ∷ []))
last_unit [] = inl refl
last_unit (c ∷ s) = elim (last_unit s) [
  | inl e ↦ inr ([], c, rw e refl)
  | inr (t, y, e) ↦ inr (c ∷ t, y, rw e refl)
]

pub drop-length : (s t : Text) → drop (length s) (s ++ t) ≡ t
drop-length [] t = refl
drop-length (c ∷ s) t = drop-length s t

pub take-length : (s t : Text) → take (length s) (s ++ t) ≡ s
take-length [] t = refl
take-length (c ∷ s) t = ap (λ r. c ∷ r) (take-length s t)

-- What the last unit says of the end.
pub ends_with-last : (t : Text) (x y : ℕ) → ends_with (x ∷ []) (t ++ y ∷ []) ≡ (y == x)
unfolding ends_with text_eq
ends_with-last t x y =
    let long : length (t ++ y ∷ []) ≡ length t + 1 = length-append t (y ∷ []) in
    let rest : drop (length (t ++ y ∷ []) - 1) (t ++ y ∷ []) ≡ y ∷ [] =
      ap (λ n. drop n (t ++ y ∷ [])) (omega (arith, long)) ∙ drop-length t (y ∷ []) in
    rw rest (ground (arith, long))

without_return-nil : without_return [] ≡ []
unfolding ends_with
without_return-nil = refl

without_return-same : (line : Text) → All IsLineUnit line → without_return line ≡ line
without_return-same line h = elim (last_unit line) [
  | inl e ↦ subst (λ l. without_return l ≡ l) (sym e) without_return-nil
  | inr (t, y, e) ↦
      let (_, return) = (All-append_right IsLineUnit t (y ∷ []) (subst (All IsLineUnit) e h)).0 in
      subst (λ l. without_return l ≡ l) (sym e)
        (ap (λ b. if b then take (length (t ++ y ∷ []) - 1) (t ++ y ∷ []) else t ++ y ∷ [])
          (ends_with-last t 13 y ∙ return))
]

-- Nothing is taken from the end of a line.
lines_of-same : (lines : List Text) → All (All IsLineUnit) lines → lines_of lines ≡ lines
unfolding lines_of
lines_of-same [] h = refl
lines_of-same (line ∷ []) h = refl
lines_of-same (line ∷ next ∷ rest) (h, k) =
    rw (without_return-same line h) (ap (λ r. line ∷ r) (lines_of-same (next ∷ rest) k))

-- Splitting takes the line feeds off again.
pub lines_of-unlines :
    (lines : List Text)
    → All (All IsLineUnit) lines
    → lines_of (split_lines (unlines lines)) ≡ lines ++ [] ∷ []
lines_of-unlines lines h =
    ap lines_of (split_lines-unlines lines h)
    ∙ lines_of-same (lines ++ [] ∷ []) (All-append (All IsLineUnit) lines ([] ∷ []) h (tt, tt))

trim_start-same : (c : ℕ) (s : Text) → is_space c ≡ false → trim_start (c ∷ s) ≡ c ∷ s
unfolding trim_start
trim_start-same c s h = ap (λ b. if b then trim_start s else c ∷ s) h

-- A text whose first and last units are no spaces.
pub trim-same :
    (c : ℕ) (s t : Text) (y : ℕ)
    → c ∷ s ≡ t ++ y ∷ []
    → is_space c ≡ false
    → is_space y ≡ false
    → trim (c ∷ s) ≡ c ∷ s
unfolding trim
trim-same c s t y e first last =
    let turned : reverse (c ∷ s) ≡ y ∷ reverse t = ap reverse e ∙ reverse-append t (y ∷ []) in
    let kept = ap reverse (trim_start-same c s first) ∙ turned in
    ap (λ r. reverse (trim_start r)) kept
    ∙ ap reverse (trim_start-same y (reverse t) last)
    ∙ ap reverse (sym turned)
    ∙ reverse-reverse (c ∷ s)

pub index_of-first :
    (key rest : Text)
    → All (λ c. (61 == c) ≡ false) key
    → index_of (61 ∷ []) (key ++ 61 ∷ rest) ≡ some (length key)
unfolding index_of starts_with
index_of-first [] rest h = refl
index_of-first (c ∷ key) rest (p, h) = rw (p, index_of-first key rest h) refl
