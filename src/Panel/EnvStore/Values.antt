-- ===== src/Panel/EnvStore/Values.antt =====
-- One pair of panel/src/server/env-store.ts as it is written, and as both readers take it apart.
use mathlib.Core.Path.{subst}
use evm_contract_auditor_hon.Prelude.{
  ℕ, ◌-◌, ◌≡◌, refl, sym, ap, ◌∙◌, [], ◌∷◌, ◌++◌, Bool, true, false, ◌&&◌, ◌||◌, not, any, All,
  All-append, All-append_right, All-map, Text, length, length-append, take, leb, ◌==◌,
  if◌then◌else◌, arith, ◌⊎◌, inl, inr, Bool-cases,
}
use evm_contract_auditor_hon.Prelude.Texts.{trim, starts_with, ends_with, slice, is_space}
use evm_contract_auditor_hon.Documents.{is_terminator, unquote}
use evm_contract_auditor_hon.Panel.EnvStore.{is_quotable, escape_quotes, written, without_quotes}
use evm_contract_auditor_hon.Panel.EnvStore.Texts.{
  IsLineUnit, last_unit, take-length, ends_with-last, trim-same,
}

-- The units of the keys of panel/src/server/env-schema.ts: capitals, digits and `_`.
abbrev pub is_key_unit : ℕ → Bool
is_key_unit c = (leb b'A' c && leb c b'Z') || (leb b'0' c && leb c b'9') || (c == b'_')

abbrev pub IsKeyUnit : ℕ → Type 0
IsKeyUnit c = is_key_unit c ≡ true

-- No quote and no end of a line.
abbrev pub IsValueUnit : ℕ → Type 0
IsValueUnit c = ((c == b'"') ≡ false) × (is_terminator c ≡ false)

abbrev IsNoSpace : ℕ → Type 0
IsNoSpace c = is_space c ≡ false

pub key-IsNoSpace : (c : ℕ) → IsKeyUnit c → IsNoSpace c
unfolding is_space
key-IsNoSpace c h = ground arith

pub key_unit : (c : ℕ) → IsKeyUnit c → ((61 == c) ≡ false) × ((c == 35) ≡ false) × IsLineUnit c
key_unit c h = ground arith

any-none : (p : ℕ → Bool) (s : Text) → All (λ c. p c ≡ false) s → any p s ≡ false
any-none p [] h = refl
any-none p (c ∷ s) (h, k) = rw (h, any-none p s k) refl

none-any : (p : ℕ → Bool) (s : Text) → any p s ≡ false → All (λ c. p c ≡ false) s
none-any p [] h = tt
none-any p (c ∷ s) h = (ground arith, none-any p s (ground arith))

escape_quotes-same : (v : Text) → All IsValueUnit v → escape_quotes v ≡ v
unfolding escape_quotes
escape_quotes-same [] h = refl
escape_quotes-same (c ∷ v) ((quote, _), h) = rw (quote, escape_quotes-same v h) refl

abbrev quoted : Text → Text
quoted v = b'"' ∷ v ++ b'"' ∷ []

-- A value is written between quotes, or as it is where it has none of the units for that.
pub written-cases :
    (v : Text)
    → All IsValueUnit v
    → (written v ≡ quoted v) ⊎ ((written v ≡ v) × All (λ c. is_quotable c ≡ false) v)
unfolding written
written-cases v h = elim (Bool-cases (any is_quotable v)) [
  | inl quotable ↦ inl (rw (quotable, escape_quotes-same v h) refl)
  | inr plain ↦ inr (rw plain refl, none-any is_quotable v plain)
]

quotable-IsNoSpace : (c : ℕ) → is_quotable c ≡ false → IsNoSpace c
quotable-IsNoSpace c h = ground arith

pub trim-IsNoSpace : (s : Text) → All IsNoSpace s → trim s ≡ s
unfolding trim
trim-IsNoSpace [] h = refl
trim-IsNoSpace (c ∷ s) (first, h) = elim (last_unit (c ∷ s)) [
  | inl e ↦ cc
  | inr (t, y, e) ↦
      trim-same c s t y e first
        (All-append_right IsNoSpace t (y ∷ []) (subst (All IsNoSpace) e (first, h))).0
]

pub trim-key : (key : Text) → All IsKeyUnit key → trim key ≡ key
trim-key key h = trim-IsNoSpace key (All-map key-IsNoSpace key h)

pub trim-written : (v : Text) → All IsValueUnit v → trim (written v) ≡ written v
unfolding is_space
trim-written v h = elim (written-cases v h) [
  | inl e ↦ subst (λ w. trim w ≡ w) (sym e) (trim-same 34 (v ++ 34 ∷ []) (34 ∷ v) 34 refl refl refl)
  | inr (e, plain) ↦
      subst (λ w. trim w ≡ w) (sym e) (trim-IsNoSpace v (All-map quotable-IsNoSpace v plain))
]

-- A written value is empty or ends with no space.
pub written-end :
    (v : Text)
    → All IsValueUnit v
    → (written v ≡ []) ⊎ ((t : Text) × (y : ℕ) × (written v ≡ t ++ y ∷ []) × (is_space y ≡ false))
unfolding is_space
written-end v h = elim (written-cases v h) [
  | inl e ↦ inr (34 ∷ v, 34, e, refl)
  | inr (e, plain) ↦ elim (last_unit v) [
    | inl empty ↦ inl (e ∙ empty)
    | inr (t, y, last) ↦
        let kept =
          All-append_right (λ c. is_quotable c ≡ false) t (y ∷ [])
            (subst (All (λ c. is_quotable c ≡ false)) last plain) in
        inr (t, y, e ∙ last, quotable-IsNoSpace y kept.0)
  ]
]

slice-quoted : (v : Text) → slice 1 (length (quoted v) - 1) (quoted v) ≡ v
slice-quoted v =
    ap (λ n. take n (v ++ 34 ∷ [])) (omega (arith, length-append v (34 ∷ [])))
    ∙ take-length v (34 ∷ [])

value_unit : (c : ℕ) → IsValueUnit c → is_terminator c ≡ false
value_unit c h = h.1

starts_with-quoted : (v : Text) → starts_with (34 ∷ []) (quoted v) ≡ true
unfolding starts_with
starts_with-quoted v = refl

starts_with-other :
    (x : ℕ) (v : Text) → All (λ c. (x == c) ≡ false) v → starts_with (x ∷ []) v ≡ false
unfolding starts_with
starts_with-other x [] h = refl
starts_with-other x (c ∷ v) (h, k) = rw h refl

value_no_quote : (c : ℕ) → IsValueUnit c → (34 == c) ≡ false
value_no_quote c (h, k) = ground arith

quotable_no_quote : (c : ℕ) → is_quotable c ≡ false → (39 == c) ≡ false
quotable_no_quote c h = ground arith

four : (a b c d : Bool) → a ≡ true → b ≡ true → c ≡ true → d ≡ false → a && b && c && not d ≡ true
four a b c d ha hb hc hd = rw (ha, hb, hc, hd) refl

second_false : (a b c d : Bool) → b ≡ false → a && b && c && d ≡ false
second_false true b c d h = rw h refl
second_false false b c d h = refl

-- The runner takes the quotes off again.
unquote-quoted : (v : Text) → All IsValueUnit v → unquote (quoted v) ≡ v
unfolding unquote
unquote-quoted v h =
    ap (λ b. if b then slice 1 (length (quoted v) - 1) (quoted v) else quoted v)
      (four (leb 2 (length (quoted v))) (starts_with (34 ∷ []) (quoted v))
        (ends_with (34 ∷ []) (quoted v)) (any is_terminator (quoted v))
        (ground (arith, length-append v (34 ∷ []))) (starts_with-quoted v)
        (ends_with-last (34 ∷ v) 34 34)
        (any-none is_terminator (quoted v) (
          refl,
          All-append (λ c. is_terminator c ≡ false) v (34 ∷ []) (All-map value_unit v h) (refl, tt),
        )))
    ∙ slice-quoted v

unquote-same : (v : Text) → All IsValueUnit v → unquote v ≡ v
unfolding unquote
unquote-same v h =
    ap (λ b. if b then slice 1 (length v - 1) v else v)
      (second_false (leb 2 (length v)) (starts_with (34 ∷ []) v) (ends_with (34 ∷ []) v)
        (not (any is_terminator v)) (starts_with-other 34 v (All-map value_no_quote v h)))

pub unquote-written : (v : Text) → All IsValueUnit v → unquote (written v) ≡ v
unquote-written v h = elim (written-cases v h) [
  | inl e ↦ ap unquote e ∙ unquote-quoted v h
  | inr (e, plain) ↦ ap unquote e ∙ unquote-same v h
]

-- So does the panel.
pub without_quotes-written : (v : Text) → All IsValueUnit v → without_quotes (written v) ≡ v
without_quotes-written v h = elim (written-cases v h) [
  | inl e ↦
      ap without_quotes e
      ∙ rw (starts_with-quoted v, ends_with-last (34 ∷ v) 34 34) (slice-quoted v)
  | inr (e, plain) ↦
      ap without_quotes e
      ∙ rw
          (
            starts_with-other 34 v (All-map value_no_quote v h),
            starts_with-other 39 v (All-map quotable_no_quote v plain),
          )
          refl
]

value-IsLineUnit : (c : ℕ) → IsValueUnit c → IsLineUnit c
value-IsLineUnit c (h, k) = ground arith

-- What is written of a value stays on its line.
pub written-IsLineUnit : (v : Text) → All IsValueUnit v → All IsLineUnit (written v)
written-IsLineUnit v h =
    let units = All-map value-IsLineUnit v h in
    elim (written-cases v h) [
      | inl e ↦
          subst (All IsLineUnit) (sym e)
            ((refl, refl), All-append IsLineUnit v (34 ∷ []) units ((refl, refl), tt))
      | inr (e, plain) ↦ subst (All IsLineUnit) (sym e) units
    ]
