-- ===== src/Utils/ParseInt.antt =====
-- `Number.parseInt(text, radix)` for the radixes 10 and 16, and the functions of
-- runner/src/utils.ts that call it. `none` is NaN. Numbers are exact here; the program's are up to
-- 2^53, far above any block number, size or time.
use evm_contract_auditor_hon.Prelude.{
  ℕ, zero, suc, ◌+◌, ◌≤◌, ◌<◌, ◌≡◌, refl, ◌∙◌, [], ◌∷◌, false, ◌&&◌, ◌||◌, Option, some, none, Text,
  codes, arith, ap, inl, inr, ltb, lt→ltb, Bool-cases, ◌==◌, if◌then◌else◌, drop, All,
}
use mathlib.Core.Option
use native.Mathlib.Nat.{div-add-mod', mod-lt}
use Prim.Native.Nat.{◌*◌, ◌/◌, ◌%◌}
use evm_contract_auditor_hon.Prelude.Int.{ℤ, pos}
use evm_contract_auditor_hon.Prelude.Texts.{
  digit, digit_value, digits_from, to_string, is_space, trim_start, starts_with,
}
use evm_contract_auditor_hon.Prelude.Int.{◌-ℤ◌}

-- The number that the leading digits stand for, above the digits read before.
unfoldable pub scan : ℕ → ℕ → Text → ℕ
unfolding digit_value
scan radix n [] = n
scan radix n (c ∷ s) =
    let rest = scan radix (n * radix + digit_value c) s in
    if ltb (digit_value c) radix then rest else n

-- NaN unless there is a digit.
unfoldable pub scan_digits : ℕ → Text → Option ℕ
unfolding scan
scan_digits radix [] = none
scan_digits radix (c ∷ s) =
    if ltb (digit_value c) radix then some (scan radix (digit_value c) s) else none

-- A `0x` before the digits is skipped in radix 16.
unfoldable pub strip_radix_prefix : ℕ → Text → Text
unfolding starts_with
strip_radix_prefix radix s =
    if radix == 16 && (starts_with (codes "0x") s || starts_with (codes "0X") s)
    then drop 2 s
    else s

negate : ℕ → ℤ
negate n = pos 0 -ℤ pos n

unfoldable pub parse_unsigned : ℕ → Text → Option ℕ
unfolding scan_digits strip_radix_prefix
parse_unsigned radix s = scan_digits radix (strip_radix_prefix radix s)

unfoldable pub parse_signed : ℕ → Text → Option ℤ
unfolding parse_unsigned negate ◌-ℤ◌
parse_signed radix [] = none
parse_signed radix (c ∷ s) =
    if c == b'-'
    then Option.map negate (parse_unsigned radix s)
    else if c == b'+'
    then Option.map pos (parse_unsigned radix s)
    else Option.map pos (parse_unsigned radix (c ∷ s))

unfoldable pub parse_int : ℕ → Text → Option ℤ
unfolding parse_signed trim_start
parse_int radix s = parse_signed radix (trim_start s)

-- `parseInteger`: an absent, empty or unreadable value gives the fallback.
unfoldable pub parse_integer : Option Text → ℤ → ℤ
unfolding parse_int
parse_integer none fallback = fallback
parse_integer (some []) fallback = fallback
parse_integer (some (c ∷ s)) fallback = elim (parse_int 10 (c ∷ s)) [ none ↦ fallback | some n ↦ n ]

-- Reading back the digits that `toString` writes.
digit_value-digit : (d : ℕ) → d < 36 → digit_value (digit d) ≡ d
unfolding digit_value digit
digit_value-digit d h = ground arith

-- A unit that the scan takes.
abbrev IsDigit : ℕ → ℕ → Type 0
IsDigit radix c = digit_value c < radix

module _ (radix : ℕ) (small : radix ≤ 33) (large : 2 ≤ radix) where
  scan-cons :
      (m d : ℕ) (acc : Text)
      → d < radix
      → scan radix m (digit d ∷ acc) ≡ scan radix (m * radix + d) acc
  unfolding scan
  scan-cons m d acc h = rw (digit_value-digit d (omega arith)) (rw (lt→ltb d radix h))

  quotient_lt : (n f : ℕ) → n < suc f → radix ≤ n → n / radix < f
  quotient_lt n f h k = grind (arith, div-add-mod' n radix)

  scan-digits_from :
      (f n : ℕ) (acc : Text) → n < f → scan radix 0 (digits_from radix f n acc) ≡ scan radix n acc
  unfolding digits_from
  scan-digits_from zero n acc h = elim h [ ]
  scan-digits_from (suc f) n acc h = elim (Bool-cases (ltb n radix)) [
    | inl one ↦ rw one (scan-cons 0 n acc (ground arith) ∙ ap (λ v. scan radix v acc) (omega arith))
    | inr more ↦
        let big : radix ≤ n = ground arith in
        let d : ℕ = n % radix in
        let whole : n / radix * radix + d ≡ n = omega (arith, div-add-mod' n radix) in
        rw more (
          scan-digits_from f (n / radix) (digit d ∷ acc) (quotient_lt n f h big)
          ∙ scan-cons (n / radix) d acc (mod-lt n {m = radix} (omega arith))
          ∙ ap (λ v. scan radix v acc) whole)
  ]

  digit-IsDigit : (d : ℕ) → d < radix → IsDigit radix (digit d)
  digit-IsDigit d h = omega (arith, digit_value-digit d)

  All-digits_from {κ} :
      (P : ℕ → Type κ)
      → ((d : ℕ) → d < radix → P (digit d))
      → (f n : ℕ) (acc : Text) → n < f
      → All P acc
      → All P (digits_from radix f n acc)
  unfolding digits_from
  All-digits_from P each zero n acc h k = elim h [ ]
  All-digits_from P each (suc f) n acc h k = elim (Bool-cases (ltb n radix)) [
    | inl one ↦ rw one (each n (ground arith), k)
    | inr more ↦ rw more (
        All-digits_from P each f (n / radix) (digit (n % radix) ∷ acc)
          (quotient_lt n f h (ground arith))
          (each (n % radix) (mod-lt n {m = radix} (omega arith)), k))
  ]

  -- Every unit that `toString` writes is a digit below the radix.
  pub All-to_string {κ} :
      (P : ℕ → Type κ) → ((d : ℕ) → d < radix → P (digit d)) → (n : ℕ) → All P (to_string radix n)
  unfolding to_string
  All-to_string P each n = All-digits_from P each (suc n) n [] (omega arith) tt

  digits_from-cons :
      (f n : ℕ) (acc : Text) → n < f → (c : ℕ) × (r : Text) × (digits_from radix f n acc ≡ c ∷ r)
  unfolding digits_from
  digits_from-cons zero n acc h = elim h [ ]
  digits_from-cons (suc f) n acc h = elim (Bool-cases (ltb n radix)) [
    | inl one ↦ (digit n, acc, rw one)
    | inr more ↦ rw more (digits_from-cons f (n / radix) _ (quotient_lt n f h (ground arith)))
  ]

  digit_is_plain :
      (c : ℕ)
      → IsDigit radix c
      → (is_space c ≡ false)
        × ((c == b'-') ≡ false)
        × ((c == b'+') ≡ false)
        × ((b'x' == c) ≡ false)
        × ((b'X' == c) ≡ false)
  unfolding is_space digit_value
  digit_is_plain c h = (ground arith, ground arith, ground arith, ground arith, ground arith)

  strip_radix_prefix_of_digits :
      (c : ℕ) (r : Text) → All (IsDigit radix) (c ∷ r) → strip_radix_prefix radix (c ∷ r) ≡ c ∷ r
  unfolding strip_radix_prefix
  strip_radix_prefix_of_digits c [] h = ground arith
  strip_radix_prefix_of_digits c (d ∷ r) (h, (k, rest)) =
      ground (arith, (digit_is_plain d k).3, (digit_is_plain d k).4)

  scan_digits_of_digits :
      (c : ℕ) (r : Text) → IsDigit radix c → scan_digits radix (c ∷ r) ≡ some (scan radix 0 (c ∷ r))
  unfolding scan_digits
  scan_digits_of_digits c r h = rw (lt→ltb _ _ h) (ap (λ v. some (scan radix v r)) (omega arith))

  -- Digits alone are read whole: nothing before them is skipped.
  parse_int_of_digits :
      (c : ℕ) (r : Text)
      → All (IsDigit radix) (c ∷ r)
      → parse_int radix (c ∷ r) ≡ some (pos (scan radix 0 (c ∷ r)))
  unfolding parse_int
  parse_int_of_digits c r h =
      let (plain, minus, plus, _, _) = digit_is_plain c h.0 in
      rw plain (
        rw minus
          (rw plus (rw (strip_radix_prefix_of_digits c r h) (rw (scan_digits_of_digits c r h.0)))))

  -- `parseInt(n.toString(radix), radix)` is `n`, in radix 10, 16 and any other up to 33.
  pub parse_int-to_string : (n : ℕ) → parse_int radix (to_string radix n) ≡ some (pos n)
  unfolding to_string scan
  parse_int-to_string n =
      let fuel : n < suc n = omega arith in
      let (c, r, shape) = digits_from-cons (suc n) n [] fuel in
      let digits = All-digits_from (IsDigit radix) digit-IsDigit (suc n) n [] fuel tt in
      let value = scan-digits_from (suc n) n [] fuel in
      rw shape
        (parse_int_of_digits c r (rw shape at digits) ∙ ap (λ v. some (pos v)) (rw shape at value))

prefixed : parse_int 16 (codes " 0x1fz") ≡ some (pos 31)
unfolding parse_int scan
prefixed = refl

not_a_number : parse_int 10 (codes "-x") ≡ none
unfolding parse_int
not_a_number = refl
