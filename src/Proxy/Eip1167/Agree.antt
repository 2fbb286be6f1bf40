-- ===== src/Proxy/Eip1167/Agree.antt =====
-- The two tests for a minimal proxy: the pattern `EIP1167_RE` of runner/src/bytecode_validation.ts
-- and `detectEip1167` of runner/src/proxy.ts.
use mathlib.Core.Path.{subst}
use evm_contract_auditor_hon.Prelude.{
  ℕ, zero, suc, ◌+◌, ◌-◌, ◌≤◌, ◌≡◌, ◌⊎◌, refl, sym, ◌∙◌, ap, [], ◌∷◌, ◌++◌, Bool, true, ◌&&◌,
  Option, none, some, Text, length, take, drop, All, All-map, All-drop, All-append, all, arith,
  text_eq, text_eq_iff, leb, length-drop, length-take, ◌≢◌, if◌then◌else◌, Bool-cases, inl, inr,
  ◌==◌,
}
use evm_contract_auditor_hon.Prelude.Texts.{
  starts_with, ends_with, index_of, slice, to_lower, lower, is_space,
}
use evm_contract_auditor_hon.Utils.Hex.{hex_prefix, IsPlain, strip_hex_prefix_of_plain}
use evm_contract_auditor_hon.Bytecode.{matches_eip1167, is_hex_digit}
use evm_contract_auditor_hon.Proxy.{detect_eip1167, detect_inside, eip1167_prefix, eip1167_suffix}
use evm_contract_auditor_hon.Proxy.Eip1167.{
  IsShell, shell_of, detect_of_IsShell, matches-IsShell, All-take,
}

-- A hexadecimal digit in lower case.
abbrev pub IsHexUnit : ℕ → Type 0
IsHexUnit c = (is_hex_digit c ≡ true) × (lower c ≡ c)

IsHexUnit-IsPlain : (c : ℕ) → IsHexUnit c → IsPlain c
unfolding is_hex_digit is_space
IsHexUnit-IsPlain c (digit, low) = (ground arith, low)

take_of_starts_with : (p s : Text) → starts_with p s ≡ true → take (length p) s ≡ p
unfolding starts_with
take_of_starts_with [] [] h = refl
take_of_starts_with [] (c ∷ s) h = refl
take_of_starts_with (a ∷ p) [] h = cc
take_of_starts_with (a ∷ p) (b ∷ s) h = ground (arith, take_of_starts_with p s)

starts_with_of_index_of : (p s : Text) → index_of p s ≡ some 0 → starts_with p s ≡ true
unfolding index_of
starts_with_of_index_of p [] h = ground arith
starts_with_of_index_of p (a ∷ s) h = elim (Bool-cases (starts_with p (a ∷ s))) [
  | inl found ↦ found
  | inr missing ↦ absurd (
      no_first (index_of p s) (
        subst
          (λ b.
            (if b then some 0 else elim (index_of p s) [ none ↦ none | some i ↦ some (suc i) ])
            ≡ some 0)
          missing h))
]
  where
    no_first : (o : Option ℕ) → elim o [ none ↦ none | some i ↦ some (suc i) ] ≢ some 0
    no_first none h = ground arith
    no_first (some i) h = ground arith

starts_with-IsShell :
    (raw : Text)
    → length raw ≡ 90
    → starts_with eip1167_prefix raw ≡ true
    → drop 60 raw ≡ eip1167_suffix
    → IsShell raw
unfolding eip1167_prefix
starts_with-IsShell raw whole front back = record {
  front = take_of_starts_with _ raw front;
  middle = omega (arith, length-take 40 (drop 20 raw), length-drop 20 raw);
  back = back;
}

all_of_IsHexUnit : (s : Text) → All IsHexUnit s → all is_hex_digit s ≡ true
all_of_IsHexUnit [] h = refl
all_of_IsHexUnit (c ∷ s) ((digit, low), h) = rw (digit, all_of_IsHexUnit s h) refl

and_parts3 : (a b c : Bool) → (a && b && c) ≡ true → (a ≡ true) × (b ≡ true) × (c ≡ true)
and_parts3 a b c h = ground arith

ends_with_of_drop :
    (raw : Text)
    → length raw ≡ 90
    → ends_with eip1167_suffix raw ≡ true
    → drop 60 raw ≡ eip1167_suffix
unfolding ends_with eip1167_suffix
ends_with_of_drop raw whole h = (text_eq_iff (drop 60 raw) eip1167_suffix).0 (
    second (leb 30 90) (text_eq (drop (90 - 30) raw) eip1167_suffix)
      (subst (λ n. (leb 30 n && text_eq (drop (n - 30) raw) eip1167_suffix) ≡ true) whole h))
  where
    second : (a b : Bool) → (a && b) ≡ true → b ≡ true
    second a b h = ground arith

take_all : (n : ℕ) (s : Text) → length s ≡ n → take n s ≡ s
take_all zero [] h = refl
take_all zero (c ∷ s) h = absurd (omega arith)
take_all (suc n) [] h = refl
take_all (suc n) (c ∷ s) h = ap (λ r. c ∷ r) (take_all n s (omega arith))

length_suffix : length eip1167_suffix ≡ 30
unfolding eip1167_suffix
length_suffix = refl

-- In code of at most 45 bytes the suffix has room only behind a prefix at the start.
slice-IsShell :
    (raw : Text) (i : ℕ)
    → length raw ≤ 90
    → slice (i + 20 + 40) (i + 20 + 40 + 30) raw ≡ eip1167_suffix
    → index_of eip1167_prefix raw ≡ some i
    → IsShell raw
slice-IsShell raw i short same e =
    let size : length (slice (i + 20 + 40) (i + 20 + 40 + 30) raw) ≡ 30 =
      ap length same ∙ length_suffix in
    let bound = length-take ((i + 20 + 40 + 30) - (i + 20 + 40)) (drop (i + 20 + 40) raw) in
    let rest = length-drop (i + 20 + 40) raw in
    let first : i ≡ 0 = omega arith in
    let whole : length raw ≡ 90 = omega arith in
    starts_with-IsShell raw whole (starts_with_of_index_of eip1167_prefix raw (e ∙ ap some first)) (
      sym (take_all 30 (drop 60 raw) (length-drop 60 raw ∙ ap (λ n. n - 60) whole))
      ∙ subst (λ j. slice (j + 20 + 40) (j + 20 + 40 + 30) raw ≡ eip1167_suffix) first same)

prefix-IsHexUnit : All IsHexUnit eip1167_prefix
unfolding eip1167_prefix is_hex_digit lower
prefix-IsHexUnit = ground arith

suffix-IsHexUnit : All IsHexUnit eip1167_suffix
unfolding eip1167_suffix is_hex_digit lower
suffix-IsHexUnit = ground arith

pub shell_of-IsHexUnit : (address : Text) → All IsHexUnit address → All IsHexUnit (shell_of address)
shell_of-IsHexUnit address hex =
    All-append IsHexUnit eip1167_prefix _ prefix-IsHexUnit
      (All-append IsHexUnit address eip1167_suffix hex suffix-IsHexUnit)

module _ (raw : Text) (hex : All IsHexUnit raw) where
  plain : All IsPlain raw
  plain = All-map IsHexUnit-IsPlain raw hex

  -- The pattern matches a shell in hexadecimal digits.
  pub matches_of_IsShell : IsShell raw → matches_eip1167 raw ≡ true
  unfolding matches_eip1167 eip1167_prefix eip1167_suffix to_lower lower text_eq
  matches_of_IsShell h = rw h.front (
      rw h.back (
        rw h.middle (
          rw
            (all_of_IsHexUnit _
              (All-take IsHexUnit 40 (drop 20 raw) (All-drop IsHexUnit 20 raw hex)))
            refl)))

  -- A shell that `detectEip1167` finds inside code of at most 45 bytes is the whole code.
  detect_inside_of_short :
      (o : Option ℕ)
      → length raw ≤ 90
      → index_of eip1167_prefix raw ≡ o
      → (detect_inside raw o ≡ none) ⊎ IsShell raw
  unfolding detect_inside
  detect_inside_of_short none short e = inl refl
  detect_inside_of_short (some i) short e =
      elim (Bool-cases (text_eq (slice (i + 20 + 40) (i + 20 + 40 + 30) raw) eip1167_suffix)) [
        | inr absent ↦ inl (rw absent refl)
        | inl there ↦
            let same =
              (text_eq_iff (slice (i + 20 + 40) (i + 20 + 40 + 30) raw) eip1167_suffix).0 there in
            inr (slice-IsShell raw i short same e)
      ]

  detect_cases : length raw ≤ 90 → (detect_eip1167 (hex_prefix ++ raw) ≡ none) ⊎ IsShell raw
  unfolding detect_eip1167
  detect_cases short =
      elim (Bool-cases
        (length raw == 90 && starts_with eip1167_prefix raw && ends_with eip1167_suffix raw)) [
          | inl whole ↦
              let (size, front, back) = and_parts3 _ _ _ whole in
              let n : length raw ≡ 90 = ground arith in
              inr (starts_with-IsShell raw n front (ends_with_of_drop raw n back))
          | inr absent ↦ elim (detect_inside_of_short (index_of eip1167_prefix raw) short refl) [
            | inl nothing ↦ inl (rw (strip_hex_prefix_of_plain raw plain) (rw absent nothing))
            | inr shell ↦ inr shell
          ]
        ]

  -- On code of at most 45 bytes, in lower-case hexadecimal digits, the two tests agree: the proxy
  -- detection finds an address, the forty digits after the first twenty, where the pattern matches,
  -- and none where it does not.
  pub detect_eip1167-matches_eip1167 :
      length raw ≤ 90
      → detect_eip1167 (hex_prefix ++ raw)
        ≡ (if matches_eip1167 raw then some (hex_prefix ++ slice 20 60 raw) else none)
  detect_eip1167-matches_eip1167 short = elim (Bool-cases (matches_eip1167 raw)) [
    | inl matched ↦ rw matched (detect_of_IsShell raw plain (matches-IsShell raw plain matched))
    | inr absent ↦ elim (detect_cases short) [
      | inl nothing ↦ rw absent nothing
      | inr shell ↦ let yes = matches_of_IsShell shell in cc
    ]
  ]
