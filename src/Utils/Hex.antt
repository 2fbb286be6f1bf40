-- ===== src/Utils/Hex.antt =====
-- The hexadecimal texts of runner/src/utils.ts, and `toHex` of runner/src/rpc.ts.
use evm_contract_auditor_hon.Prelude.{
  ℕ, ◌<◌, ◌≡◌, refl, ap, [], ◌∷◌, ◌++◌, map, Bool, false, Option, some, none, Text, codes, arith,
  ◌==◌, if◌then◌else◌, drop, All, all, slice_last,
}
use evm_contract_auditor_hon.Prelude.Int.{ℤ, pos}
use evm_contract_auditor_hon.Prelude.Texts.{
  trim, to_lower, lower, starts_with, to_string, is_space, trim_start, digit,
}
use evm_contract_auditor_hon.Utils.ParseInt.{parse_int, parse_int-to_string, All-to_string}
use mathlib.Core.List.{reverse, reverse_aux, reverse-reverse}

-- The prefix of a normalised text.
abbrev pub hex_prefix : Text
hex_prefix = codes "0x"

unfoldable pub normalize_hex : Option Text → Text
unfolding to_lower trim starts_with
normalize_hex none = hex_prefix
normalize_hex (some []) = hex_prefix
normalize_hex (some (c ∷ s)) =
    let trimmed = to_lower (trim (c ∷ s)) in
    if starts_with hex_prefix trimmed then trimmed else hex_prefix ++ trimmed

unfoldable pub strip_hex_prefix : Text → Text
unfolding normalize_hex
strip_hex_prefix value = drop 2 (normalize_hex (some value))

-- `/^0+$/` after the test for the empty text.
abbrev pub all_zeros : Text → Bool
all_zeros s = all (λ c. c == b'0') s

unfoldable pub parse_address_from_storage : Text → Option Text
unfolding strip_hex_prefix slice_last
parse_address_from_storage storage_value =
    let raw = strip_hex_prefix storage_value in
    if all_zeros raw then none else some (hex_prefix ++ slice_last 40 raw)

unfoldable pub hex_to_number : Text → Option ℤ
unfolding strip_hex_prefix parse_int
hex_to_number value = parse_int 16 (strip_hex_prefix value)

unfoldable pub to_hex : ℕ → Text
unfolding to_string
to_hex value = hex_prefix ++ to_string 16 value

storage_word :
    parse_address_from_storage
      (codes "0x000000000000000000000000AAbbccddeeff00112233445566778899aabbccdd")
    ≡ some (codes "0xaabbccddeeff00112233445566778899aabbccdd")
unfolding parse_address_from_storage
storage_word = refl

quantity : hex_to_number (codes "0x1B4") ≡ some (pos 436)
unfolding hex_to_number
quantity = refl

missing_code : normalize_hex none ≡ codes "0x"
unfolding normalize_hex
missing_code = refl

-- A text that no step of `normalizeHex` changes, unit by unit.
abbrev pub IsPlain : ℕ → Type 0
IsPlain c = (is_space c ≡ false) × (lower c ≡ c)

trim_start_of_plain : (s : Text) → All IsPlain s → trim_start s ≡ s
unfolding trim_start
trim_start_of_plain [] h = refl
trim_start_of_plain (c ∷ s) h = rw h.0.0

pub to_lower_of_plain : (s : Text) → All IsPlain s → map lower s ≡ s
to_lower_of_plain [] h = refl
to_lower_of_plain (c ∷ s) (p, h) = cc (p.1, to_lower_of_plain s h)

All-reverse_aux : (s t : Text) → All IsPlain s → All IsPlain t → All IsPlain (reverse_aux s t)
All-reverse_aux [] t h k = k
All-reverse_aux (c ∷ s) t (p, h) k = All-reverse_aux s (c ∷ t) h (p, k)

trim_of_plain : (s : Text) → All IsPlain s → trim s ≡ s
unfolding trim
trim_of_plain s h =
    rw (trim_start_of_plain s h)
      (rw (trim_start_of_plain (reverse s) (All-reverse_aux s [] h tt)) (reverse-reverse s))

-- A prefixed text of plain units is its own normal form.
pub normalize_hex_of_plain :
    (s : Text) → All IsPlain s → normalize_hex (some (hex_prefix ++ s)) ≡ hex_prefix ++ s
unfolding normalize_hex is_space lower
normalize_hex_of_plain s h =
    let plain : All IsPlain (hex_prefix ++ s) = ((refl, refl), ((refl, refl), h)) in
    rw (trim_of_plain (hex_prefix ++ s) plain) (rw (to_lower_of_plain (hex_prefix ++ s) plain))

pub strip_hex_prefix_of_plain : (s : Text) → All IsPlain s → strip_hex_prefix (hex_prefix ++ s) ≡ s
unfolding strip_hex_prefix
strip_hex_prefix_of_plain s h = ap (drop 2) (normalize_hex_of_plain s h)

digit-IsPlain : (d : ℕ) → d < 16 → IsPlain (digit d)
unfolding digit is_space lower
digit-IsPlain d h = (ground arith, ground arith)

-- The number that `toHex` writes is the number that `hexToNumber` reads back.
pub hex_to_number-to_hex : (n : ℕ) → hex_to_number (to_hex n) ≡ some (pos n)
unfolding hex_to_number to_hex
hex_to_number-to_hex n =
    let digits = All-to_string 16 (omega arith) (omega arith) IsPlain digit-IsPlain n in
    rw (normalize_hex_of_plain (to_string 16 n) digits)
      (parse_int-to_string 16 (omega arith) (omega arith) n)
