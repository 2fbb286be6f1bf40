-- ===== src/Tests/Abi.antt =====
-- Examples for panel/src/server/sim/abi.ts.
use Prim.Native.Nat.{◌*◌}
use evm_contract_auditor_hon.Prelude.{ℕ, ◌≡◌, refl, List, [], ◌++◌, Text, codes, length, take, drop}
use evm_contract_auditor_hon.Prelude.Int.{pos, negsuc}
use evm_contract_auditor_hon.Prelude.Texts.{to_string}
use evm_contract_auditor_hon.Utils.Checks.{◌>>=◌}
use evm_contract_auditor_hon.Utils.Retry.{ok}
use evm_contract_auditor_hon.Panel.Abi.{
  uint, bytes, tuple, ArgValues, end_args, arg, zeros, pad_left64, hex_of, uint_hex, abi_encode,
  encode_tail, encode_args, is_dynamic, encode_static, without_prefix, bytes_tail, half_hex,
  pad_right64,
}
use evm_contract_auditor_hon.Panel.Abi.Layout.{abi_encode-offsets}

-- The units of these texts are ASCII.
abbrev ascii : Text → List ℕ
ascii s = s

abbrev two_args : ArgValues
two_args = arg (uint (pos 7)) (arg (bytes (codes "0xab")) end_args)

abbrev two_words : Text
two_words =
    zeros 63
    ++ codes "7"
    ++ zeros 62
    ++ codes "40"
    ++ zeros 63
    ++ codes "1"
    ++ codes "ab"
    ++ zeros 62

encoded_there : abi_encode ascii two_args ≡ ok two_words
unfolding abi_encode ◌>>=◌ encode_args is_dynamic encode_static uint_hex pad_left64 without_prefix
    to_string bytes_tail half_hex pad_right64
encoded_there = refl

abi_encode-offsets_example :
    (offset : ℕ) × (encoded : Text) × (encode_tail ascii (bytes (codes "0xab")) ≡ ok encoded)
    × (take 64 (drop 64 two_words) ≡ pad_left64 (hex_of offset))
    × (take (length encoded) (drop (2 * offset) two_words) ≡ encoded)
unfolding is_dynamic
abi_encode-offsets_example =
    abi_encode-offsets ascii two_args two_words 1 (bytes (codes "0xab")) (refl, (refl, tt))
      encoded_there refl refl

-- The static tuple takes two words, so the bytes stand at 0x60, and their offset is 0x40.
tuple_offset :
    abi_encode ascii
      (arg (tuple (arg (uint (pos 1)) (arg (uint (pos 2)) end_args))) (arg (bytes []) end_args))
    ≡ ok (zeros 63 ++ codes "1" ++ zeros 63 ++ codes "2" ++ zeros 62 ++ codes "40" ++ zeros 64)
unfolding abi_encode ◌>>=◌ encode_args is_dynamic encode_static uint_hex pad_left64 without_prefix
    to_string bytes_tail half_hex pad_right64
tuple_offset = refl

-- A negative number keeps its sign.
negative : uint_hex (negsuc 0) ≡ zeros 62 ++ codes "-1"
unfolding uint_hex pad_left64 without_prefix to_string
negative = refl
