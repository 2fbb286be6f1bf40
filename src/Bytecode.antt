-- ===== src/Bytecode.antt =====
-- runner/src/bytecode_validation.ts: which runtime bytecode is worth an audit.
pub mod Kinds
use Prim.Native.Nat.{◌/◌}
use evm_contract_auditor_hon.Prelude.{
  ℕ, ◌+◌, List, [], ◌∷◌, ◌++◌, Bool, true, false, ◌&&◌, ◌||◌, Text, codes, length, drop, take, all,
  leb, ltb, ◌==◌, if◌then◌else◌, text_eq,
}
use evm_contract_auditor_hon.Prelude.Texts.{starts_with, to_lower, lower, decimal, to_string}

pub data BytecodeValidationKind : Type 0 where
  proceed skip_empty skip_trivial eof skip_proxy_shell : BytecodeValidationKind

pub record BytecodeValidation : Type 0 where
  pub kind : BytecodeValidationKind
  pub reason : Text
  pub should_audit : Bool
  pub bytecode_bytes : ℕ

-- `[0-9a-f]` with the flag `i`
unfoldable pub is_hex_digit : ℕ → Bool
is_hex_digit c =
    (leb b'0' c && leb c b'9') || (leb b'a' c && leb c b'f') || (leb b'A' c && leb c b'F')

-- `EIP1167_RE`: the two constants in any case round forty hexadecimal digits, and no more.
unfoldable pub matches_eip1167 : Text → Bool
matches_eip1167 raw =
    text_eq (to_lower (take 20 raw)) (codes "363d3d373d3d3d363d73")
    && (length (take 40 (drop 20 raw)) == 40)
    && all is_hex_digit (take 40 (drop 20 raw))
    && text_eq (to_lower (drop 60 raw)) (codes "5af43d82803e903d91602b57fd5bf3")

-- `/^0+$/`, which an empty text does not match
unfoldable pub is_all_zeros : Text → Bool
is_all_zeros [] = false
is_all_zeros (c ∷ s) = all (λ d. d == b'0') (c ∷ s)

unfoldable pub without_prefix : Text → Text
unfolding starts_with
without_prefix hex =
    if starts_with (codes "0x") hex || starts_with (codes "0X") hex then drop 2 hex else hex

-- The tests on a text that is not empty, after the prefix is taken off.
unfoldable pub classify : Text → ℕ → BytecodeValidation
classify raw byte_len =
    if ltb byte_len 4
    then record {
      kind = skip_trivial;
      reason = codes "bytecode_too_short:" ++ (decimal byte_len ++ codes "_bytes");
      should_audit = false;
      bytecode_bytes = byte_len;
    }
    else if is_all_zeros raw
    then record {
      kind = skip_empty;
      reason = codes "all_zero_bytecode_self_destructed";
      should_audit = false;
      bytecode_bytes = byte_len;
    }
    else if starts_with (codes "ef00") (to_lower raw)
    then record {
      kind = eof;
      reason = codes "eip3541_eof_container";
      should_audit = true;
      bytecode_bytes = byte_len;
    }
    else if matches_eip1167 raw
    then record {
      kind = skip_proxy_shell;
      reason = codes "eip1167_minimal_proxy_shell";
      should_audit = false;
      bytecode_bytes = byte_len;
    }
    else record {
      kind = proceed;
      reason = codes "ok";
      should_audit = true;
      bytecode_bytes = byte_len;
    }

unfoldable pub validate_bytecode : Text → BytecodeValidation
validate_bytecode hex =
    let raw = without_prefix hex in
    if length raw == 0
    then record {
      kind = skip_empty;
      reason = codes "empty_runtime_bytecode";
      should_audit = false;
      bytecode_bytes = 0;
    }
    else classify raw (length raw / 2)
