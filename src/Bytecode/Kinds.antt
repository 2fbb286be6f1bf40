-- ===== src/Bytecode/Kinds.antt =====
-- What the answers of `validateBytecode` of runner/src/bytecode_validation.ts mean.
use Prim.Native.Nat.{◌/◌}
use mathlib.Core.Path.{subst}
use evm_contract_auditor_hon.Prelude.{
  ℕ, ◌≤◌, ◌<◌, ◌≡◌, refl, sym, ◌∙◌, ◌↔◌, inl, inr, Bool, true, false, Text, length, arith, ◌==◌,
  Bool-cases,
}
use evm_contract_auditor_hon.Bytecode.{
  BytecodeValidationKind, proceed, skip_trivial, eof, skip_proxy_shell, is_all_zeros,
  matches_eip1167, without_prefix, classify, validate_bytecode,
}

-- The kinds that let an audit go on.
abbrev pub audits : BytecodeValidationKind → Bool
audits proceed = true
audits eof = true
audits _ = false

classify_parts :
    (raw : Text) (n : ℕ)
    → ((classify raw n).should_audit ≡ audits (classify raw n).kind)
      × ((classify raw n).bytecode_bytes ≡ n)
      × (((classify raw n).kind ≡ skip_trivial) ↔ (n < 4))
      × ((classify raw n).kind ≡ skip_proxy_shell → matches_eip1167 raw ≡ true)
      × ((classify raw n).should_audit ≡ true → (4 ≤ n) × (is_all_zeros raw ≡ false))
unfolding classify
classify_parts raw n =
    (ground arith, ground arith, (ground arith, ground arith), ground arith, ground arith)

validate_bytecode_parts :
    (hex : Text)
    → ((validate_bytecode hex).should_audit ≡ audits (validate_bytecode hex).kind)
      × ((validate_bytecode hex).bytecode_bytes ≡ length (without_prefix hex) / 2)
      × ((validate_bytecode hex).should_audit ≡ true
          → (4 ≤ (validate_bytecode hex).bytecode_bytes)
            × (is_all_zeros (without_prefix hex) ≡ false))
unfolding validate_bytecode
validate_bytecode_parts hex = elim (Bool-cases (length (without_prefix hex) == 0)) [
  | inl empty ↦ rw empty (refl, ground arith, λ h. cc)
  | inr digits ↦
      let (kind, size, _, _, audited) =
        classify_parts (without_prefix hex) (length (without_prefix hex) / 2) in
      rw digits (kind, size, λ h. rw size (audited h))
]

-- Code that is to be audited has four bytes or more, counting two digits as a byte, is not all
-- zeros, and is of the kind `proceed` or `eof`.
pub validate_bytecode-should_audit :
    (hex : Text)
    → (validate_bytecode hex).should_audit ≡ true
    → (4 ≤ length (without_prefix hex) / 2)
      × (is_all_zeros (without_prefix hex) ≡ false)
      × (audits (validate_bytecode hex).kind ≡ true)
validate_bytecode-should_audit hex h =
    let (kind, size, audited) = validate_bytecode_parts hex in
    let (four, not_zero) = audited h in (subst (λ n. 4 ≤ n) size four, not_zero, sym kind ∙ h)

-- A minimal proxy shell is never audited: the kind that `runAuditJob` is told of by its flag
-- `--proxy-shell` is one that `shouldAudit` turns away, and such code matches the pattern of
-- EIP-1167.
pub validate_bytecode-skip_proxy_shell :
    (hex : Text)
    → (validate_bytecode hex).kind ≡ skip_proxy_shell
    → ((validate_bytecode hex).should_audit ≡ false) × (matches_eip1167 (without_prefix hex) ≡ true)
unfolding validate_bytecode
validate_bytecode-skip_proxy_shell hex h =
    let n = length (without_prefix hex) / 2 in ground (arith, classify_parts (without_prefix hex) n)
