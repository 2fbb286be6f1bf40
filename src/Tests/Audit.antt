-- ===== src/Tests/Audit.antt =====
-- Examples for runner/src/auditor.ts, runner/src/bytecode_validation.ts and `processDeployment`.
use Prim.Native.Nat.{◌/◌}
use evm_contract_auditor_hon.Prelude.{
  ℕ, ◌≤◌, ◌≡◌, ◌↔◌, refl, true, false, Option, some, none, Text, codes, length, text_eq,
}
use evm_contract_auditor_hon.Prelude.Texts.{to_lower, starts_with}
use evm_contract_auditor_hon.Types.Audit.{AuditApiJson, hex_arg}
use evm_contract_auditor_hon.Utils.Retry.{Result, ok, err}
use evm_contract_auditor_hon.World.{ProcessOutput}
use evm_contract_auditor_hon.Auditor.{judge}
use evm_contract_auditor_hon.Auditor.Outcome.{judge-is_ok, judge_failed}
use evm_contract_auditor_hon.Bytecode.{
  validate_bytecode, skip_proxy_shell, is_all_zeros, without_prefix, matches_eip1167, is_hex_digit,
  classify,
}
use evm_contract_auditor_hon.Bytecode.Kinds.{
  audits, validate_bytecode-should_audit, validate_bytecode-skip_proxy_shell,
}
use evm_contract_auditor_hon.Emit.Quiet.{Quiet}
use evm_contract_auditor_hon.Tests.Data.{runtime, target, job}

abbrev timed_out_run : ProcessOutput
timed_out_run = record {
  code = none;
  timed_out = true;
  output_limit_exceeded = false;
  stdout = codes "";
  stderr = codes "";
}

judge-is_ok_example :
    ((judge runtime job hex_arg 1 2 timed_out_run (err (codes "e"))).is_ok ≡ true) ↔ (
      (true ≡ false)
      × (false ≡ false)
      × (◌≡◌ {A = Option ℕ} none (some 0))
      × ((d : AuditApiJson) × (◌≡◌ {A = Result AuditApiJson} (err (codes "e")) (ok d))))
judge-is_ok_example = judge-is_ok runtime job hex_arg 1 2 timed_out_run (err (codes "e"))

judge_failed_example :
    let result = judge runtime job hex_arg 1 2 timed_out_run (err (codes "e")) in
    (result.api_json ≡ none)
    × ((reason : Text) × (result.failure_reason ≡ some reason))
    × (result.target ≡ job.target)
    × (result.cache_key ≡ job.cache_key)
unfolding judge
judge_failed_example = judge_failed runtime job hex_arg 1 2 timed_out_run (err (codes "e")) refl

abbrev code : Text
code = codes "0x60806040"

abbrev shell : Text
shell =
    codes
      "0x363d3d373d3d3d363d73bebebebebebebebebebebebebebebebebebebebe5af43d82803e903d91602b57fd5bf3"

code_audited : (validate_bytecode code).should_audit ≡ true
unfolding validate_bytecode classify without_prefix is_all_zeros matches_eip1167 is_hex_digit
    to_lower text_eq starts_with
code_audited = refl

shell_kind : (validate_bytecode shell).kind ≡ skip_proxy_shell
unfolding validate_bytecode classify without_prefix is_all_zeros matches_eip1167 is_hex_digit
    to_lower text_eq starts_with
shell_kind = refl

validate_bytecode-should_audit_example :
    (4 ≤ length (without_prefix code) / 2)
    × (is_all_zeros (without_prefix code) ≡ false)
    × (audits (validate_bytecode code).kind ≡ true)
validate_bytecode-should_audit_example = validate_bytecode-should_audit code code_audited

validate_bytecode-skip_proxy_shell_example :
    ((validate_bytecode shell).should_audit ≡ false)
    × (matches_eip1167 (without_prefix shell) ≡ true)
validate_bytecode-skip_proxy_shell_example = validate_bytecode-skip_proxy_shell shell shell_kind

abbrev address : Text
address = codes "bebebebebebebebebebebebebebebebebebebebe"
