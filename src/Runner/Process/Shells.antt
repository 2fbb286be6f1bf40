-- ===== src/Runner/Process/Shells.antt =====
-- What runner/src/runner.ts does with a contract whose code is a minimal proxy.
use evm_contract_auditor_hon.Prelude.{◌≡◌, refl, true, false, Text}
use evm_contract_auditor_hon.Emit.Quiet.{Quiet}
use evm_contract_auditor_hon.Types.Audit.{AuditTarget}
use evm_contract_auditor_hon.World.{World}
use evm_contract_auditor_hon.Bytecode.{
  BytecodeValidationKind, proceed, skip_empty, skip_trivial, eof, skip_proxy_shell,
  validate_bytecode,
}
use evm_contract_auditor_hon.Bytecode.Kinds.{validate_bytecode-skip_proxy_shell}
use evm_contract_auditor_hon.Runner.Results.{is_proxy_shell, job_for}

-- The job of a target whose deployment's code is worth an audit never carries the flag of a minimal
-- proxy's shell.
pub job_for-validate_bytecode :
    (cache_key : Text) (target : AuditTarget) (code : Text)
    → (validate_bytecode code).should_audit ≡ true
    → (job_for cache_key target (validate_bytecode code).kind).proxy_shell ≡ false
unfolding job_for
job_for-validate_bytecode cache_key target code audited = by_kind (validate_bytecode code).kind refl
  where
    by_kind :
        (k : BytecodeValidationKind)
        → (validate_bytecode code).kind ≡ k
        → is_proxy_shell (validate_bytecode code).kind ≡ false
    by_kind skip_proxy_shell e = let (skipped, _) = validate_bytecode-skip_proxy_shell code e in cc
    by_kind proceed e = rw e refl
    by_kind skip_empty e = rw e refl
    by_kind skip_trivial e = rw e refl
    by_kind eof e = rw e refl
