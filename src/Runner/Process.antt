-- ===== src/Runner/Process.antt =====
-- `processDeployment` of runner/src/runner.ts. The targets of a deployment are audited one after the
-- other.
pub mod Shells
use evm_contract_auditor_hon.Prelude.{
  ℕ, ◌+◌, ◌-◌, List, [], ◌∷◌, ◌++◌, map, Bool, true, false, ◌&&◌, ◌||◌, not, Option, none, some,
  Text, codes, length, leb, ltb, ◌==◌, if◌then◌else◌, slice_last,
}
use evm_contract_auditor_hon.Prelude.Dict.{Dict, lookup, insert}
use evm_contract_auditor_hon.Prelude.Texts.{trim}
use evm_contract_auditor_hon.Types.Config.{RunnerConfig, CliOptions}
use evm_contract_auditor_hon.Types.Proxy.{TargetKind, proxy_shell, ProxyResolution}
use evm_contract_auditor_hon.Types.Audit.{
  AuditTarget, AuditResult, AuditJob, AuditApiJson, AuditSummary, RunnerRuntime, AuditApiFinding,
}
use evm_contract_auditor_hon.Types.Events.{
  WebhookEvent, WebhookEventType, contract_detected, audit_completed, audit_failed,
  findings_detected, proxy_resolution_failed, RunSummary,
}
use evm_contract_auditor_hon.Types.Checkpoint.{CachedAuditRecord, RunnerCheckpoint}
use evm_contract_auditor_hon.Types.Rpc.{DetectedDeployment}
use evm_contract_auditor_hon.Bytecode.{
  BytecodeValidation, BytecodeValidationKind, eof, skip_proxy_shell, proceed, skip_empty,
  skip_trivial, validate_bytecode,
}
use evm_contract_auditor_hon.State.{get_cached_record}
use evm_contract_auditor_hon.State.Artifacts.{
  audit_artifact_path, deployment_artifact_path, target_kind_text,
  sanitize_audit_result_for_persistence,
}
use evm_contract_auditor_hon.Utils.Hex.{normalize_hex}
use evm_contract_auditor_hon.Utils.Retry.{Result, ok, err}
use evm_contract_auditor_hon.World.{
  World, M, pure, modify, ◌>>=◌, ◌>>◌, count, measure, for_each, read_clock, get_checkpoint, Env,
  ArtifactFile, audit, deployment,
}
use evm_contract_auditor_hon.Client.{get_code}
use evm_contract_auditor_hon.Proxy.{resolve_proxy}
use evm_contract_auditor_hon.Proxy.Targets.{build_additional_audit_targets, referring_to}
use evm_contract_auditor_hon.Auditor.{run_audit_job}
use evm_contract_auditor_hon.Emit.{save, emit_event}
use evm_contract_auditor_hon.Runner.Ids.{event_id, build_cache_key}
use evm_contract_auditor_hon.Runner.Results.{
  write_artifact, artifacts_dir, result_for, count_result, emit_audit_events, usable_record,
}

-- What the events of one deployment have in common.
abbrev event_of : DetectedDeployment → AuditTarget → Text → WebhookEventType → ℕ → WebhookEvent
event_of d target id kind now = record {
  id = id;
  kind = kind;
  timestamp = now;
  chain_id = d.chain_id;
  block_number = d.block_number;
  tx_hash = d.tx_hash;
  contract_address = d.contract_address;
  deployer = d.deployer;
  correlation_id = d.correlation_id;
  target_kind = some target.target_kind;
  bytecode_hashes = record {
    creation = d.creation_bytecode_hash;
    runtime = some target.runtime_bytecode_hash;
  };
  proxy = some target.proxy;
  audit_summary = none;
  artifact_path = none;
  raw_api_json = none;
  failure_reason = none;
  auditor_exit_code = none;
  auditor_stderr_tail = none;
  detection_source = none;
  health_report = none;
}

-- `validation.kind` in an identifier.
unfoldable pub validation_kind_text : BytecodeValidationKind → Text
validation_kind_text proceed = codes "proceed"
validation_kind_text skip_empty = codes "skip_empty"
validation_kind_text skip_trivial = codes "skip_trivial"
validation_kind_text eof = codes "eof"
validation_kind_text skip_proxy_shell = codes "skip_proxy_shell"

unfoldable pub base_target : Env → DetectedDeployment → Text → ProxyResolution → AuditTarget
base_target env d runtime_bytecode proxy = record {
  chain_id = d.chain_id;
  correlation_id = d.correlation_id;
  block_number = d.block_number;
  block_hash = d.block_hash;
  block_timestamp = some d.block_timestamp;
  tx_hash = d.tx_hash;
  contract_address = d.contract_address;
  deployer = d.deployer;
  gas_used = d.gas_used;
  creation_bytecode_hash = d.creation_bytecode_hash;
  creation_bytecode = some d.creation_bytecode;
  runtime_bytecode = runtime_bytecode;
  runtime_bytecode_hash = env.sha256 runtime_bytecode;
  target_kind = if proxy.detected then proxy_shell else TargetKind.runtime;
  target_address = d.contract_address;
  proxy = proxy;
}

-- `target.runtimeBytecodeHash || sha256Hex(target.runtimeBytecode)`
abbrev with_hash : Env → AuditTarget → AuditTarget
with_hash env t = elim t.runtime_bytecode_hash [
  | [] ↦ record t { runtime_bytecode_hash = env.sha256 t.runtime_bytecode }
  | (_ ∷ _) ↦ t
]

module _ (config : RunnerConfig) (env : Env) (options : CliOptions) where
  unfoldable pub write_deployment_artifact : DetectedDeployment → ProxyResolution → Text → M Text
  write_deployment_artifact d proxy runtime_hash =
      write_artifact config env options
        (deployment_artifact_path (artifacts_dir config env options) d)
        (deployment d proxy runtime_hash)

  -- The worker of `runBounded` on one target.
  unfoldable pub audit_target : RunnerRuntime → BytecodeValidationKind → AuditTarget → M (Unit {0})
  audit_target runtime kind target = do
    checkpoint ← get_checkpoint
    let cache_key = build_cache_key env runtime target
    result ←
        result_for config env options runtime cache_key target kind
          (usable_record (get_cached_record checkpoint cache_key))
    count_result config env options result
    emit_audit_events config env options result

  unfoldable pub report_unresolved : DetectedDeployment → AuditTarget → M (Unit {0})
  report_unresolved d base =
      if base.proxy.detected && not base.proxy.implementation_resolved
      then (do
        count (λ s. record s { proxy_unresolved = s.proxy_unresolved + 1 })
        now ← read_clock env
        let id = event_id env (d.correlation_id ∷ codes "proxy_resolution_failed" ∷ [])
        emit_event config env options (record (event_of d base id proxy_resolution_failed now) {
          failure_reason = base.proxy.unresolved_reason;
        }))
      else pure tt

  -- The audits of a deployment whose code is worth one.
  unfoldable pub audit_deployment :
      RunnerRuntime → DetectedDeployment → AuditTarget → BytecodeValidation → M (Unit {0})
  audit_deployment runtime d base validation = do
    further ← build_additional_audit_targets config env base
    let shared = referring_to further.proxy base
    let targets = map (with_hash env) (shared ∷ further.targets)
    count (λ s. record s { audit_targets = s.audit_targets + length targets })
    report_unresolved d shared
    for_each targets (audit_target runtime validation.kind)

  unfoldable pub skip_deployment :
      DetectedDeployment → AuditTarget → BytecodeValidation → M (Unit {0})
  skip_deployment d base validation = do
    count (λ s. record s { audit_failures = s.audit_failures + 1 })
    now ← read_clock env
    let id =
        event_id env
          (d.correlation_id ∷ codes "audit_failed" ∷ validation_kind_text validation.kind ∷ [])
    emit_event config env options
        (record (event_of d base id audit_failed now) { failure_reason = some validation.reason })

  -- What follows the validation.
  unfoldable pub after_validation :
      RunnerRuntime → DetectedDeployment → AuditTarget → BytecodeValidation → M (Unit {0})
  after_validation runtime d base validation =
      if validation.should_audit
      then audit_deployment runtime d base validation
      else skip_deployment d base validation

  unfoldable pub process_deployment : RunnerRuntime → DetectedDeployment → M (Unit {0})
  process_deployment runtime d = do
    code ← get_code config env d.contract_address d.block_number
    let runtime_bytecode = normalize_hex (some code)
    proxy ← resolve_proxy config env d.contract_address runtime_bytecode d.block_number
    let base = base_target env d runtime_bytecode proxy
    write_deployment_artifact d proxy base.runtime_bytecode_hash
    now ← read_clock env
    let id = event_id env (d.correlation_id ∷ codes "contract_detected" ∷ [])
    emit_event config env options (record (event_of d base id contract_detected now) {
      detection_source = some d.detection_source;
    })
    after_validation runtime d base (validate_bytecode runtime_bytecode)
