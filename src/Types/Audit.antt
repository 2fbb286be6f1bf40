-- ===== src/Types/Audit.antt =====
-- runner/src/types.ts: the auditor's document, the audit targets, jobs and results.
use evm_contract_auditor_hon.Prelude.{ℕ, Bool, Option, List, Text}
use evm_contract_auditor_hon.Prelude.Json.{Json, Number}
use evm_contract_auditor_hon.Types.Proxy.{TargetKind, ProxyResolution}

pub record AuditApiAffectedFunction : Type 0 where
  pub selector : Option Text
  pub name : Option Text

pub record AuditApiFinding : Type 0 where
  pub rule_id : Text
  pub internal_name : Option Text
  pub title : Option Text
  pub status : Option Text
  pub severity : Option Text
  pub confidence : Option Number
  pub proof_level : Option Text
  pub scope : Option Text
  pub match_count : Option ℕ
  pub summary : Option Text
  pub user_summary : Option Text
  pub technical_summary : Option Text
  pub exploit_narrative : Option Text
  pub affected_functions : Option (List AuditApiAffectedFunction)
  pub raw_matches : Option (List Json)
  pub witness : Option Json

pub record AuditApiAnalysis : Type 0 where
  pub matched : Bool
  pub finding_count : ℕ
  pub raw_match_count : ℕ
  pub highest_severity : Option Text
  pub highest_confidence : Option Number

pub record AuditApiInput : Type 0 where
  pub kind : Text
  pub value : Text

pub record AuditApiJson : Type 0 where
  pub is_ok : Bool
  pub schema : Text
  pub schema_version : Text
  pub input : AuditApiInput
  pub bytecode_identity : Option Json
  pub analysis : AuditApiAnalysis
  pub coverage : Option Json
  pub exposure_estimate : Option Json
  pub findings : List AuditApiFinding
  pub warnings : Option (List Text)
  pub chain_context : Option Json

pub record AuditTarget : Type 0 where
  pub chain_id : ℕ
  pub correlation_id : Text
  pub block_number : ℕ
  pub block_hash : Text
  pub block_timestamp : Option ℕ
  pub tx_hash : Text
  pub contract_address : Text
  pub deployer : Text
  pub gas_used : Option Text
  pub creation_bytecode_hash : Text
  pub creation_bytecode : Option Text
  pub runtime_bytecode : Text
  pub runtime_bytecode_hash : Text
  pub target_kind : TargetKind
  pub target_address : Text
  pub proxy : ProxyResolution

pub record AuditJob : Type 0 where
  pub cache_key : Text
  pub target : AuditTarget
  pub eof_format : Bool
  pub proxy_shell : Bool

pub data SubprocessMode : Type 0 where
  hex_arg temp_file : SubprocessMode

pub record AuditArtifact : Type 0 where
  pub runner_version : Text
  pub rules_fingerprint : Text
  pub auditor_schema : Text
  pub subprocess_mode : SubprocessMode
  pub target_address : Text
  pub block_tag : ℕ
  pub proxy : ProxyResolution
  pub stdout : Option Text
  pub stderr : Option Text

-- `auditorExitCode` is undefined, null or a number; a process may exit with any byte.
pub record AuditResult : Type 0 where
  pub is_ok : Bool
  pub cached : Bool
  pub cache_key : Text
  pub target : AuditTarget
  pub started_at : ℕ
  pub completed_at : ℕ
  pub duration_ms : ℕ
  pub auditor_exit_code : Option (Option ℕ)
  pub stdout : Option Text
  pub stderr : Option Text
  pub failure_reason : Option Text
  pub artifact_path : Option Text
  pub api_json : Option AuditApiJson
  pub artifact : Option AuditArtifact

-- RunnerRuntime
pub record RunnerRuntime : Type 0 where
  pub runner_version : Text
  pub rules_fingerprint : Text
  pub auditor_schema : Text

pub record AuditSummary : Type 0 where
  pub matched : Bool
  pub finding_count : ℕ
  pub highest_severity : Option Text
  pub highest_confidence : Option Number
  pub rule_ids : List Text
