-- ===== src/Types/Events.antt =====
-- runner/src/types.ts: webhook events and the counters of a run.
use evm_contract_auditor_hon.Prelude.{ℕ, Option, Text}
use evm_contract_auditor_hon.Prelude.Json.{Json}
use evm_contract_auditor_hon.Types.Proxy.{TargetKind, ProxyResolution}
use evm_contract_auditor_hon.Types.Audit.{AuditApiJson, AuditSummary}

pub data WebhookEventType : Type 0 where
  contract_detected audit_completed findings_detected audit_failed : WebhookEventType
  proxy_resolution_failed runner_started : WebhookEventType

pub data DetectionSource : Type 0 where
  top_level_create trace_create trace_create2 : DetectionSource

pub record BytecodeHashes : Type 0 where
  pub creation : Text
  pub runtime : Option Text

-- The health report is carried and never read.
pub record WebhookEvent : Type 0 where
  pub id : Text
  pub kind : WebhookEventType
  pub timestamp : ℕ
  pub chain_id : ℕ
  pub block_number : ℕ
  pub tx_hash : Text
  pub contract_address : Text
  pub deployer : Text
  pub correlation_id : Text
  pub target_kind : Option TargetKind
  pub bytecode_hashes : BytecodeHashes
  pub proxy : Option ProxyResolution
  pub audit_summary : Option AuditSummary
  pub artifact_path : Option Text
  pub raw_api_json : Option AuditApiJson
  pub failure_reason : Option Text
  pub auditor_exit_code : Option (Option ℕ)
  pub auditor_stderr_tail : Option Text
  pub detection_source : Option DetectionSource
  pub health_report : Option Json

pub record RunSummary : Type 0 where
  pub scanned_blocks : ℕ
  pub deployments : ℕ
  pub top_level_create_deployments : ℕ
  pub internal_create_deployments : ℕ
  pub audit_targets : ℕ
  pub cache_hits : ℕ
  pub findings : ℕ
  pub proxy_unresolved : ℕ
  pub audit_failures : ℕ
  pub webhook_failures : ℕ
