-- ===== src/Types/Checkpoint.antt =====
-- runner/src/types.ts: what the state store keeps.
use evm_contract_auditor_hon.Prelude.{ℕ, Option, List, Text}
use evm_contract_auditor_hon.Prelude.Int.{ℤ}
use evm_contract_auditor_hon.Prelude.Dict.{Dict}
use evm_contract_auditor_hon.Types.Proxy.{TargetKind}
use evm_contract_auditor_hon.Types.Audit.{AuditApiJson}
use evm_contract_auditor_hon.Types.Events.{WebhookEvent, WebhookEventType}

pub record BlockHistoryEntry : Type 0 where
  pub number : ℕ
  pub hash : Text
  pub parent_hash : Text
  pub processed_at : ℕ

pub record CachedAuditRecord : Type 0 where
  pub created_at : ℕ
  pub artifact_path : Option Text
  pub api_json : Option AuditApiJson
  pub target_address : Text
  pub target_kind : TargetKind
  pub rules_fingerprint : Text
  pub runner_version : Text
  pub auditor_schema : Text

pub record DeliveredEventRecord : Type 0 where
  pub delivered_at : ℕ
  pub kind : WebhookEventType

pub record PendingWebhookRecord : Type 0 where
  pub event : WebhookEvent
  pub first_failed_at : ℕ
  pub last_failed_at : ℕ
  pub failure_reason : Text
  pub attempts : ℕ

-- `checkpointVersion` is always "2". `last_processed_block` is -1 before block 0.
pub record RunnerCheckpoint : Type 0 where
  pub chain_id : ℕ
  pub last_processed_block : ℤ
  pub updated_at : ℕ
  pub history : List BlockHistoryEntry
  pub result_cache : Dict CachedAuditRecord
  pub delivered_events : Dict DeliveredEventRecord
  pub pending_webhook_events : Dict PendingWebhookRecord

-- The limits that the constructor of `StateStore` takes.
pub record Limits : Type 0 where
  pub max_history : ℕ
  pub max_result_cache_entries : ℕ
  pub max_delivered_event_entries : ℕ
  pub max_pending_webhook_entries : ℕ
  pub max_persisted_artifact_bytes : ℕ
