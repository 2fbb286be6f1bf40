-- ===== src/Types/Config.antt =====
-- runner/src/types.ts: the configuration after `validateConfig`, and the command line's options.
use evm_contract_auditor_hon.Prelude.{ℕ, Bool, Option, Text}
use evm_contract_auditor_hon.Prelude.Int.{ℤ}

pub data LogLevel : Type 0 where
  debug info warn error : LogLevel

pub data UiMode : Type 0 where
  auto tui plain json : UiMode

pub record RunnerConfig : Type 0 where
  pub rpc_http_url : Text
  pub rpc_ws_url : Option Text
  pub confirmations : ℕ
  pub start_block : ℕ
  pub rules_path : Text
  pub auditor_bin : Text
  pub rule_bin : Text
  pub max_block_fetch_concurrency : ℕ
  pub max_audit_workers : ℕ
  pub max_webhook_concurrency : ℕ
  pub analysis_timeout_ms : ℕ
  pub max_auditor_output_bytes : ℕ
  pub webhook_url : Option Text
  pub webhook_auth_header : Option Text
  pub state_dir : Text
  pub log_level : LogLevel
  pub poll_interval_ms : ℕ
  pub max_reorg_depth : ℕ
  pub max_history : ℕ
  pub max_artifact_inline_bytes : ℕ
  pub max_persisted_artifact_bytes : ℕ
  pub webhook_max_attempts : ℕ
  pub rpc_max_attempts : ℕ
  pub retry_base_delay_ms : ℕ
  pub max_result_cache_entries : ℕ
  pub max_delivered_event_entries : ℕ
  pub max_pending_webhook_entries : ℕ
  pub ui_mode : UiMode
  pub health_port : ℤ
  pub step_budget_ms : ℤ
  pub health_strict : Bool
  pub probe_rpc : Bool
  pub probe_trace_api : Bool
  pub probe_auditor : Bool
  pub probe_rules_dir : Bool
  pub probe_state_dir : Bool

pub record ReplayRange : Type 0 where
  pub from : ℤ
  pub to : ℤ

pub record CliOptions : Type 0 where
  pub env_file : Option Text
  pub start_block : Option ℤ
  pub once : Bool
  pub replay_block : Option ℤ
  pub replay_range : Option ReplayRange
  pub max_replay_range_blocks : Option ℕ
  pub dry_run_webhook : Bool
  pub no_webhook : Bool
  pub rules_path : Option Text
  pub chain : Option Text
