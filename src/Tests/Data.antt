-- ===== src/Tests/Data.antt =====
-- Small values for the examples: a configuration, a node that answers little, and a checkpoint.
use evm_contract_auditor_hon.Prelude.{ℕ, [], ◌∷◌, true, false, none, some, codes}
use evm_contract_auditor_hon.Prelude.Int.{pos}
use evm_contract_auditor_hon.Types.Config.{RunnerConfig, CliOptions, info, plain}
use evm_contract_auditor_hon.Types.Proxy.{TargetKind, ProxyResolution, unresolved_safe}
use evm_contract_auditor_hon.Types.Audit.{AuditTarget, AuditJob, AuditResult, RunnerRuntime}
use evm_contract_auditor_hon.Types.Events.{WebhookEvent, contract_detected, top_level_create}
use evm_contract_auditor_hon.Types.Checkpoint.{BlockHistoryEntry, RunnerCheckpoint, Limits}
use evm_contract_auditor_hon.Types.Rpc.{RpcBlock, DetectedDeployment}
use evm_contract_auditor_hon.State.{BlockRef}
use evm_contract_auditor_hon.Utils.Retry.{ok, err}
use evm_contract_auditor_hon.World.{World, Node, Env, result, answered}

abbrev pub config : RunnerConfig
config = record {
  rpc_http_url = codes "http://node";
  rpc_ws_url = none;
  confirmations = 0;
  start_block = 1;
  rules_path = codes "rules";
  auditor_bin = codes "auditor";
  rule_bin = codes "rule";
  max_block_fetch_concurrency = 1;
  max_audit_workers = 1;
  max_webhook_concurrency = 1;
  analysis_timeout_ms = 1000;
  max_auditor_output_bytes = 1000;
  webhook_url = some (codes "http://hook");
  webhook_auth_header = none;
  state_dir = codes "state";
  log_level = info;
  poll_interval_ms = 10;
  max_reorg_depth = 4;
  max_history = 2;
  max_artifact_inline_bytes = 100;
  max_persisted_artifact_bytes = 100;
  webhook_max_attempts = 1;
  rpc_max_attempts = 2;
  retry_base_delay_ms = 10;
  max_result_cache_entries = 2;
  max_delivered_event_entries = 2;
  max_pending_webhook_entries = 2;
  ui_mode = plain;
  health_port = pos 0;
  step_budget_ms = pos 0;
  health_strict = false;
  probe_rpc = false;
  probe_trace_api = false;
  probe_auditor = false;
  probe_rules_dir = false;
  probe_state_dir = false;
}

abbrev pub options : CliOptions
options = record {
  env_file = none;
  start_block = none;
  once = true;
  replay_block = none;
  replay_range = none;
  max_replay_range_blocks = none;
  dry_run_webhook = false;
  no_webhook = false;
  rules_path = none;
  chain = none;
}

abbrev pub limits : Limits
limits = record {
  max_history = 2;
  max_result_cache_entries = 2;
  max_delivered_event_entries = 2;
  max_pending_webhook_entries = 2;
  max_persisted_artifact_bytes = 100;
}

-- A block of the node's chain; every block is said to have the same parent.
abbrev pub block_at : ℕ → RpcBlock
block_at n = record {
  number = n;
  hash = codes "0xb1";
  parent_hash = codes "0xb0";
  timestamp = 1000;
  transactions = [];
}

-- No block has a transaction, every address has the same code, and every call succeeds.
abbrev pub node : Node
node = record {
  chain_id = λ id. result (codes "0x1");
  block_number = λ id. result (codes "0x1");
  block_by_number = λ id n whole. result (some (block_at n));
  transaction_receipt = λ id tx_hash. result none;
  transaction_by_hash = λ id tx_hash. result none;
  code = λ id a n. result (some (codes "0x6000"));
  storage_at = λ id a slot n. result none;
  call = λ id a input n. result none;
  debug_trace_block_by_number = λ id n. result [];
  trace_block = λ id n. result [];
}

abbrev pub env : Env
env = record {
  node = node;
  now = λ t. t;
  post = λ t event. answered 200;
  write_file = λ t. ok tt;
  sha256 = λ s. s;
  run_process = λ t mode job. err (codes "spawn failed");
  parse_api_json = λ s. err (codes "no document");
  json_size = λ d. 10;
  result_size = λ r. 10;
}

abbrev pub runtime : RunnerRuntime
runtime = record {
  runner_version = codes "1";
  rules_fingerprint = codes "f";
  auditor_schema = codes "s";
}

abbrev pub entry_one : BlockHistoryEntry
entry_one = record { number = 1; hash = codes "0xa1"; parent_hash = codes "0xb0"; processed_at = 5 }

abbrev pub block_two : BlockRef
block_two = record { number = 2; hash = codes "0xb2"; parent_hash = codes "0xb1" }

-- A checkpoint after block 1.
abbrev pub after_one : RunnerCheckpoint
after_one = record {
  chain_id = 1;
  last_processed_block = pos 1;
  updated_at = 5;
  history = entry_one ∷ [];
  result_cache = [];
  delivered_events = [];
  pending_webhook_events = [];
}

abbrev pub world : World
world = record {
  checkpoint = after_one;
  summary = record {
    scanned_blocks = 0;
    deployments = 0;
    top_level_create_deployments = 0;
    internal_create_deployments = 0;
    audit_targets = 0;
    cache_hits = 0;
    findings = 0;
    proxy_unresolved = 0;
    audit_failures = 0;
    webhook_failures = 0;
  };
  metrics = record { queue_depth = 0; audits_total = 0; audit_errors_total = 0 };
  id = 1;
  ticks = 0;
  saved = none;
  artifacts = [];
  posted = [];
}

abbrev pub proxy : ProxyResolution
proxy = record {
  detected = true;
  status = unresolved_safe;
  proxy_type = none;
  implementation_address = some (codes "0xaa");
  admin_address = none;
  beacon_address = none;
  fixed_clone_target = none;
  implementation_resolved = true;
  unresolved_reason = none;
  hints = record {
    delegatecall_opcode_present = true;
    eip1167_detected = none;
    bytecode_evidence = none;
  };
}

abbrev pub deployment : DetectedDeployment
deployment = record {
  chain_id = 1;
  block_number = 1;
  block_hash = codes "0xb1";
  parent_hash = codes "0xb0";
  block_timestamp = 1000;
  tx_hash = codes "0xt1";
  deployer = codes "0xd1";
  contract_address = codes "0xc1";
  gas_used = none;
  creation_bytecode = codes "0x6000";
  creation_bytecode_hash = codes "h1";
  correlation_id = codes "c1";
  detection_source = top_level_create;
  parent_tx_to = none;
}

abbrev pub target : AuditTarget
target = record {
  chain_id = 1;
  correlation_id = codes "c1";
  block_number = 1;
  block_hash = codes "0xb1";
  block_timestamp = some 1000;
  tx_hash = codes "0xt1";
  contract_address = codes "0xc1";
  deployer = codes "0xd1";
  gas_used = none;
  creation_bytecode_hash = codes "h1";
  creation_bytecode = some (codes "0x6000");
  runtime_bytecode = codes "0x6000";
  runtime_bytecode_hash = codes "h2";
  target_kind = TargetKind.runtime;
  target_address = codes "0xc1";
  proxy = proxy;
}

abbrev pub job : AuditJob
job = record { cache_key = codes "k"; target = target; eof_format = false; proxy_shell = false }

abbrev pub event : WebhookEvent
event = record {
  id = codes "e1";
  kind = contract_detected;
  timestamp = 7;
  chain_id = 1;
  block_number = 1;
  tx_hash = codes "0xt1";
  contract_address = codes "0xc1";
  deployer = codes "0xd1";
  correlation_id = codes "c1";
  target_kind = none;
  bytecode_hashes = record { creation = codes "h1"; runtime = none };
  proxy = none;
  audit_summary = none;
  artifact_path = none;
  raw_api_json = none;
  failure_reason = none;
  auditor_exit_code = none;
  auditor_stderr_tail = none;
  detection_source = some top_level_create;
  health_report = none;
}

abbrev pub failed_result : AuditResult
failed_result = record {
  is_ok = false;
  cached = false;
  cache_key = codes "k";
  target = target;
  started_at = 1;
  completed_at = 2;
  duration_ms = 1;
  auditor_exit_code = some none;
  stdout = some (codes "out");
  stderr = some (codes "err");
  failure_reason = some (codes "timeout");
  artifact_path = none;
  api_json = none;
  artifact = none;
}
