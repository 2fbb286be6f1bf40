-- ===== src/Config.antt =====
-- runner/src/config.ts: the configuration, from the command line, the environment, its file and
-- chains.json. The functions of node's `path` are parameters.
pub mod Usable
use evm_contract_auditor_hon.Prelude.{
  ℕ, List, [], ◌∷◌, ◌++◌, Bool, true, false, not, Option, none, some, Text, codes, if◌then◌else◌,
  text_eq, select,
}
use evm_contract_auditor_hon.Prelude.Int.{ℤ, pos, pos_part, ltb_ℤ}
use evm_contract_auditor_hon.Prelude.Dict.{Dict, lookup}
use evm_contract_auditor_hon.Prelude.Texts.{decimal, to_lower, join}
use evm_contract_auditor_hon.Types.Config.{
  RunnerConfig, CliOptions, LogLevel, debug, info, warn, error, UiMode, auto, tui, plain, json,
}
use evm_contract_auditor_hon.Utils.ParseInt.{parse_integer}
use evm_contract_auditor_hon.Utils.Retry.{Result, ok, err}
use evm_contract_auditor_hon.Utils.Checks.{◌>>=◌, ◌>>◌, require}
use evm_contract_auditor_hon.Chains.{ChainEntry, is_http_url, is_ws_url, absent_or, select_chain}
use evm_contract_auditor_hon.Documents.{parse_env_file_document}

-- The functions of `path` that are called.
pub record Paths : Type 0 where
  pub resolve : Text → Text → Text
  pub join_path : Text → Text → Text
  pub dirname : Text → Text
  pub is_absolute : Text → Bool

-- `RunnerConfig` before it is validated: a number may be negative.
pub record DraftConfig : Type 0 where
  pub rpc_http_url : Text
  pub rpc_ws_url : Option Text
  pub rules_path : Text
  pub auditor_bin : Text
  pub rule_bin : Text
  pub webhook_url : Option Text
  pub webhook_auth_header : Option Text
  pub state_dir : Text
  pub log_level : LogLevel
  pub ui_mode : UiMode
  pub health_port : ℤ
  pub step_budget_ms : ℤ
  pub health_strict : Bool
  pub probe_rpc : Bool
  pub probe_trace_api : Bool
  pub probe_auditor : Bool
  pub probe_rules_dir : Bool
  pub probe_state_dir : Bool
  pub confirmations : ℤ
  pub start_block : ℤ
  pub max_block_fetch_concurrency : ℤ
  pub max_audit_workers : ℤ
  pub max_webhook_concurrency : ℤ
  pub analysis_timeout_ms : ℤ
  pub max_auditor_output_bytes : ℤ
  pub poll_interval_ms : ℤ
  pub max_reorg_depth : ℤ
  pub max_history : ℤ
  pub max_artifact_inline_bytes : ℤ
  pub max_persisted_artifact_bytes : ℤ
  pub webhook_max_attempts : ℤ
  pub rpc_max_attempts : ℤ
  pub retry_base_delay_ms : ℤ
  pub max_result_cache_entries : ℤ
  pub max_delivered_event_entries : ℤ
  pub max_pending_webhook_entries : ℤ

-- `requireNonNegativeInteger` and `clampPositiveInteger` of runner/src/utils.ts, whose results are
-- not used; a parsed number is finite.
unfoldable pub require_non_negative_integer : Text → ℤ → Result (Unit {0})
require_non_negative_integer name value =
    require (not (ltb_ℤ value (pos 0))) (name ++ codes " must be >= 0")

unfoldable pub clamp_positive_integer : Text → ℤ → ℕ → Result (Unit {0})
clamp_positive_integer name value minimum =
    require (not (ltb_ℤ value (pos minimum))) (name ++ codes " must be >= " ++ decimal minimum)

abbrev not_empty : Text → Bool
not_empty [] = false
not_empty (c ∷ s) = true

unfoldable pub validate_config : Paths → DraftConfig → Result (Unit {0})
validate_config paths c = do
  require (not_empty c.rpc_http_url) (codes "RPC_HTTP_URL is required")
  require (is_http_url c.rpc_http_url) (codes "RPC_HTTP_URL must start with http:// or https://")
  require (absent_or is_ws_url c.rpc_ws_url) (codes "RPC_WS_URL must start with ws:// or wss://")
  require (paths.is_absolute c.state_dir) (codes "STATE_DIR must resolve to an absolute path")
  require_non_negative_integer (codes "CONFIRMATIONS") c.confirmations
  require_non_negative_integer (codes "START_BLOCK") c.start_block
  clamp_positive_integer (codes "MAX_BLOCK_FETCH_CONCURRENCY") c.max_block_fetch_concurrency 1
  clamp_positive_integer (codes "MAX_AUDIT_WORKERS") c.max_audit_workers 1
  clamp_positive_integer (codes "MAX_WEBHOOK_CONCURRENCY") c.max_webhook_concurrency 1
  clamp_positive_integer (codes "ANALYSIS_TIMEOUT_MS") c.analysis_timeout_ms 1
  clamp_positive_integer (codes "MAX_AUDITOR_OUTPUT_BYTES") c.max_auditor_output_bytes 1024
  clamp_positive_integer (codes "POLL_INTERVAL_MS") c.poll_interval_ms 1
  clamp_positive_integer (codes "MAX_REORG_DEPTH") c.max_reorg_depth 1
  clamp_positive_integer (codes "MAX_HISTORY") c.max_history 1
  clamp_positive_integer (codes "MAX_ARTIFACT_INLINE_BYTES") c.max_artifact_inline_bytes 1
  clamp_positive_integer (codes "MAX_PERSISTED_ARTIFACT_BYTES") c.max_persisted_artifact_bytes 1024
  clamp_positive_integer (codes "WEBHOOK_MAX_ATTEMPTS") c.webhook_max_attempts 1
  clamp_positive_integer (codes "RPC_MAX_ATTEMPTS") c.rpc_max_attempts 1
  clamp_positive_integer (codes "RETRY_BASE_DELAY_MS") c.retry_base_delay_ms 1
  clamp_positive_integer (codes "MAX_RESULT_CACHE_ENTRIES") c.max_result_cache_entries 1
  clamp_positive_integer (codes "MAX_DELIVERED_EVENT_ENTRIES") c.max_delivered_event_entries 1
  clamp_positive_integer (codes "MAX_PENDING_WEBHOOK_ENTRIES") c.max_pending_webhook_entries 1

-- The configuration that the rest of the program works with.
unfoldable pub config_of : DraftConfig → RunnerConfig
config_of c = record {
  rpc_http_url = c.rpc_http_url;
  rpc_ws_url = c.rpc_ws_url;
  rules_path = c.rules_path;
  auditor_bin = c.auditor_bin;
  rule_bin = c.rule_bin;
  webhook_url = c.webhook_url;
  webhook_auth_header = c.webhook_auth_header;
  state_dir = c.state_dir;
  log_level = c.log_level;
  ui_mode = c.ui_mode;
  health_port = c.health_port;
  step_budget_ms = c.step_budget_ms;
  health_strict = c.health_strict;
  probe_rpc = c.probe_rpc;
  probe_trace_api = c.probe_trace_api;
  probe_auditor = c.probe_auditor;
  probe_rules_dir = c.probe_rules_dir;
  probe_state_dir = c.probe_state_dir;
  confirmations = pos_part c.confirmations;
  start_block = pos_part c.start_block;
  max_block_fetch_concurrency = pos_part c.max_block_fetch_concurrency;
  max_audit_workers = pos_part c.max_audit_workers;
  max_webhook_concurrency = pos_part c.max_webhook_concurrency;
  analysis_timeout_ms = pos_part c.analysis_timeout_ms;
  max_auditor_output_bytes = pos_part c.max_auditor_output_bytes;
  poll_interval_ms = pos_part c.poll_interval_ms;
  max_reorg_depth = pos_part c.max_reorg_depth;
  max_history = pos_part c.max_history;
  max_artifact_inline_bytes = pos_part c.max_artifact_inline_bytes;
  max_persisted_artifact_bytes = pos_part c.max_persisted_artifact_bytes;
  webhook_max_attempts = pos_part c.webhook_max_attempts;
  rpc_max_attempts = pos_part c.rpc_max_attempts;
  retry_base_delay_ms = pos_part c.retry_base_delay_ms;
  max_result_cache_entries = pos_part c.max_result_cache_entries;
  max_delivered_event_entries = pos_part c.max_delivered_event_entries;
  max_pending_webhook_entries = pos_part c.max_pending_webhook_entries;
}

-- `parseLogLevel` of runner/src/utils.ts, and `parseUiMode`
abbrev or_text : Option Text → Text → Text
or_text none t = t
or_text (some s) t = s

abbrev or_else : {A : Type 0} → Option A → Option A → Option A
or_else none o = o
or_else (some a) o = some a

unfoldable pub parse_log_level : Option Text → LogLevel
unfolding to_lower text_eq
parse_log_level value =
    let normalized = to_lower (or_text value []) in
    if text_eq normalized (codes "debug")
    then debug
    else if text_eq normalized (codes "warn")
    then warn
    else if text_eq normalized (codes "error")
    then error
    else info

unfoldable pub parse_ui_mode : Option Text → UiMode
unfolding to_lower text_eq
parse_ui_mode value =
    let normalized = to_lower (or_text value (codes "auto")) in
    if text_eq normalized (codes "tui")
    then tui
    else if text_eq normalized (codes "plain")
    then plain
    else if text_eq normalized (codes "json")
    then json
    else auto

abbrev slugs_of : List ChainEntry → List Text
slugs_of [] = []
slugs_of (c ∷ cs) = c.slug ∷ slugs_of cs

abbrev only_enabled : List ChainEntry → Result (Option ChainEntry)
only_enabled [] = ok none
only_enabled (c ∷ []) = ok (some c)
only_enabled (c ∷ d ∷ cs) = err (
    codes "chains.json defines multiple enabled chains; pass --chain <slug> (one of: "
    ++ join (codes ", ") (slugs_of (c ∷ d ∷ cs))
    ++ codes ")")

abbrev pick_chain : List ChainEntry → Option Text → Result (Option ChainEntry)
pick_chain entries (some (u ∷ slug)) = select_chain entries (u ∷ slug) >>= λ c. ok (some c)
pick_chain entries _ = only_enabled (select (λ (c : ChainEntry). c.enabled) entries)

-- The entries are `none` where there is no chains.json.
unfoldable pub resolve_chain : Option (List ChainEntry) → Option Text → Result (Option ChainEntry)
unfolding select
resolve_chain none requested = ok none
resolve_chain (some entries) requested = pick_chain entries requested

-- A field of the chain, if there is a chain and it has the field.
abbrev from_chain : {A : Type 0} → (ChainEntry → Option A) → Option ChainEntry → Option A
from_chain f none = none
from_chain f (some c) = f c

abbrev int_of_chain : (ChainEntry → Option ℕ) → Option ChainEntry → Option ℤ
int_of_chain f none = none
int_of_chain f (some c) = elim (f c) [ none ↦ none | some n ↦ some (pos n) ]

abbrev or_int : Option ℤ → ℤ → ℤ
or_int none n = n
or_int (some m) n = m

module _ (paths : Paths) (cwd : Text) (options : CliOptions) where
  -- `env` is `process.env` over the file's, and `chain` the resolved chain.
  unfoldable pub draft_of : (Text → Option Text) → Option ChainEntry → DraftConfig
  unfolding parse_integer parse_log_level parse_ui_mode to_lower text_eq
  draft_of env chain =
      let number = λ (name : Text) (fallback : ℕ). parse_integer (env name) (pos fallback) in
      let lowered = λ (o : Option Text) (t : Text). to_lower (or_text o t) in
      let not_false =
        λ (name : Text). not (text_eq (lowered (env name) (codes "true")) (codes "false")) in
      let base_state_dir =
        paths.resolve cwd (or_text (env (codes "STATE_DIR")) (codes "runner-state")) in
      record {
        rpc_http_url =
            or_text (from_chain (λ c. some c.rpc_http_url) chain)
              (or_text (env (codes "RPC_HTTP_URL")) (codes "http://127.0.0.1:8545"));
        rpc_ws_url = or_else (from_chain (λ c. c.rpc_ws_url) chain) (env (codes "RPC_WS_URL"));
        rules_path =
            or_text (from_chain (λ c. c.rules_path) chain) (
              or_text options.rules_path (or_text (env (codes "RULES_PATH")) (codes "rules/core")));
        auditor_bin = or_text (env (codes "AUDITOR_BIN")) (codes "evm-audit");
        rule_bin = or_text (env (codes "RULE_BIN")) (codes "evm-rule");
        webhook_url = or_else (from_chain (λ c. c.webhook_url) chain) (env (codes "WEBHOOK_URL"));
        webhook_auth_header =
            or_else (from_chain (λ c. c.webhook_auth_header) chain)
              (env (codes "WEBHOOK_AUTH_HEADER"));
        state_dir = elim chain [
          | none ↦ base_state_dir
          | some c ↦ paths.join_path base_state_dir c.slug
        ];
        log_level = parse_log_level (env (codes "LOG_LEVEL"));
        ui_mode = parse_ui_mode (env (codes "UI_MODE"));
        health_port = number (codes "HEALTH_PORT") 9090;
        step_budget_ms = number (codes "STEP_BUDGET_MS") 120000;
        health_strict = not_false (codes "HEALTH_STRICT");
        probe_rpc = not_false (codes "HEALTH_PROBE_RPC");
        probe_trace_api =
            text_eq
              (lowered
                (or_else (env (codes "HEALTH_PROBE_TRACE_API")) (env (codes "TRACE_API_OPTIONAL")))
                (codes "false"))
              (codes "true");
        probe_auditor = not_false (codes "HEALTH_PROBE_AUDITOR");
        probe_rules_dir = not_false (codes "HEALTH_PROBE_RULES_DIR");
        probe_state_dir = not_false (codes "HEALTH_PROBE_STATE_DIR");
        confirmations =
            or_int (int_of_chain (λ c. c.confirmations) chain) (number (codes "CONFIRMATIONS") 2);
        start_block =
            or_int options.start_block
              (or_int (int_of_chain (λ c. c.start_block) chain) (number (codes "START_BLOCK") 0));
        max_block_fetch_concurrency = number (codes "MAX_BLOCK_FETCH_CONCURRENCY") 2;
        max_audit_workers = number (codes "MAX_AUDIT_WORKERS") 4;
        max_webhook_concurrency = number (codes "MAX_WEBHOOK_CONCURRENCY") 4;
        analysis_timeout_ms = number (codes "ANALYSIS_TIMEOUT_MS") 60000;
        max_auditor_output_bytes = number (codes "MAX_AUDITOR_OUTPUT_BYTES") 5000000;
        poll_interval_ms = number (codes "POLL_INTERVAL_MS") 3000;
        max_reorg_depth = number (codes "MAX_REORG_DEPTH") 32;
        max_history = number (codes "MAX_HISTORY") 128;
        max_artifact_inline_bytes = number (codes "MAX_ARTIFACT_INLINE_BYTES") 32768;
        max_persisted_artifact_bytes = number (codes "MAX_PERSISTED_ARTIFACT_BYTES") 2000000;
        webhook_max_attempts = number (codes "WEBHOOK_MAX_ATTEMPTS") 3;
        rpc_max_attempts = number (codes "RPC_MAX_ATTEMPTS") 3;
        retry_base_delay_ms = number (codes "RETRY_BASE_DELAY_MS") 250;
        max_result_cache_entries = number (codes "MAX_RESULT_CACHE_ENTRIES") 5000;
        max_delivered_event_entries = number (codes "MAX_DELIVERED_EVENT_ENTRIES") 20000;
        max_pending_webhook_entries = number (codes "MAX_PENDING_WEBHOOK_ENTRIES") 1000;
      }

-- What reading the environment file gives: no such file, another error, or its text.
pub data EnvFile : Type 0 where
  missing : EnvFile
  unreadable : Text → EnvFile
  content : Text → EnvFile

unfoldable pub read_env_file : EnvFile → Result (Dict Text)
read_env_file missing = ok []
read_env_file (unreadable message) = err message
read_env_file (content t) = parse_env_file_document t

-- `process_env` is `process.env`, `chains` what `loadChainsFile` gives.
unfoldable pub load_config :
    Paths
    → Text
    → CliOptions
    → EnvFile
    → Dict Text
    → Result (Option (List ChainEntry))
    → Result DraftConfig
unfolding lookup
load_config paths cwd options file process_env chains = do
  file_env ← read_env_file file
  entries ← chains
  chain ← resolve_chain entries options.chain
  let env = λ (name : Text). or_else (lookup name process_env) (lookup name file_env)
  let draft = draft_of paths cwd options env chain
  validate_config paths draft
  ok draft
