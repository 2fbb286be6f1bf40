-- ===== src/Config/Usable.antt =====
-- What the configuration that runner/src/config.ts accepts gives the rest of the program.
use mathlib.Core.Path.{subst}
use evm_contract_auditor_hon.Prelude.{ℕ, ◌≤◌, ◌≡◌, refl, List, true, not, Option, Text, arith}
use evm_contract_auditor_hon.Prelude.Int.{ℤ, pos, negsuc, pos_part, ltb_ℤ}
use evm_contract_auditor_hon.Prelude.Dict.{Dict}
use evm_contract_auditor_hon.Types.Config.{CliOptions}
use evm_contract_auditor_hon.Utils.Retry.{Result, ok, ok-injective}
use evm_contract_auditor_hon.Utils.Checks.{◌>>◌, >>=-ok, require-ok, require-true}
use evm_contract_auditor_hon.Chains.{ChainEntry, is_http_url}
use evm_contract_auditor_hon.Config.{
  Paths, DraftConfig, EnvFile, require_non_negative_integer, clamp_positive_integer,
  validate_config, load_config, read_env_file, resolve_chain,
}

-- The number is a natural number that is not below the bound.
pub record AtLeast (low : ℕ) (value : ℤ) : Type 0 where
  pub same : pos (pos_part value) ≡ value
  pub bound : low ≤ pos_part value

at_least : (low : ℕ) (value : ℤ) → not (ltb_ℤ value (pos low)) ≡ true → AtLeast low value
at_least low (pos n) h = record { same = refl; bound = ground arith }
at_least low (negsuc n) h = absurd (ground arith)

clamp-AtLeast :
    (name : Text) (value : ℤ) (low : ℕ) {B : Type 0} (k : Result B) {b : B}
    → (clamp_positive_integer name value low >> k) ≡ ok b
    → AtLeast low value × (k ≡ ok b)
unfolding clamp_positive_integer
clamp-AtLeast name value low k h =
    let (c, rest) = require-ok _ _ k h in (at_least low value c, rest)

non_negative-AtLeast :
    (name : Text) (value : ℤ) {B : Type 0} (k : Result B) {b : B}
    → (require_non_negative_integer name value >> k) ≡ ok b
    → AtLeast 0 value × (k ≡ ok b)
unfolding require_non_negative_integer
non_negative-AtLeast name value k h =
    let (c, rest) = require-ok _ _ k h in (at_least 0 value c, rest)

last-AtLeast :
    (name : Text) (value : ℤ) (low : ℕ) {u : Unit {0}}
    → clamp_positive_integer name value low ≡ ok u
    → AtLeast low value
unfolding clamp_positive_integer
last-AtLeast name value low h = at_least low value (require-true _ _ h)

-- The URL and the directory are as asked for, every number that is checked is the one that was
-- configured and is not below its bound.
pub record IsUsable (paths : Paths) (c : DraftConfig) : Type 0 where
  pub http : is_http_url c.rpc_http_url ≡ true
  pub directory : paths.is_absolute c.state_dir ≡ true
  pub confirmations : AtLeast 0 c.confirmations
  pub start_block : AtLeast 0 c.start_block
  pub max_block_fetch_concurrency : AtLeast 1 c.max_block_fetch_concurrency
  pub max_audit_workers : AtLeast 1 c.max_audit_workers
  pub max_webhook_concurrency : AtLeast 1 c.max_webhook_concurrency
  pub analysis_timeout_ms : AtLeast 1 c.analysis_timeout_ms
  pub max_auditor_output_bytes : AtLeast 1024 c.max_auditor_output_bytes
  pub poll_interval_ms : AtLeast 1 c.poll_interval_ms
  pub max_reorg_depth : AtLeast 1 c.max_reorg_depth
  pub max_history : AtLeast 1 c.max_history
  pub max_artifact_inline_bytes : AtLeast 1 c.max_artifact_inline_bytes
  pub max_persisted_artifact_bytes : AtLeast 1024 c.max_persisted_artifact_bytes
  pub webhook_max_attempts : AtLeast 1 c.webhook_max_attempts
  pub rpc_max_attempts : AtLeast 1 c.rpc_max_attempts
  pub retry_base_delay_ms : AtLeast 1 c.retry_base_delay_ms
  pub max_result_cache_entries : AtLeast 1 c.max_result_cache_entries
  pub max_delivered_event_entries : AtLeast 1 c.max_delivered_event_entries
  pub max_pending_webhook_entries : AtLeast 1 c.max_pending_webhook_entries

validate_config-IsUsable :
    (paths : Paths) (c : DraftConfig) {u : Unit {0}}
    → validate_config paths c ≡ ok u
    → IsUsable paths c
unfolding validate_config
validate_config-IsUsable paths c h =
    let (_, h₁) = require-ok _ _ _ h in
    let (http, h₂) = require-ok _ _ _ h₁ in
    let (_, h₃) = require-ok _ _ _ h₂ in
    let (directory, k0) = require-ok _ _ _ h₃ in
    let (f0, k1) = non_negative-AtLeast _ _ _ k0 in
    let (f1, k2) = non_negative-AtLeast _ _ _ k1 in
    let (f2, k3) = clamp-AtLeast _ _ _ _ k2 in
    let (f3, k4) = clamp-AtLeast _ _ _ _ k3 in
    let (f4, k5) = clamp-AtLeast _ _ _ _ k4 in
    let (f5, k6) = clamp-AtLeast _ _ _ _ k5 in
    let (f6, k7) = clamp-AtLeast _ _ _ _ k6 in
    let (f7, k8) = clamp-AtLeast _ _ _ _ k7 in
    let (f8, k9) = clamp-AtLeast _ _ _ _ k8 in
    let (f9, k10) = clamp-AtLeast _ _ _ _ k9 in
    let (f10, k11) = clamp-AtLeast _ _ _ _ k10 in
    let (f11, k12) = clamp-AtLeast _ _ _ _ k11 in
    let (f12, k13) = clamp-AtLeast _ _ _ _ k12 in
    let (f13, k14) = clamp-AtLeast _ _ _ _ k13 in
    let (f14, k15) = clamp-AtLeast _ _ _ _ k14 in
    let (f15, k16) = clamp-AtLeast _ _ _ _ k15 in
    let (f16, k17) = clamp-AtLeast _ _ _ _ k16 in
    record {
      http = http;
      directory = directory;
      confirmations = f0;
      start_block = f1;
      max_block_fetch_concurrency = f2;
      max_audit_workers = f3;
      max_webhook_concurrency = f4;
      analysis_timeout_ms = f5;
      max_auditor_output_bytes = f6;
      poll_interval_ms = f7;
      max_reorg_depth = f8;
      max_history = f9;
      max_artifact_inline_bytes = f10;
      max_persisted_artifact_bytes = f11;
      webhook_max_attempts = f12;
      rpc_max_attempts = f13;
      retry_base_delay_ms = f14;
      max_result_cache_entries = f15;
      max_delivered_event_entries = f16;
      max_pending_webhook_entries = last-AtLeast _ _ _ k17;
    }

-- If a configuration is loaded, from whatever command line, environment, file and chains, its node
-- is reached by HTTP, its directory is absolute, and each number that is checked is within its
-- bound and goes into the program's configuration unchanged.
pub load_config-IsUsable :
    (paths : Paths) (cwd : Text) (options : CliOptions) (file : EnvFile) (process_env : Dict Text)
    (chains : Result (Option (List ChainEntry))) (c : DraftConfig)
    → load_config paths cwd options file process_env chains ≡ ok c
    → IsUsable paths c
unfolding load_config
load_config-IsUsable paths cwd options file process_env chains c h =
    let (file_env, _, h₁) = >>=-ok (read_env_file file) _ h in
    let (entries, _, h₂) = >>=-ok chains _ h₁ in
    let (chain, _, h₃) = >>=-ok (resolve_chain entries options.chain) _ h₂ in
    let (_, valid, h₄) = >>=-ok _ _ h₃ in
    subst (IsUsable paths) (ok-injective h₄) (validate_config-IsUsable paths _ valid)
