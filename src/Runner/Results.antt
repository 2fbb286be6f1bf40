-- ===== src/Runner/Results.antt =====
-- One audit of `processDeployment` of runner/src/runner.ts: the cached or fresh result of a target, its
-- artifact (runner/src/state.ts) and its events.
use evm_contract_auditor_hon.Prelude.{
  ℕ, ◌+◌, ◌-◌, [], ◌∷◌, ◌++◌, map, Bool, true, false, ◌&&◌, Option, none, some, Text, codes, length,
  leb, ltb, ◌==◌, if◌then◌else◌, slice_last,
}
use evm_contract_auditor_hon.Prelude.Dict.{insert}
use evm_contract_auditor_hon.Prelude.Texts.{trim}
use evm_contract_auditor_hon.Types.Config.{RunnerConfig, CliOptions}
use evm_contract_auditor_hon.Types.Audit.{
  AuditTarget, AuditResult, AuditJob, AuditApiJson, AuditSummary, RunnerRuntime, AuditApiFinding,
}
use evm_contract_auditor_hon.Types.Events.{
  WebhookEvent, audit_completed, audit_failed, findings_detected,
}
use evm_contract_auditor_hon.Types.Checkpoint.{CachedAuditRecord}
use evm_contract_auditor_hon.Bytecode.{BytecodeValidationKind, eof, skip_proxy_shell}
use evm_contract_auditor_hon.State.Artifacts.{
  audit_artifact_path, target_kind_text, sanitize_audit_result_for_persistence,
}
use evm_contract_auditor_hon.Utils.Retry.{ok, err}
use evm_contract_auditor_hon.World.{
  M, pure, modify, ◌>>=◌, ◌>>◌, count, measure, read_clock, Env, ArtifactFile, audit,
}
use evm_contract_auditor_hon.Auditor.{run_audit_job}
use evm_contract_auditor_hon.Emit.{save, emit_event}
use evm_contract_auditor_hon.Runner.Ids.{event_id}

-- `tailString`: the last `max` units of a text that is not blank, with a mark where it was cut.
unfoldable pub tail_string : Option Text → ℕ → Option Text
unfolding trim slice_last
tail_string none max = none
tail_string (some value) max =
    let trimmed = trim value in
    if length trimmed == 0
    then none
    else if ltb max (length trimmed)
    then some (0x2026 ∷ slice_last max trimmed)
    else some trimmed

unfoldable pub to_audit_summary : Option AuditApiJson → Option AuditSummary
to_audit_summary none = none
to_audit_summary (some api_json) = some (record {
  matched = api_json.analysis.matched;
  finding_count = api_json.analysis.finding_count;
  highest_severity = api_json.analysis.highest_severity;
  highest_confidence = api_json.analysis.highest_confidence;
  rule_ids = map (λ (f : AuditApiFinding). f.rule_id) api_json.findings;
})

abbrev pub is_matched : Option AuditApiJson → Bool
is_matched none = false
is_matched (some api_json) = api_json.analysis.matched

abbrev pub finding_count_of : Option AuditApiJson → ℕ
finding_count_of none = 0
finding_count_of (some api_json) = api_json.analysis.finding_count

abbrev is_eof : BytecodeValidationKind → Bool
is_eof eof = true
is_eof _ = false

abbrev pub is_proxy_shell : BytecodeValidationKind → Bool
is_proxy_shell skip_proxy_shell = true
is_proxy_shell _ = false

-- The job of a target; the flags come from the validation of the deployment's own code.
unfoldable pub job_for : Text → AuditTarget → BytecodeValidationKind → AuditJob
job_for cache_key target kind = record {
  cache_key = cache_key;
  target = target;
  eof_format = is_eof kind;
  proxy_shell = is_proxy_shell kind;
}

-- A cached record counts if it has a document or the path of an artifact.
unfoldable pub usable_record : Option CachedAuditRecord → Option CachedAuditRecord
usable_record none = none
usable_record (some r) = elim r.api_json [
  | some _ ↦ some r
  | none ↦ elim r.artifact_path [ none ↦ none | some [] ↦ none | some (_ ∷ _) ↦ some r ]
]

abbrev result_of_record : CachedAuditRecord → Text → AuditTarget → ℕ → ℕ → AuditResult
result_of_record r cache_key target started_at completed_at = record {
  is_ok = true;
  cached = true;
  cache_key = cache_key;
  target = target;
  started_at = started_at;
  completed_at = completed_at;
  duration_ms = 0;
  auditor_exit_code = none;
  stdout = none;
  stderr = none;
  failure_reason = none;
  artifact_path = r.artifact_path;
  api_json = r.api_json;
  artifact = none;
}

module _ (config : RunnerConfig) (env : Env) (options : CliOptions) where
  abbrev pub artifacts_dir : Text
  artifacts_dir = config.state_dir ++ codes "/artifacts"

  -- `writeJsonFile` of an artifact.
  unfoldable pub write_artifact : Text → ArtifactFile → M Text
  write_artifact path file w = elim (env.write_file w.ticks) [
    | ok _ ↦ (ok path, record w { ticks = w.ticks + 1; artifacts = insert path file w.artifacts })
    | err message ↦ (err message, record w { ticks = w.ticks + 1 })
  ]

  unfoldable pub write_audit_artifact : AuditResult → M Text
  write_audit_artifact result = write_artifact (audit_artifact_path artifacts_dir result.target) (
      audit (
        sanitize_audit_result_for_persistence env.result_size result
          config.max_persisted_artifact_bytes))

  abbrev inlined : Option AuditApiJson → Option AuditApiJson
  inlined none = none
  inlined (some api_json) =
      if leb (env.json_size api_json) config.max_artifact_inline_bytes then some api_json else none

  unfoldable pub base_event : AuditResult → ℕ → WebhookEvent
  unfolding to_audit_summary tail_string
  base_event result now =
      let target = result.target in
      record {
        id = event_id env (
            target.correlation_id
            ∷ codes "audit_completed"
            ∷ target_kind_text target.target_kind
            ∷ []);
        kind = if result.is_ok then audit_completed else audit_failed;
        timestamp = now;
        chain_id = target.chain_id;
        block_number = target.block_number;
        tx_hash = target.tx_hash;
        contract_address = target.contract_address;
        deployer = target.deployer;
        correlation_id = target.correlation_id;
        target_kind = some target.target_kind;
        bytecode_hashes = record {
          creation = target.creation_bytecode_hash;
          runtime = some target.runtime_bytecode_hash;
        };
        proxy = some target.proxy;
        audit_summary = to_audit_summary result.api_json;
        artifact_path = result.artifact_path;
        raw_api_json = inlined result.api_json;
        failure_reason = result.failure_reason;
        auditor_exit_code =
            if result.is_ok
            then none
            else elim result.auditor_exit_code [ none ↦ some none | some c ↦ some c ];
        auditor_stderr_tail = if result.is_ok then none else tail_string result.stderr 480;
        detection_source = none;
        health_report = none;
      }

  unfoldable pub emit_audit_events : AuditResult → M (Unit {0})
  emit_audit_events result = do
    now ← read_clock env
    emit_event config env options (base_event result now)
    if result.is_ok && is_matched result.api_json
        then emit_event config env options (record (base_event result now) {
          id = event_id env (
              result.target.correlation_id
              ∷ codes "findings_detected"
              ∷ target_kind_text result.target.target_kind
              ∷ []);
          kind = findings_detected;
        })
        else pure tt

  -- The entry that a successful run leaves in the cache.
  abbrev cached_record : RunnerRuntime → AuditTarget → AuditApiJson → Text → ℕ → CachedAuditRecord
  cached_record runtime target api_json path now = record {
    created_at = now;
    artifact_path = some path;
    api_json = some api_json;
    target_address = target.target_address;
    target_kind = target.target_kind;
    rules_fingerprint = runtime.rules_fingerprint;
    runner_version = runtime.runner_version;
    auditor_schema = runtime.auditor_schema;
  }

  unfoldable pub remember :
      RunnerRuntime → Text → AuditTarget → Bool → Option AuditApiJson → Text → M (Unit {0})
  remember runtime cache_key target true (some api_json) path = do
    now ← read_clock env
    modify (λ w. record w {
      checkpoint = record w.checkpoint {
        result_cache =
            insert cache_key (cached_record runtime target api_json path now)
              w.checkpoint.result_cache;
      };
    })
  remember runtime cache_key target _ _ path = pure tt

  unfoldable pub fresh_result :
      RunnerRuntime → Text → AuditTarget → BytecodeValidationKind → M AuditResult
  fresh_result runtime cache_key target kind = do
    measure (λ m. record m { queue_depth = m.queue_depth + 1 })
    result ← run_audit_job env runtime (job_for cache_key target kind)
    measure (λ m. record m { queue_depth = m.queue_depth - 1 })
    path ← write_audit_artifact result
    remember runtime cache_key target result.is_ok result.api_json path
    save config env
    pure (record result { artifact_path = some path })

  unfoldable pub result_for :
      RunnerRuntime
      → Text
      → AuditTarget
      → BytecodeValidationKind
      → Option CachedAuditRecord
      → M AuditResult
  result_for runtime cache_key target kind (some r) = do
    count (λ s. record s { cache_hits = s.cache_hits + 1 })
    started_at ← read_clock env
    completed_at ← read_clock env
    pure (result_of_record r cache_key target started_at completed_at)
  result_for runtime cache_key target kind none = fresh_result runtime cache_key target kind

  unfoldable pub count_result : AuditResult → M (Unit {0})
  count_result result = do
    if result.is_ok then measure (λ m. record m { audits_total = m.audits_total + 1 }) else do
      count (λ s. record s { audit_failures = s.audit_failures + 1 })
      measure (λ m. record m { audit_errors_total = m.audit_errors_total + 1 })
    if is_matched result.api_json
        then count (λ s. record s { findings = s.findings + finding_count_of result.api_json })
        else pure tt
