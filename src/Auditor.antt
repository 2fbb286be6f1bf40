-- ===== src/Auditor.antt =====
-- runner/src/auditor.ts: one run of the auditor on one target. The arguments of the process and
-- the temporary file are in the job and the mode that `run_process` is given; the document is read
-- by `parse_api_json`.
pub mod Outcome
use evm_contract_auditor_hon.Prelude.{
  ℕ, ◌+◌, ◌-◌, List, [], ◌∷◌, Bool, true, false, not, Option, none, some, Text, codes, length, ltb,
  ◌==◌, if◌then◌else◌,
}
use evm_contract_auditor_hon.Types.Audit.{
  AuditResult, AuditArtifact, AuditJob, AuditApiJson, RunnerRuntime, SubprocessMode, hex_arg,
  temp_file,
}
use evm_contract_auditor_hon.Utils.Retry.{Result, ok, err}
use evm_contract_auditor_hon.World.{World, M, pure, ◌>>=◌, Env, ProcessOutput, read_clock}

-- `MAX_INLINE_HEX_ARG`
abbrev max_inline_hex_arg : ℕ
max_inline_hex_arg = 100_000

unfoldable pub subprocess_mode : Text → SubprocessMode
subprocess_mode runtime_bytecode =
    if ltb max_inline_hex_arg (length runtime_bytecode) then temp_file else hex_arg

abbrev base_result : AuditJob → ℕ → AuditResult
base_result job started_at = record {
  is_ok = false;
  cached = false;
  cache_key = job.cache_key;
  target = job.target;
  started_at = started_at;
  completed_at = started_at;
  duration_ms = 0;
  auditor_exit_code = none;
  stdout = none;
  stderr = none;
  failure_reason = none;
  artifact_path = none;
  api_json = none;
  artifact = none;
}

module _ (runtime : RunnerRuntime) (job : AuditJob) (mode : SubprocessMode)
    (started_at completed_at : ℕ) where
  artifact_of : ProcessOutput → AuditArtifact
  artifact_of output = record {
    runner_version = runtime.runner_version;
    rules_fingerprint = runtime.rules_fingerprint;
    auditor_schema = runtime.auditor_schema;
    subprocess_mode = mode;
    target_address = job.target.target_address;
    block_tag = job.target.block_number;
    proxy = job.target.proxy;
    stdout = some output.stdout;
    stderr = some output.stderr;
  }

  unfoldable pub build_failure : ProcessOutput → Option ℕ → Text → AuditResult
  unfolding artifact_of
  build_failure output auditor_exit_code failure_reason = record (base_result job started_at) {
    completed_at = completed_at;
    duration_ms = completed_at - started_at;
    stdout = some output.stdout;
    stderr = some output.stderr;
    auditor_exit_code = some auditor_exit_code;
    failure_reason = some failure_reason;
    artifact = some (artifact_of output);
  }

  unfoldable pub build_success : ProcessOutput → AuditApiJson → AuditResult
  unfolding artifact_of
  build_success output api_json = record (base_result job started_at) {
    is_ok = true;
    completed_at = completed_at;
    duration_ms = completed_at - started_at;
    stdout = some output.stdout;
    stderr = some output.stderr;
    auditor_exit_code = some output.code;
    api_json = some api_json;
    artifact = some (artifact_of output);
  }

  -- `code !== 0`; a process that a signal ended has the code null.
  abbrev exited_nonzero : Option ℕ → Bool
  exited_nonzero none = true
  exited_nonzero (some code) = not (code == 0)

  -- The tests on what the process ended with, in their order.
  unfoldable pub judge : ProcessOutput → Result AuditApiJson → AuditResult
  unfolding build_failure build_success
  judge output parsed =
      if output.timed_out
      then build_failure output none (codes "analysis_timeout")
      else if output.output_limit_exceeded
      then build_failure output none (codes "auditor_output_limit_exceeded")
      else if exited_nonzero output.code
      then build_failure output output.code (codes "auditor_exit_nonzero")
      else elim parsed [
        | ok api_json ↦ build_success output api_json
        | err message ↦ build_failure output output.code message
      ]

module _ (env : Env) (runtime : RunnerRuntime) where
  -- The process is started; it may fail to start.
  unfoldable pub run_process : SubprocessMode → AuditJob → M ProcessOutput
  run_process mode job w = (env.run_process w.ticks mode job, record w { ticks = w.ticks + 1 })

  unfoldable pub run_audit_job : AuditJob → M AuditResult
  unfolding subprocess_mode
  run_audit_job job = do
    started_at ← read_clock env
    let mode = subprocess_mode job.target.runtime_bytecode
    output ← run_process mode job
    completed_at ← read_clock env
    pure (judge runtime job mode started_at completed_at output (env.parse_api_json output.stdout))
