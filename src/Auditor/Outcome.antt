-- ===== src/Auditor/Outcome.antt =====
-- The results of `runAuditJob` of runner/src/auditor.ts.
use evm_contract_auditor_hon.Prelude.{
  ℕ, ◌≡◌, ◌≢◌, refl, ◌↔◌, true, false, Option, none, some, Text, arith,
}
use evm_contract_auditor_hon.Types.Audit.{AuditJob, AuditApiJson, RunnerRuntime, SubprocessMode}
use evm_contract_auditor_hon.Utils.Retry.{Result, ok, err}
use evm_contract_auditor_hon.World.{ProcessOutput}
use evm_contract_auditor_hon.Auditor.{judge}

some_of_ne_none : (o : Option Text) → o ≢ none → (t : Text) × (o ≡ some t)
some_of_ne_none none h = absurd (h refl)
some_of_ne_none (some t) h = (t, refl)

judge_parts :
    (runtime : RunnerRuntime) (job : AuditJob) (mode : SubprocessMode) (from to : ℕ)
    (output : ProcessOutput) (parsed : Result AuditApiJson)
    → let result = judge runtime job mode from to output parsed in
      ((result.is_ok ≡ true) ↔ (
        (output.timed_out ≡ false)
        × (output.output_limit_exceeded ≡ false)
        × (output.code ≡ some 0)
        × ((d : AuditApiJson) × (parsed ≡ ok d))))
      × (result.is_ok ≡ true
          → (result.failure_reason ≡ none) × ((d : AuditApiJson) × (result.api_json ≡ some d)))
      × (result.is_ok ≡ false
          → (result.api_json ≡ none) × ((reason : Text) × (result.failure_reason ≡ some reason)))
      × (result.target ≡ job.target)
      × (result.cache_key ≡ job.cache_key)
unfolding judge
judge_parts runtime job mode from to output (ok d) = (
  (λ h. (ground arith, ground arith, ground arith, (d, refl)), λ h. ground arith),
  λ h. (ground arith, (d, ground arith)),
  λ h. (ground arith, some_of_ne_none _ (λ e. absurd (ground arith))),
  ground arith,
  ground arith,
)
judge_parts runtime job mode from to output (err message) = (
  (λ h. absurd (ground arith), λ h. cc h.3.1),
  λ h. absurd (ground arith),
  λ h. (ground arith, some_of_ne_none _ (λ e. absurd (ground arith))),
  ground arith,
  ground arith,
)

-- A run counts as a success exactly when the process ended in time, within the output limit and
-- with code 0, and printed a document that is accepted.
pub judge-is_ok :
    (runtime : RunnerRuntime) (job : AuditJob) (mode : SubprocessMode) (from to : ℕ)
    (output : ProcessOutput) (parsed : Result AuditApiJson)
    → ((judge runtime job mode from to output parsed).is_ok ≡ true) ↔ (
        (output.timed_out ≡ false)
        × (output.output_limit_exceeded ≡ false)
        × (output.code ≡ some 0)
        × ((d : AuditApiJson) × (parsed ≡ ok d)))
judge-is_ok runtime job mode from to output parsed =
    (judge_parts runtime job mode from to output parsed).0

-- A run that does not count as a success leaves a result with a reason and without a document, for
-- the job's target and cache key.
pub judge_failed :
    (runtime : RunnerRuntime) (job : AuditJob) (mode : SubprocessMode) (from to : ℕ)
    (output : ProcessOutput) (parsed : Result AuditApiJson)
    → let result = judge runtime job mode from to output parsed in
      result.is_ok ≡ false
      → (result.api_json ≡ none)
        × ((reason : Text) × (result.failure_reason ≡ some reason))
        × (result.target ≡ job.target)
        × (result.cache_key ≡ job.cache_key)
judge_failed runtime job mode from to output parsed h =
    let (_, _, failed, same_target, same_key) =
      judge_parts runtime job mode from to output parsed in
    let (no_document, reason) = failed h in (no_document, reason, same_target, same_key)
