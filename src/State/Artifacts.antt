-- ===== src/State/Artifacts.antt =====
-- The artifacts of runner/src/state.ts: where they are written, and what is left out of one that is
-- too large. `compact_json_size` is the byte length of `JSON.stringify` of a result; nothing is
-- assumed of it.
use evm_contract_auditor_hon.Prelude.{
  ℕ, ◌≤◌, ◌<◌, ◌≡◌, refl, inl, inr, List, [], ◌∷◌, ◌++◌, Option, some, none, Text, codes, arith,
  leb, if◌then◌else◌, Bool-cases,
}
use evm_contract_auditor_hon.Prelude.Texts.{join, decimal}
use evm_contract_auditor_hon.Types.Proxy.{TargetKind, runtime, proxy_shell, implementation, beacon}
use evm_contract_auditor_hon.Types.Audit.{AuditResult, AuditArtifact, AuditTarget}
use evm_contract_auditor_hon.Types.Rpc.{DetectedDeployment}

unfoldable pub target_kind_text : TargetKind → Text
target_kind_text runtime = codes "runtime"
target_kind_text proxy_shell = codes "proxy_shell"
target_kind_text implementation = codes "implementation"
target_kind_text beacon = codes "beacon"

-- `path.join` of segments that have no separator and no dots of their own.
abbrev join_path : List Text → Text
join_path segments = join (codes "/") segments

-- The file that `writeAuditArtifact` writes and returns.
unfoldable pub audit_artifact_path : Text → AuditTarget → Text
unfolding target_kind_text
audit_artifact_path artifacts_dir target = join_path (
    artifacts_dir
    ∷ decimal target.chain_id
    ∷ decimal target.block_number
    ∷ target.tx_hash
    ∷ (target_kind_text target.target_kind ++ codes ".json")
    ∷ [])

-- The file that `writeDeploymentArtifact` writes and returns.
unfoldable pub deployment_artifact_path : Text → DetectedDeployment → Text
deployment_artifact_path artifacts_dir deployment = join_path (
    artifacts_dir
    ∷ decimal deployment.chain_id
    ∷ decimal deployment.block_number
    ∷ deployment.tx_hash
    ∷ codes "deployment.json"
    ∷ [])

abbrev without_output : Option AuditArtifact → Option AuditArtifact
without_output none = none
without_output (some artifact) = some (record artifact { stdout = none; stderr = none })

abbrev reason_or_truncated : Option Text → Option Text
reason_or_truncated none = some (codes "artifact_payload_truncated")
reason_or_truncated (some reason) = some reason

-- The result without the output of the auditor.
abbrev drop_output : AuditResult → AuditResult
drop_output r = record r { artifact = without_output r.artifact; stdout = none; stderr = none }

abbrev drop_api_json : AuditResult → AuditResult
drop_api_json r = record r {
  api_json = none;
  failure_reason = reason_or_truncated r.failure_reason;
}

-- What a written artifact has of the one of the result: the same fields, and no output.
pub data WithoutOutput : Option AuditArtifact → Option AuditArtifact → Type 0 where
  no_artifact : WithoutOutput none none
  emptied :
      {kept given : AuditArtifact}
      → kept.stdout ≡ none
      → kept.stderr ≡ none
      → (kept.runner_version ≡ given.runner_version)
        × (kept.rules_fingerprint ≡ given.rules_fingerprint)
        × (kept.auditor_schema ≡ given.auditor_schema)
        × (kept.subprocess_mode ≡ given.subprocess_mode)
        × (kept.target_address ≡ given.target_address)
        × (kept.block_tag ≡ given.block_tag)
        × (kept.proxy ≡ given.proxy)
      → WithoutOutput (some kept) (some given)

without_output-WithoutOutput : (o : Option AuditArtifact) → WithoutOutput (without_output o) o
without_output-WithoutOutput none = no_artifact
without_output-WithoutOutput (some artifact) =
    emptied refl refl (refl, refl, refl, refl, refl, refl, refl)

-- No output, in the result or in its artifact.
pub record HasNoOutput (result written : AuditResult) : Type 0 where
  pub stdout : written.stdout ≡ none
  pub stderr : written.stderr ≡ none
  pub artifact : WithoutOutput written.artifact result.artifact

-- The reason that is written with a result that lost its document.
pub data TruncatedReason : Option Text → Option Text → Type 0 where
  given : {reason : Text} → TruncatedReason (some reason) (some reason)
  truncated : TruncatedReason (some (codes "artifact_payload_truncated")) none

reason_or_truncated-TruncatedReason : (o : Option Text) → TruncatedReason (reason_or_truncated o) o
reason_or_truncated-TruncatedReason none = truncated
reason_or_truncated-TruncatedReason (some reason) = given

module _ (compact_json_size : AuditResult → ℕ) where
  pub sanitize_audit_result_for_persistence : AuditResult → ℕ → AuditResult
  sanitize_audit_result_for_persistence result max_bytes =
      if leb (compact_json_size result) max_bytes
      then result
      else if leb (compact_json_size (drop_output result)) max_bytes
      then drop_output result
      else drop_api_json (drop_output result)

  -- The three ways to write a result, by the sizes of it and of it without its output.
  pub data Sanitized (max_bytes : ℕ) (result written : AuditResult) : Type 0 where
    whole :
        compact_json_size result ≤ max_bytes → written ≡ result → Sanitized max_bytes result written
    output_dropped :
        max_bytes < compact_json_size result
        → compact_json_size written ≤ max_bytes
        → HasNoOutput result written
        → written.api_json ≡ result.api_json
        → written.failure_reason ≡ result.failure_reason
        → Sanitized max_bytes result written
    document_dropped :
        max_bytes < compact_json_size result
        → max_bytes
          < compact_json_size (record written {
            api_json = result.api_json;
            failure_reason = result.failure_reason;
          })
        → HasNoOutput result written
        → written.api_json ≡ none
        → TruncatedReason written.failure_reason result.failure_reason
        → Sanitized max_bytes result written

  drop_output-HasNoOutput : (result : AuditResult) → HasNoOutput result (drop_output result)
  drop_output-HasNoOutput result = record {
    stdout = refl;
    stderr = refl;
    artifact = without_output-WithoutOutput result.artifact;
  }

  -- A result that fits is written whole. One that does not loses the auditor's output, its own and
  -- its artifact's, and keeps the other fields of the artifact; if it fits then, it keeps its
  -- document and its reason, and if it still does not, it has no document and states a reason, its
  -- own or that it was truncated. What identifies the audit, its verdict and the exit code are
  -- written in every case.
  pub sanitize_audit_result_for_persistence_lem :
      (result : AuditResult) (max_bytes : ℕ)
      → let written = sanitize_audit_result_for_persistence result max_bytes in
        Sanitized max_bytes result written
        × (written.is_ok ≡ result.is_ok)
        × (written.cache_key ≡ result.cache_key)
        × (written.target ≡ result.target)
        × (written.auditor_exit_code ≡ result.auditor_exit_code)
  unfolding sanitize_audit_result_for_persistence
  sanitize_audit_result_for_persistence_lem result max_bytes =
      elim (Bool-cases (leb (compact_json_size result) max_bytes)) [
        | inl fits ↦ rw fits (whole (ground arith) refl, refl, refl, refl, refl)
        | inr big ↦ elim (Bool-cases (leb (compact_json_size (drop_output result)) max_bytes)) [
          | inl now_fits ↦
              rw (big, now_fits)
                (
                  output_dropped (ground arith) (ground arith) (drop_output-HasNoOutput result) refl
                      refl,
                  refl,
                  refl,
                  refl,
                  refl,
                )
          | inr still_big ↦
              rw (big, still_big)
                (
                  document_dropped (ground arith) (ground arith)
                      (record {
                        stdout = refl;
                        stderr = refl;
                        artifact = without_output-WithoutOutput result.artifact;
                      })
                      refl (reason_or_truncated-TruncatedReason result.failure_reason),
                  refl,
                  refl,
                  refl,
                  refl,
                )
        ]
      ]
