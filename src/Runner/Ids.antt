-- ===== src/Runner/Ids.antt =====
-- The identifiers of runner/src/runner.ts and `eventId` of runner/src/utils.ts: SHA-256 sums of
-- parts that colons join. `sha256` is the library's.
use evm_contract_auditor_hon.Prelude.{ℕ, List, [], ◌∷◌, Text, codes}
use evm_contract_auditor_hon.Prelude.Texts.{join, decimal}
use evm_contract_auditor_hon.State.Artifacts.{target_kind_text}
use evm_contract_auditor_hon.Types.Audit.{AuditTarget, RunnerRuntime}
use evm_contract_auditor_hon.World.{Env}

module _ (env : Env) where
  -- A part is a text; a number is written in decimal, and a part that is undefined is left out.
  unfoldable pub event_id : List Text → Text
  event_id parts = env.sha256 (join (codes ":") parts)

  unfoldable pub correlation_id_of : ℕ → ℕ → Text → Text → Text
  correlation_id_of chain_id block_number tx_hash address =
      event_id (decimal chain_id ∷ decimal block_number ∷ tx_hash ∷ address ∷ [])

  -- `buildCacheKey`
  unfoldable pub build_cache_key : RunnerRuntime → AuditTarget → Text
  build_cache_key runtime target = env.sha256 (
      join (codes ":") (
        decimal target.chain_id
        ∷ target.runtime_bytecode_hash
        ∷ target_kind_text target.target_kind
        ∷ runtime.rules_fingerprint
        ∷ runtime.auditor_schema
        ∷ runtime.runner_version
        ∷ []))
