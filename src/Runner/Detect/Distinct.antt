-- ===== src/Runner/Detect/Distinct.antt =====
-- The deployments that `detectDeployments` of runner/src/runner.ts reports for a block.
use evm_contract_auditor_hon.Prelude.{
  ℕ, ◌≡◌, refl, List, [], ◌∷◌, ◌++◌, map, false, Option, Text, length, any, text_eq, Bool-cases,
  inl, inr, select,
}
use evm_contract_auditor_hon.Prelude.Dict.{Dict}
use evm_contract_auditor_hon.Types.Rpc.{
  RpcTransaction, RpcBlock, RpcReceipt, DetectedDeployment, TraceCreateDeployment,
}
use evm_contract_auditor_hon.World.{Env}
use evm_contract_auditor_hon.Runner.Ids.{correlation_id_of}
use evm_contract_auditor_hon.Runner.Detect.Reported.{
  ReportedTop, ReportedTraces, top_level_deployments-ReportedTop,
  internal_deployments-ReportedTraces,
}
use evm_contract_auditor_hon.Runner.Detect.{
  Traced, scan_result, internal_deployments, to_internal_deployment, top_level_deployments,
  is_creation, index_of_transactions, traced_deployments,
}

-- No deployment has a correlation identifier that was seen before the list or earlier in it.
abbrev pub IsUnseen : List Text → List DetectedDeployment → Type 0
IsUnseen seen [] = Unit
IsUnseen seen (d ∷ ds) =
    (any (text_eq d.correlation_id) seen ≡ false) × IsUnseen (d.correlation_id ∷ seen) ds

module _ (env : Env) (chain_id : ℕ) (block : RpcBlock) where
  internal_deployments-IsUnseen :
      (tx_index : Dict RpcTransaction) (seen : List Text) (traces : List TraceCreateDeployment)
      → IsUnseen seen (internal_deployments env chain_id block tx_index seen traces)
  unfolding internal_deployments to_internal_deployment
  internal_deployments-IsUnseen tx_index seen [] = tt
  internal_deployments-IsUnseen tx_index seen (trace ∷ traces) =
      let id = correlation_id_of env chain_id block.number trace.tx_hash trace.created_address in
      elim (Bool-cases (any (text_eq id) seen)) [
        | inl known ↦ rw known (internal_deployments-IsUnseen tx_index seen traces)
        | inr unknown ↦
            rw unknown (unknown, internal_deployments-IsUnseen tx_index (id ∷ seen) traces)
      ]

  -- The deployments of a scan are those of the top level and then those from the traces, as many of
  -- each as the counts say. Those of the top level are, in the order of the transactions, one for
  -- each that has no recipient and whose receipt names a contract. Those from the traces are, in
  -- their order, one for each trace whose correlation identifier is not that of a deployment
  -- reported before it, so that no identifier of a deployment of the top level or of an earlier one
  -- from the traces is reported again from the traces, whatever the node answered.
  pub scan_result-IsUnseen :
      (txs : List RpcTransaction) (receipts : Dict (Option RpcReceipt)) (traced : Option Traced)
      → let scan = scan_result env chain_id block txs receipts traced in
        (top internal : List DetectedDeployment) × (scan.deployments ≡ top ++ internal)
        × (scan.top_level_create_tx_count ≡ length top)
        × (scan.internal_create_count ≡ length internal)
        × IsUnseen (map (λ d. d.correlation_id) top) internal
        × ReportedTop env chain_id block receipts txs top
        × ReportedTraces env chain_id block
            (map (λ d. d.correlation_id) top)
            (traced_deployments traced)
            internal
  unfolding scan_result
  scan_result-IsUnseen txs receipts traced =
      let top = top_level_deployments env chain_id block (select is_creation txs) receipts in
      let seen = map (λ (d : DetectedDeployment). d.correlation_id) top in
      let tx_index = index_of_transactions txs [] in
      (
        top,
        _,
        refl,
        refl,
        refl,
        internal_deployments-IsUnseen tx_index seen (traced_deployments traced),
        top_level_deployments-ReportedTop env chain_id block receipts txs,
        internal_deployments-ReportedTraces env chain_id block tx_index seen
            (traced_deployments traced),
      )
