-- ===== src/Runner/Detect/Reported.antt =====
-- What `detectDeployments` of runner/src/runner.ts reports of the transactions of a block and of the
-- traces of it.
use mathlib.Core.Path.{subst}
use evm_contract_auditor_hon.Prelude.{
  ℕ, ◌≡◌, refl, ◌∙◌, ap, sym, none, some, true, Bool, if◌then◌else◌, List, [], ◌∷◌, ◌++◌, false,
  Option, Text, any, text_eq, Bool-cases, inl, inr, select,
}
use evm_contract_auditor_hon.Prelude.Dict.{Dict, lookup}
use evm_contract_auditor_hon.Types.Events.{top_level_create, trace_create, trace_create2}
use evm_contract_auditor_hon.Types.Rpc.{
  RpcTransaction, RpcBlock, RpcReceipt, DetectedDeployment, TraceCreateDeployment, CreateKind,
  create, create2,
}
use evm_contract_auditor_hon.Traces.{truthy}
use evm_contract_auditor_hon.World.{Env}
use evm_contract_auditor_hon.Runner.Ids.{correlation_id_of}
use evm_contract_auditor_hon.Runner.Detect.{
  internal_deployments, to_internal_deployment, top_level_deployments, is_creation, from_receipt,
  source_of, to_detected_deployment,
}

-- The address of the contract that a receipt names, if the receipt was found.
abbrev pub created_address : Option (Option RpcReceipt) → Option Text
created_address none = none
created_address (some none) = none
created_address (some (some receipt)) = truthy receipt.contract_address

module _ (env : Env) (chain_id : ℕ) (block : RpcBlock) where
  -- The deployment of a transaction that created the contract at the address.
  pub record IsTopLevel (tx : RpcTransaction) (address : Text) (d : DetectedDeployment)
      : Type 0 where
    pub tx_hash : d.tx_hash ≡ tx.hash
    pub deployer : d.deployer ≡ tx.from
    pub contract : d.contract_address ≡ address
    pub correlation : d.correlation_id ≡ correlation_id_of env chain_id block.number tx.hash address
    pub source : d.detection_source ≡ top_level_create
    pub place : (d.chain_id ≡ chain_id) × (d.block_number ≡ block.number)

  -- What is reported of the transactions of a block, in their order: of one without a recipient
  -- whose receipt names a contract its deployment, and of any other nothing.
  pub data ReportedTop (receipts : Dict (Option RpcReceipt))
      : List RpcTransaction → List DetectedDeployment → Type 0 where
    done : ReportedTop receipts [] []
    call :
        {tx : RpcTransaction} {txs : List RpcTransaction} {ds : List DetectedDeployment}
        {recipient : Text}
        → tx.to ≡ some recipient
        → ReportedTop receipts txs ds
        → ReportedTop receipts (tx ∷ txs) ds
    without_contract :
        {tx : RpcTransaction} {txs : List RpcTransaction} {ds : List DetectedDeployment}
        → tx.to ≡ none
        → created_address (lookup tx.hash receipts) ≡ none
        → ReportedTop receipts txs ds
        → ReportedTop receipts (tx ∷ txs) ds
    creation :
        {tx : RpcTransaction} {txs : List RpcTransaction} {d : DetectedDeployment}
        {ds : List DetectedDeployment} {address : Text}
        → tx.to ≡ none
        → created_address (lookup tx.hash receipts) ≡ some address
        → IsTopLevel tx address d
        → ReportedTop receipts txs ds
        → ReportedTop receipts (tx ∷ txs) (d ∷ ds)

  abbrev trace_id : TraceCreateDeployment → Text
  trace_id trace = correlation_id_of env chain_id block.number trace.tx_hash trace.created_address

  -- The deployment of a trace.
  pub record IsInternal (trace : TraceCreateDeployment) (d : DetectedDeployment) : Type 0 where
    pub tx_hash : d.tx_hash ≡ trace.tx_hash
    pub contract : d.contract_address ≡ trace.created_address
    pub correlation : d.correlation_id ≡ trace_id trace
    pub source :
        d.detection_source ≡ (elim trace.kind [ create2 ↦ trace_create2 | create ↦ trace_create ])
    pub place : (d.chain_id ≡ chain_id) × (d.block_number ≡ block.number)

  -- What is reported of the traces, in their order: of each whose identifier was not seen before its
  -- deployment.
  pub data ReportedTraces
      : List Text → List TraceCreateDeployment → List DetectedDeployment → Type 0 where
    done : {seen : List Text} → ReportedTraces seen [] []
    repeated :
        {seen : List Text} {trace : TraceCreateDeployment} {traces : List TraceCreateDeployment}
        {ds : List DetectedDeployment}
        → any (text_eq (trace_id trace)) seen ≡ true
        → ReportedTraces seen traces ds
        → ReportedTraces seen (trace ∷ traces) ds
    added :
        {seen : List Text} {trace : TraceCreateDeployment} {traces : List TraceCreateDeployment}
        {d : DetectedDeployment} {ds : List DetectedDeployment}
        → any (text_eq (trace_id trace)) seen ≡ false
        → IsInternal trace d
        → ReportedTraces (trace_id trace ∷ seen) traces ds
        → ReportedTraces seen (trace ∷ traces) (d ∷ ds)

  from_receipt-ReportedTop :
      (receipts : Dict (Option RpcReceipt)) (tx : RpcTransaction) (txs : List RpcTransaction)
      (ds : List DetectedDeployment) (o : Option (Option RpcReceipt))
      → tx.to ≡ none
      → lookup tx.hash receipts ≡ o
      → ReportedTop receipts txs ds
      → ReportedTop receipts (tx ∷ txs) (from_receipt env chain_id block tx o ++ ds)
  unfolding from_receipt to_detected_deployment
  from_receipt-ReportedTop receipts tx txs ds none to e rest =
      without_contract to (ap created_address e) rest
  from_receipt-ReportedTop receipts tx txs ds (some none) to e rest =
      without_contract to (ap created_address e) rest
  from_receipt-ReportedTop receipts tx txs ds (some (some receipt)) to e rest =
      by_address (truthy receipt.contract_address) refl
    where
      by_address :
          (a : Option Text)
          → truthy receipt.contract_address ≡ a
          → ReportedTop receipts
              (tx ∷ txs)
              (from_receipt env chain_id block tx (some (some receipt)) ++ ds)
      by_address none h = rw (h, ◌++◌) (without_contract to (ap created_address e ∙ h) rest)
      by_address (some address) h =
          rw (h, ◌++◌)
            (creation to (ap created_address e ∙ h)
              (record {
                tx_hash = refl;
                deployer = refl;
                contract = refl;
                correlation = refl;
                source = refl;
                place = (refl, refl);
              })
              rest)

  pub top_level_deployments-ReportedTop :
      (receipts : Dict (Option RpcReceipt)) (txs : List RpcTransaction)
      → ReportedTop receipts txs
          (top_level_deployments env chain_id block (select is_creation txs) receipts)
  unfolding top_level_deployments select
  top_level_deployments-ReportedTop receipts [] = done
  top_level_deployments-ReportedTop receipts (tx ∷ txs) =
      by_recipient tx.to refl (top_level_deployments-ReportedTop receipts txs)
    where
      no_recipient : Option Text → Bool
      no_recipient o = elim o [ none ↦ true | some _ ↦ false ]

      top_level_if : Bool → List DetectedDeployment
      top_level_if b =
          let rest = select is_creation txs in
          top_level_deployments env chain_id block (if b then tx ∷ rest else rest) receipts

      reported_if : Bool → Type 0
      reported_if b = ReportedTop receipts (tx ∷ txs) (top_level_if b)

      by_recipient :
          (o : Option Text)
          → tx.to ≡ o
          → ReportedTop receipts txs
              (top_level_deployments env chain_id block (select is_creation txs) receipts)
          → ReportedTop receipts
              (tx ∷ txs)
              (top_level_deployments env chain_id block (select is_creation (tx ∷ txs)) receipts)
      by_recipient none h rest = subst reported_if (sym (ap no_recipient h)) (
          from_receipt-ReportedTop receipts tx txs (top_level_if false) (lookup tx.hash receipts) h
            refl rest)
      by_recipient (some recipient) h rest =
          subst reported_if (sym (ap no_recipient h)) (call h rest)

  kind_source :
      (k : CreateKind)
      → source_of env chain_id block k
        ≡ (elim k [ create2 ↦ trace_create2 | create ↦ trace_create ])
  kind_source create2 = refl
  kind_source create = refl

  pub internal_deployments-ReportedTraces :
      (tx_index : Dict RpcTransaction) (seen : List Text) (traces : List TraceCreateDeployment)
      → ReportedTraces seen traces (internal_deployments env chain_id block tx_index seen traces)
  unfolding internal_deployments to_internal_deployment
  internal_deployments-ReportedTraces tx_index seen [] = done
  internal_deployments-ReportedTraces tx_index seen (trace ∷ traces) =
      elim (Bool-cases (any (text_eq (trace_id trace)) seen)) [
        | inl known ↦
            rw known (repeated known (internal_deployments-ReportedTraces tx_index seen traces))
        | inr unknown ↦ rw unknown (
            added unknown
              (record {
                tx_hash = refl;
                contract = refl;
                correlation = refl;
                source = kind_source trace.kind;
                place = (refl, refl);
              })
              (internal_deployments-ReportedTraces tx_index (trace_id trace ∷ seen) traces))
      ]
