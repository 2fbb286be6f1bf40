-- ===== src/Tests/Detect.antt =====
-- An example for `detectDeployments` of runner/src/runner.ts: a creation and a call, and traces that
-- name one creation twice.
use evm_contract_auditor_hon.Prelude.{
  ◌≡◌, List, Option, [], ◌∷◌, ◌++◌, map, none, some, codes, length,
}
use evm_contract_auditor_hon.Prelude.Dict.{Dict}
use evm_contract_auditor_hon.Types.Rpc.{
  RpcTransaction, RpcReceipt, DetectedDeployment, TraceCreateDeployment, create,
  debug_trace_block_by_number,
}
use evm_contract_auditor_hon.Runner.Detect.{Traced, scan_result}
use evm_contract_auditor_hon.Runner.Detect.Distinct.{IsUnseen, scan_result-IsUnseen}
use evm_contract_auditor_hon.Runner.Detect.Reported.{ReportedTop, ReportedTraces}
use evm_contract_auditor_hon.Tests.Data.{env, block_at}

abbrev created : TraceCreateDeployment
created = record {
  tx_hash = codes "0xt1";
  from = codes "0xd1";
  to = none;
  created_address = codes "0xc1";
  init_code = codes "0x6000";
  kind = create;
}

abbrev twice : Traced
twice = record { deployments = created ∷ created ∷ []; mode = debug_trace_block_by_number }

-- A transaction that creates a contract, and a call.
abbrev creating : RpcTransaction
creating = record {
  hash = codes "0xt0";
  from = codes "0xd0";
  to = none;
  input = some (codes "0x60");
  payload = none;
}

abbrev calling : RpcTransaction
calling = record creating { hash = codes "0xt1"; to = some (codes "0xc0") }

abbrev receipt : RpcReceipt
receipt = record {
  transaction_hash = codes "0xt0";
  block_number = 1;
  contract_address = some (codes "0xc0");
  gas_used = none;
  status = none;
}

abbrev transactions : List RpcTransaction
transactions = creating ∷ calling ∷ []

abbrev receipts : Dict (Option RpcReceipt)
receipts = (codes "0xt0", some receipt) ∷ []

scan_result-IsUnseen_example :
    let scan = scan_result env 1 (block_at 1) transactions receipts (some twice) in
    (top internal : List DetectedDeployment) × (scan.deployments ≡ top ++ internal)
    × (scan.top_level_create_tx_count ≡ length top)
    × (scan.internal_create_count ≡ length internal)
    × IsUnseen (map (λ d. d.correlation_id) top) internal
    × ReportedTop env 1 (block_at 1) receipts transactions top
    × ReportedTraces env 1
        (block_at 1)
        (map (λ d. d.correlation_id) top)
        (created ∷ created ∷ [])
        internal
scan_result-IsUnseen_example =
    scan_result-IsUnseen env 1 (block_at 1) transactions receipts (some twice)
