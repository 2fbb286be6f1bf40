-- ===== src/Runner/Detect.antt =====
-- `detectDeployments` and `toDetectedDeployment` of runner/src/runner.ts, and
-- `getInternalDeployments` of runner/src/rpc.ts. Requests that the program sends together are sent
-- one after the other.
pub mod Reported
pub mod Distinct
use evm_contract_auditor_hon.Prelude.{
  ℕ, List, [], ◌∷◌, ◌++◌, map, Bool, true, false, Option, none, some, Text, length, any, text_eq,
  if◌then◌else◌, select,
}
use evm_contract_auditor_hon.Prelude.Dict.{Dict, lookup, insert}
use evm_contract_auditor_hon.Types.Config.{RunnerConfig}
use evm_contract_auditor_hon.Types.Events.{
  DetectionSource, top_level_create, trace_create, trace_create2,
}
use evm_contract_auditor_hon.Types.Rpc.{
  RpcTransaction, RpcBlockTransaction, whole, by_hash, RpcBlock, RpcReceipt, DetectedDeployment,
  TraceMode, top_level_only, debug_trace_block_by_number, trace_block, DeploymentScanResult,
  CreateKind, create, create2, TraceCreateDeployment,
}
use evm_contract_auditor_hon.Utils.Hex.{hex_prefix, normalize_hex}
use evm_contract_auditor_hon.Utils.Transient.{Method}
use evm_contract_auditor_hon.World.{M, pure, ◌>>=◌, try_catch, Env}
use evm_contract_auditor_hon.Client.{request, get_transaction_receipt, get_transaction_by_hash}
use evm_contract_auditor_hon.Traces.{
  truthy, extract_create_deployments_from_debug_trace_array,
  extract_create_deployments_from_parity_trace,
}
use evm_contract_auditor_hon.Runner.Ids.{correlation_id_of}

-- What the traces of a block say.
pub record Traced : Type 0 where
  pub deployments : List TraceCreateDeployment
  pub mode : TraceMode

abbrev or_text : Option Text → Text → Text
or_text none t = t
or_text (some s) t = s

abbrev first_of : Option Text → Option Text → Option Text
first_of none o = o
first_of (some t) o = some t

module _ (config : RunnerConfig) (env : Env) where
  abbrev by_debug : ℕ → M (Option Traced)
  by_debug number = do
    traces ←
        request config Method.trace_debug (λ id. env.node.debug_trace_block_by_number id number)
    pure (
        some (record {
          deployments = extract_create_deployments_from_debug_trace_array traces;
          mode = debug_trace_block_by_number;
        }))

  abbrev by_trace : ℕ → M (Option Traced)
  by_trace number = do
    traces ← request config Method.trace (λ id. env.node.trace_block id number)
    pure (
        some (record {
          deployments = extract_create_deployments_from_parity_trace traces;
          mode = trace_block;
        }))

  unfoldable pub get_internal_deployments : ℕ → M (Option Traced)
  get_internal_deployments number =
      try_catch (by_debug number) (λ _. try_catch (by_trace number) (λ _. pure none))

  unfoldable pub full_transaction : RpcBlockTransaction → M (Option RpcTransaction)
  full_transaction (whole tx) = pure (some tx)
  full_transaction (by_hash tx_hash) = get_transaction_by_hash config env tx_hash

  abbrev keep : Option RpcTransaction → List RpcTransaction → List RpcTransaction
  keep none txs = txs
  keep (some tx) txs = tx ∷ txs

  unfoldable pub full_transactions : List RpcBlockTransaction → M (List RpcTransaction)
  unfolding full_transaction
  full_transactions [] = pure []
  full_transactions (tx ∷ txs) = do
    first ← full_transaction tx
    rest ← full_transactions txs
    pure (keep first rest)

  unfoldable pub fetch_receipts :
      List RpcTransaction → Dict (Option RpcReceipt) → M (Dict (Option RpcReceipt))
  fetch_receipts [] receipts = pure receipts
  fetch_receipts (tx ∷ txs) receipts = do
    receipt ← get_transaction_receipt config env tx.hash
    fetch_receipts txs (insert tx.hash receipt receipts)

module _ (env : Env) (chain_id : ℕ) (block : RpcBlock) where
  unfoldable pub to_detected_deployment : RpcTransaction → RpcReceipt → Text → DetectedDeployment
  to_detected_deployment tx receipt contract_address =
      let creation_bytecode =
        normalize_hex (some (or_text (first_of tx.input tx.payload) hex_prefix)) in
      record {
        chain_id = chain_id;
        block_number = block.number;
        block_hash = block.hash;
        parent_hash = block.parent_hash;
        block_timestamp = block.timestamp;
        tx_hash = tx.hash;
        deployer = tx.from;
        contract_address = contract_address;
        gas_used = receipt.gas_used;
        creation_bytecode = creation_bytecode;
        creation_bytecode_hash = env.sha256 creation_bytecode;
        correlation_id = correlation_id_of env chain_id block.number tx.hash contract_address;
        detection_source = top_level_create;
        parent_tx_to = tx.to;
      }

  -- The deployment of one creating transaction, by the receipt that was fetched for it.
  unfoldable pub from_receipt :
      RpcTransaction → Option (Option RpcReceipt) → List DetectedDeployment
  unfolding to_detected_deployment
  from_receipt tx (some (some receipt)) = elim (truthy receipt.contract_address) [
    | none ↦ []
    | some address ↦ to_detected_deployment tx receipt address ∷ []
  ]
  from_receipt tx _ = []

  unfoldable pub top_level_deployments :
      List RpcTransaction → Dict (Option RpcReceipt) → List DetectedDeployment
  unfolding from_receipt lookup
  top_level_deployments [] receipts = []
  top_level_deployments (tx ∷ txs) receipts =
      from_receipt tx (lookup tx.hash receipts) ++ top_level_deployments txs receipts

  abbrev source_of : CreateKind → DetectionSource
  source_of create2 = trace_create2
  source_of create = trace_create

  abbrev sender_of : Option RpcTransaction → Option Text
  sender_of none = none
  sender_of (some tx) = truthy (some tx.from)

  abbrev input_of : Option RpcTransaction → Option Text
  input_of none = none
  input_of (some tx) = first_of (truthy tx.input) (truthy tx.payload)

  abbrev recipient_of : Option RpcTransaction → Option Text
  recipient_of none = none
  recipient_of (some tx) = tx.to

  unfoldable pub to_internal_deployment :
      TraceCreateDeployment → Option RpcTransaction → DetectedDeployment
  to_internal_deployment trace tx =
      let creation_bytecode =
        normalize_hex
          (some (or_text (first_of (truthy (some trace.init_code)) (input_of tx)) hex_prefix)) in
      record {
        chain_id = chain_id;
        block_number = block.number;
        block_hash = block.hash;
        parent_hash = block.parent_hash;
        block_timestamp = block.timestamp;
        tx_hash = trace.tx_hash;
        deployer = or_text (first_of (truthy (some trace.from)) (sender_of tx)) hex_prefix;
        contract_address = trace.created_address;
        gas_used = none;
        creation_bytecode = creation_bytecode;
        creation_bytecode_hash = env.sha256 creation_bytecode;
        correlation_id =
            correlation_id_of env chain_id block.number trace.tx_hash trace.created_address;
        detection_source = source_of trace.kind;
        parent_tx_to = first_of (recipient_of tx) trace.to;
      }

  -- The loop over the traces; `seen` are the correlation identifiers found before.
  unfoldable pub internal_deployments :
      Dict RpcTransaction → List Text → List TraceCreateDeployment → List DetectedDeployment
  unfolding to_internal_deployment
  internal_deployments tx_index seen [] = []
  internal_deployments tx_index seen (trace ∷ traces) =
      let id = correlation_id_of env chain_id block.number trace.tx_hash trace.created_address in
      let deployment = to_internal_deployment trace (lookup trace.tx_hash tx_index) in
      let skipped = internal_deployments tx_index seen traces in
      let added = deployment ∷ internal_deployments tx_index (id ∷ seen) traces in
      if any (text_eq id) seen then skipped else added

-- `tx.to === null`. A node sends the field with every transaction; an absent one is read as null.
abbrev is_creation : RpcTransaction → Bool
is_creation tx = elim tx.to [ none ↦ true | some _ ↦ false ]

abbrev index_of_transactions : List RpcTransaction → Dict RpcTransaction → Dict RpcTransaction
index_of_transactions [] found = found
index_of_transactions (tx ∷ txs) found = index_of_transactions txs (insert tx.hash tx found)

abbrev traced_deployments : Option Traced → List TraceCreateDeployment
traced_deployments none = []
traced_deployments (some traced) = traced.deployments

-- The result of a scan, from what the node said.
unfoldable pub scan_result :
    Env
    → ℕ
    → RpcBlock
    → List RpcTransaction
    → Dict (Option RpcReceipt)
    → Option Traced
    → DeploymentScanResult
unfolding top_level_deployments internal_deployments
scan_result env chain_id block txs receipts traced =
    let top = top_level_deployments env chain_id block (select is_creation txs) receipts in
    let internal =
      internal_deployments env chain_id block (index_of_transactions txs [])
        (map (λ d. d.correlation_id) top) (traced_deployments traced) in
    record {
      deployments = top ++ internal;
      tx_count = length txs;
      top_level_create_tx_count = length top;
      internal_create_count = length internal;
      trace_mode = elim traced [ none ↦ top_level_only | some t ↦ t.mode ];
      trace_available = elim traced [ none ↦ false | some t ↦ true ];
    }

unfoldable pub detect_deployments : RunnerConfig → Env → RpcBlock → ℕ → M DeploymentScanResult
detect_deployments config env block chain_id = do
  txs ← full_transactions config env block.transactions
  receipts ← fetch_receipts config env (select is_creation txs) []
  traced ← get_internal_deployments config env block.number
  pure (scan_result env chain_id block txs receipts traced)
