-- ===== src/Types/Rpc.antt =====
-- runner/src/types.ts: blocks, receipts, traces and deployments. A quantity that the node sends as
-- hexadecimal text (a block's number and timestamp) is the number that `hexToNumber` reads.
use evm_contract_auditor_hon.Prelude.{ℕ, Bool, Option, List, Text}
use evm_contract_auditor_hon.Types.Events.{DetectionSource}

pub record RpcTransaction : Type 0 where
  pub hash : Text
  pub from : Text
  pub to : Option Text
  pub input : Option Text
  pub payload : Option Text

-- A block lists its transactions whole or by their hashes.
pub data RpcBlockTransaction : Type 0 where
  whole : RpcTransaction → RpcBlockTransaction
  by_hash : Text → RpcBlockTransaction

pub record RpcBlock : Type 0 where
  pub number : ℕ
  pub hash : Text
  pub parent_hash : Text
  pub timestamp : ℕ
  pub transactions : List RpcBlockTransaction

pub record RpcReceipt : Type 0 where
  pub transaction_hash : Text
  pub block_number : ℕ
  pub contract_address : Option Text
  pub gas_used : Option Text
  pub status : Option Text

pub record DetectedDeployment : Type 0 where
  pub chain_id : ℕ
  pub block_number : ℕ
  pub block_hash : Text
  pub parent_hash : Text
  pub block_timestamp : ℕ
  pub tx_hash : Text
  pub deployer : Text
  pub contract_address : Text
  pub gas_used : Option Text
  pub creation_bytecode : Text
  pub creation_bytecode_hash : Text
  pub correlation_id : Text
  pub detection_source : DetectionSource
  pub parent_tx_to : Option Text

pub data TraceMode : Type 0 where
  top_level_only debug_trace_block_by_number trace_block : TraceMode

pub record DeploymentScanResult : Type 0 where
  pub deployments : List DetectedDeployment
  pub tx_count : ℕ
  pub top_level_create_tx_count : ℕ
  pub internal_create_count : ℕ
  pub trace_mode : TraceMode
  pub trace_available : Bool

pub data CreateKind : Type 0 where
  create create2 : CreateKind

-- `to` is undefined or null alike: no use of it tells them apart.
pub record TraceCreateDeployment : Type 0 where
  pub tx_hash : Text
  pub from : Text
  pub to : Option Text
  pub created_address : Text
  pub init_code : Text
  pub kind : CreateKind
