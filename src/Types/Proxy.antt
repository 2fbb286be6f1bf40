-- ===== src/Types/Proxy.antt =====
-- runner/src/types.ts: what the proxy resolver reports.
use evm_contract_auditor_hon.Prelude.{Bool, Option, Text}

pub data TargetKind : Type 0 where
  runtime proxy_shell implementation beacon : TargetKind

-- `erc1967_bytecode_evidence` is not in the union of types.ts; proxy.ts returns it all the same.
pub data ProxyType : Type 0 where
  eip1167 erc1967 beacon delegatecall_generic erc1967_bytecode_evidence : ProxyType

pub data ProxyResolutionStatus : Type 0 where
  resolved unresolved_safe unresolved_rpc_error empty_code ambiguous : ProxyResolutionStatus

pub record BytecodeEvidence : Type 0 where
  pub has_eip1967_impl_slot : Bool
  pub has_upgrade_selector : Bool

-- `source` is always "runner-rpc".
pub record ProxyHints : Type 0 where
  pub delegatecall_opcode_present : Bool
  pub eip1167_detected : Option Bool
  pub bytecode_evidence : Option BytecodeEvidence

pub record ProxyResolution : Type 0 where
  pub detected : Bool
  pub status : ProxyResolutionStatus
  pub proxy_type : Option ProxyType
  pub implementation_address : Option Text
  pub admin_address : Option Text
  pub beacon_address : Option Text
  pub fixed_clone_target : Option Text
  pub implementation_resolved : Bool
  pub unresolved_reason : Option Text
  pub hints : ProxyHints
