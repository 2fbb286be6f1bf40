-- ===== src/Proxy.antt =====
-- runner/src/proxy.ts: what kind of proxy a contract is, and which further contracts to audit.
pub mod Consistent
pub mod Eip1167
pub mod Targets
pub mod Further
use evm_contract_auditor_hon.Prelude.{
  ℕ, ◌+◌, ◌<◌, List, [], ◌∷◌, ◌++◌, Bool, true, false, ◌&&◌, ◌||◌, not, Option, some, none, Text,
  codes, length, leb, ltb, ◌==◌, if◌then◌else◌, text_eq,
}
use evm_contract_auditor_hon.Prelude.Texts.{starts_with, ends_with, includes, index_of, slice}
use evm_contract_auditor_hon.Types.Config.{RunnerConfig}
use evm_contract_auditor_hon.Types.Proxy.{
  ProxyResolution, ProxyHints, BytecodeEvidence, ProxyType, eip1167, erc1967, delegatecall_generic,
  erc1967_bytecode_evidence, ProxyResolutionStatus, resolved, unresolved_safe, unresolved_rpc_error,
  empty_code, ambiguous, implementation, TargetKind,
}
use evm_contract_auditor_hon.Types.Audit.{AuditTarget}
use evm_contract_auditor_hon.Utils.Hex.{
  hex_prefix, normalize_hex, strip_hex_prefix, parse_address_from_storage,
}
use evm_contract_auditor_hon.Utils.Retry.{Result, ok, err}
use evm_contract_auditor_hon.World.{World, M, pure, ◌>>=◌, try_catch, Env}
use evm_contract_auditor_hon.Client.{get_code, get_storage_at, eth_call}

unfoldable pub eip1167_prefix : Text
eip1167_prefix = codes "363d3d373d3d3d363d73"

unfoldable pub eip1167_suffix : Text
eip1167_suffix = codes "5af43d82803e903d91602b57fd5bf3"

unfoldable pub eip1967_implementation_slot : Text
eip1967_implementation_slot =
    codes "0x360894a13ba1a3210667c828492db98dca3e2076cc3735a920a3ca505d382bbc"

unfoldable pub eip1967_admin_slot : Text
eip1967_admin_slot = codes "0xb53127684a568b3173ae13b9f8a6016e243e63b6e8ee1178d6a717850b5d6103"

unfoldable pub eip1967_beacon_slot : Text
eip1967_beacon_slot = codes "0xa3f0ad74e5423aebfd80d3ef4346578335a9a72aeaee59ff6cb3582b35133d50"

unfoldable pub implementation_selector : Text
implementation_selector = codes "0x5c60da1b"

-- The search for the prefix anywhere in the code.
unfoldable pub detect_inside : Text → Option ℕ → Option Text
unfolding eip1167_suffix text_eq
detect_inside raw none = none
detect_inside raw (some idx) =
    let address_start = idx + 20 in
    let suffix_start = address_start + 40 in
    if text_eq (slice suffix_start (suffix_start + 30) raw) eip1167_suffix
    then some (hex_prefix ++ slice address_start (address_start + 40) raw)
    else none

-- The implementation address that `detectEip1167` finds.
unfoldable pub detect_eip1167 : Text → Option Text
detect_eip1167 bytecode =
    let raw = strip_hex_prefix bytecode in
    if length raw == 90 && starts_with eip1167_prefix raw && ends_with eip1167_suffix raw
    then some (hex_prefix ++ slice 20 60 raw)
    else detect_inside raw (index_of eip1167_prefix raw)

unfoldable pub looks_like_generic_delegatecall_proxy : Text → Bool
unfolding includes strip_hex_prefix
looks_like_generic_delegatecall_proxy bytecode =
    let raw = strip_hex_prefix bytecode in
    if not (includes (codes "f4") raw)
    then false
    else if ltb 1600 (length raw)
    then false
    else (includes (codes "363d3d37") raw || includes (codes "366000600037") raw)
      && (includes (codes "3d82803e") raw || includes (codes "3e903d91") raw)

abbrev hints_of : Bool → ProxyHints
hints_of delegatecall_opcode_present = record {
  delegatecall_opcode_present = delegatecall_opcode_present;
  eip1167_detected = none;
  bytecode_evidence = none;
}

-- The three slots, when all three reads returned.
pub record Slots : Type 0 where
  pub implementation_slot : Text
  pub admin_slot : Text
  pub beacon_slot : Text

-- A minimal proxy: the address stands in the code.
unfoldable pub minimal_proxy : Bool → Text → ProxyResolution
minimal_proxy delegatecall address = record {
  detected = true;
  status = resolved;
  proxy_type = some eip1167;
  implementation_address = some address;
  admin_address = none;
  beacon_address = none;
  fixed_clone_target = some address;
  implementation_resolved = true;
  unresolved_reason = none;
  hints = record (hints_of delegatecall) { eip1167_detected = some true };
}

unfoldable pub slots_unread : Bool → Text → ProxyResolution
slots_unread delegatecall message = record {
  detected = false;
  status = unresolved_rpc_error;
  proxy_type = none;
  implementation_address = none;
  admin_address = none;
  beacon_address = none;
  fixed_clone_target = none;
  implementation_resolved = false;
  unresolved_reason = some message;
  hints = hints_of delegatecall;
}

unfoldable pub both_slots : Bool → Text → Option Text → Text → ProxyResolution
both_slots delegatecall implementation_address admin_address beacon_address = record {
  detected = true;
  status = ambiguous;
  proxy_type = some ProxyType.beacon;
  implementation_address = some implementation_address;
  admin_address = admin_address;
  beacon_address = some beacon_address;
  fixed_clone_target = none;
  implementation_resolved = true;
  unresolved_reason = some (codes "both_implementation_and_beacon_slots_populated");
  hints = hints_of delegatecall;
}

-- The beacon answered; `none` is an answer that names no address.
unfoldable pub beacon_answered : Bool → Option Text → Text → Option Text → ProxyResolution
beacon_answered delegatecall admin_address beacon_address (some address) = record {
  detected = true;
  status = resolved;
  proxy_type = some ProxyType.beacon;
  implementation_address = some address;
  admin_address = admin_address;
  beacon_address = some beacon_address;
  fixed_clone_target = none;
  implementation_resolved = true;
  unresolved_reason = none;
  hints = hints_of delegatecall;
}
beacon_answered delegatecall admin_address beacon_address none = record {
  detected = true;
  status = unresolved_safe;
  proxy_type = some erc1967;
  implementation_address = none;
  admin_address = admin_address;
  beacon_address = some beacon_address;
  fixed_clone_target = none;
  implementation_resolved = false;
  unresolved_reason = some (codes "beacon_implementation_unresolved");
  hints = hints_of delegatecall;
}

unfoldable pub beacon_failed : Bool → Option Text → Text → Text → ProxyResolution
beacon_failed delegatecall admin_address beacon_address message = record {
  detected = true;
  status = unresolved_rpc_error;
  proxy_type = some ProxyType.beacon;
  implementation_address = none;
  admin_address = admin_address;
  beacon_address = some beacon_address;
  fixed_clone_target = none;
  implementation_resolved = false;
  unresolved_reason = some message;
  hints = hints_of delegatecall;
}

unfoldable pub implementation_slot_only : Bool → Option Text → Text → ProxyResolution
implementation_slot_only delegatecall admin_address address = record {
  detected = true;
  status = resolved;
  proxy_type = some erc1967;
  implementation_address = some address;
  admin_address = admin_address;
  beacon_address = none;
  fixed_clone_target = none;
  implementation_resolved = true;
  unresolved_reason = none;
  hints = hints_of delegatecall;
}

-- The slots are empty and the code is all there is to go by: what the searches in it found.
unfoldable pub bytecode_answer : Bool → Bool → Bool → Bool → ProxyResolution
bytecode_answer delegatecall generic has_impl_slot has_upgrade_selector =
    let hints = hints_of delegatecall in
    let unresolved : ProxyResolution = record {
      detected = false;
      status = unresolved_safe;
      proxy_type = none;
      implementation_address = none;
      admin_address = none;
      beacon_address = none;
      fixed_clone_target = none;
      implementation_resolved = false;
      unresolved_reason = none;
      hints = hints;
    } in
    if generic
    then record unresolved {
      detected = true;
      proxy_type = some delegatecall_generic;
      unresolved_reason = some (codes "delegatecall_proxy_without_safe_resolution");
    }
    else if has_impl_slot || has_upgrade_selector
    then record unresolved {
      detected = true;
      proxy_type = some erc1967_bytecode_evidence;
      unresolved_reason = some (codes "implementation_contract_bytecode_evidence");
      hints = record hints {
        bytecode_evidence = some (record {
          has_eip1967_impl_slot = has_impl_slot;
          has_upgrade_selector = has_upgrade_selector;
        });
      };
    }
    else unresolved

unfoldable pub resolve_by_bytecode : Text → ProxyResolution
unfolding includes strip_hex_prefix looks_like_generic_delegatecall_proxy
resolve_by_bytecode normalized_runtime =
    let raw = strip_hex_prefix normalized_runtime in
    bytecode_answer (includes (codes "f4") raw)
      (looks_like_generic_delegatecall_proxy normalized_runtime)
      (includes (codes "360894a13ba1a3210667c828492db98dca3e2076cc3735a920a3ca505d382bbc") raw)
      (includes (codes "3659cfe6") raw || includes (codes "4f1ef286") raw)

module _ (config : RunnerConfig) (env : Env) where
  unfoldable pub resolve_beacon_implementation : Text → ℕ → M (Option Text)
  unfolding parse_address_from_storage
  resolve_beacon_implementation beacon_address block_number = do
    value ← eth_call config env beacon_address implementation_selector block_number
    pure (parse_address_from_storage value)

  -- The reads of the three slots, one after the other: the program starts them together, and fails
  -- with the first that fails.
  unfoldable pub read_slots : Text → ℕ → M Slots
  read_slots address block_number = do
    implementation_slot ← get_storage_at config env address eip1967_implementation_slot block_number
    admin_slot ← get_storage_at config env address eip1967_admin_slot block_number
    beacon_slot ← get_storage_at config env address eip1967_beacon_slot block_number
    pure (record {
      implementation_slot = implementation_slot;
      admin_slot = admin_slot;
      beacon_slot = beacon_slot;
    })

  -- The decision on the addresses that the implementation, admin and beacon slots hold.
  unfoldable pub resolve_addresses :
      Text → ℕ → Option Text → Option Text → Option Text → M ProxyResolution
  resolve_addresses runtime block_number (some i) admin (some b) =
      pure (both_slots (includes (codes "f4") (strip_hex_prefix runtime)) i admin b)
  resolve_addresses runtime block_number none admin (some b) =
      let delegatecall = includes (codes "f4") (strip_hex_prefix runtime) in
      try_catch
        (do
          found ← resolve_beacon_implementation b block_number
          pure (beacon_answered delegatecall admin b found))
        (λ message. pure (beacon_failed delegatecall admin b message))
  resolve_addresses runtime block_number (some i) admin none =
      pure (implementation_slot_only (includes (codes "f4") (strip_hex_prefix runtime)) admin i)
  resolve_addresses runtime block_number none admin none = pure (resolve_by_bytecode runtime)

  -- What follows the `try` round the reads.
  pub after_slots : Text → ℕ → Result Slots → M ProxyResolution
  after_slots runtime block_number (err message) =
      pure (slots_unread (includes (codes "f4") (strip_hex_prefix runtime)) message)
  after_slots runtime block_number (ok slots) =
      resolve_addresses runtime block_number (parse_address_from_storage slots.implementation_slot)
        (parse_address_from_storage slots.admin_slot) (parse_address_from_storage slots.beacon_slot)

  pub by_slots : Text → Text → ℕ → M ProxyResolution
  by_slots address runtime block_number w =
      let (r, w') = read_slots address block_number w in after_slots runtime block_number r w'

  unfoldable pub resolve_from : Text → Text → ℕ → Option Text → M ProxyResolution
  unfolding by_slots after_slots minimal_proxy slots_unread
  resolve_from address runtime block_number (some target) =
      pure (minimal_proxy (includes (codes "f4") (strip_hex_prefix runtime)) target)
  resolve_from address runtime block_number none = by_slots address runtime block_number

  unfoldable pub resolve_proxy : Text → Text → ℕ → M ProxyResolution
  unfolding resolve_from
  resolve_proxy address runtime_bytecode block_number =
      let runtime = normalize_hex (some runtime_bytecode) in
      resolve_from address runtime block_number (detect_eip1167 runtime)
