-- ===== src/Proxy/Targets.antt =====
-- `buildAdditionalAuditTargets` of runner/src/proxy.ts. The targets share one `proxy` object with
-- the base target, so what the function writes to it shows in all of them.
use evm_contract_auditor_hon.Prelude.{
  List, [], ◌∷◌, ◌++◌, map, Option, some, none, Text, codes, if◌then◌else◌, text_eq,
}
use evm_contract_auditor_hon.Types.Config.{RunnerConfig}
use evm_contract_auditor_hon.Types.Proxy.{
  ProxyResolution, ProxyResolutionStatus, empty_code, ambiguous, TargetKind, beacon, implementation,
}
use evm_contract_auditor_hon.Types.Audit.{AuditTarget}
use evm_contract_auditor_hon.Utils.Hex.{hex_prefix, normalize_hex}
use evm_contract_auditor_hon.World.{M, pure, ◌>>=◌, Env}
use evm_contract_auditor_hon.Client.{get_code}

-- The targets found so far, and the `proxy` object as it stands.
pub record Additional : Type 0 where
  pub targets : List AuditTarget
  pub proxy : ProxyResolution

abbrev or_reason : Option Text → Text → Option Text
or_reason none reason = some reason
or_reason (some given) reason = some given

abbrev status_or_empty : ProxyResolutionStatus → ProxyResolutionStatus
status_or_empty ambiguous = ambiguous
status_or_empty _ = empty_code

abbrev pub target_at : AuditTarget → TargetKind → Text → Text → AuditTarget
target_at base kind address code = record base {
  target_kind = kind;
  target_address = address;
  runtime_bytecode = code;
  runtime_bytecode_hash = [];
}

unfoldable pub with_beacon_code : AuditTarget → Text → Text → Additional
with_beacon_code base address code =
    if text_eq code hex_prefix
    then record {
      targets = [];
      proxy = record base.proxy {
        status = empty_code;
        unresolved_reason = or_reason base.proxy.unresolved_reason (codes "beacon_code_empty");
      };
    }
    else record { targets = target_at base beacon address code ∷ []; proxy = base.proxy }

unfoldable pub with_implementation_code : AuditTarget → Additional → Text → Text → Additional
with_implementation_code base found address code =
    let proxy = found.proxy in
    if text_eq code hex_prefix
    then record {
      targets = found.targets;
      proxy = record proxy {
        status = status_or_empty proxy.status;
        unresolved_reason = or_reason proxy.unresolved_reason (codes "implementation_code_empty");
      };
    }
    else record {
      targets = found.targets ++ target_at base implementation address code ∷ [];
      proxy = proxy;
    }

abbrev pub referring_to : ProxyResolution → AuditTarget → AuditTarget
referring_to p t = record t { proxy = p }

-- Every target refers to the one `proxy` object.
unfoldable pub share_proxy : Additional → Additional
share_proxy found = record found { targets = map (referring_to found.proxy) found.targets }

module _ (config : RunnerConfig) (env : Env) where
  unfoldable pub add_beacon : AuditTarget → Option Text → M Additional
  add_beacon base none = pure (record { targets = []; proxy = base.proxy })
  add_beacon base (some address) = do
    code ← get_code config env address base.block_number
    pure (with_beacon_code base address (normalize_hex (some code)))

  unfoldable pub add_implementation : AuditTarget → Additional → Option Text → M Additional
  add_implementation base found none = pure found
  add_implementation base found (some address) = do
    code ← get_code config env address base.block_number
    pure (with_implementation_code base found address (normalize_hex (some code)))

  unfoldable pub build_additional_audit_targets : AuditTarget → M Additional
  build_additional_audit_targets base = do
    first ← add_beacon base base.proxy.beacon_address
    both ← add_implementation base first base.proxy.implementation_address
    pure (share_proxy both)
