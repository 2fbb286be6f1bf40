-- ===== src/Tests/Proxy.antt =====
-- Examples for runner/src/proxy.ts.
use evm_contract_auditor_hon.Prelude.{
  ◌≡◌, refl, arith, ◌++◌, [], All, Bool, some, none, Text, codes, if◌then◌else◌,
}
use evm_contract_auditor_hon.Types.Proxy.{ProxyResolution}
use evm_contract_auditor_hon.Utils.Hex.{hex_prefix, IsPlain}
use evm_contract_auditor_hon.Utils.Retry.{Result, ok, err, retry, retry_from}
use evm_contract_auditor_hon.World.{pure, ◌>>=◌}
use evm_contract_auditor_hon.Client.{get_code, request, attempt}
use evm_contract_auditor_hon.Proxy.{detect_eip1167, resolve_proxy, minimal_proxy}
use evm_contract_auditor_hon.Proxy.Consistent.{IsConsistent, resolve_proxy-Answers}
use evm_contract_auditor_hon.Proxy.Eip1167.{shell_of, resolve_proxy-shell_of}
use evm_contract_auditor_hon.Proxy.Eip1167.Agree.{IsHexUnit, detect_eip1167-matches_eip1167}
use evm_contract_auditor_hon.Proxy.Further.{
  IsFurther, IsLookedUp, build_additional_audit_targets-IsFurther,
}
use evm_contract_auditor_hon.Proxy.Targets.{
  Additional, add_beacon, add_implementation, with_implementation_code, share_proxy,
  build_additional_audit_targets,
}
use evm_contract_auditor_hon.Prelude.Texts.{slice, is_space, lower}
use evm_contract_auditor_hon.Bytecode.{matches_eip1167, is_hex_digit}
use evm_contract_auditor_hon.Tests.Data.{config, env, world, target}

resolve_proxy-Answers_example :
    (p : ProxyResolution) × ((resolve_proxy config env (codes "0xc1") (codes "0x6000") 1 world).0
      ≡ ok p)
    × IsConsistent p
resolve_proxy-Answers_example =
    resolve_proxy-Answers config env (codes "0xc1") (codes "0x6000") 1 world

abbrev address : Text
address = codes "bebebebebebebebebebebebebebebebebebebebe"

address-IsPlain : All IsPlain address
unfolding is_space lower
address-IsPlain = ground arith

resolve_proxy-shell_of_example :
    (d : Bool) × (resolve_proxy config env (codes "0xc1") (hex_prefix ++ shell_of address) 1 world
      ≡ (ok (minimal_proxy d (hex_prefix ++ address)), world))
resolve_proxy-shell_of_example =
    resolve_proxy-shell_of config env address (codes "0xc1") 1 world refl address-IsPlain

abbrev shell : Text
shell =
    codes
      "363d3d373d3d3d363d73bebebebebebebebebebebebebebebebebebebebe5af43d82803e903d91602b57fd5bf3"

shell-IsHexUnit : All IsHexUnit shell
unfolding is_hex_digit lower
shell-IsHexUnit = ground arith

detect_eip1167-matches_eip1167_example :
    detect_eip1167 (hex_prefix ++ shell)
    ≡ (if matches_eip1167 shell then some (hex_prefix ++ slice 20 60 shell) else none)
detect_eip1167-matches_eip1167_example =
    detect_eip1167-matches_eip1167 shell shell-IsHexUnit (omega arith)

abbrev found_in : Result Additional → Additional
found_in (ok found) = found
found_in (err message) = record { targets = []; proxy = target.proxy }

abbrev found : Additional
found = found_in (build_additional_audit_targets config env target world).0

returned : (build_additional_audit_targets config env target world).0 ≡ ok found
unfolding build_additional_audit_targets add_beacon add_implementation with_implementation_code
    share_proxy get_code request retry retry_from attempt ◌>>=◌ pure
returned = refl

build_additional_audit_targets-IsFurther_example :
    All (λ t. IsFurther target t × (t.proxy ≡ found.proxy)) found.targets
    × IsLookedUp config env target world
        (build_additional_audit_targets config env target world).1
        found
build_additional_audit_targets-IsFurther_example =
    build_additional_audit_targets-IsFurther config env target world found returned
