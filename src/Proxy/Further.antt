-- ===== src/Proxy/Further.antt =====
-- What the targets that `buildAdditionalAuditTargets` of runner/src/proxy.ts builds have to do with
-- the base target and with the node's answers.
use mathlib.Core.Path.{subst}
use evm_contract_auditor_hon.Prelude.{
  ◌≡◌, refl, sym, ap, true, ◌⊎◌, inl, inr, List, [], ◌∷◌, ◌++◌, map, false, Option, some, none,
  Text, All, text_eq, Bool-cases, All-append,
}
use evm_contract_auditor_hon.Types.Config.{RunnerConfig}
use evm_contract_auditor_hon.Types.Proxy.{ProxyResolution, TargetKind, beacon, implementation}
use evm_contract_auditor_hon.Types.Audit.{AuditTarget}
use evm_contract_auditor_hon.Utils.Hex.{hex_prefix, normalize_hex}
use evm_contract_auditor_hon.Utils.Retry.{Result, ok, ok-injective}
use evm_contract_auditor_hon.World.{World, pure, Env}
use evm_contract_auditor_hon.World.Keeps.{bind-ok}
use evm_contract_auditor_hon.World.Gives.{Gives, Gives-pure, Gives-bind, Gives-later}
use evm_contract_auditor_hon.Client.{get_code}
use evm_contract_auditor_hon.Proxy.Targets.{
  Additional, target_at, with_beacon_code, with_implementation_code, referring_to, share_proxy,
  add_beacon, add_implementation, build_additional_audit_targets,
}

-- What a further target has to do with the base target: it is the beacon or the implementation that
-- the proxy resolution names, at the same block and for the same deployment, and it has code.
pub record IsFurther (base t : AuditTarget) : Type 0 where
  pub named :
      ((t.target_kind ≡ beacon) × (base.proxy.beacon_address ≡ some t.target_address))
      ⊎ ((t.target_kind ≡ implementation)
          × (base.proxy.implementation_address ≡ some t.target_address))
  pub has_code : text_eq t.runtime_bytecode hex_prefix ≡ false
  pub correlation : t.correlation_id ≡ base.correlation_id
  pub block : t.block_number ≡ base.block_number

module _ (base : AuditTarget) where
  with_beacon_code-All :
      (address code : Text)
      → base.proxy.beacon_address ≡ some address
      → All (IsFurther base) (with_beacon_code base address code).targets
  unfolding with_beacon_code
  with_beacon_code-All address code h = elim (Bool-cases (text_eq code hex_prefix)) [
    | inl empty ↦ rw empty tt
    | inr there ↦
        rw there
          (record { named = inl (refl, h); has_code = there; correlation = refl; block = refl }, tt)
  ]

  with_implementation_code-All :
      (found : Additional) (address code : Text)
      → All (IsFurther base) found.targets
      → base.proxy.implementation_address ≡ some address
      → All (IsFurther base) (with_implementation_code base found address code).targets
  unfolding with_implementation_code
  with_implementation_code-All found address code k h =
      elim (Bool-cases (text_eq code hex_prefix)) [
        | inl empty ↦ rw empty k
        | inr there ↦ rw there (
            All-append (IsFurther base) found.targets _ k (
              record { named = inr (refl, h); has_code = there; correlation = refl; block = refl },
              tt,
            ))
      ]

  share_proxy-All :
      (p : ProxyResolution) (ts : List AuditTarget)
      → All (IsFurther base) ts
      → All (λ t. IsFurther base t × (t.proxy ≡ p)) (map (referring_to p) ts)
  share_proxy-All p [] h = tt
  share_proxy-All p (t ∷ ts) (k, h) = (
    (
      record {
        named = k.named;
        has_code = k.has_code;
        correlation = k.correlation;
        block = k.block;
      },
      refl,
    ),
    share_proxy-All p ts h,
  )

  abbrev FromBase : Additional → Type 0
  FromBase found = All (IsFurther base) found.targets

  module _ (config : RunnerConfig) (env : Env) where
    add_beacon-Gives :
        (o : Option Text)
        → base.proxy.beacon_address ≡ o
        → Gives FromBase (add_beacon config env base o)
    unfolding add_beacon
    add_beacon-Gives none h = Gives-pure _ _ tt
    add_beacon-Gives (some address) h =
        Gives-later _ _ _ (λ code. Gives-pure FromBase _ (with_beacon_code-All address _ h))

    add_implementation-Gives :
        (found : Additional) (o : Option Text)
        → FromBase found
        → base.proxy.implementation_address ≡ o
        → Gives FromBase (add_implementation config env base found o)
    unfolding add_implementation
    add_implementation-Gives found none k h = Gives-pure _ _ k
    add_implementation-Gives found (some address) k h =
        Gives-later _ _ _
          (λ code. Gives-pure FromBase _ (with_implementation_code-All found address _ k h))

build_additional_audit_targets-Gives :
    (config : RunnerConfig) (env : Env) (base : AuditTarget)
    → Gives
        (λ found. All (λ t. IsFurther base t × (t.proxy ≡ found.proxy)) found.targets)
        (build_additional_audit_targets config env base)
unfolding build_additional_audit_targets share_proxy
build_additional_audit_targets-Gives config env base =
    Gives-bind _ (FromBase base) _ _ (add_beacon-Gives base config env _ refl) (λ first k.
      Gives-bind _ (FromBase base) _ _ (add_implementation-Gives base config env first _ k refl)
        (λ both h. Gives-pure _ _ (share_proxy-All base both.proxy both.targets h)))

-- What a look at an address that the resolution may name gives: no target where there is no name or
-- no code, and else the target of the code that the node answered.
pub data Looked (config : RunnerConfig) (env : Env) (base : AuditTarget) (kind : TargetKind)
    : Option Text → World → World → List AuditTarget → Type 0 where
  unnamed : {w : World} → Looked config env base kind none w w []
  without_code :
      {address code : Text} {w w' : World}
      → get_code config env address base.block_number w ≡ (ok code, w')
      → text_eq (normalize_hex (some code)) hex_prefix ≡ true
      → Looked config env base kind (some address) w w' []
  with_code :
      {address code : Text} {w w' : World}
      → get_code config env address base.block_number w ≡ (ok code, w')
      → text_eq (normalize_hex (some code)) hex_prefix ≡ false
      → Looked config env base kind
          (some address)
          w
          w'
          (target_at base kind address (normalize_hex (some code)) ∷ [])

append-nil : (ts : List AuditTarget) → ts ++ [] ≡ ts
append-nil [] = refl
append-nil (t ∷ ts) = ap (λ us. t ∷ us) (append-nil ts)

module _ (config : RunnerConfig) (env : Env) (base : AuditTarget) where
  abbrev FoundBeacon : Text → World → World → Additional → Type 0
  FoundBeacon address w w' found = Looked config env base beacon (some address) w w' found.targets

  with_beacon_code-Looked :
      (address code : Text) (w w' : World)
      → get_code config env address base.block_number w ≡ (ok code, w')
      → FoundBeacon address w w' (with_beacon_code base address (normalize_hex (some code)))
  unfolding with_beacon_code
  with_beacon_code-Looked address code w w' answer =
      elim (Bool-cases (text_eq (normalize_hex (some code)) hex_prefix)) [
        | inl empty ↦ rw empty (without_code answer empty)
        | inr there ↦ rw there (with_code answer there)
      ]

  with_implementation_code-Looked :
      (address code : Text) (found : Additional) (w w' : World)
      → get_code config env address base.block_number w ≡ (ok code, w')
      → (more : List AuditTarget) × Looked config env base implementation (some address) w w' more
        × ((with_implementation_code base found address (normalize_hex (some code))).targets
            ≡ found.targets ++ more)
  unfolding with_implementation_code
  with_implementation_code-Looked address code found w w' answer =
      elim (Bool-cases (text_eq (normalize_hex (some code)) hex_prefix)) [
        | inl empty ↦ rw empty ([], without_code answer empty, sym (append-nil found.targets))
        | inr there ↦ rw there (_, with_code answer there, refl)
      ]

  add_beacon-Looked :
      (o : Option Text) (w w' : World) (found : Additional)
      → add_beacon config env base o w ≡ (ok found, w')
      → Looked config env base beacon o w w' found.targets
  unfolding add_beacon pure
  add_beacon-Looked none w w' found e =
      let ended : w ≡ w' = ap (λ (p : Result Additional × World). p.1) e in
      let same : record { targets = []; proxy = base.proxy } ≡ found =
        ok-injective (ap (λ (p : Result Additional × World). p.0) e) in
      subst (λ v. Looked config env base beacon none w v found.targets) ended
        (subst (λ (f : Additional). Looked config env base beacon none w w f.targets) same unnamed)
  add_beacon-Looked (some address) w w' found e =
      let (code, w₁, answer, later) = bind-ok _ _ w w' found e in
      let ended : w₁ ≡ w' = ap (λ (p : Result Additional × World). p.1) later in
      let same : with_beacon_code base address (normalize_hex (some code)) ≡ found =
        ok-injective (ap (λ (p : Result Additional × World). p.0) later) in
      subst (λ v. Looked config env base beacon (some address) w v found.targets) ended
        (subst (λ f. FoundBeacon address w w₁ f) same
          (with_beacon_code-Looked address code w w₁ answer))

  abbrev FoundMore : Option Text → World → World → Additional → Additional → Type 0
  FoundMore o w w' first both =
      (more : List AuditTarget) × Looked config env base implementation o w w' more
      × (both.targets ≡ first.targets ++ more)

  add_implementation-Looked :
      (first : Additional) (o : Option Text) (w w' : World) (both : Additional)
      → add_implementation config env base first o w ≡ (ok both, w')
      → FoundMore o w w' first both
  unfolding add_implementation pure
  add_implementation-Looked first none w w' both e =
      let ended : w ≡ w' = ap (λ (p : Result Additional × World). p.1) e in
      let same : first ≡ both = ok-injective (ap (λ (p : Result Additional × World). p.0) e) in
      subst (λ v. FoundMore none w v first both) ended
        (subst (λ f. FoundMore none w w first f) same ([], unnamed, sym (append-nil first.targets)))
  add_implementation-Looked first (some address) w w' both e =
      let (code, w₁, answer, later) = bind-ok _ _ w w' both e in
      let ended : w₁ ≡ w' = ap (λ (p : Result Additional × World). p.1) later in
      let same : with_implementation_code base first address (normalize_hex (some code)) ≡ both =
        ok-injective (ap (λ (p : Result Additional × World). p.0) later) in
      subst (λ v. FoundMore (some address) w v first both) ended
        (subst (λ f. FoundMore (some address) w w₁ first f) same
          (with_implementation_code-Looked address code first w w₁ answer))

  -- The targets are those of the beacon, looked up first, and those of the implementation.
  abbrev pub IsLookedUp : World → World → Additional → Type 0
  IsLookedUp w w' found =
      (beacons implementations : List AuditTarget) × (w₁ : World) × Looked config env base beacon
        base.proxy.beacon_address w w₁ beacons
      × Looked config env base implementation base.proxy.implementation_address w₁ w'
          implementations
      × (found.targets ≡ map (referring_to found.proxy) (beacons ++ implementations))

  build_additional_audit_targets-Looked :
      (w w' : World) (found : Additional)
      → build_additional_audit_targets config env base w ≡ (ok found, w')
      → IsLookedUp w w' found
  unfolding build_additional_audit_targets share_proxy pure
  build_additional_audit_targets-Looked w w' found e =
      let (first, w₁, one, e₁) = bind-ok _ _ w w' found e in
      let (both, w₂, two, e₂) = bind-ok _ _ w₁ w' found e₁ in
      let (more, looked, joined) = add_implementation-Looked first _ w₁ w₂ both two in
      let ended : w₂ ≡ w' = ap (λ (p : Result Additional × World). p.1) e₂ in
      let same : share_proxy both ≡ found =
        ok-injective (ap (λ (p : Result Additional × World). p.0) e₂) in
      subst (λ v. IsLookedUp w v found) ended
        (subst (λ f. IsLookedUp w w₂ f) same
          (
            first.targets,
            more,
            w₁,
            add_beacon-Looked _ w w₁ first one,
            looked,
            ap (λ ts. map (referring_to both.proxy) ts) joined,
          ))

-- If the further targets are found without an error, they are, in this order, the beacon and the
-- implementation that the base target's resolution names, each if the node answered with code for
-- it at the base target's block, with that code, and no other. Each belongs to the base target's
-- deployment and block, and carries the resolution as it stands at the end.
pub build_additional_audit_targets-IsFurther :
    (config : RunnerConfig) (env : Env) (base : AuditTarget) (w : World) (found : Additional)
    → (build_additional_audit_targets config env base w).0 ≡ ok found
    → All (λ t. IsFurther base t × (t.proxy ≡ found.proxy)) found.targets
      × IsLookedUp config env base w (build_additional_audit_targets config env base w).1 found
build_additional_audit_targets-IsFurther config env base w found e = (
  (build_additional_audit_targets-Gives config env base).at w found e,
  build_additional_audit_targets-Looked config env base w _ found
      (ap (λ r. (r, (build_additional_audit_targets config env base w).1)) e),
)
