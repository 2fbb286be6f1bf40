-- ===== src/Proxy/Consistent.antt =====
-- What every answer of `resolveProxy` of runner/src/proxy.ts satisfies, on every branch.
use evm_contract_auditor_hon.Prelude.{
  ℕ, ◌≡◌, refl, Bool, true, false, Option, some, none, Text, codes, arith, ◌||◌,
}
use evm_contract_auditor_hon.Prelude.Texts.{includes}
use evm_contract_auditor_hon.Types.Config.{RunnerConfig}
use evm_contract_auditor_hon.Types.Proxy.{ProxyResolution, resolved}
use evm_contract_auditor_hon.Utils.Hex.{strip_hex_prefix}
use evm_contract_auditor_hon.Utils.Retry.{Result, ok, err}
use evm_contract_auditor_hon.World.{World, M, pure, continue, handle, ◌>>=◌, try_catch, Env}
use evm_contract_auditor_hon.Proxy.{
  Slots, minimal_proxy, slots_unread, both_slots, beacon_answered, beacon_failed,
  implementation_slot_only, bytecode_answer, resolve_by_bytecode, resolve_addresses,
  resolve_beacon_implementation, after_slots, by_slots, resolve_from, resolve_proxy,
  looks_like_generic_delegatecall_proxy,
}

abbrev pub is_some : Option Text → Bool
is_some none = false
is_some (some a) = true

pub record IsConsistent (p : ProxyResolution) : Type 0 where
  -- the flag says whether there is an address
  pub flag : p.implementation_resolved ≡ is_some p.implementation_address
  -- "resolved" comes with an address and without a reason
  pub resolved_fully :
      p.status ≡ resolved → (p.implementation_resolved ≡ true) × (p.unresolved_reason ≡ none)
  -- a proxy that was detected and not resolved says why
  pub explained :
      p.detected ≡ true → p.implementation_resolved ≡ false → is_some p.unresolved_reason ≡ true
  -- where no proxy was detected there is no address at all
  pub undetected :
      p.detected ≡ false
      → (p.implementation_address ≡ none)
        × (p.beacon_address ≡ none)
        × (p.fixed_clone_target ≡ none)

minimal_proxy-IsConsistent : (d : Bool) (a : Text) → IsConsistent (minimal_proxy d a)
unfolding minimal_proxy
minimal_proxy-IsConsistent d a = ground arith

slots_unread-IsConsistent : (d : Bool) (m : Text) → IsConsistent (slots_unread d m)
unfolding slots_unread
slots_unread-IsConsistent d m = ground arith

both_slots-IsConsistent :
    (d : Bool) (i : Text) (admin : Option Text) (b : Text) → IsConsistent (both_slots d i admin b)
unfolding both_slots
both_slots-IsConsistent d i admin b = ground arith

beacon_answered-IsConsistent :
    (d : Bool) (admin : Option Text) (b : Text) (found : Option Text)
    → IsConsistent (beacon_answered d admin b found)
unfolding beacon_answered
beacon_answered-IsConsistent d admin b none = ground arith
beacon_answered-IsConsistent d admin b (some a) = ground arith

beacon_failed-IsConsistent :
    (d : Bool) (admin : Option Text) (b m : Text) → IsConsistent (beacon_failed d admin b m)
unfolding beacon_failed
beacon_failed-IsConsistent d admin b m = ground arith

implementation_slot_only-IsConsistent :
    (d : Bool) (admin : Option Text) (a : Text) → IsConsistent (implementation_slot_only d admin a)
unfolding implementation_slot_only
implementation_slot_only-IsConsistent d admin a = ground arith

bytecode_answer-IsConsistent :
    (d generic slot selector : Bool) → IsConsistent (bytecode_answer d generic slot selector)
unfolding bytecode_answer
bytecode_answer-IsConsistent d generic slot selector = ground arith

resolve_by_bytecode-IsConsistent : (runtime : Text) → IsConsistent (resolve_by_bytecode runtime)
unfolding resolve_by_bytecode
resolve_by_bytecode-IsConsistent runtime =
    let raw = strip_hex_prefix runtime in
    bytecode_answer-IsConsistent (includes (codes "f4") raw)
      (looks_like_generic_delegatecall_proxy runtime)
      (includes (codes "360894a13ba1a3210667c828492db98dca3e2076cc3735a920a3ca505d382bbc") raw)
      (includes (codes "3659cfe6") raw || includes (codes "4f1ef286") raw)

-- An action that returns an answer that satisfies `P`, whatever the world.
abbrev Answers : (ProxyResolution → Type 0) → M ProxyResolution → Type 0
Answers P m = (w : World) → (p : ProxyResolution) × ((m w).0 ≡ ok p) × P p

module _ {A : Type 0} {P : ProxyResolution → Type 0} where
  -- A `try` round one call, with an answer for its value and one for its error.
  Answers-try :
      (m : M A) (f : A → ProxyResolution) (g : Text → ProxyResolution)
      → ((a : A) → P (f a))
      → ((message : Text) → P (g message))
      → Answers P (try_catch (m >>= λ a. pure (f a)) (λ message. pure (g message)))
  unfolding try_catch ◌>>=◌
  Answers-try m f g pf pg w = by_result (m w).0 (m w).1
    where
      by_result :
          (r : Result A) (w' : World)
          → let inner = continue r (λ a. pure (f a)) w' in
            (p : ProxyResolution) × ((handle inner.0 (λ message. pure (g message)) inner.1).0
              ≡ ok p)
            × P p
      by_result (ok a) w' = (f a, refl, pf a)
      by_result (err message) w' = (g message, refl, pg message)

module _ (config : RunnerConfig) (env : Env) where
  resolve_addresses-Answers :
      (runtime : Text) (n : ℕ) (i admin b : Option Text)
      → Answers IsConsistent (resolve_addresses config env runtime n i admin b)
  unfolding resolve_addresses pure
  resolve_addresses-Answers runtime n (some i) admin (some b) w =
      (_, refl, both_slots-IsConsistent _ i admin b)
  resolve_addresses-Answers runtime n none admin (some b) w =
      Answers-try (resolve_beacon_implementation config env b n) _ _
        (beacon_answered-IsConsistent _ admin b) (beacon_failed-IsConsistent _ admin b) w
  resolve_addresses-Answers runtime n (some i) admin none w =
      (_, refl, implementation_slot_only-IsConsistent _ admin i)
  resolve_addresses-Answers runtime n none admin none w =
      (_, refl, resolve_by_bytecode-IsConsistent runtime)

  after_slots-Answers :
      (runtime : Text) (n : ℕ) (r : Result Slots)
      → Answers IsConsistent (after_slots config env runtime n r)
  unfolding after_slots pure
  after_slots-Answers runtime n (ok slots) w = resolve_addresses-Answers runtime n _ _ _ w
  after_slots-Answers runtime n (err message) w = (_, refl, slots_unread-IsConsistent _ message)

  resolve_from-Answers :
      (address runtime : Text) (n : ℕ) (found : Option Text)
      → Answers IsConsistent (resolve_from config env address runtime n found)
  unfolding resolve_from by_slots pure
  resolve_from-Answers address runtime n (some target) w =
      (_, refl, minimal_proxy-IsConsistent _ target)
  resolve_from-Answers address runtime n none w = after_slots-Answers runtime n _ _

  -- Whatever the code and whatever the node answers, failures included, `resolveProxy` returns and
  -- does not throw, and its answer is consistent: the flag says whether there is an implementation
  -- address, "resolved" means that there is one, an unresolved proxy says why, and where no proxy
  -- is detected no address is given.
  pub resolve_proxy-Answers :
      (address runtime : Text) (n : ℕ) (w : World)
      → (p : ProxyResolution) × ((resolve_proxy config env address runtime n w).0 ≡ ok p)
        × IsConsistent p
  unfolding resolve_proxy
  resolve_proxy-Answers address runtime n w = resolve_from-Answers address _ n _ w
