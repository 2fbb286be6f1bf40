-- ===== src/World/Keeps.antt =====
-- Invariants of actions, one rule for each way to build an action.
use evm_contract_auditor_hon.Prelude.{
  ◌≡◌, refl, List, [], ◌∷◌, Bool, true, false, if◌then◌else◌, Text,
}
use mathlib.Core.Path.{subst}
use evm_contract_auditor_hon.Utils.Retry.{Result, ok, err}
use evm_contract_auditor_hon.World.{
  World, M, pure, throw, modify, get_checkpoint, continue, ◌>>=◌, handle, try_catch, for_each,
}

-- `m` keeps `P`, whether it returns or throws.
pub record Keeps {A : Type 0} (P : World → Type 0) (m : M A) : Type 0 where
  pub at : (w : World) → P w → P (m w).1

module _ {A : Type 0} {P : World → Type 0} where
  pub Keeps-pure : (a : A) → Keeps P (pure a)
  unfolding pure
  Keeps-pure a = record { at = λ w h. h }

  pub Keeps-throw : (message : Text) → Keeps P (throw {A = A} message)
  unfolding throw
  Keeps-throw message = record { at = λ w h. h }

  pub Keeps-if : (b : Bool) (m n : M A) → Keeps P m → Keeps P n → Keeps P (if b then m else n)
  Keeps-if true m n km kn = km
  Keeps-if false m n km kn = kn

  Keeps-handle :
      (r : Result A) (handler : Text → M A) (w : World)
      → ((message : Text) → Keeps P (handler message))
      → P w
      → P (handle r handler w).1
  Keeps-handle (ok a) handler w k h = h
  Keeps-handle (err message) handler w k h = (k message).at w h

  pub Keeps-try_catch :
      (m : M A) (handler : Text → M A)
      → Keeps P m
      → ((message : Text) → Keeps P (handler message))
      → Keeps P (try_catch m handler)
  unfolding try_catch
  Keeps-try_catch m handler km kh = record {
    at = λ w h. Keeps-handle (m w).0 handler (m w).1 kh (km.at w h);
  }

module _ {A B : Type 0} {P : World → Type 0} where
  Keeps-continue :
      (r : Result A) (f : A → M B) (w : World)
      → ((a : A) → Keeps P (f a))
      → P w
      → P (continue r f w).1
  Keeps-continue (ok a) f w k h = (k a).at w h
  Keeps-continue (err _) f w k h = h

  pub Keeps-bind :
      (m : M A) (f : A → M B) → Keeps P m → ((a : A) → Keeps P (f a)) → Keeps P (m >>= f)
  unfolding ◌>>=◌
  Keeps-bind m f km kf = record { at = λ w h. Keeps-continue (m w).0 f (m w).1 kf (km.at w h) }

module _ {A B : Type 0} where
  -- A bind that returned: both parts returned.
  pub bind-ok :
      (m : M A) (f : A → M B) (w w₂ : World) (b : B)
      → (m >>= f) w ≡ (ok b, w₂)
      → (a : A) × (w₁ : World) × (m w ≡ (ok a, w₁)) × (f a w₁ ≡ (ok b, w₂))
  unfolding ◌>>=◌
  bind-ok m f w w₂ b h = by_result (m w).0 (m w).1 refl h
    where
      by_result :
          (r : Result A) (w₁ : World)
          → m w ≡ (r, w₁)
          → continue (m w).0 f (m w).1 ≡ (ok b, w₂)
          → (a : A) × (w₁ : World) × (m w ≡ (ok a, w₁)) × (f a w₁ ≡ (ok b, w₂))
      by_result (ok a) w₁ e k =
          (a, w₁, e, subst (λ (p : Result A × World). continue p.0 f p.1 ≡ (ok b, w₂)) e k)
      by_result (err message) w₁ e k =
          cc (subst (λ (p : Result A × World). continue p.0 f p.1 ≡ (ok b, w₂)) e k)

module _ {A : Type 0} {P : World → Type 0} where
  pub Keeps-for_each :
      (xs : List A) (body : A → M (Unit {0}))
      → ((x : A) → Keeps P (body x))
      → Keeps P (for_each xs body)
  unfolding for_each
  Keeps-for_each [] body k = Keeps-pure tt
  Keeps-for_each (x ∷ xs) body k = Keeps-bind (body x) _ (k x) (λ _. Keeps-for_each xs body k)

module _ {P : World → Type 0} where
  -- A step that changes only what `P` does not read.
  pub Keeps-modify : (f : World → World) → ((w : World) → P w → P (f w)) → Keeps P (modify f)
  unfolding modify
  Keeps-modify f k = record { at = k }

  pub Keeps-get_checkpoint : Keeps P get_checkpoint
  unfolding get_checkpoint
  Keeps-get_checkpoint = record { at = λ w h. h }

pub ruleset keeps_rules = (
  Keeps-pure, Keeps-throw, Keeps-if, Keeps-try_catch, Keeps-for_each, Keeps-bind,
  Keeps-get_checkpoint,
)
