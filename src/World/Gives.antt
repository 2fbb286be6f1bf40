-- ===== src/World/Gives.antt =====
-- What an action returns if it returns.
use evm_contract_auditor_hon.Prelude.{◌≡◌, refl}
use mathlib.Core.Path.{subst}
use evm_contract_auditor_hon.Utils.Retry.{Result, ok, err, ok-injective}
use evm_contract_auditor_hon.World.{World, M, pure, continue, ◌>>=◌}

-- Whatever `m` returns satisfies `Q`.
pub record Gives {A : Type 0} (Q : A → Type 0) (m : M A) : Type 0 where
  pub at : (w : World) (a : A) → (m w).0 ≡ ok a → Q a

pub Gives-pure : {A : Type 0} (Q : A → Type 0) (a : A) → Q a → Gives Q (pure a)
unfolding pure
Gives-pure Q a q = record { at = λ w b e. subst Q (ok-injective e) q }

module _ {A B : Type 0} (Q : B → Type 0) where
  Gives-continue :
      (R : A → Type 0) (f : A → M B)
      → ((a : A) → R a → Gives Q (f a))
      → (r : Result A) (w : World) → ((a : A) → r ≡ ok a → R a)
      → (b : B) → (continue r f w).0 ≡ ok b
      → Q b
  Gives-continue R f k (ok a) w h b e = (k a (h a refl)).at w b e
  Gives-continue R f k (err message) w h b e = cc

  pub Gives-bind :
      (R : A → Type 0) (m : M A) (f : A → M B)
      → Gives R m
      → ((a : A) → R a → Gives Q (f a))
      → Gives Q (m >>= f)
  unfolding ◌>>=◌
  Gives-bind R m f g k = record {
    at = λ w b e. Gives-continue R f k (m w).0 (m w).1 (λ a h. g.at w a h) b e;
  }

  -- The first action may return anything.
  pub Gives-later : (m : M A) (f : A → M B) → ((a : A) → Gives Q (f a)) → Gives Q (m >>= f)
  Gives-later m f k = Gives-bind (λ _. Unit) m f (record { at = λ w a h. tt }) (λ a _. k a)
