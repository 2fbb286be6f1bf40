-- ===== src/Utils/Checks.antt =====
-- Checks that throw: a chain of calls that stops at the first error, with no state.
use evm_contract_auditor_hon.Prelude.{◌≡◌, refl, Bool, true, false, Text}
use evm_contract_auditor_hon.Utils.Retry.{Result, ok, err}

infixl 5 ◌>>=◌ ◌>>◌
unfoldable pub ◌>>=◌ : {A B : Type 0} → Result A → (A → Result B) → Result B
ok a >>= f = f a
err message >>= f = err message

abbrev pub ◌>>◌ : {B : Type 0} → Result (Unit {0}) → Result B → Result B
m >> k = m >>= λ _. k

-- `if (!condition) throw new Error(message)`
unfoldable pub require : Bool → Text → Result (Unit {0})
require true message = ok tt
require false message = err message

-- A chain that returned: its first call returned, and so did the rest.
pub >>=-ok :
    {A B : Type 0} {result : B} (call : Result A) (rest : A → Result B)
    → (call >>= rest) ≡ ok result
    → (value : A) × (call ≡ ok value) × (rest value ≡ ok result)
unfolding ◌>>=◌
>>=-ok (ok a) f h = (a, refl, h)
>>=-ok (err message) f h = cc

pub require-ok :
    {B : Type 0} (c : Bool) (message : Text) (k : Result B) {b : B}
    → (require c message >> k) ≡ ok b
    → (c ≡ true) × (k ≡ ok b)
unfolding ◌>>=◌ require
require-ok true message k h = (refl, h)
require-ok false message k h = cc

-- The last check of a chain.
pub require-true : (c : Bool) (message : Text) {u : Unit {0}} → require c message ≡ ok u → c ≡ true
unfolding require
require-true true message h = refl
require-true false message h = cc
