-- ===== src/Utils/Retry.antt =====
-- `retry` of runner/src/utils.ts. `fn` is one attempt: it takes the number of the attempt and the
-- state of the world, and returns or throws in a new state. `sleep` is the wait between attempts.
pub mod Attempts
use evm_contract_auditor_hon.Prelude.{
  ℕ, zero, suc, ◌+◌, ◌≤◌, ◌<◌, ◌≡◌, ap, refl, ◌⊎◌, inl, inr, Bool, true, false, not, ◌||◌, Text,
  codes, arith, leb, if◌then◌else◌, Bool-cases,
}
use Prim.Native.Nat.{◌*◌}

-- What a call gives: a value, or an error with its message.
pub data Result {ℓ} (A : Type ℓ) : Type ℓ where
  ok : A → Result A
  err : Text → Result A

abbrev value_or {ℓ} : {A : Type ℓ} → A → Result A → A
value_or d (ok a) = a
value_or d (err e) = d

pub ok-injective {ℓ} : {A : Type ℓ} {a b : A} → ok a ≡ ok b → a ≡ b
ok-injective {a} e = ap (value_or a) e

-- A call that changes the state `S`. What was written before an error stays written.
abbrev pub Exec {ℓ} : Type ℓ → Type ℓ → Type ℓ
Exec S A = S → Result A × S

pub record RetryOptions : Type 0 where
  pub attempts : ℕ
  pub base_delay_ms : ℕ
  pub should_retry : Text → ℕ → Bool

module _ {ℓ} {S A : Type ℓ} (sleep : ℕ → S → S) (fn : ℕ → Exec S A) (options : RetryOptions) where
  -- What an attempt is followed by; `later` makes the attempts after it.
  abbrev pub follow : ℕ → Exec S A → Result A → S → Result A × S
  follow attempt later (ok a) s = (ok a, s)
  follow attempt later (err error) s =
      if leb options.attempts attempt || not (options.should_retry error attempt)
      then (err error, s)
      else later (sleep (options.base_delay_ms * attempt) s)

  -- The rounds of the `for` that are left, with the number of the next attempt.
  unfoldable pub retry_from : ℕ → ℕ → Exec S A
  retry_from zero attempt s = (err (codes "retry failed"), s)
  retry_from (suc left) attempt s =
      let (r, s') = fn attempt s in follow attempt (retry_from left (attempt + 1)) r s'

  unfoldable pub retry : Exec S A
  unfolding retry_from
  retry s = retry_from options.attempts 1 s
