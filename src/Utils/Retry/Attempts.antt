-- ===== src/Utils/Retry/Attempts.antt =====
-- What `retry` promises, as a relation on its attempts.
use evm_contract_auditor_hon.Prelude.{
  ℕ, zero, suc, ◌+◌, ◌-◌, ◌≤◌, ◌<◌, ◌≡◌, refl, sym, ◌⊎◌, inl, inr, true, false, not, ◌||◌, Text,
  arith, leb, Bool-cases,
}
use Prim.Native.Nat.{◌*◌}
use mathlib.Core.Path.{subst}
use evm_contract_auditor_hon.Utils.Retry.{Result, ok, err, Exec, RetryOptions, retry_from, retry}

module _ {S A : Type 0} (sleep : ℕ → S → S) (fn : ℕ → Exec S A) (options : RetryOptions) where
  -- `Tries k n s out`: from attempt `k` on, in the state `s`, exactly `n` attempts are made and
  -- they end with `out`.
  pub data Tries : ℕ → ℕ → S → Result A × S → Type 0 where
    returns :
        {k n : ℕ} {s s' : S} {a : A} {out : Result A × S}
        → fn k s ≡ (ok a, s')
        → n ≡ 1
        → out ≡ (ok a, s')
        → Tries k n s out
    gives_up :
        {k n : ℕ} {s s' : S} {e : Text} {out : Result A × S}
        → fn k s ≡ (err e, s')
        → (options.attempts ≤ k) ⊎ (options.should_retry e k ≡ false)
        → n ≡ 1
        → out ≡ (err e, s')
        → Tries k n s out
    again :
        {k n m : ℕ} {s s' : S} {e : Text} {out : Result A × S}
        → fn k s ≡ (err e, s')
        → k < options.attempts
        → options.should_retry e k ≡ true
        → Tries (k + 1) m (sleep (options.base_delay_ms * k) s') out
        → n ≡ m + 1
        → Tries k n s out

  abbrev Ends : ℕ → ℕ → S → Result A × S → Type 0
  Ends most k s out = (n : ℕ) × Tries k n s out × (n ≤ most)

  -- One round, given what the later rounds promise.
  retry_round :
      (left k : ℕ) (s : S)
      → ((s' : S)
          → k < options.attempts
          → Ends left (k + 1) s' (retry_from sleep fn options left (k + 1) s'))
      → options.attempts ≤ left + k
      → Ends (suc left) k s (retry_from sleep fn options (suc left) k s)
  unfolding retry_from
  retry_round left k s rest h = by_result (fn k s).0 (fn k s).1 refl
    where
      by_result :
          (r : Result A) (s' : S)
          → fn k s ≡ (r, s')
          → Ends (suc left) k s (retry_from sleep fn options (suc left) k s)
      by_result (ok a) s' e = (1, returns e refl (ground arith), omega arith)
      by_result (err error) s' e =
          elim (Bool-cases (leb options.attempts k || not (options.should_retry error k))) [
            | inl stop ↦ (1, gives_up e (ground arith) refl (ground arith), omega arith)
            | inr more ↦
                let (m, t, le) = rest (sleep (options.base_delay_ms * k) s') (ground arith) in
                let same : retry_from sleep fn options (suc left) k s
                    ≡ retry_from sleep fn options left (k + 1)
                        (sleep (options.base_delay_ms * k) s') =
                  ground arith in
                (
                  suc m,
                  rw same (again e (ground arith) (ground arith) t (omega arith)),
                  omega arith,
                )
          ]

  retry_from-Tries :
      (left k : ℕ) (s : S)
      → options.attempts ≡ left + k
      → Ends (suc left) k s (retry_from sleep fn options (suc left) k s)
  retry_from-Tries zero k s h = retry_round zero k s (λ s' lt. absurd (omega arith)) (omega arith)
  retry_from-Tries (suc left) k s h =
      retry_round (suc left) k s (λ s' lt. retry_from-Tries left (k + 1) s' (omega arith))
        (omega arith)

  -- With at least one attempt allowed, `retry` makes attempts one after the other from the first:
  -- it stops at the first that returns, or at the first whose error is not to be retried or that is
  -- the last one allowed, and then throws that error; between two attempts it sleeps the base delay
  -- times the number of the attempt. It makes no more attempts than are allowed.
  pub retry-Tries :
      (s : S)
      → 1 ≤ options.attempts
      → (n : ℕ) × Tries 1 n s (retry sleep fn options s) × (n ≤ options.attempts)
  unfolding retry
  retry-Tries s h =
      let left : ℕ = options.attempts - 1 in
      let all : options.attempts ≡ suc left = omega arith in
      subst (λ n. Ends n 1 s (retry_from sleep fn options n 1 s)) (sym all)
        (retry_from-Tries left 1 s (omega arith))
