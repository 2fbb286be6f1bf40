-- ===== src/Client/Frame.antt =====
-- What a request leaves alone.
use evm_contract_auditor_hon.Prelude.{
  ℕ, zero, suc, ◌+◌, Option, some, none, Text, Bool, Bool-cases, inl, inr, leb, not, ◌||◌,
}
use evm_contract_auditor_hon.Types.Config.{RunnerConfig}
use evm_contract_auditor_hon.Types.Rpc.{RpcBlock}
use evm_contract_auditor_hon.Utils.Retry.{Result, ok, err, RetryOptions, retry_from, retry, follow}
use evm_contract_auditor_hon.Utils.Transient.{Method}
use evm_contract_auditor_hon.World.{World, M, Response, Env}
use evm_contract_auditor_hon.World.Keeps.{Keeps, Keeps-pure, Keeps-throw, Keeps-bind}
use evm_contract_auditor_hon.Client.{
  sleep, attempt, request, retry_options, get_block_by_number, or_not_found,
  get_transaction_receipt, get_transaction_by_hash, get_code, get_storage_at, eth_call,
}

-- Retrying keeps what one attempt keeps.
module _ {A : Type 0} (P : World → Type 0) (fn : ℕ → M A) (options : RetryOptions)
    (step : (k : ℕ) → Keeps P (fn k)) where
  Keeps-follow :
      (k : ℕ) (later : M A)
      → Keeps P later
      → (r : Result A) (w : World) → P w
      → P (follow sleep fn options k later r w).1
  Keeps-follow k later kept (ok a) w h = h
  Keeps-follow k later kept (err error) w h =
      elim (Bool-cases (leb options.attempts k || not (options.should_retry error k))) [
        | inl stop ↦ rw stop h
        | inr more ↦ rw more (kept.at w h)
      ]

  Keeps-retry_from : (left k : ℕ) (w : World) → P w → P (retry_from sleep fn options left k w).1
  unfolding retry_from
  Keeps-retry_from zero k w h = h
  Keeps-retry_from (suc left) k w h =
      Keeps-follow k (retry_from sleep fn options left (k + 1))
        (record { at = Keeps-retry_from left (k + 1) }) (fn k w).0 (fn k w).1 ((step k).at w h)

  pub Keeps-retry : Keeps P (retry sleep fn options)
  unfolding retry
  Keeps-retry = record { at = λ w h. Keeps-retry_from options.attempts 1 w h }

-- What a change of the request counter keeps, every call of the node keeps.
module _ (config : RunnerConfig) (P : World → Type 0)
    (next_id : (w : World) → P w → P (record w { id = w.id + 1 })) where
  pub Keeps-request :
      {A : Type 0} (method : Method) (respond : ℕ → Response A)
      → Keeps P (request config method respond)
  unfolding request attempt
  Keeps-request method respond =
      Keeps-retry P (λ _. attempt method respond) (retry_options config)
        (λ k. record { at = next_id })

module _ (config : RunnerConfig) (env : Env) (P : World → Type 0)
    (next_id : (w : World) → P w → P (record w { id = w.id + 1 })) where
  Keeps-or_not_found : (n : ℕ) (o : Option RpcBlock) → Keeps P (or_not_found config env n o)
  unfolding or_not_found
  Keeps-or_not_found n none = Keeps-throw _
  Keeps-or_not_found n (some b) = Keeps-pure b

  pub Keeps-get_block_by_number :
      (n : ℕ) (whole : Bool) → Keeps P (get_block_by_number config env n whole)
  unfolding get_block_by_number
  Keeps-get_block_by_number n whole =
      Keeps-bind _ _ (Keeps-request config P next_id _ _) (λ o. Keeps-or_not_found n o)

  pub Keeps-get_transaction_receipt :
      (tx_hash : Text) → Keeps P (get_transaction_receipt config env tx_hash)
  unfolding get_transaction_receipt
  Keeps-get_transaction_receipt tx_hash = Keeps-request config P next_id _ _

  pub Keeps-get_transaction_by_hash :
      (tx_hash : Text) → Keeps P (get_transaction_by_hash config env tx_hash)
  unfolding get_transaction_by_hash
  Keeps-get_transaction_by_hash tx_hash = Keeps-request config P next_id _ _

  pub Keeps-get_code : (a : Text) (n : ℕ) → Keeps P (get_code config env a n)
  unfolding get_code
  Keeps-get_code a n = Keeps-bind _ _ (Keeps-request config P next_id _ _) (λ v. Keeps-pure _)

  pub Keeps-get_storage_at : (a slot : Text) (n : ℕ) → Keeps P (get_storage_at config env a slot n)
  unfolding get_storage_at
  Keeps-get_storage_at a slot n =
      Keeps-bind _ _ (Keeps-request config P next_id _ _) (λ v. Keeps-pure _)

  pub Keeps-eth_call : (to input : Text) (n : ℕ) → Keeps P (eth_call config env to input n)
  unfolding eth_call
  Keeps-eth_call to input n =
      Keeps-bind _ _ (Keeps-request config P next_id _ _) (λ v. Keeps-pure _)
