-- ===== src/Client.antt =====
-- `JsonRpcClient` of runner/src/rpc.ts: one request with its retries, and the methods that the
-- runner calls. Traces has the traces; the websocket subscription is not modelled.
pub mod Frame
pub mod Permanent
use evm_contract_auditor_hon.Prelude.{
  ℕ, ◌+◌, ◌≤◌, List, [], ◌∷◌, ◌++◌, Bool, Option, some, none, Text, codes, leb, ltb, ◌&&◌,
  if◌then◌else◌,
}
use evm_contract_auditor_hon.Prelude.Int.{ℤ}
use evm_contract_auditor_hon.Prelude.Texts.{decimal}
use evm_contract_auditor_hon.Types.Config.{RunnerConfig}
use evm_contract_auditor_hon.Types.Rpc.{RpcBlock, RpcReceipt, RpcTransaction}
use evm_contract_auditor_hon.Utils.Hex.{normalize_hex, hex_to_number}
use evm_contract_auditor_hon.Utils.Transient.{
  Method, method_text, rpc_http_error, is_transient_network_error,
}
use evm_contract_auditor_hon.Utils.Retry.{Result, ok, err, retry, RetryOptions}
use evm_contract_auditor_hon.World.{
  World, M, pure, throw, ◌>>=◌, Response, no_answer, http_status, rpc_error, result, Node, Env,
}

-- A wait changes nothing that the model keeps.
abbrev pub sleep : ℕ → World → World
sleep ms w = w

or_unknown : Option Text → Text
or_unknown none = codes "unknown error"
or_unknown (some message) = message

-- What the body of the retried function makes of an answer.
unfoldable pub outcome : {A : Type 0} → Method → Response A → Result A
unfolding or_unknown method_text rpc_http_error
outcome method (no_answer message) = err message
outcome method (http_status status) = err (rpc_http_error (method_text method) status)
outcome method (rpc_error message) =
    err (codes "rpc " ++ (method_text method ++ (codes " failed: " ++ or_unknown message)))
outcome method (result a) = ok a

-- One attempt: the request takes the next identifier.
unfoldable pub attempt : {A : Type 0} → Method → (ℕ → Response A) → M A
unfolding outcome
attempt method respond w = (outcome method (respond w.id), record w { id = w.id + 1 })

unfoldable pub retry_options : RunnerConfig → RetryOptions
unfolding is_transient_network_error
retry_options config = record {
  attempts = config.rpc_max_attempts;
  base_delay_ms = config.retry_base_delay_ms;
  should_retry = λ error _. is_transient_network_error error;
}

unfoldable pub request : {A : Type 0} → RunnerConfig → Method → (ℕ → Response A) → M A
unfolding attempt retry_options retry
request config method respond = retry sleep (λ _. attempt method respond) (retry_options config)

module _ (config : RunnerConfig) (env : Env) where
  unfoldable pub or_not_found : ℕ → Option RpcBlock → M RpcBlock
  or_not_found number none = throw (codes "block " ++ (decimal number ++ codes " not found"))
  or_not_found number (some block) = pure block

  unfoldable pub get_block_by_number : ℕ → Bool → M RpcBlock
  unfolding or_not_found
  get_block_by_number number include_transactions = do
    block ←
        request config Method.block_by_number
          (λ id. env.node.block_by_number id number include_transactions)
    or_not_found number block

  unfoldable pub get_transaction_receipt : Text → M (Option RpcReceipt)
  get_transaction_receipt tx_hash =
      request config Method.receipt (λ id. env.node.transaction_receipt id tx_hash)

  unfoldable pub get_transaction_by_hash : Text → M (Option RpcTransaction)
  get_transaction_by_hash tx_hash =
      request config Method.transaction (λ id. env.node.transaction_by_hash id tx_hash)

  unfoldable pub get_code : Text → ℕ → M Text
  get_code address number = do
    value ← request config Method.code (λ id. env.node.code id address number)
    pure (normalize_hex value)

  unfoldable pub get_storage_at : Text → Text → ℕ → M Text
  get_storage_at address slot number = do
    value ← request config Method.storage (λ id. env.node.storage_at id address slot number)
    pure (normalize_hex value)

  unfoldable pub eth_call : Text → Text → ℕ → M Text
  eth_call to input number = do
    value ← request config Method.call (λ id. env.node.call id to input number)
    pure (normalize_hex value)

  unfoldable pub get_chain_id : M (Option ℤ)
  get_chain_id = do
    value ← request config Method.chain_id env.node.chain_id
    pure (hex_to_number value)

  unfoldable pub get_latest_block_number : M (Option ℤ)
  get_latest_block_number = do
    value ← request config Method.block_number env.node.block_number
    pure (hex_to_number value)
