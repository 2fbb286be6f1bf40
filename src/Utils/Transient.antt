-- ===== src/Utils/Transient.antt =====
-- Which failures runner/src/utils.ts and runner/src/webhook.ts take for transient. An error is its
-- message: every error that reaches these tests is an `Error`.
use evm_contract_auditor_hon.Prelude.{
  ℕ, zero, suc, ◌<◌, ◌≡◌, refl, [], ◌∷◌, ◌++◌, Bool, true, false, ◌&&◌, ◌||◌, not, Option, some,
  none, Text, codes, arith, leb, ◌==◌, if◌then◌else◌,
}
use evm_contract_auditor_hon.Prelude.Texts.{includes, to_lower, starts_with, decimal, to_string}
use evm_contract_auditor_hon.Utils.ParseInt.{scan}
use evm_contract_auditor_hon.Prelude.{drop}

unfoldable pub is_transient_http_status : ℕ → Bool
is_transient_http_status status =
    status == 408 || status == 409 || status == 425 || status == 429 || leb 500 status

unfoldable pub is_transient_network_error : Text → Bool
unfolding includes to_lower
is_transient_network_error message =
    let m = to_lower message in
    includes (codes "network") m
    || includes (codes "fetch") m
    || includes (codes "timeout") m
    || includes (codes "tempor") m
    || includes (codes "socket") m
    || includes (codes "econn") m
    || includes (codes "etimedout") m

-- `\d`
abbrev is_decimal_digit : ℕ → Bool
is_decimal_digit c = leb b'0' c && leb c b'9'

abbrev first_is_digit : Text → Bool
first_is_digit [] = false
first_is_digit (c ∷ s) = is_decimal_digit c

-- The digits that `/http (\d+)/` captures at its first match, as the number that they write. The
-- capture ends where `parseInt` stops.
unfoldable pub match_http_status : Text → Option ℕ
unfolding starts_with scan
match_http_status [] = none
match_http_status (c ∷ s) =
    let rest = match_http_status s in
    if starts_with (codes "http ") (c ∷ s) && first_is_digit (drop 5 (c ∷ s))
    then some (scan 10 0 (drop 5 (c ∷ s)))
    else rest

unfoldable pub is_webhook_retryable : Text → Bool
unfolding is_transient_network_error match_http_status is_transient_http_status
is_webhook_retryable message =
    if is_transient_network_error message then true else elim (match_http_status message) [
      | none ↦ false
      | some status ↦ is_transient_http_status status
    ]

-- The messages that `postWebhook` and `request` throw for a response that is not ok.
unfoldable pub webhook_http_error : ℕ → Text
unfolding to_string
webhook_http_error status = codes "webhook http " ++ decimal status

unfoldable pub rpc_http_error : Text → ℕ → Text
unfolding to_string
rpc_http_error method status = codes "rpc " ++ method ++ codes " http " ++ decimal status

module _ (test : ℕ → Bool) where
  passes_to : ℕ → Bool
  passes_to zero = true
  passes_to (suc limit) = if test limit then passes_to limit else false

  passes_to_sound :
      (limit status : ℕ) → status < limit → passes_to limit ≡ true → test status ≡ true
  unfolding passes_to
  passes_to_sound zero status below passed = absurd (omega arith)
  passes_to_sound (suc limit) status below passed = ground (arith, passes_to_sound limit status)

abbrev same : Bool → Bool → Bool
same true b = b
same false b = not b

same_sound : (a b : Bool) → same a b ≡ true → a ≡ b
same_sound a b h = ground arith

webhook_table :
    passes_to
      (λ s. same (is_webhook_retryable (webhook_http_error s)) (is_transient_http_status s))
      600
    ≡ true
unfolding passes_to is_webhook_retryable webhook_http_error
webhook_table = refl

-- A webhook response with a status below 600 is tried again exactly when the status is 408, 409,
-- 425, 429 or at least 500: the status survives its way through the message of the error.
pub webhook_http_error_retryable :
    (status : ℕ)
    → status < 600
    → is_webhook_retryable (webhook_http_error status) ≡ is_transient_http_status status
webhook_http_error_retryable status h =
    same_sound _ _ (passes_to_sound _ 600 status h webhook_table)

-- The methods that the client calls.
pub data Method : Type 0 where
  chain_id block_number block_by_number receipt transaction code storage call trace_debug trace :
      Method

unfoldable pub method_text : Method → Text
method_text Method.chain_id = codes "eth_chainId"
method_text Method.block_number = codes "eth_blockNumber"
method_text Method.block_by_number = codes "eth_getBlockByNumber"
method_text Method.receipt = codes "eth_getTransactionReceipt"
method_text Method.transaction = codes "eth_getTransactionByHash"
method_text Method.code = codes "eth_getCode"
method_text Method.storage = codes "eth_getStorageAt"
method_text Method.call = codes "eth_call"
method_text Method.trace_debug = codes "debug_traceBlockByNumber"
method_text Method.trace = codes "trace_block"

-- The table of one method, over all statuses below 600.
abbrev Permanent : Method → Type 0
Permanent m =
    passes_to (λ s. not (is_transient_network_error (rpc_http_error (method_text m) s))) 600 ≡ true

Permanent-chain_id : Permanent Method.chain_id
unfolding passes_to is_transient_network_error rpc_http_error method_text
Permanent-chain_id = refl

Permanent-block_number : Permanent Method.block_number
unfolding passes_to is_transient_network_error rpc_http_error method_text
Permanent-block_number = refl

Permanent-block_by_number : Permanent Method.block_by_number
unfolding passes_to is_transient_network_error rpc_http_error method_text
Permanent-block_by_number = refl

Permanent-receipt : Permanent Method.receipt
unfolding passes_to is_transient_network_error rpc_http_error method_text
Permanent-receipt = refl

Permanent-transaction : Permanent Method.transaction
unfolding passes_to is_transient_network_error rpc_http_error method_text
Permanent-transaction = refl

Permanent-code : Permanent Method.code
unfolding passes_to is_transient_network_error rpc_http_error method_text
Permanent-code = refl

Permanent-storage : Permanent Method.storage
unfolding passes_to is_transient_network_error rpc_http_error method_text
Permanent-storage = refl

Permanent-call : Permanent Method.call
unfolding passes_to is_transient_network_error rpc_http_error method_text
Permanent-call = refl

Permanent-trace_debug : Permanent Method.trace_debug
unfolding passes_to is_transient_network_error rpc_http_error method_text
Permanent-trace_debug = refl

Permanent-trace : Permanent Method.trace
unfolding passes_to is_transient_network_error rpc_http_error method_text
Permanent-trace = refl

rpc_table : (m : Method) → Permanent m
rpc_table Method.chain_id = Permanent-chain_id
rpc_table Method.block_number = Permanent-block_number
rpc_table Method.block_by_number = Permanent-block_by_number
rpc_table Method.receipt = Permanent-receipt
rpc_table Method.transaction = Permanent-transaction
rpc_table Method.code = Permanent-code
rpc_table Method.storage = Permanent-storage
rpc_table Method.call = Permanent-call
rpc_table Method.trace_debug = Permanent-trace_debug
rpc_table Method.trace = Permanent-trace

-- No status below 600 of a response to one of the client's own methods is taken for transient, not
-- even 429 or 503: the message names the method and the status, and neither holds a word that the
-- test looks for.
pub rpc_http_error_permanent :
    (m : Method) (status : ℕ)
    → status < 600
    → is_transient_network_error (rpc_http_error (method_text m) status) ≡ false
rpc_http_error_permanent m status h = ground (
  arith,
  passes_to_sound (λ s. not (is_transient_network_error (rpc_http_error (method_text m) s))) 600
      status h (rpc_table m),
)
