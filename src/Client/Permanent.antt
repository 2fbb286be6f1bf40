-- ===== src/Client/Permanent.antt =====
-- A status of the node's response that is not a success, seen by `request` of runner/src/rpc.ts.
use evm_contract_auditor_hon.Prelude.{
  ℕ, zero, suc, ◌+◌, ◌≤◌, ◌<◌, ◌≡◌, refl, ap, ◌∙◌, Bool, true, false, not, ◌||◌, Text, leb, arith,
}
use evm_contract_auditor_hon.Types.Config.{RunnerConfig}
use evm_contract_auditor_hon.Utils.Retry.{err, RetryOptions, retry_from, retry, follow}
use evm_contract_auditor_hon.Utils.Transient.{
  Method, method_text, rpc_http_error, rpc_http_error_permanent,
}
use evm_contract_auditor_hon.World.{World, M, Response, http_status}
use evm_contract_auditor_hon.Client.{sleep, attempt, outcome, request, retry_options}

module _ {A : Type 0} (fn : ℕ → M A) (options : RetryOptions) where
  -- An attempt that throws an error that is not to be tried again is the last one.
  follow_permanent :
      (k : ℕ) (later : M A) (message : Text) (w : World)
      → options.should_retry message k ≡ false
      → follow sleep fn options k later (err message) w ≡ (err message, w)
  follow_permanent k later message w permanent =
      rw (stops (leb options.attempts k) _ permanent) refl
    where
      stops : (a b : Bool) → b ≡ false → (a || not b) ≡ true
      stops a b h = ground arith

  retry_from_permanent :
      (left : ℕ) (message : Text) (w w' : World)
      → 1 ≤ left
      → fn 1 w ≡ (err message, w')
      → options.should_retry message 1 ≡ false
      → retry_from sleep fn options left 1 w ≡ (err message, w')
  unfolding retry_from
  retry_from_permanent zero message w w' some_left e permanent = absurd (omega arith)
  retry_from_permanent (suc left) message w w' some_left e permanent =
      ap (λ p. follow sleep fn options 1 (retry_from sleep fn options left 2) p.0 p.1) e
      ∙ follow_permanent 1 (retry_from sleep fn options left 2) message w' permanent

-- A request that the node answers with a status below 600 that is not a success is sent just once,
-- whatever the status (429 and 503 are no exception) and however many attempts are allowed, as long
-- as one is: it throws the error of the status, and nothing but the counter of requests has
-- changed, by one.
pub request_of_http_status :
    {A : Type 0} (config : RunnerConfig) (method : Method) (respond : ℕ → Response A) (w : World)
    (status : ℕ)
    → 1 ≤ config.rpc_max_attempts
    → respond w.id ≡ http_status status
    → status < 600
    → request config method respond w
      ≡ (err (rpc_http_error (method_text method) status), record w { id = w.id + 1 })
unfolding request retry retry_options attempt outcome
request_of_http_status config method respond w status allowed answer below =
    retry_from_permanent (λ _. attempt method respond) (retry_options config)
      config.rpc_max_attempts _ w _ allowed
      (ap (λ r. (outcome method r, record w { id = w.id + 1 })) answer)
      (rpc_http_error_permanent method status below)
