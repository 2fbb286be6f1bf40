-- ===== src/Webhook.antt =====
-- runner/src/webhook.ts: posting an event, with its retries.
use evm_contract_auditor_hon.Prelude.{
  ℕ, ◌+◌, [], ◌∷◌, ◌++◌, Bool, true, false, ◌&&◌, not, Option, none, some, Text, leb, ltb,
  if◌then◌else◌,
}
use evm_contract_auditor_hon.Types.Config.{RunnerConfig}
use evm_contract_auditor_hon.Types.Events.{WebhookEvent}
use evm_contract_auditor_hon.Utils.Transient.{is_webhook_retryable, webhook_http_error}
use evm_contract_auditor_hon.Utils.Retry.{ok, err, retry, RetryOptions}
use evm_contract_auditor_hon.World.{M, pure, Env, PostAnswer, unreachable, answered}
use evm_contract_auditor_hon.Client.{sleep}

-- `response.ok`
abbrev pub is_success : ℕ → Bool
is_success status = leb 200 status && ltb status 300

-- What an answer is taken for, and the world with the answer's event acknowledged.
unfoldable pub receive : WebhookEvent → PostAnswer → M (Unit {0})
receive event (unreachable message) w = (err message, w)
receive event (answered status) w =
    if is_success status
    then (ok tt, record w { posted = w.posted ++ event ∷ [] })
    else (err (webhook_http_error status), w)

unfoldable pub post_once : Env → WebhookEvent → M (Unit {0})
unfolding receive
post_once env event w = receive event (env.post w.ticks event) (record w { ticks = w.ticks + 1 })

unfoldable pub post_options : RunnerConfig → RetryOptions
post_options config = record {
  attempts = config.webhook_max_attempts;
  base_delay_ms = config.retry_base_delay_ms;
  should_retry = λ error _. is_webhook_retryable error;
}

-- An absent or empty URL is false.
abbrev pub has_url : Option Text → Bool
has_url none = false
has_url (some []) = false
has_url (some (c ∷ url)) = true

unfoldable pub post_webhook : RunnerConfig → Env → WebhookEvent → Bool → M (Unit {0})
post_webhook config env event dry_run =
    if has_url config.webhook_url && not dry_run
    then retry sleep (λ _. post_once env event) (post_options config)
    else pure tt
