-- ===== src/Emit/Posted.antt =====
-- `postWebhook` of runner/src/webhook.ts, as `emitEvent` calls it: what its attempts leave in the
-- world.
use evm_contract_auditor_hon.Prelude.{
  ℕ, ◌+◌, ◌≡◌, ap, inl, inr, List, [], ◌∷◌, ◌++◌, true, false, not, leb, zero, Option, suc, ◌||◌,
  Bool-cases,
}
use evm_contract_auditor_hon.Types.Config.{RunnerConfig}
use evm_contract_auditor_hon.Types.Checkpoint.{RunnerCheckpoint}
use evm_contract_auditor_hon.Types.Events.{WebhookEvent}
use evm_contract_auditor_hon.Utils.Retry.{Result, ok, err, RetryOptions, follow, retry_from, retry}
use evm_contract_auditor_hon.Client.{sleep}
use evm_contract_auditor_hon.Webhook.{
  post_webhook, post_once, receive, post_options, is_success, has_url,
}
use evm_contract_auditor_hon.World.{World, M, Env, PostAnswer, unreachable, answered}

module _ {A : Type 0} (P Q : World → Type 0) where
  -- `P` where the action threw, `Q` where it returned.
  abbrev pub Either : Result A × World → Type 0
  Either (ok a, w) = Q w
  Either (err message, w) = P w

  module _ (fn : ℕ → M A) (options : RetryOptions)
      (step : (k : ℕ) (w : World) → P w → Either (fn k w)) where
    follow-Either :
        (k : ℕ) (later : M A)
        → ((w : World) → P w → Either (later w))
        → (r : Result A) (w : World) → Either (r, w)
        → Either (follow sleep fn options k later r w)
    follow-Either k later rest (ok a) w h = h
    follow-Either k later rest (err e) w h =
        elim (Bool-cases (leb options.attempts k || not (options.should_retry e k))) [
          | inl stop ↦ rw stop h
          | inr more ↦ rw more (rest w h)
        ]

    retry_from-Either :
        (left k : ℕ) (w : World) → P w → Either (retry_from sleep fn options left k w)
    unfolding retry_from
    retry_from-Either zero k w h = h
    retry_from-Either (suc left) k w h =
        follow-Either k _ (retry_from-Either left (k + 1)) (fn k w).0 (fn k w).1 (step k w h)

-- The posts, the checkpoint and the file of a world.
pub record Shows (posts : List WebhookEvent) (c : RunnerCheckpoint) (last : Option RunnerCheckpoint)
    (w : World) : Type 0 where
  pub posted : w.posted ≡ posts
  pub checkpoint : w.checkpoint ≡ c
  pub saved : w.saved ≡ last

module _ (config : RunnerConfig) (env : Env) (event : WebhookEvent) (posts : List WebhookEvent)
    (c : RunnerCheckpoint) (last : Option RunnerCheckpoint) where
  abbrev pub Unsent : World → Type 0
  Unsent = Shows posts c last

  abbrev pub Sent : World → Type 0
  Sent = Shows (posts ++ event ∷ []) c last

  receive-Either :
      (answer : PostAnswer) (w : World) → Unsent w → Either Unsent Sent (receive event answer w)
  unfolding receive
  receive-Either (unreachable message) w h = h
  receive-Either (answered status) w h = elim (Bool-cases (is_success status)) [
    | inl good ↦ rw good (record {
      posted = ap (λ p. p ++ event ∷ []) h.posted;
      checkpoint = h.checkpoint;
      saved = h.saved;
    })
    | inr bad ↦ rw bad h
  ]

  post_once-Either : (w : World) → Unsent w → Either Unsent Sent (post_once env event w)
  unfolding post_once
  post_once-Either w h =
      receive-Either (env.post w.ticks event) _
        (record { posted = h.posted; checkpoint = h.checkpoint; saved = h.saved })

  -- With a URL and no dry run, a post that returned is acknowledged once, and one that threw not at
  -- all.
  pub post_webhook-Either :
      (w : World)
      → has_url config.webhook_url ≡ true
      → Unsent w
      → Either Unsent Sent (post_webhook config env event false w)
  unfolding post_webhook retry
  post_webhook-Either w url h = rw url (
      retry_from-Either Unsent Sent (λ _. post_once env event) (post_options config)
        (λ _. post_once-Either) (post_options config).attempts 1 w h)
