-- ===== src/Runner/Follow.antt =====
-- The loop of `runRunner` of runner/src/runner.ts, and the waits of runner/src/rpc.ts for the next
-- block. A signal may come between any two steps. Numbers that do not parse are `none`, as NaN.
pub mod Socket
pub mod Confirmed
pub mod Stuck
use evm_contract_auditor_hon.Prelude.{
  ℕ, ◌+◌, ◌≡◌, refl, List, [], ◌∷◌, Bool, true, false, ◌&&◌, ◌||◌, not, Option, none, some, Text,
  codes, text_eq, if◌then◌else◌,
}
use evm_contract_auditor_hon.Prelude.Int.{ℤ, pos, ltb_ℤ, ◌-ℤ◌, ◌+ℤ◌}
use evm_contract_auditor_hon.Types.Config.{RunnerConfig, CliOptions}
use evm_contract_auditor_hon.Types.Audit.{RunnerRuntime}
use evm_contract_auditor_hon.Types.Checkpoint.{RunnerCheckpoint}
use evm_contract_auditor_hon.Utils.Hex.{hex_to_number}
use evm_contract_auditor_hon.Utils.Retry.{ok, err}
use evm_contract_auditor_hon.World.{World, Env}
use evm_contract_auditor_hon.Client.{get_latest_block_number}
use evm_contract_auditor_hon.Webhook.{has_url}
use evm_contract_auditor_hon.Runner.Range.{process_range}

-- `latest > previousLatest`, which is false where one of them is NaN.
abbrev pub is_newer : Option ℤ → Option ℤ → Bool
is_newer (some latest) (some previous) = ltb_ℤ previous latest
is_newer _ _ = false

-- A message of the node, with the members that are read. Absent members are undefined.
pub record Notification : Type 0 where
  pub subscription : Option Text
  pub number : Option Text

pub record SocketMessage : Type 0 where
  pub result : Option Text
  pub params : Option Notification

-- The events of the socket and of the timer; a message is `none` where it is not JSON.
pub data SocketEvent : Type 0 where
  received : Option SocketMessage → SocketEvent
  socket_error timer_fired : SocketEvent

-- The promise of `waitForNextLatestBlockWs`. After `crashed`, an exception of the listener that
-- nothing catches, the process ends.
pub data Wait : Type 0 where
  pending : Wait
  resolved : ℤ → Wait
  rejected : Text → Wait
  crashed : Wait

abbrev is_empty : Text → Bool
is_empty [] = true
is_empty (c ∷ s) = false

-- An absent or empty number is false; another is read.
abbrev read_number : Option Text → Option ℤ
read_number (some (c ∷ s)) = hex_to_number (c ∷ s)
read_number _ = none

abbrev is_text : Text → Option Text → Bool
is_text t (some s) = text_eq s t
is_text t none = false

-- The number that a message has for the subscription, if it has one.
abbrev number_for : Text → Option Notification → Option ℤ
number_for subscription_id (some params) =
    if is_text subscription_id params.subscription then read_number params.number else none
number_for subscription_id none = none

-- `none` is a message that is not answered with the promise.
abbrev resolve_newer : Option ℤ → Option ℤ → Option ℤ
resolve_newer previous latest = if is_newer latest previous then latest else none

abbrev named_by : SocketMessage → Text → Option Text
named_by m (c ∷ s) = none
named_by m [] = m.result

-- The listeners, with the identifier of the subscription; the settled promise stays as it is.
unfoldable pub wait_for_next_latest_block_ws : Option ℤ → Text → List SocketEvent → Wait
unfolding hex_to_number text_eq
wait_for_next_latest_block_ws previous id [] = pending
wait_for_next_latest_block_ws previous id (socket_error ∷ events) =
    rejected (codes "websocket error")
wait_for_next_latest_block_ws previous id (timer_fired ∷ events) =
    rejected (codes "websocket wait timeout")
wait_for_next_latest_block_ws previous id (received none ∷ events) = crashed
wait_for_next_latest_block_ws previous id (received (some m) ∷ events) = elim (named_by m id) [
  | some new_id ↦ wait_for_next_latest_block_ws previous new_id events
  | none ↦ elim (resolve_newer previous (number_for id m.params)) [
    | some latest ↦ resolved latest
    | none ↦ wait_for_next_latest_block_ws previous id events
  ]
]

-- Where `runRunner` is: before the first number, at the head of the `for` with `latest`, past
-- `processRange`, waiting with the socket or by polling, out of the loop, or stopped by an error.
pub data Place : Type 0 where
  starting : Place
  heading ranged listening polling finished : Option ℤ → Place
  failed : Text → Place

pub record Loop : Type 0 where
  pub place : Place
  pub stopping : Bool
  pub world : World

module _ (config : RunnerConfig) (env : Env) (options : CliOptions) (runtime : RunnerRuntime) where
  -- `safeBlock`, where it is beyond the last processed block.
  abbrev pub due : Option ℤ → RunnerCheckpoint → Option ℤ
  due none c = none
  due (some latest) c =
      if ltb_ℤ c.last_processed_block (latest -ℤ pos config.confirmations)
      then some (latest -ℤ pos config.confirmations)
      else none

  -- `waitForNextLatestBlock`
  abbrev pub wait_place : Option ℤ → Place
  wait_place latest = if has_url config.rpc_ws_url then listening latest else polling latest

  -- `waitForNextLatestBlockPoll` returns a newer number and goes on asking otherwise.
  abbrev pub poll_place : Option ℤ → Option ℤ → Place
  poll_place previous latest = if is_newer latest previous then heading latest else polling previous

  pub data Step (s : Loop) : Loop → Type 0 where
    signalled : Step s (record s { stopping = true })
    started :
        {latest : Option ℤ} {w : World}
        → s.place ≡ starting
        → get_latest_block_number config env s.world ≡ (ok latest, w)
        → Step s (record s { place = heading latest; world = w })
    start_failed :
        {error : Text} {w : World}
        → s.place ≡ starting
        → get_latest_block_number config env s.world ≡ (err error, w)
        → Step s (record s { place = failed error; world = w })
    stopped :
        {latest : Option ℤ}
        → s.place ≡ heading latest
        → s.stopping ≡ true
        → Step s (record s { place = finished latest })
    nothing_due :
        {latest : Option ℤ}
        → s.place ≡ heading latest
        → s.stopping ≡ false
        → due latest s.world.checkpoint ≡ none
        → Step s (record s { place = ranged latest })
    range_done :
        {latest : Option ℤ} {from to : ℕ} {w : World}
        → s.place ≡ heading latest
        → s.stopping ≡ false
        → due latest s.world.checkpoint ≡ some (pos to)
        → s.world.checkpoint.last_processed_block +ℤ pos 1 ≡ pos from
        → process_range config env options runtime from to s.world ≡ (ok tt, w)
        → Step s (record s { place = ranged latest; world = w })
    range_failed :
        {latest : Option ℤ} {from to : ℕ} {error : Text} {w : World}
        → s.place ≡ heading latest
        → s.stopping ≡ false
        → due latest s.world.checkpoint ≡ some (pos to)
        → s.world.checkpoint.last_processed_block +ℤ pos 1 ≡ pos from
        → process_range config env options runtime from to s.world ≡ (err error, w)
        → Step s (record s { place = failed error; world = w })
    ends :
        {latest : Option ℤ}
        → s.place ≡ ranged latest
        → options.once || s.stopping ≡ true
        → Step s (record s { place = finished latest })
    waits :
        {latest : Option ℤ}
        → s.place ≡ ranged latest
        → options.once || s.stopping ≡ false
        → Step s (record s { place = wait_place latest })
    announced :
        {previous : Option ℤ} {latest : ℤ} (events : List SocketEvent)
        → s.place ≡ listening previous
        → wait_for_next_latest_block_ws previous [] events ≡ resolved latest
        → Step s (record s { place = heading (some latest) })
    unheard :
        {previous : Option ℤ} {error : Text} (events : List SocketEvent)
        → s.place ≡ listening previous
        → wait_for_next_latest_block_ws previous [] events ≡ rejected error
        → Step s (record s { place = polling previous })
    polled :
        {previous latest : Option ℤ} {w : World}
        → s.place ≡ polling previous
        → get_latest_block_number config env s.world ≡ (ok latest, w)
        → Step s (record s { place = poll_place previous latest; world = w })
    poll_failed :
        {previous : Option ℤ} {error : Text} {w : World}
        → s.place ≡ polling previous
        → get_latest_block_number config env s.world ≡ (err error, w)
        → Step s (record s { place = failed error; world = w })

  pub data Reach (s : Loop) : Loop → Type 0 where
    here : Reach s s
    next : {t u : Loop} → Reach s t → Step t u → Reach s u

  -- The loop after the startup.
  abbrev pub looping : World → Loop
  looping w = record { place = starting; stopping = false; world = w }
