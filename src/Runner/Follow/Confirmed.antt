-- ===== src/Runner/Follow/Confirmed.antt =====
-- What the loop of `runRunner` of runner/src/runner.ts has processed, and where it waits for ever.
use mathlib.Core.Path.{subst}
use evm_contract_auditor_hon.Prelude.{
  ℕ, ◌+◌, ◌≤◌, ◌≡◌, refl, sym, ap, [], Bool, true, false, Option, none, some, arith, ◌⊎◌, inl, inr,
  Bool-cases, leb, ltb→lt, ◌-◌, if◌then◌else◌,
}
use evm_contract_auditor_hon.Prelude.Int.{
  ℤ, pos, negsuc, sub_ℕ, pos_part, neg_part, ◌-ℤ◌, ◌+ℤ◌, ◌≤ℤ◌, ltb_ℤ,
}
use evm_contract_auditor_hon.Types.Config.{RunnerConfig, CliOptions}
use evm_contract_auditor_hon.Types.Audit.{RunnerRuntime}
use evm_contract_auditor_hon.Types.Checkpoint.{RunnerCheckpoint}
use evm_contract_auditor_hon.Utils.Hex.{hex_to_number}
use evm_contract_auditor_hon.Utils.Retry.{ok}
use evm_contract_auditor_hon.World.{World, Env}
use evm_contract_auditor_hon.World.Keeps.{Keeps-pure, Keeps-bind}
use evm_contract_auditor_hon.Client.{get_latest_block_number}
use evm_contract_auditor_hon.Client.Frame.{Keeps-request}
use evm_contract_auditor_hon.Webhook.{has_url}
use evm_contract_auditor_hon.Runner.Range.Progress.{ReachedBlock, process_range-ReachedBlock}
use evm_contract_auditor_hon.Runner.Follow.Socket.{wait_for_next_latest_block_ws-newer}
use evm_contract_auditor_hon.Runner.Follow.{
  is_newer, Place, starting, heading, ranged, listening, polling, finished, failed, Loop, due, Step,
  signalled, started, start_failed, stopped, nothing_due, range_done, range_failed, ends, waits,
  announced, unheard, polled, poll_failed, Reach, here, next, looping,
}

-- The block is the last processed one, it is in the file, and it has the confirmations.
abbrev pub IsProcessed : RunnerConfig → Option ℤ → World → Type 0
IsProcessed config none w = ⊥
IsProcessed config (some latest) w =
    (n : ℕ) × (w.checkpoint.last_processed_block ≡ pos n)
    × (w.saved ≡ some w.checkpoint)
    × (pos (n + config.confirmations) ≤ℤ latest)

module _ (config : RunnerConfig) (w₀ : World) where
  -- Nothing has been processed since the startup, or what has been is confirmed.
  abbrev pub IsConfirmed : Option ℤ → World → Type 0
  IsConfirmed latest w = (w.checkpoint ≡ w₀.checkpoint) ⊎ IsProcessed config latest w

  abbrev pub IsFollowed : Place → World → Type 0
  IsFollowed starting w = w.checkpoint ≡ w₀.checkpoint
  IsFollowed (heading latest) w = IsConfirmed latest w
  IsFollowed (ranged latest) w = IsConfirmed latest w
  IsFollowed (listening latest) w = IsConfirmed latest w
  IsFollowed (polling latest) w = IsConfirmed latest w
  IsFollowed (finished latest) w = IsConfirmed latest w
  IsFollowed (failed error) w = Unit

  IsConfirmed-newer :
      (previous latest : Option ℤ) (w : World)
      → is_newer latest previous ≡ true
      → IsConfirmed previous w
      → IsConfirmed latest w
  IsConfirmed-newer none none w newer h = cc
  IsConfirmed-newer none (some l) w newer h = cc
  IsConfirmed-newer (some p) none w newer h = cc
  IsConfirmed-newer (some p) (some l) w newer (inl h) = inl h
  IsConfirmed-newer (some p) (some l) w newer (inr (n, last, written, deep)) =
      inr (n, last, written, ground arith)

module _ (config : RunnerConfig) (env : Env) (w₀ : World) where
  next_id-IsConfirmed :
      (previous : Option ℤ) (w : World)
      → IsConfirmed config w₀ previous w
      → IsConfirmed config w₀ previous (record w { id = w.id + 1 })
  next_id-IsConfirmed none w h = h
  next_id-IsConfirmed (some p) w h = h

  -- Asking for the number of the latest block leaves what the loop has processed.
  IsConfirmed-get_latest_block_number :
      (previous latest : Option ℤ) (w w' : World)
      → get_latest_block_number config env w ≡ (ok latest, w')
      → IsConfirmed config w₀ previous w
      → IsConfirmed config w₀ previous w'
  unfolding get_latest_block_number
  IsConfirmed-get_latest_block_number previous latest w w' e h =
      subst (IsConfirmed config w₀ previous) (ap (λ p. p.1) e) (
        (Keeps-bind {P = IsConfirmed config w₀ previous} _ _
            (Keeps-request config (IsConfirmed config w₀ previous) (next_id-IsConfirmed previous) _
              _)
            (λ t. Keeps-pure (hex_to_number t))).at
          w h)

if_some : (b : Bool) (x y : ℤ) → (if b then some x else none) ≡ some y → (b ≡ true) × (x ≡ y)
if_some true x y h = (refl, cc)
if_some false x y h = cc

pos_injective : (m n : ℕ) → pos m ≡ pos n → m ≡ n
pos_injective m n h = ap pos_part h

-- What a difference that is a natural number says.
sub_ℕ-pos : (a b n : ℕ) → sub_ℕ a b ≡ pos n → a ≡ n + b
sub_ℕ-pos a b n h = elim (Bool-cases (leb b a)) [
  | inl le ↦
      let e =
        pos_injective _ _
          (subst (λ c. (if c then pos (a - b) else negsuc (b - a - 1)) ≡ pos n) le h) in
      ground arith
  | inr gt ↦ cc (subst (λ c. (if c then pos (a - b) else negsuc (b - a - 1)) ≡ pos n) gt h)
]

sub-pos : (l : ℤ) (c n : ℕ) → l -ℤ pos c ≡ pos n → pos (n + c) ≤ℤ l
unfolding ◌-ℤ◌
sub-pos l c n h = omega (arith, sub_ℕ-pos (pos_part l + 0) (neg_part l + c) n h)

below-pos :
    (last : ℤ) (from to : ℕ) → ltb_ℤ last (pos to) ≡ true → last +ℤ pos 1 ≡ pos from → from ≤ to
unfolding ◌+ℤ◌
below-pos last from to h e =
    omega (arith, sub_ℕ-pos (pos_part last + 1) (neg_part last + 0) from e, ltb→lt _ _ h)

module _ (config : RunnerConfig) (env : Env) (options : CliOptions) (runtime : RunnerRuntime)
    (w₀ : World) where
  due-IsConfirmed :
      (latest : Option ℤ) (w w' : World) (to : ℕ)
      → due config env options runtime latest w.checkpoint ≡ some (pos to)
      → ReachedBlock to w'
      → IsConfirmed config w₀ latest w'
  due-IsConfirmed none w w' to d r = cc
  due-IsConfirmed (some latest) w w' to d r =
      inr (to, r.last_block, r.written, sub-pos latest config.confirmations to (if_some _ _ _ d).1)

  due-below :
      (latest : Option ℤ) (c : RunnerCheckpoint) (from to : ℕ)
      → due config env options runtime latest c ≡ some (pos to)
      → c.last_processed_block +ℤ pos 1 ≡ pos from
      → from ≤ to
  due-below none c from to d f = cc
  due-below (some latest) c from to d f =
      let (below, same) = if_some _ _ _ d in
      below-pos c.last_processed_block from to
        (subst (λ n. ltb_ℤ c.last_processed_block n ≡ true) same below) f

  either-IsFollowed :
      (b : Bool) (p q : Place) (w : World)
      → IsFollowed config w₀ p w
      → IsFollowed config w₀ q w
      → IsFollowed config w₀ (if b then p else q) w
  either-IsFollowed true p q w h k = h
  either-IsFollowed false p q w h k = k

  Step-IsFollowed :
      (s t : Loop)
      → IsFollowed config w₀ s.place s.world
      → Step config env options runtime s t
      → IsFollowed config w₀ t.place t.world
  Step-IsFollowed s t h signalled = h
  Step-IsFollowed s t h (started {latest = latest} p e) =
      IsConfirmed-get_latest_block_number config env w₀ latest latest s.world _ e
        (inl (subst (λ q. IsFollowed config w₀ q s.world) p h))
  Step-IsFollowed s t h (start_failed p e) = tt
  Step-IsFollowed s t h (stopped p e) = subst (λ q. IsFollowed config w₀ q s.world) p h
  Step-IsFollowed s t h (nothing_due p e d) = subst (λ q. IsFollowed config w₀ q s.world) p h
  Step-IsFollowed s t h (range_done {latest = latest} {from = from} {to = to} p e d f r) =
      due-IsConfirmed latest s.world _ to d (
        process_range-ReachedBlock config env options runtime from to s.world _
          (due-below latest s.world.checkpoint from to d f) r)
  Step-IsFollowed s t h (range_failed p e d f r) = tt
  Step-IsFollowed s t h (ends p e) = subst (λ q. IsFollowed config w₀ q s.world) p h
  Step-IsFollowed s t h (waits {latest = latest} p e) =
      either-IsFollowed (has_url config.rpc_ws_url) (listening latest) (polling latest) s.world
        (subst (λ q. IsFollowed config w₀ q s.world) p h)
        (subst (λ q. IsFollowed config w₀ q s.world) p h)
  Step-IsFollowed s t h (announced {previous = previous} {latest = latest} events p e) =
      IsConfirmed-newer config w₀ previous (some latest) s.world
        (wait_for_next_latest_block_ws-newer previous [] events latest e)
        (subst (λ q. IsFollowed config w₀ q s.world) p h)
  Step-IsFollowed s t h (unheard events p e) = subst (λ q. IsFollowed config w₀ q s.world) p h
  Step-IsFollowed s t h (polled {previous = previous} {latest = latest} {w = w'} p e) =
      let kept =
        IsConfirmed-get_latest_block_number config env w₀ previous latest s.world _ e
          (subst (λ q. IsFollowed config w₀ q s.world) p h) in
      elim (Bool-cases (is_newer latest previous)) [
        | inl newer ↦
            subst (λ b. IsFollowed config w₀ (if b then heading latest else polling previous) w')
              (sym newer) (IsConfirmed-newer config w₀ previous latest _ newer kept)
        | inr older ↦
            subst (λ b. IsFollowed config w₀ (if b then heading latest else polling previous) w')
              (sym older) kept
      ]
  Step-IsFollowed s t h (poll_failed p e) = tt

  -- In every state of the loop that has not thrown, the checkpoint is that of the startup, or the
  -- file holds it, and its last processed block has the configured confirmations under a number
  -- that the node or the socket gave.
  pub loop-IsFollowed :
      {t : Loop}
      → Reach config env options runtime (looping config env options runtime w₀) t
      → IsFollowed config w₀ t.place t.world
  loop-IsFollowed here = refl
  loop-IsFollowed (next r step) = Step-IsFollowed _ _ (loop-IsFollowed r) step
