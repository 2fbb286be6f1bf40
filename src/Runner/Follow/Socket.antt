-- ===== src/Runner/Follow/Socket.antt =====
-- What the socket of runner/src/rpc.ts announces.
use mathlib.Core.Path.{subst}
use evm_contract_auditor_hon.Prelude.{
  ◌≡◌, ap, List, [], ◌∷◌, Bool, true, Option, none, some, Text, inl, inr, Bool-cases, if◌then◌else◌,
}
use evm_contract_auditor_hon.Prelude.Int.{ℤ}
use evm_contract_auditor_hon.Runner.Follow.{
  is_newer, SocketEvent, received, socket_error, timer_fired, wait_for_next_latest_block_ws,
  resolve_newer, number_for, named_by, resolved, Wait,
}

-- What a message leads to, once it is known what the later events lead to.
module _ (previous : Option ℤ) (latest : ℤ) (later : Wait) where
  resolved-newer :
      (n : Option ℤ)
      → (later ≡ resolved latest → is_newer (some latest) previous ≡ true)
      → (elim (resolve_newer previous n) [ some l ↦ resolved l | none ↦ later ]) ≡ resolved latest
      → is_newer (some latest) previous ≡ true
  resolved-newer none again k = again k
  resolved-newer (some n) again k = elim (Bool-cases (is_newer (some n) previous)) [
    | inl newer ↦ subst (λ l. is_newer (some l) previous ≡ true) (same newer) newer
    | inr older ↦ again (subst (λ b. followed b ≡ resolved latest) older k)
  ]
    where
      followed : Bool → Wait
      followed b = elim (if b then some n else none) [ some l ↦ resolved l | none ↦ later ]

      number_of : Wait → ℤ
      number_of (resolved l) = l
      number_of _ = latest

      same : is_newer (some n) previous ≡ true → n ≡ latest
      same newer = ap number_of (subst (λ b. followed b ≡ resolved latest) newer k)

-- The socket resolves with a number that is newer than the one before.
pub wait_for_next_latest_block_ws-newer :
    (previous : Option ℤ) (id : Text) (events : List SocketEvent) (latest : ℤ)
    → wait_for_next_latest_block_ws previous id events ≡ resolved latest
    → is_newer (some latest) previous ≡ true
unfolding wait_for_next_latest_block_ws
wait_for_next_latest_block_ws-newer previous id [] latest h = cc
wait_for_next_latest_block_ws-newer previous id (socket_error ∷ events) latest h = cc
wait_for_next_latest_block_ws-newer previous id (timer_fired ∷ events) latest h = cc
wait_for_next_latest_block_ws-newer previous id (received none ∷ events) latest h = cc
wait_for_next_latest_block_ws-newer previous id (received (some m) ∷ events) latest h =
    by_name (named_by m id)
      (λ new_id. wait_for_next_latest_block_ws-newer previous new_id events latest) h
  where
    by_name :
        (o : Option Text)
        → ((i : Text)
            → wait_for_next_latest_block_ws previous i events ≡ resolved latest
            → is_newer (some latest) previous ≡ true)
        → (elim o [
          | some new_id ↦ wait_for_next_latest_block_ws previous new_id events
          | none ↦ elim (resolve_newer previous (number_for id m.params)) [
            | some l ↦ resolved l
            | none ↦ wait_for_next_latest_block_ws previous id events
          ]
        ])
          ≡ resolved latest
        → is_newer (some latest) previous ≡ true
    by_name (some new_id) again k = again new_id k
    by_name none again k = resolved-newer previous latest _ (number_for id m.params) (again id) k
