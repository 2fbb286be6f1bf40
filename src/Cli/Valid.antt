-- ===== src/Cli/Valid.antt =====
-- What the options that runner/src/cli.ts accepts satisfy.
use mathlib.Core.Path.{subst}
use evm_contract_auditor_hon.Prelude.{
  ◌≡◌, refl, List, [], ◌∷◌, true, false, not, Option, none, some, Text, codes, arith, ◌⊎◌, inl, inr,
  if◌then◌else◌, Bool-cases,
}
use evm_contract_auditor_hon.Prelude.Int.{ℤ, pos, ◌≤ℤ◌, ltb_ℤ, ◌+ℤ◌, ◌-ℤ◌}
use evm_contract_auditor_hon.Types.Config.{CliOptions, ReplayRange}
use evm_contract_auditor_hon.Utils.Retry.{ok, err, ok-injective}
use evm_contract_auditor_hon.Utils.Checks.{◌>>=◌, >>=-ok, require-ok, require-true}
use evm_contract_auditor_hon.Chains.{is_chain_slug}
use evm_contract_auditor_hon.Cli.{
  parse_required_integer, Flag, rules, unknown, flag_of, takes_value, split_colon, replay_range_of,
  set_value, set_switch, with_value, value_fault, parse_args, validate_cli_options, defaults,
  parse_cli, not_negative, range_not_negative, not_both, chain_fits,
}

-- The value, if there is one, satisfies `P`.
abbrev pub Each : {A : Type 0} → (A → Type 0) → Option A → Type 0
Each P none = Unit
Each P (some a) = P a

-- The blocks of the range, both ends included.
abbrev span : ReplayRange → ℤ
span r = r.to -ℤ r.from +ℤ pos 1

abbrev InOrder : ReplayRange → Type 0
InOrder r = (r.from ≤ℤ r.to) × (span r ≤ℤ pos 10000)

pub record IsValid (o : CliOptions) : Type 0 where
  pub start : Each (λ n. pos 0 ≤ℤ n) o.start_block
  pub replay : Each (λ n. pos 0 ≤ℤ n) o.replay_block
  pub range : Each (λ r. (pos 0 ≤ℤ r.from) × InOrder r) o.replay_range
  pub exclusive : (o.replay_block ≡ none) ⊎ (o.replay_range ≡ none)
  pub slug : Each (λ s. is_chain_slug s ≡ true) o.chain

not_less : (a b : ℤ) → not (ltb_ℤ a b) ≡ true → b ≤ℤ a
not_less a b h = ground arith

replay_range_of-InOrder :
    (parts : List Text) (r : ReplayRange) → replay_range_of (some 10000) parts ≡ ok r → InOrder r
unfolding replay_range_of
replay_range_of-InOrder [] r h = cc
replay_range_of-InOrder ([] ∷ parts) r h = cc
replay_range_of-InOrder ((a ∷ f) ∷ []) r h = cc
replay_range_of-InOrder ((a ∷ f) ∷ [] ∷ parts) r h = cc
replay_range_of-InOrder ((a ∷ f) ∷ (b ∷ t) ∷ parts) r h =
    let (from, _, h₁) = >>=-ok _ _ h in
    let (to, _, h₂) = >>=-ok _ _ h₁ in
    let (ordered, h₃) = require-ok _ _ _ h₂ in
    let (short, h₄) = require-ok _ _ _ h₃ in
    subst InOrder (ok-injective h₄) (not_less to from ordered, not_less (pos 10000) _ short)

-- What the loop keeps.
record IsKept (o : CliOptions) : Type 0 where
  limit : o.max_replay_range_blocks ≡ some 10000
  range : Each InOrder o.replay_range

set_value-IsKept :
    (flag : Flag) (value : Text) (o p : CliOptions)
    → IsKept o
    → set_value flag value o ≡ ok p
    → IsKept p
unfolding set_value
set_value-IsKept Flag.env_file value o p k h =
    subst IsKept (ok-injective h) (record { limit = k.limit; range = k.range })
set_value-IsKept rules value o p k h =
    subst IsKept (ok-injective h) (record { limit = k.limit; range = k.range })
set_value-IsKept Flag.chain value o p k h =
    subst IsKept (ok-injective h) (record { limit = k.limit; range = k.range })
set_value-IsKept Flag.start_block value o p k h =
    let (n, _, h₁) = >>=-ok (parse_required_integer (codes "--start-block") value) _ h in
    subst IsKept (ok-injective h₁) (record { limit = k.limit; range = k.range })
set_value-IsKept Flag.replay_block value o p k h =
    let (n, _, h₁) = >>=-ok (parse_required_integer (codes "--replay-block") value) _ h in
    subst IsKept (ok-injective h₁) (record { limit = k.limit; range = k.range })
set_value-IsKept Flag.replay_range value o p k h =
    let (r, e, h₁) = >>=-ok (replay_range_of o.max_replay_range_blocks (split_colon value)) _ h in
    let e' = subst (λ m. replay_range_of m (split_colon value) ≡ ok r) k.limit e in
    subst IsKept (ok-injective h₁)
      (record { limit = k.limit; range = replay_range_of-InOrder (split_colon value) r e' })
set_value-IsKept Flag.once value o p k h = subst IsKept (ok-injective h) k
set_value-IsKept Flag.dry_run_webhook value o p k h = subst IsKept (ok-injective h) k
set_value-IsKept Flag.no_webhook value o p k h = subst IsKept (ok-injective h) k
set_value-IsKept unknown value o p k h = subst IsKept (ok-injective h) k

with_value-IsKept :
    (arg value : Text) (o p : CliOptions) → IsKept o → with_value arg value o ≡ ok p → IsKept p
with_value-IsKept arg [] o p k h = cc
with_value-IsKept arg (c ∷ s) o p k h = set_value-IsKept (flag_of arg) (c ∷ s) o p k h

set_switch-IsKept :
    (flag : Flag) (arg : Text) (o p : CliOptions)
    → IsKept o
    → set_switch flag arg o ≡ ok p
    → IsKept p
unfolding set_switch
set_switch-IsKept Flag.once arg o p k h =
    subst IsKept (ok-injective h) (record { limit = k.limit; range = k.range })
set_switch-IsKept Flag.dry_run_webhook arg o p k h =
    subst IsKept (ok-injective h) (record { limit = k.limit; range = k.range })
set_switch-IsKept Flag.no_webhook arg o p k h =
    subst IsKept (ok-injective h) (record { limit = k.limit; range = k.range })
set_switch-IsKept Flag.env_file arg o p k h = cc
set_switch-IsKept Flag.start_block arg o p k h = cc
set_switch-IsKept Flag.replay_block arg o p k h = cc
set_switch-IsKept Flag.replay_range arg o p k h = cc
set_switch-IsKept rules arg o p k h = cc
set_switch-IsKept Flag.chain arg o p k h = cc
set_switch-IsKept unknown arg o p k h = cc

parse_args-IsKept :
    (argv : List Text) (o p : CliOptions) → IsKept o → parse_args argv o ≡ ok p → IsKept p
unfolding parse_args
parse_args-IsKept [] o p k h = subst IsKept (ok-injective h) k
parse_args-IsKept (arg ∷ []) o p k h = elim (Bool-cases (takes_value (flag_of arg))) [
  | inl taken ↦ cc (
      subst (λ b. (if b then err (value_fault arg) else set_switch (flag_of arg) arg o) ≡ ok p)
        taken h)
  | inr alone ↦ set_switch-IsKept (flag_of arg) arg o p k (
      subst (λ b. (if b then err (value_fault arg) else set_switch (flag_of arg) arg o) ≡ ok p)
        alone h)
]
parse_args-IsKept (arg ∷ value ∷ rest) o p k h = elim (Bool-cases (takes_value (flag_of arg))) [
  | inl taken ↦
      let (q, e, h₁) =
        >>=-ok (with_value arg value o) (λ next. parse_args rest next)
          (subst
            (λ b.
              elim b [
                | true ↦ with_value arg value o >>= λ next. parse_args rest next
                | false ↦ set_switch (flag_of arg) arg o >>= λ next. parse_args (value ∷ rest) next
              ]
              ≡ ok p)
            taken h) in
      parse_args-IsKept rest q p (with_value-IsKept arg value o q k e) h₁
  | inr alone ↦
      let (q, e, h₁) =
        >>=-ok (set_switch (flag_of arg) arg o) (λ next. parse_args (value ∷ rest) next)
          (subst
            (λ b.
              elim b [
                | true ↦ with_value arg value o >>= λ next. parse_args rest next
                | false ↦ set_switch (flag_of arg) arg o >>= λ next. parse_args (value ∷ rest) next
              ]
              ≡ ok p)
            alone h) in
      parse_args-IsKept (value ∷ rest) q p (set_switch-IsKept (flag_of arg) arg o q k e) h₁
]

not_negative_sound : (o : Option ℤ) → not_negative o ≡ true → Each (λ n. pos 0 ≤ℤ n) o
not_negative_sound none h = tt
not_negative_sound (some n) h = not_less n (pos 0) h

range_sound :
    (o : Option ReplayRange)
    → range_not_negative o ≡ true
    → Each InOrder o
    → Each (λ r. (pos 0 ≤ℤ r.from) × InOrder r) o
range_sound none h k = tt
range_sound (some r) h k = (not_less r.from (pos 0) (ground arith), k)

not_both_sound :
    (o : Option ℤ) (r : Option ReplayRange) → not_both o r ≡ true → (o ≡ none) ⊎ (r ≡ none)
not_both_sound none r h = inl refl
not_both_sound (some n) none h = inr refl
not_both_sound (some n) (some r) h = cc

chain_fits_sound : (o : Option Text) → chain_fits o ≡ true → Each (λ s. is_chain_slug s ≡ true) o
chain_fits_sound none h = tt
chain_fits_sound (some s) h = h

-- If the command line is accepted, block numbers are not negative, a range of blocks runs upwards
-- and has 10,000 blocks at most, a single block and a range are not both asked for, and the name
-- of a chain has the form of a slug.
pub parse_cli-IsValid : (argv : List Text) (o : CliOptions) → parse_cli argv ≡ ok o → IsValid o
unfolding parse_cli validate_cli_options
parse_cli-IsValid argv o h =
    let (p, e, h₁) = >>=-ok (parse_args argv defaults) _ h in
    let (_, v, h₂) = >>=-ok _ _ h₁ in
    let (start, v₁) = require-ok _ _ _ v in
    let (replay, v₂) = require-ok _ _ _ v₁ in
    let (range, v₃) = require-ok _ _ _ v₂ in
    let (both, v₄) = require-ok _ _ _ v₃ in
    let kept = parse_args-IsKept argv defaults p (record { limit = refl; range = tt }) e in
    subst IsValid (ok-injective h₂) (record {
      start = not_negative_sound p.start_block start;
      replay = not_negative_sound p.replay_block replay;
      range = range_sound p.replay_range range kept.range;
      exclusive = not_both_sound p.replay_block p.replay_range both;
      slug = chain_fits_sound p.chain (require-true _ _ v₄);
    })
