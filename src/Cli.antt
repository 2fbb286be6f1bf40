-- ===== src/Cli.antt =====
-- runner/src/cli.ts: the options of the command line. The first two arguments of the process are
-- taken off before.
pub mod Valid
use evm_contract_auditor_hon.Prelude.{
  ℕ, List, [], ◌∷◌, ◌++◌, Bool, true, false, ◌&&◌, ◌||◌, not, Option, none, some, Text, codes, ◌==◌,
  if◌then◌else◌, text_eq,
}
use evm_contract_auditor_hon.Prelude.Int.{ℤ, pos, ◌+ℤ◌, ◌-ℤ◌, ltb_ℤ}
use evm_contract_auditor_hon.Prelude.Texts.{decimal}
use evm_contract_auditor_hon.Types.Config.{CliOptions, ReplayRange}
use evm_contract_auditor_hon.Utils.ParseInt.{parse_int}
use evm_contract_auditor_hon.Utils.Retry.{Result, ok, err}
use evm_contract_auditor_hon.Utils.Checks.{◌>>=◌, ◌>>◌, require}
use evm_contract_auditor_hon.Chains.{is_chain_slug}

-- `parseRequiredInteger` of runner/src/utils.ts
unfoldable pub parse_required_integer : Text → Text → Result ℤ
unfolding parse_int
parse_required_integer name value = elim (parse_int 10 value) [
  | some n ↦ ok n
  | none ↦ err (name ++ codes " must be an integer")
]

-- The cases of the `switch`.
pub data Flag : Type 0 where
  env_file start_block once replay_block replay_range : Flag
  dry_run_webhook no_webhook rules chain unknown : Flag

unfoldable pub flag_of : Text → Flag
unfolding text_eq
flag_of arg =
    if text_eq arg (codes "--env-file") || text_eq arg (codes "--config")
    then Flag.env_file
    else if text_eq arg (codes "--start-block")
    then Flag.start_block
    else if text_eq arg (codes "--once")
    then Flag.once
    else if text_eq arg (codes "--replay-block")
    then Flag.replay_block
    else if text_eq arg (codes "--replay-range")
    then Flag.replay_range
    else if text_eq arg (codes "--dry-run-webhook")
    then Flag.dry_run_webhook
    else if text_eq arg (codes "--no-webhook")
    then Flag.no_webhook
    else if text_eq arg (codes "--rules")
    then rules
    else if text_eq arg (codes "--chain")
    then Flag.chain
    else unknown

-- The flags that take the next argument.
abbrev pub takes_value : Flag → Bool
takes_value Flag.env_file = true
takes_value Flag.start_block = true
takes_value Flag.replay_block = true
takes_value Flag.replay_range = true
takes_value rules = true
takes_value Flag.chain = true
takes_value _ = false

-- `value.split(":")`, of which the first two parts are read.
unfoldable pub split_colon : Text → List Text
split_colon [] = [] ∷ []
split_colon (c ∷ s) = elim (split_colon s) [
  | [] ↦ []
  | part ∷ parts ↦ if c == b':' then [] ∷ part ∷ parts else (c ∷ part) ∷ parts
]

abbrev span_limit : Option ℕ → ℕ
span_limit none = 10000
span_limit (some n) = n

abbrev pub range_fault : Text
range_fault = codes "--replay-range must be <from>:<to>"

-- The case of `--replay-range` after the split.
unfoldable pub replay_range_of : Option ℕ → List Text → Result ReplayRange
unfolding ◌+ℤ◌ ◌-ℤ◌
replay_range_of limit ((a ∷ from_raw) ∷ (b ∷ to_raw) ∷ parts) = do
  from ← parse_required_integer (codes "--replay-range.from") (a ∷ from_raw)
  to ← parse_required_integer (codes "--replay-range.to") (b ∷ to_raw)
  require (not (ltb_ℤ to from)) (codes "--replay-range to must be >= from")
  require (not (ltb_ℤ (pos (span_limit limit)) (to -ℤ from +ℤ pos 1)))
      (codes "--replay-range exceeds max span of " ++ decimal (span_limit limit) ++ codes " blocks")
  ok (record { from = from; to = to })
replay_range_of limit _ = err range_fault

-- The case of a flag with its value, which is not empty.
unfoldable pub set_value : Flag → Text → CliOptions → Result CliOptions
set_value Flag.env_file value o = ok (record o { env_file = some value })
set_value Flag.start_block value o = do
  n ← parse_required_integer (codes "--start-block") value
  ok (record o { start_block = some n })
set_value Flag.replay_block value o = do
  n ← parse_required_integer (codes "--replay-block") value
  ok (record o { replay_block = some n })
set_value Flag.replay_range value o = do
  range ← replay_range_of o.max_replay_range_blocks (split_colon value)
  ok (record o { replay_range = some range })
set_value rules value o = ok (record o { rules_path = some value })
set_value Flag.chain value o = ok (record o { chain = some value })
set_value _ value o = ok o

-- The case of a flag without a value.
unfoldable pub set_switch : Flag → Text → CliOptions → Result CliOptions
set_switch Flag.once arg o = ok (record o { once = true })
set_switch Flag.dry_run_webhook arg o = ok (record o { dry_run_webhook = true })
set_switch Flag.no_webhook arg o = ok (record o { no_webhook = true })
set_switch _ arg o = err (codes "unknown flag: " ++ arg)

abbrev pub value_fault : Text → Text
value_fault arg = arg ++ codes " requires a value"

-- An absent value is undefined, which is false as the empty text is.
abbrev pub with_value : Text → Text → CliOptions → Result CliOptions
with_value arg [] o = err (value_fault arg)
with_value arg (c ∷ s) o = set_value (flag_of arg) (c ∷ s) o

-- The loop over the arguments.
unfoldable pub parse_args : List Text → CliOptions → Result CliOptions
parse_args [] o = ok o
parse_args (arg ∷ []) o =
    if takes_value (flag_of arg) then err (value_fault arg) else set_switch (flag_of arg) arg o
parse_args (arg ∷ value ∷ rest) o = elim (takes_value (flag_of arg)) [
  | true ↦ with_value arg value o >>= λ next. parse_args rest next
  | false ↦ set_switch (flag_of arg) arg o >>= λ next. parse_args (value ∷ rest) next
]

abbrev pub not_negative : Option ℤ → Bool
not_negative none = true
not_negative (some n) = not (ltb_ℤ n (pos 0))

abbrev pub range_not_negative : Option ReplayRange → Bool
range_not_negative none = true
range_not_negative (some r) = not (ltb_ℤ r.from (pos 0) || ltb_ℤ r.to (pos 0))

abbrev pub not_both : Option ℤ → Option ReplayRange → Bool
not_both (some n) (some r) = false
not_both _ _ = true

abbrev pub chain_fits : Option Text → Bool
chain_fits none = true
chain_fits (some slug) = is_chain_slug slug

unfoldable pub validate_cli_options : CliOptions → Result (Unit {0})
validate_cli_options o = do
  require (not_negative o.start_block) (codes "--start-block must be >= 0")
  require (not_negative o.replay_block) (codes "--replay-block must be >= 0")
  require (range_not_negative o.replay_range) (codes "--replay-range values must be >= 0")
  require (not_both o.replay_block o.replay_range)
      (codes "--replay-block and --replay-range are mutually exclusive")
  require (chain_fits o.chain) (codes "--chain must match ^[a-z0-9][a-z0-9-]{0,40}$")

abbrev pub defaults : CliOptions
defaults = record {
  env_file = none;
  start_block = none;
  once = false;
  replay_block = none;
  replay_range = none;
  max_replay_range_blocks = some 10000;
  dry_run_webhook = false;
  no_webhook = false;
  rules_path = none;
  chain = none;
}

unfoldable pub parse_cli : List Text → Result CliOptions
parse_cli argv = do o ← parse_args argv defaults; validate_cli_options o; ok o
