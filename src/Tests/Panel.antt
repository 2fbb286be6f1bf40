-- ===== src/Tests/Panel.antt =====
-- Examples for the environment file between panel/src/server/env-store.ts and the runner.
use evm_contract_auditor_hon.Prelude.{
  ℕ, ◌≡◌, ◌≢◌, refl, List, [], ◌∷◌, all, All, not, ◌&&◌, ◌==◌, arith, Bool, true, Text, codes,
}
use evm_contract_auditor_hon.Prelude.Dict.{Dict, insert}
use evm_contract_auditor_hon.Utils.Retry.{ok}
use evm_contract_auditor_hon.Documents.{
  parse_env_file_document, read_line, lines_of, split_lines, is_terminator,
}
use evm_contract_auditor_hon.Utils.Checks.{◌>>=◌}
use evm_contract_auditor_hon.Prelude.Texts.{join, is_space}
use evm_contract_auditor_hon.Panel.EnvStore.Values.{is_key_unit, IsValueUnit}
use evm_contract_auditor_hon.Panel.EnvStore.{
  parse_env_file, serialize_env_file, read_pairs, read_pair, written, escape_quotes, from_entries,
}
use evm_contract_auditor_hon.Panel.EnvStore.RoundTrip.{serialize_env_file-read}

abbrev pairs : List (Text × Text)
pairs =
    (codes "UI_MODE", codes "plain")
    ∷ (codes "EVM_LLM_API_KEY", codes "it's # 1")
    ∷ (codes "RULES_PATH", [])
    ∷ []

key_there : {c : ℕ} {s : Text} → (c ∷ s) ≢ []
key_there h = cc

All-of_all : (p : ℕ → Bool) (s : Text) → all p s ≡ true → All (λ c. p c ≡ true) s
All-of_all p [] h = tt
All-of_all p (c ∷ s) h = (ground arith, All-of_all p s (ground arith))

abbrev is_value_unit : ℕ → Bool
is_value_unit c = not (c == 34) && not (is_terminator c)

All-of_all_not : (s : Text) → all is_value_unit s ≡ true → All IsValueUnit s
All-of_all_not [] h = tt
All-of_all_not (c ∷ s) h = (ground arith, All-of_all_not s (ground arith))

serialize_env_file-read_example :
    (parse_env_file (serialize_env_file pairs) ≡ pairs)
    × (parse_env_file_document (serialize_env_file pairs) ≡ ok (from_entries pairs []))
serialize_env_file-read_example = serialize_env_file-read pairs (
  (key_there, All-of_all is_key_unit (codes "UI_MODE") refl, All-of_all_not (codes "plain") refl),
  (
    (
      key_there,
      All-of_all is_key_unit (codes "EVM_LLM_API_KEY") refl,
      All-of_all_not (codes "it's # 1") refl,
    ),
    ((key_there, All-of_all is_key_unit (codes "RULES_PATH") refl, tt), tt),
  ),
)

abbrev values : Dict Text
values = (codes "UI_MODE", codes "plain") ∷ (codes "EVM_LLM_API_KEY", codes "local") ∷ []

-- A quote comes back with a backslash before it.
escaped :
    parse_env_file (serialize_env_file ((codes "RULE_BIN", codes "a\"b") ∷ []))
    ≡ (codes "RULE_BIN", codes "a\\\"b") ∷ []
unfolding parse_env_file read_pairs lines_of split_lines serialize_env_file join written is_space
    escape_quotes read_pair
escaped = refl

-- A line feed in a value ends its line, and the rest of the value is read as another key.
broken :
    parse_env_file_document
      (serialize_env_file ((codes "RULE_BIN", codes "a\nRPC_HTTP_URL=b") ∷ []))
    ≡ ok ((codes "RULE_BIN", codes "\"a") ∷ (codes "RPC_HTTP_URL", codes "b\"") ∷ [])
unfolding parse_env_file_document serialize_env_file join written escape_quotes ◌>>=◌ read_line
    insert
broken = refl
