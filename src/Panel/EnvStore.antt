-- ===== src/Panel/EnvStore.antt =====
-- panel/src/server/env-store.ts: the panel reads and writes the environment file of the runner.
pub mod Texts
pub mod Values
pub mod RoundTrip
pub mod Redacted
use evm_contract_auditor_hon.Prelude.{
  ℕ, zero, suc, ◌+◌, ◌-◌, List, [], ◌∷◌, ◌++◌, map, Bool, true, false, ◌&&◌, ◌||◌, not, any, Option,
  none, some, Text, codes, length, take, drop, ◌==◌, if◌then◌else◌, text_eq,
}
use evm_contract_auditor_hon.Prelude.Dict.{Dict, lookup, insert, remove}
use evm_contract_auditor_hon.Prelude.Texts.{
  trim, starts_with, ends_with, index_of, slice, is_space, join,
}
use evm_contract_auditor_hon.Documents.{split_lines, lines_of}

-- A pair of a key and a value is `(key, value)`.
abbrev pub without_quotes : Text → Text
without_quotes value =
    if (starts_with (codes "\"") value && ends_with (codes "\"") value)
      || (starts_with (codes "'") value && ends_with (codes "'") value)
    then slice 1 (length value - 1) value
    else value

-- `eq <= 0` is no key.
abbrev pub pair_at : Text → Option ℕ → Option (Text × Text)
pair_at line none = none
pair_at line (some zero) = none
pair_at line (some (suc n)) =
    some (trim (take (suc n) line), without_quotes (trim (drop (suc n + 1) line)))

-- One round of the loop, on a line that is trimmed.
unfoldable pub read_pair : Text → Option (Text × Text)
unfolding index_of trim starts_with ends_with
read_pair [] = none
read_pair (c ∷ s) = if c == b'#' then none else pair_at (c ∷ s) (index_of (codes "=") (c ∷ s))

abbrev pub add_pair : Option (Text × Text) → List (Text × Text) → List (Text × Text)
add_pair none pairs = pairs
add_pair (some p) pairs = p ∷ pairs

unfoldable pub read_pairs : List Text → List (Text × Text)
read_pairs [] = []
read_pairs (raw ∷ rest) = add_pair (read_pair (trim raw)) (read_pairs rest)

unfoldable pub parse_env_file : Text → List (Text × Text)
parse_env_file content = read_pairs (lines_of (split_lines content))

-- `/[\s#"']/`
abbrev pub is_quotable : ℕ → Bool
is_quotable c = is_space c || (c == b'#') || (c == b'"') || (c == b'\'')

-- `value.replace(/"/g, '\\"')`
unfoldable pub escape_quotes : Text → Text
escape_quotes [] = []
escape_quotes (c ∷ s) = if c == b'"' then b'\\' ∷ c ∷ escape_quotes s else c ∷ escape_quotes s

unfoldable pub written : Text → Text
written value = if any is_quotable value then b'"' ∷ escape_quotes value ++ b'"' ∷ [] else value

abbrev pub line_for : Text × Text → Text
line_for (key, value) = key ++ b'=' ∷ written value

unfoldable pub serialize_env_file : List (Text × Text) → Text
serialize_env_file pairs = join (10 ∷ []) (map line_for pairs) ++ 10 ∷ []

-- `Object.fromEntries`
abbrev pub from_entries : List (Text × Text) → Dict Text → Dict Text
from_entries [] d = d
from_entries ((key, value) ∷ rest) d = from_entries rest (insert key value d)

-- The text is `none` where the file is not there or cannot be read.
unfoldable pub read_env_all : Option Text → Dict Text
read_env_all none = []
read_env_all (some content) = from_entries (parse_env_file content) []

-- `ENV_FIELD_BY_KEY[key]?.secret` of panel/src/server/env-schema.ts
unfoldable pub is_secret : Text → Bool
is_secret key = text_eq key (codes "WEBHOOK_AUTH_HEADER") || text_eq key (codes "EVM_LLM_API_KEY")

abbrev pub secret_mask : Text
secret_mask = codes "***"

abbrev mask_value : Text → Text → Text
mask_value key [] = []
mask_value key (c ∷ s) = if is_secret key then secret_mask else c ∷ s

unfoldable pub read_env_redacted : Dict Text → Dict Text
read_env_redacted [] = []
read_env_redacted ((key, value) ∷ rest) = (key, mask_value key value) ∷ read_env_redacted rest

pub record DiffEntry : Type 0 where
  pub key : Text
  pub before : Option Text
  pub after : Option Text
  pub secret : Bool

-- The values of a patch as texts, with `none` for null and undefined.
abbrev pub incoming_of : Option Text → Option Text
incoming_of (some (c ∷ s)) = some (c ∷ s)
incoming_of _ = none

abbrev pub same_value : Option Text → Option Text → Bool
same_value none none = true
same_value (some s) (some t) = text_eq s t
same_value _ _ = false

abbrev pub add_diff : Text → Option Text → Option Text → List DiffEntry → List DiffEntry
add_diff key incoming existing diffs =
    if is_secret key && same_value incoming (some secret_mask)
    then diffs
    else if same_value incoming existing
    then diffs
    else record { key = key; before = existing; after = incoming; secret = is_secret key } ∷ diffs

unfoldable pub diff_env : List (Text × Option Text) → Dict Text → List DiffEntry
diff_env [] current = []
diff_env ((key, value) ∷ patch) current =
    let rest = diff_env patch current in add_diff key (incoming_of value) (lookup key current) rest

abbrev pub apply_diffs : List DiffEntry → Dict Text → Dict Text
apply_diffs [] values = values
apply_diffs (d ∷ diffs) values =
    apply_diffs diffs (elim d.after [ none ↦ remove d.key values | some v ↦ insert d.key v values ])

-- The keys that the file has, in its order.
unfoldable pub known_pairs : List (Text × Text) → List Text → Dict Text → List (Text × Text)
unfolding lookup text_eq
known_pairs [] seen values = []
known_pairs ((key, old) ∷ rest) seen values =
    let skip = known_pairs rest seen values in
    let keep = known_pairs rest (key ∷ seen) values in
    if any (text_eq key) seen
    then skip
    else elim (lookup key values) [ none ↦ skip | some v ↦ (key, v) ∷ keep ]

-- The keys that the file does not have.
unfoldable pub new_pairs : List Text → Dict Text → List (Text × Text)
unfolding text_eq
new_pairs seen [] = []
new_pairs seen ((key, value) ∷ rest) =
    let later = new_pairs seen rest in
    if any (text_eq key) seen then later else (key, value) ∷ later

abbrev keys_of : List (Text × Text) → List Text
keys_of [] = []
keys_of ((key, value) ∷ rest) = key ∷ keys_of rest

abbrev merge : List (Text × Text) → Dict Text → List (Text × Text)
merge existing values =
    known_pairs existing [] values ++ new_pairs (keys_of (known_pairs existing [] values)) values

abbrev existing_pairs : Option Text → List (Text × Text)
existing_pairs none = []
existing_pairs (some content) = parse_env_file content

-- The changes, and the text that replaces the file.
unfoldable pub apply_patch_atomic : List (Text × Option Text) → Option Text → List DiffEntry × Text
apply_patch_atomic patch file =
    let current = read_env_all file in
    let diffs = diff_env patch current in
    (diffs, serialize_env_file (merge (existing_pairs file) (apply_diffs diffs current)))
