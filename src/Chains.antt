-- ===== src/Chains.antt =====
-- runner/src/chains.ts: chains.json and the chains that it lists.
pub mod Listed
use evm_contract_auditor_hon.Prelude.{
  ℕ, ◌+◌, List, [], ◌∷◌, ◌++◌, Bool, true, false, ◌&&◌, ◌||◌, not, Option, none, some, Text, codes,
  length, leb, ltb, ◌==◌, if◌then◌else◌, text_eq, any, all, find?,
}
use evm_contract_auditor_hon.Prelude.Int.{ℤ, pos, negsuc}
use evm_contract_auditor_hon.Prelude.Json.{
  Json, null, bool, number, text, array, object, Members, Items, nil, cons, get, integer,
}
use evm_contract_auditor_hon.Prelude.Texts.{starts_with, trim}
use evm_contract_auditor_hon.Utils.Retry.{Result, ok, err}
use evm_contract_auditor_hon.Utils.Checks.{◌>>=◌, ◌>>◌, require}

pub record ChainEntry : Type 0 where
  pub slug : Text
  pub name : Text
  pub enabled : Bool
  pub rpc_http_url : Text
  pub rpc_ws_url : Option Text
  pub start_block : Option ℕ
  pub confirmations : Option ℕ
  pub webhook_url : Option Text
  pub webhook_auth_header : Option Text
  pub rules_path : Option Text

abbrev is_slug_start : ℕ → Bool
is_slug_start c = (leb b'a' c && leb c b'z') || (leb b'0' c && leb c b'9')

abbrev is_slug_unit : ℕ → Bool
is_slug_unit c = is_slug_start c || (c == b'-')

-- `CHAIN_SLUG_PATTERN`
unfoldable pub is_chain_slug : Text → Bool
is_chain_slug [] = false
is_chain_slug (c ∷ s) = is_slug_start c && leb (length s) 40 && all is_slug_unit s

-- `/^https?:\/\//` and `/^wss?:\/\//`
unfoldable pub is_http_url : Text → Bool
unfolding starts_with
is_http_url s = starts_with (codes "http://") s || starts_with (codes "https://") s

unfoldable pub is_ws_url : Text → Bool
unfolding starts_with
is_ws_url s = starts_with (codes "ws://") s || starts_with (codes "wss://") s

abbrev invalid_field : Text → Text → Text
invalid_field context key = codes "invalid_chains_field:" ++ context ++ codes "." ++ key

abbrev ok_unless_empty : Text → Text → Result Text
ok_unless_empty [] message = err message
ok_unless_empty (c ∷ s) message = ok (c ∷ s)

unfoldable pub require_string : Members → Text → Text → Result Text
unfolding get trim
require_string obj key context = elim (get key obj) [
  | some (text t) ↦ ok_unless_empty (trim t) (invalid_field context key)
  | _ ↦ err (invalid_field context key)
]

unfoldable pub optional_string : Members → Text → Text → Result (Option Text)
unfolding get trim
optional_string obj key context = elim (get key obj) [
  | none ↦ ok none
  | some null ↦ ok none
  | some (text []) ↦ ok none
  | some (text (c ∷ s)) ↦ ok (some (trim (c ∷ s)))
  | some _ ↦ err (invalid_field context key)
]

unfoldable pub optional_int : Members → Text → Text → Result (Option ℕ)
unfolding get
optional_int obj key context = elim (get key obj) [
  | none ↦ ok none
  | some null ↦ ok none
  | some (text []) ↦ ok none
  | some (number (integer (pos n))) ↦ ok (some n)
  | some _ ↦ err (invalid_field context key)
]

-- `raw.enabled === undefined ? true : raw.enabled === true`
abbrev enabled_of : Option Json → Bool
enabled_of none = true
enabled_of (some (bool b)) = b
enabled_of (some _) = false

-- An absent or empty URL is false.
abbrev pub absent_or : (Text → Bool) → Option Text → Bool
absent_or test none = true
absent_or test (some []) = true
absent_or test (some (c ∷ s)) = test (c ∷ s)

-- The body of the loop; `seen` are the slugs before.
unfoldable pub parse_entry : List Text → Json → Result ChainEntry
parse_entry seen (object raw) = do
  slug ← require_string raw (codes "slug") (codes "chain")
  require (is_chain_slug slug) (codes "invalid_chains_slug:" ++ slug)
  require (not (any (text_eq slug) seen)) (codes "duplicate_chains_slug:" ++ slug)
  rpc_http_url ← require_string raw (codes "rpcHttpUrl") slug
  require (is_http_url rpc_http_url) (codes "invalid_chains_rpc:" ++ slug)
  rpc_ws_url ← optional_string raw (codes "rpcWsUrl") slug
  require (absent_or is_ws_url rpc_ws_url) (codes "invalid_chains_ws:" ++ slug)
  name ← require_string raw (codes "name") slug
  start_block ← optional_int raw (codes "startBlock") slug
  confirmations ← optional_int raw (codes "confirmations") slug
  webhook_url ← optional_string raw (codes "webhookUrl") slug
  webhook_auth_header ← optional_string raw (codes "webhookAuthHeader") slug
  rules_path ← optional_string raw (codes "rulesPath") slug
  ok (record {
    slug = slug;
    name = name;
    enabled = enabled_of (get (codes "enabled") raw);
    rpc_http_url = rpc_http_url;
    rpc_ws_url = rpc_ws_url;
    start_block = start_block;
    confirmations = confirmations;
    webhook_url = webhook_url;
    webhook_auth_header = webhook_auth_header;
    rules_path = rules_path;
  })
parse_entry seen _ = err (codes "invalid_chains_entry")

unfoldable pub parse_entries : List Text → Items → Result (List ChainEntry)
parse_entries seen nil = ok []
parse_entries seen (cons raw rest) = do
  entry ← parse_entry seen raw
  entries ← parse_entries (entry.slug ∷ seen) rest
  ok (entry ∷ entries)

abbrev is_version_one : Option Json → Bool
is_version_one (some (number (integer (pos n)))) = n == 1
is_version_one _ = false

abbrev pub chains_of : Option Json → Result (List ChainEntry)
chains_of (some (array xs)) = parse_entries [] xs
chains_of _ = err (codes "invalid_chains_list")

abbrev pub parse_document : Option Json → Result (List ChainEntry)
parse_document none = err (codes "invalid_chains_json")
parse_document (some (object doc)) =
    require (is_version_one (get (codes "version") doc)) (codes "invalid_chains_version")
    >> chains_of (get (codes "chains") doc)
parse_document (some _) = err (codes "invalid_chains_shape")

-- `json` is `JSON.parse`, with `none` where it throws.
unfoldable pub parse_chains_document : (Text → Option Json) → Text → Result (List ChainEntry)
unfolding get
parse_chains_document json content = parse_document (json content)

abbrev pub found_or_unknown : Text → Option ChainEntry → Result ChainEntry
found_or_unknown slug none = err (codes "unknown_chain_slug:" ++ slug)
found_or_unknown slug (some c) = ok c

unfoldable pub select_chain : List ChainEntry → Text → Result ChainEntry
unfolding find?
select_chain entries slug = found_or_unknown slug (find? (λ c. text_eq c.slug slug) entries)

-- What reading chains.json gives: no such file, another error, or its text.
pub data ChainsFile : Type 0 where
  missing : ChainsFile
  unreadable : Text → ChainsFile
  content : Text → ChainsFile

unfoldable pub load_chains_file :
    (Text → Option Json) → ChainsFile → Result (Option (List ChainEntry))
load_chains_file json missing = ok none
load_chains_file json (unreadable message) = err message
load_chains_file json (content t) = do entries ← parse_chains_document json t; ok (some entries)
