-- ===== src/Tests/Startup.antt =====
-- Examples for the command line, chains.json and the configuration of runner/src.
use evm_contract_auditor_hon.Prelude.{
  ◌≡◌, refl, List, [], ◌∷◌, ◌++◌, true, Option, none, some, Text, codes, text_eq,
}
use evm_contract_auditor_hon.Prelude.Int.{pos}
use evm_contract_auditor_hon.Prelude.Json.{
  Json, number, text, array, object, nil, cons, end, member, integer,
}
use evm_contract_auditor_hon.Prelude.Dict.{Dict, lookup, insert}
use evm_contract_auditor_hon.Types.Config.{CliOptions}
use evm_contract_auditor_hon.Utils.Retry.{ok}
use evm_contract_auditor_hon.Utils.Checks.{◌>>=◌, require}
use evm_contract_auditor_hon.Chains.{
  ChainEntry, is_chain_slug, is_http_url, parse_entries, parse_entry, require_string,
  optional_string, optional_int, parse_chains_document, select_chain,
}
use evm_contract_auditor_hon.Chains.Listed.{IsAccepted, parse_chains_document-selects}
use evm_contract_auditor_hon.Cli.{
  parse_cli, defaults, parse_args, flag_of, set_value, replay_range_of, split_colon,
  parse_required_integer, set_switch, validate_cli_options,
}
use evm_contract_auditor_hon.Cli.Valid.{IsValid, parse_cli-IsValid}
use evm_contract_auditor_hon.Config.{
  Paths, DraftConfig, content, load_config, draft_of, read_env_file, resolve_chain, validate_config,
  require_non_negative_integer, clamp_positive_integer,
}
use evm_contract_auditor_hon.Documents.{parse_env_file_document, read_line}
use evm_contract_auditor_hon.Config.Usable.{IsUsable, load_config-IsUsable}

abbrev arguments : List Text
arguments =
    codes "--chain" ∷ codes "base" ∷ codes "--replay-range" ∷ codes "5:9" ∷ codes "--once" ∷ []

abbrev parsed : CliOptions
parsed = record defaults {
  chain = some (codes "base");
  replay_range = some (record { from = pos 5; to = pos 9 });
  once = true;
}

parsed_there : parse_cli arguments ≡ ok parsed
unfolding parse_cli ◌>>=◌ parse_args flag_of set_value replay_range_of split_colon
    parse_required_integer require set_switch validate_cli_options is_chain_slug
parsed_there = refl

parse_cli-IsValid_example : IsValid parsed
parse_cli-IsValid_example = parse_cli-IsValid arguments parsed parsed_there

-- Two chains.
abbrev chain_json : Text → Text → Json
chain_json slug url = object (
    member (codes "slug") (text slug)
      (member (codes "name") (text slug) (member (codes "rpcHttpUrl") (text url) end)))

abbrev document : Json
document = object (
    member (codes "version") (number (integer (pos 1))) (
      member (codes "chains")
        (array (
          cons (chain_json (codes "base") (codes "http://a"))
            (cons (chain_json (codes "bsc") (codes "https://b")) nil)))
        end))

abbrev chain_entry : Text → Text → ChainEntry
chain_entry slug url = record {
  slug = slug;
  name = slug;
  enabled = true;
  rpc_http_url = url;
  rpc_ws_url = none;
  start_block = none;
  confirmations = none;
  webhook_url = none;
  webhook_auth_header = none;
  rules_path = none;
}

abbrev base : ChainEntry
base = chain_entry (codes "base") (codes "http://a")

abbrev bsc : ChainEntry
bsc = chain_entry (codes "bsc") (codes "https://b")

document_there :
    parse_chains_document (λ content. some document) (codes "file") ≡ ok (base ∷ bsc ∷ [])
unfolding parse_chains_document ◌>>=◌ require text_eq parse_entries parse_entry require_string
    is_chain_slug is_http_url optional_string optional_int
document_there = refl

parse_chains_document-selects_example :
    IsAccepted [] bsc × (select_chain (base ∷ bsc ∷ []) (codes "bsc") ≡ ok bsc)
parse_chains_document-selects_example =
    parse_chains_document-selects (λ content. some document) (codes "file") (base ∷ bsc ∷ [])
      (base ∷ []) [] bsc document_there refl

-- The second chain, and numbers from the file.
abbrev paths : Paths
paths = record {
  resolve = λ cwd path. cwd ++ codes "/" ++ path;
  join_path = λ dir name. dir ++ codes "/" ++ name;
  dirname = λ path. path;
  is_absolute = λ path. true;
}

abbrev options : CliOptions
options = record defaults { chain = some (codes "bsc") }

abbrev file_env : Dict Text
file_env = (codes "MAX_HISTORY", codes "16") ∷ (codes "CONFIRMATIONS", codes "5") ∷ []

abbrev env : Text → Option Text
env name = lookup name file_env

abbrev loaded : DraftConfig
loaded = draft_of paths (codes "/srv") options env (some bsc)

loaded_there :
    load_config paths
      (codes "/srv")
      options
      (content (codes "MAX_HISTORY=16\nCONFIRMATIONS=\"5\"\n"))
      []
      (ok (some (base ∷ bsc ∷ [])))
    ≡ ok loaded
unfolding load_config ◌>>=◌ require read_env_file parse_env_file_document read_line resolve_chain
    select_chain validate_config draft_of is_http_url insert require_non_negative_integer
    clamp_positive_integer
loaded_there = refl

load_config-IsUsable_example : IsUsable paths loaded
load_config-IsUsable_example =
    load_config-IsUsable paths (codes "/srv") options
      (content (codes "MAX_HISTORY=16\nCONFIRMATIONS=\"5\"\n")) [] (ok (some (base ∷ bsc ∷ [])))
      loaded loaded_there
