-- ===== src/Documents/Shapes.antt =====
-- runner/src/schemas.ts: what is checked of the auditor's output and of a checkpoint's file. Members
-- that are not checked stay as they are.
use evm_contract_auditor_hon.Prelude.{
  Bool, true, false, ◌&&◌, not, Option, none, some, Text, codes, text_eq,
}
use evm_contract_auditor_hon.Prelude.Json.{Json, null, bool, number, text, array, object, get}
use evm_contract_auditor_hon.Utils.Retry.{Result, ok}
use evm_contract_auditor_hon.Utils.Checks.{◌>>=◌, ◌>>◌, require}

-- `isRecord`: arrays are records too.
unfoldable pub is_record : Option Json → Bool
is_record (some (object ms)) = true
is_record (some (array xs)) = true
is_record _ = false

-- `value.key` of a value that is not null; only an object has the members that are asked for.
abbrev member_at : Text → Option Json → Option Json
member_at key (some (object ms)) = get key ms
member_at key _ = none

abbrev is_text : Option Json → Bool
is_text (some (text t)) = true
is_text _ = false

abbrev is_number : Option Json → Bool
is_number (some (number n)) = true
is_number _ = false

abbrev is_bool : Option Json → Bool
is_bool (some (bool b)) = true
is_bool _ = false

abbrev is_array : Option Json → Bool
is_array (some (array xs)) = true
is_array _ = false

abbrev is_the_text : Text → Option Json → Bool
is_the_text s (some (text t)) = text_eq t s
is_the_text s _ = false

-- Reading a member of null throws.
abbrev is_null : Json → Bool
is_null null = true
is_null _ = false

-- The checks after `JSON.parse`.
unfoldable pub check_audit_api_json : Json → Result Json
unfolding text_eq get
check_audit_api_json parsed = do
  require (not (is_null parsed)) (codes "null is not an object")
  require (is_the_text (codes "evm-audit.api.v2") (member_at (codes "schema") (some parsed)))
      (codes "invalid_auditor_schema")
  require (is_text (member_at (codes "schema_version") (some parsed)))
      (codes "invalid_auditor_schema_version")
  let input = member_at (codes "input") (some parsed)
  require
      (is_record input
        && is_text (member_at (codes "kind") input)
        && is_text (member_at (codes "value") input))
      (codes "invalid_auditor_input")
  let analysis = member_at (codes "analysis") (some parsed)
  require (is_record analysis) (codes "invalid_auditor_analysis")
  require (is_bool (member_at (codes "matched") analysis)) (codes "invalid_auditor_analysis")
  require
      (is_number (member_at (codes "finding_count") analysis)
        && is_number (member_at (codes "raw_match_count") analysis))
      (codes "invalid_auditor_analysis")
  require (is_array (member_at (codes "findings") (some parsed))) (codes "invalid_auditor_findings")
  require (is_record (member_at (codes "diagnostics") (some parsed)))
      (codes "invalid_auditor_diagnostics")
  ok parsed

-- `json` is `JSON.parse`, with its error.
unfoldable pub parse_audit_api_json_document : (Text → Result Json) → Text → Result Json
parse_audit_api_json_document json stdout = do parsed ← json stdout; check_audit_api_json parsed

unfoldable pub validate_checkpoint_document : Json → Result Json
unfolding text_eq get
validate_checkpoint_document value = do
  require (is_record (some value)) (codes "invalid_checkpoint")
  require (is_the_text (codes "2") (member_at (codes "checkpointVersion") (some value)))
      (codes "invalid_checkpoint_version")
  require
      (is_number (member_at (codes "chainId") (some value))
        && is_number (member_at (codes "lastProcessedBlock") (some value)))
      (codes "invalid_checkpoint_header")
  require
      (is_array (member_at (codes "history") (some value))
        && is_record (member_at (codes "resultCache") (some value))
        && is_record (member_at (codes "deliveredEvents") (some value))
        && is_record (member_at (codes "pendingWebhookEvents") (some value)))
      (codes "invalid_checkpoint_shape")
  ok value
