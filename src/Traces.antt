-- ===== src/Traces.antt =====
-- The trace readers of runner/src/rpc.ts: the contracts that internal calls create.
use evm_contract_auditor_hon.Prelude.{
  List, [], ◌∷◌, ◌++◌, true, false, Option, none, some, Text, codes, text_eq, if◌then◌else◌,
}
use evm_contract_auditor_hon.Prelude.Json.{
  Json, text, array, object, Items, nil, cons, Members, end, member, get,
}
use evm_contract_auditor_hon.Prelude.Texts.{to_upper, to_lower}
use evm_contract_auditor_hon.Types.Rpc.{TraceCreateDeployment, CreateKind, create, create2}
use evm_contract_auditor_hon.Utils.Hex.{hex_prefix, normalize_hex}

-- The members of what `asRecord` accepts; an array is accepted too, and none of the keys that are
-- read stands in it.
unfoldable pub as_record : Option Json → Option Members
as_record (some (object ms)) = some ms
as_record (some (array xs)) = some end
as_record _ = none

unfoldable pub as_string : Option Json → Option Text
as_string (some (text t)) = some t
as_string _ = none

abbrev or_else : Option Text → Option Text → Option Text
or_else none o = o
or_else (some t) o = some t

abbrev or_text : Option Text → Text → Text
or_text none t = t
or_text (some s) t = s

-- An absent or empty text is false.
abbrev pub truthy : Option Text → Option Text
truthy none = none
truthy (some []) = none
truthy (some (c ∷ s)) = some (c ∷ s)

-- The field `key` of a record, if it is a text.
abbrev pub string_at : Text → Members → Option Text
string_at key ms = as_string (get key ms)

abbrev kind_of : Text → Option CreateKind
kind_of kind =
    if text_eq kind (codes "CREATE2")
    then some create2
    else if text_eq kind (codes "CREATE")
    then some create
    else none

-- The deployment that one frame of the call tracer stands for.
unfoldable pub created_by_frame :
    Text → Members → Option CreateKind → Option Text → List TraceCreateDeployment
created_by_frame tx_hash ms (some kind) (some created) =
    record {
      tx_hash = tx_hash;
      from = or_text (string_at (codes "from") ms) hex_prefix;
      to = none;
      created_address = created;
      init_code = normalize_hex (some (or_text (string_at (codes "input") ms) []));
      kind = kind;
    }
    ∷ []
created_by_frame tx_hash ms _ _ = []

abbrev frame_kind : Members → Option CreateKind
frame_kind ms = elim (string_at (codes "type") ms) [ none ↦ none | some t ↦ kind_of (to_upper t) ]

unfoldable pub own_deployment : Text → Members → List TraceCreateDeployment
unfolding created_by_frame
own_deployment tx_hash ms =
    created_by_frame tx_hash ms (frame_kind ms) (truthy (string_at (codes "to") ms))

-- `walkDebugTraceFrame`: the frame's own deployment, and those of its calls in their order.
unfoldable mutual
  unfolding own_deployment

  pub walk_debug_trace_frame : Text → Json → List TraceCreateDeployment
  walk_debug_trace_frame tx_hash (object ms) = own_deployment tx_hash ms ++ walk_calls tx_hash ms
  walk_debug_trace_frame tx_hash _ = []

  -- `frame.calls`, if it is an array
  pub walk_calls : Text → Members → List TraceCreateDeployment
  walk_calls tx_hash end = []
  walk_calls tx_hash (member key v ms) = elim (text_eq key (codes "calls")) [
    | true ↦ walk_array tx_hash v
    | false ↦ walk_calls tx_hash ms
  ]

  pub walk_array : Text → Json → List TraceCreateDeployment
  walk_array tx_hash (array xs) = walk_children tx_hash xs
  walk_array tx_hash _ = []

  pub walk_children : Text → Items → List TraceCreateDeployment
  walk_children tx_hash nil = []
  walk_children tx_hash (cons x xs) = walk_debug_trace_frame tx_hash x ++ walk_children tx_hash xs

abbrev root_of : Members → Members
root_of root = elim (as_record (get (codes "result") root)) [ none ↦ root | some r ↦ r ]

abbrev hash_of : Members → Option Text
hash_of root =
    truthy (or_else (string_at (codes "txHash") root) (string_at (codes "transactionHash") root))

-- One entry of `debug_traceBlockByNumber`.
unfoldable pub from_debug_entry : Json → List TraceCreateDeployment
unfolding as_record as_string walk_debug_trace_frame
from_debug_entry entry = elim (as_record (some entry)) [
  | none ↦ []
  | some root ↦ elim (hash_of root) [
    | none ↦ []
    | some tx_hash ↦ walk_debug_trace_frame tx_hash (object (root_of root))
  ]
]

unfoldable pub extract_create_deployments_from_debug_trace_array :
    List Json → List TraceCreateDeployment
unfolding from_debug_entry
extract_create_deployments_from_debug_trace_array [] = []
extract_create_deployments_from_debug_trace_array (entry ∷ entries) =
    from_debug_entry entry ++ extract_create_deployments_from_debug_trace_array entries

abbrev parity_kind : Members → Option CreateKind
parity_kind ms = elim (string_at (codes "type") ms) [
  | none ↦ none
  | some t ↦
      if text_eq (to_lower t) (codes "create2")
      then some create2
      else if text_eq (to_lower t) (codes "create")
      then some create
      else none
]

abbrev result_address : Members → Option Text
result_address ms = elim (as_record (get (codes "result") ms)) [
  | none ↦ none
  | some r ↦ truthy (string_at (codes "address") r)
]

unfoldable pub parity_deployment :
    Option CreateKind → Option Members → Option Text → Option Text → List TraceCreateDeployment
parity_deployment (some kind) (some action) (some address) (some tx_hash) =
    record {
      tx_hash = tx_hash;
      from = or_text (string_at (codes "from") action) hex_prefix;
      to = string_at (codes "to") action;
      created_address = address;
      init_code = normalize_hex (some (or_text (string_at (codes "init") action) []));
      kind = kind;
    }
    ∷ []
parity_deployment _ _ _ _ = []

-- One entry of `trace_block`.
unfoldable pub from_parity_entry : Json → List TraceCreateDeployment
unfolding as_record as_string parity_deployment
from_parity_entry entry = elim (as_record (some entry)) [
  | none ↦ []
  | some trace ↦
      parity_deployment (parity_kind trace) (as_record (get (codes "action") trace))
        (result_address trace) (truthy (string_at (codes "transactionHash") trace))
]

unfoldable pub extract_create_deployments_from_parity_trace : List Json → List TraceCreateDeployment
unfolding from_parity_entry
extract_create_deployments_from_parity_trace [] = []
extract_create_deployments_from_parity_trace (entry ∷ entries) =
    from_parity_entry entry ++ extract_create_deployments_from_parity_trace entries
