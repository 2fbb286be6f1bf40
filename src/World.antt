-- ===== src/World.antt =====
-- The state that the runner's calls share, and the calls' sequence. A call is an action: it takes
-- the world and gives a value or an error with the world that it leaves (runner/src/runner.ts and
-- the modules that it calls). What another party decides is a parameter: the answers of the
-- Ethereum node, of the webhook's server, of the file system and of the clock are functions of the
-- number of calls made so far, so that no two of them need agree.
pub mod Keeps
pub mod Gives
use evm_contract_auditor_hon.Prelude.{
  ℕ, ◌+◌, ◌≡◌, refl, List, [], ◌∷◌, ◌++◌, Bool, Option, some, none, Text, codes,
}
use evm_contract_auditor_hon.Prelude.Json.{Json}
use evm_contract_auditor_hon.Prelude.Dict.{Dict}
use evm_contract_auditor_hon.Types.Proxy.{ProxyResolution}
use evm_contract_auditor_hon.Types.Audit.{AuditApiJson, AuditJob, AuditResult, SubprocessMode}
use evm_contract_auditor_hon.Types.Checkpoint.{RunnerCheckpoint, Limits}
use evm_contract_auditor_hon.Types.Events.{WebhookEvent, RunSummary}
use evm_contract_auditor_hon.Types.Rpc.{DetectedDeployment, RpcBlock, RpcReceipt, RpcTransaction}
use evm_contract_auditor_hon.Utils.Retry.{Result, ok, err, Exec}

-- A file under the directory of artifacts.
pub data ArtifactFile : Type 0 where
  audit : AuditResult → ArtifactFile
  deployment : DetectedDeployment → ProxyResolution → Text → ArtifactFile

-- `metrics` of runner/src/http_health.ts, as far as the runner writes them.
pub record Metrics : Type 0 where
  pub queue_depth : ℕ
  pub audits_total : ℕ
  pub audit_errors_total : ℕ

-- `id` is the counter of `JsonRpcClient`, `ticks` counts the other outside calls, `saved` is
-- checkpoint.json, `artifacts` are the files by their paths, and `posted` lists the events whose
-- POST was answered with a success, the oldest first.
pub record World : Type 0 where
  pub checkpoint : RunnerCheckpoint
  pub summary : RunSummary
  pub metrics : Metrics
  pub id : ℕ
  pub ticks : ℕ
  pub saved : Option RunnerCheckpoint
  pub artifacts : Dict ArtifactFile
  pub posted : List WebhookEvent

abbrev pub M : Type 0 → Type 0
M A = Exec World A

module _ {A : Type 0} where
  unfoldable pub pure : A → M A
  pure a w = (ok a, w)

  unfoldable pub throw : Text → M A
  throw message w = (err message, w)

unfoldable pub modify : (World → World) → M (Unit {0})
modify f w = (ok tt, f w)

unfoldable pub get_checkpoint : M RunnerCheckpoint
get_checkpoint w = (ok w.checkpoint, w)

-- `Object.assign(checkpoint, next)`
unfoldable pub assign_checkpoint : RunnerCheckpoint → M (Unit {0})
assign_checkpoint c w = (ok tt, record w { checkpoint = c })

unfoldable pub count : (RunSummary → RunSummary) → M (Unit {0})
count f w = (ok tt, record w { summary = f w.summary })

unfoldable pub measure : (Metrics → Metrics) → M (Unit {0})
measure f w = (ok tt, record w { metrics = f w.metrics })

module _ {A B : Type 0} where
  abbrev pub continue : Result A → (A → M B) → M B
  continue (ok a) f w = f a w
  continue (err message) f w = (err message, w)

  infixl 10 ◌>>=◌
  unfoldable pub ◌>>=◌ : M A → (A → M B) → M B
  unfolding pure throw modify get_checkpoint assign_checkpoint count
  ◌>>=◌ m f w = let (r, w') = m w in continue r f w'

  infixl 10 ◌>>◌
  abbrev pub ◌>>◌ : M A → M B → M B
  m >> n = m >>= λ _. n

module _ {B : Type 0} where
  abbrev pub handle : Result B → (Text → M B) → M B
  handle (ok b) handler w = (ok b, w)
  handle (err message) handler w = handler message w

  -- `try { m } catch (error) { handler(error) }`
  unfoldable pub try_catch : M B → (Text → M B) → M B
  try_catch m handler w = let (r, w') = m w in handle r handler w'

module _ {A : Type 0} where
  -- `for (const item of items) { await body(item); }`
  unfoldable pub for_each : List A → (A → M (Unit {0})) → M (Unit {0})
  unfolding pure
  for_each [] body = pure tt
  for_each (x ∷ xs) body = body x >>= λ _. for_each xs body

-- What the node sends back to one request: nothing (the connection failed, with a message), a
-- status that is not a success, an error object, or a result.
pub data Response (A : Type 0) : Type 0 where
  no_answer : Text → Response A
  http_status : ℕ → Response A
  rpc_error : Option Text → Response A
  result : A → Response A

-- The node. The first argument is the identifier of the request.
pub record Node : Type 0 where
  pub chain_id : ℕ → Response Text
  pub block_number : ℕ → Response Text
  pub block_by_number : ℕ → ℕ → Bool → Response (Option RpcBlock)
  pub transaction_receipt : ℕ → Text → Response (Option RpcReceipt)
  pub transaction_by_hash : ℕ → Text → Response (Option RpcTransaction)
  pub code : ℕ → Text → ℕ → Response (Option Text)
  pub storage_at : ℕ → Text → Text → ℕ → Response (Option Text)
  pub call : ℕ → Text → Text → ℕ → Response (Option Text)
  pub debug_trace_block_by_number : ℕ → ℕ → Response (List Json)
  pub trace_block : ℕ → ℕ → Response (List Json)

-- What the server of the webhook answers.
pub data PostAnswer : Type 0 where
  unreachable : Text → PostAnswer
  answered : ℕ → PostAnswer

-- What a run of the auditor's process ended with. `code` is null where a signal ended it.
pub record ProcessOutput : Type 0 where
  pub code : Option ℕ
  pub timed_out : Bool
  pub output_limit_exceeded : Bool
  pub stdout : Text
  pub stderr : Text

-- The other parties. `run_process` is the auditor's process, `parse_api_json` what
-- `parseAuditApiJson` makes of its output, `json_size` the length of `JSON.stringify` of a document
-- and `result_size` that of a result. The first argument of each function is the number of outside calls so far.
pub record Env : Type 0 where
  pub node : Node
  pub now : ℕ → ℕ
  pub post : ℕ → WebhookEvent → PostAnswer
  pub write_file : ℕ → Result (Unit {0})
  pub sha256 : Text → Text
  pub run_process : ℕ → SubprocessMode → AuditJob → Result ProcessOutput
  pub parse_api_json : Text → Result AuditApiJson
  pub json_size : AuditApiJson → ℕ
  pub result_size : AuditResult → ℕ

unfoldable pub read_clock : Env → M ℕ
read_clock env w = (ok (env.now w.ticks), record w { ticks = w.ticks + 1 })
