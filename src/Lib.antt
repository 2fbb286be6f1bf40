-- ===== src/Lib.antt =====
-- The runner of the honeypot and vulnerability auditor (runner/src). It follows a chain block by block
-- through an Ethereum node, finds the contracts that each block creates, resolves the proxies among
-- them, has the auditor's process examine their code, reports over a webhook, and keeps a checkpoint.
--
-- Parts, and the code each is about:
--   Prelude       numbers, lists, texts (UTF-16 units), dictionaries and JSON values
--   Types         runner/src/types.ts
--   State         runner/src/state.ts: the checkpoint's operations, pruning, saving and artifacts
--   Utils         runner/src/utils.ts: hexadecimal text, integers, transient errors, retry;
--                 Utils/Checks: checks that throw
--   Chains        runner/src/chains.ts
--   Cli           runner/src/cli.ts
--   Documents     runner/src/schemas.ts: parseEnvFileDocument; Documents/Shapes: the checks of the
--                 auditor's output and of the checkpoint
--   Config        runner/src/config.ts, with the numbers' checks of runner/src/utils.ts
--   Lease         runner/src/lease.ts: the lock file between processes
--   ProcessRunner runner/src/process_runner.ts: the output of a child
--   World         the state that the calls share and the actions on it
--   Client        runner/src/rpc.ts: requests with retries, and the node's methods
--   Traces        runner/src/rpc.ts: creations in the node's traces
--   Bytecode      runner/src/bytecode_validation.ts
--   Proxy         runner/src/proxy.ts: resolveProxy; Proxy/Targets: buildAdditionalAuditTargets
--   Webhook       runner/src/webhook.ts
--   Emit          runner/src/runner.ts: emitEvent, and StateStore.save as an action
--   Auditor       runner/src/auditor.ts
--   Runner        runner/src/runner.ts: Ids (buildCacheKey), Detect (detectDeployments), Results (the
--                 audit of one target, emitAuditEvents), Process (processDeployment), Reorg
--                 (ensureReorgSafeCheckpoint), Range (processRange), Replay
--                 (replayPendingWebhookEvents), Bounded (runBounded), Follow (the loop of
--                 runRunner, and the waits for the next block of runner/src/rpc.ts)
--   Panel         panel/src/server/env-store.ts: the runner's environment file, as the panel
--                 reads and writes it; Panel/Abi: panel/src/server/sim/abi.ts, the encoder
--   Tests         examples at concrete values
-- A function keeps its name in snake case. processRange calls ensureReorgSafeCheckpoint,
-- detectDeployments and processDeployment; these call the client, the proxy resolution, the
-- auditor and emitEvent, and all of them share one World. loadConfig reads the environment, its file
-- and, through the chains, chains.json, under the options that parseCli gives.
--
-- How the program is read. A call is an action on the World that returns or throws; what it wrote
-- before an error stays written. The answers of the node, the webhook's server, the file system,
-- the clock, the auditor's process and the hash are functions in Env and Node, which may answer
-- anything and differently each time, by the number of calls so far. Times are milliseconds; the
-- readings of the clock inside one synchronous function are one reading. Calls that the program
-- starts together are made one after the other; how runBounded interleaves them is in
-- Runner/Bounded, for any worker. The lease is a step relation too: each call on the lock file by
-- any process is a step. So is the loop of runRunner, in which a signal may come between any two
-- steps; one processRange is a step there. Objects with string keys are dictionaries in their order
-- of insertion, without the special order of keys that are numbers; letter case is that of ASCII.
-- Numbers are exact.
--
-- Bounds. retry and processRange count down the rounds that their `for` has left, so no result
-- depends on fuel. The writing of a number in a radix takes the number itself plus one as fuel,
-- which is more than it has digits.
--
-- Not modelled: log lines and the terminal; the headers of the webhook; the arguments of the
-- process and its temporary file; the paths of the configuration's files; the health probes and
-- the startup of runRunner; the reading of the auditor's output as a record, which Env stands for;
-- the rest of the panel; the auditor in go and evm_*.
pub mod Prelude
pub mod Types
pub mod State
pub mod Utils
pub mod World
pub mod Client
pub mod Bytecode
pub mod Proxy
pub mod Webhook
pub mod Emit
pub mod Traces
pub mod Auditor
pub mod Runner
pub mod Chains
pub mod Cli
pub mod Documents
pub mod Config
pub mod ProcessRunner
pub mod Panel
pub mod Lease
pub mod Tests
