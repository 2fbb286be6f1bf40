-- ===== src/ProcessRunner.antt =====
-- runner/src/process_runner.ts: the output of a child process, as far as its limit allows. The events
-- of the child and of the timer come in any order; bytes are numbers.
pub mod Captures
pub mod Output
use evm_contract_auditor_hon.Prelude.{
  ℕ, ◌+◌, List, [], ◌∷◌, ◌++◌, Bool, true, false, Option, none, some, Text, length, ltb,
  if◌then◌else◌,
}
use evm_contract_auditor_hon.Prelude.Texts.{trim}
use evm_contract_auditor_hon.World.{ProcessOutput}

pub data Stream : Type 0 where
  stdout stderr : Stream

pub data Event : Type 0 where
  data_read : Stream → List ℕ → Event
  exited : Option ℕ → Event
  timed_out : Event

-- The variables that `captureChunk` writes.
pub record Captured : Type 0 where
  pub stdout_chunks : List (List ℕ)
  pub stderr_chunks : List (List ℕ)
  pub stdout_bytes : ℕ
  pub stderr_bytes : ℕ
  pub output_limit_exceeded : Bool

abbrev pub nothing_captured : Captured
nothing_captured = record {
  stdout_chunks = [];
  stderr_chunks = [];
  stdout_bytes = 0;
  stderr_bytes = 0;
  output_limit_exceeded = false;
}

abbrev count_bytes : Stream → ℕ → Captured → Captured
count_bytes stdout n c = record c { stdout_bytes = c.stdout_bytes + n }
count_bytes stderr n c = record c { stderr_bytes = c.stderr_bytes + n }

-- `target.push(chunk)`
abbrev push_chunk : Stream → List ℕ → Captured → Captured
push_chunk stdout chunk c = record c { stdout_chunks = c.stdout_chunks ++ chunk ∷ [] }
push_chunk stderr chunk c = record c { stderr_chunks = c.stderr_chunks ++ chunk ∷ [] }

-- What follows the counting; the kill of the child is an event of its own.
abbrev keep_chunk : ℕ → Stream → List ℕ → Captured → Captured
keep_chunk max_output_bytes stream chunk c =
    if ltb max_output_bytes (c.stdout_bytes + c.stderr_bytes)
    then record c { output_limit_exceeded = true }
    else push_chunk stream chunk c

unfoldable pub capture_chunk : ℕ → Stream → List ℕ → Captured → Captured
capture_chunk max_output_bytes stream chunk c =
    if c.output_limit_exceeded
    then c
    else keep_chunk max_output_bytes stream chunk (count_bytes stream (length chunk) c)

abbrev pub concat : List (List ℕ) → List ℕ
concat [] = []
concat (chunk ∷ chunks) = chunk ++ concat chunks

-- `utf8` is `Buffer.toString("utf8")`.
abbrev output_of : (List ℕ → Text) → Option ℕ → Bool → Captured → ProcessOutput
output_of utf8 code late c = record {
  code = code;
  timed_out = late;
  output_limit_exceeded = c.output_limit_exceeded;
  stdout = trim (utf8 (concat c.stdout_chunks));
  stderr = trim (utf8 (concat c.stderr_chunks));
}

-- The first exit or timeout settles the promise; without one there is no result.
unfoldable pub run : (List ℕ → Text) → ℕ → List Event → Captured → Option ProcessOutput
unfolding capture_chunk
run utf8 max_output_bytes [] c = none
run utf8 max_output_bytes (data_read stream chunk ∷ events) c =
    run utf8 max_output_bytes events (capture_chunk max_output_bytes stream chunk c)
run utf8 max_output_bytes (exited code ∷ events) c = some (output_of utf8 code false c)
run utf8 max_output_bytes (timed_out ∷ events) c = some (output_of utf8 none true c)
