-- ===== src/Lease.antt =====
-- runner/src/lease.ts: the lock file that keeps a second runner off a state directory. Several
-- processes start at any time, and each call on the file is one step. A process is known by its
-- pid; `process.kill(pid, 0)` tells whether it still runs.
pub mod Exclusion
pub mod Recovery
use evm_contract_auditor_hon.Prelude.{
  ℕ, ◌≡◌, Bool, true, false, Option, none, some, ◌==◌, if◌then◌else◌,
}

pub record LeaseRecord : Type 0 where
  pub pid : ℕ
  pub acquired_at : ℕ

-- The file: who created it, and what was written to it since. A process that has the file open
-- writes to the file that it created, also after another process has removed it.
pub record LockFile : Type 0 where
  pub creator : ℕ
  pub content : Option LeaseRecord

-- Where a process is in `acquire`: before it; after `open` of its attempt; after EEXIST; after it
-- found the owner gone; after `rm`; with the lease; after an error; or ended.
pub data Phase : Type 0 where
  idle writing reading removing retrying holding failed ended : Phase

-- `isProcessRunning`. A process that has not started counts as running, and no process identifier is
-- given to a second process.
abbrev pub is_process_running : Phase → Bool
is_process_running ended = false
is_process_running _ = true

-- The recovery of a stale lock removes a file that another process created.
pub data Kind : Type 0 where
  ordinary recovery : Kind

abbrev pub created : ℕ → LockFile
created p = record { creator = p; content = none }

-- The call that process `p` makes, the file before and after it, and its phases.
pub data Move (running : ℕ → Bool) (p : ℕ)
    : Kind → Option LockFile → Phase → Option LockFile → Phase → Type 0 where
  -- `open(lockPath, "wx")`
  opened : Move running p ordinary none idle (some (created p)) writing
  exists : {f : LockFile} → Move running p ordinary (some f) idle (some f) reading
  -- `handle.writeFile`
  written :
      {f : LockFile} {now : ℕ}
      → f.creator ≡ p
      → Move running p ordinary
          (some f)
          writing
          (some (record f { content = some (record { pid = p; acquired_at = now }) }))
          holding
  written_elsewhere :
      {f : LockFile}
      → (f.creator == p) ≡ false
      → Move running p ordinary (some f) writing (some f) holding
  written_unlinked : Move running p ordinary none writing none holding
  write_failed : {file : Option LockFile} → Move running p ordinary file writing file failed
  -- `readLockOwner` and `isProcessRunning`
  unlinked : Move running p ordinary none reading none failed
  unreadable :
      {f : LockFile} → f.content ≡ none → Move running p ordinary (some f) reading (some f) failed
  owner_runs :
      {f : LockFile} {r : LeaseRecord}
      → f.content ≡ some r
      → running r.pid ≡ true
      → Move running p ordinary (some f) reading (some f) failed
  owner_ended :
      {f : LockFile} {r : LeaseRecord}
      → f.content ≡ some r
      → running r.pid ≡ false
      → Move running p ordinary (some f) reading (some f) removing
  -- `rm(lockPath, { force: true })`, and the second attempt
  removed : {file : Option LockFile} → Move running p recovery file removing none retrying
  opened_again : Move running p ordinary none retrying (some (created p)) writing
  exists_again : {f : LockFile} → Move running p ordinary (some f) retrying (some f) failed
  -- `release`
  released : {file : Option LockFile} → Move running p ordinary file holding none idle
  -- the process is killed
  killed : {file : Option LockFile} {phase : Phase} → Move running p ordinary file phase file ended

pub record System : Type 0 where
  pub file : Option LockFile
  pub phase : ℕ → Phase

abbrev pub at : ℕ → Phase → (ℕ → Phase) → ℕ → Phase
at p a phase q = if p == q then a else phase q

pub data Step (k : Kind) (s : System) : System → Type 0 where
  by :
      (p : ℕ) {file : Option LockFile} {phase : Phase}
      → Move (λ q. is_process_running (s.phase q)) p k s.file (s.phase p) file phase
      → Step k s (record { file = file; phase = at p phase s.phase })

-- The states that steps of the allowed kinds lead to.
pub data Reach (allowed : Kind → Bool) (s : System) : System → Type 0 where
  here : Reach allowed s s
  next :
      {t u : System} {k : Kind}
      → Reach allowed s t
      → allowed k ≡ true
      → Step k t u
      → Reach allowed s u

abbrev pub fresh : System
fresh = record { file = none; phase = λ p. idle }

abbrev pub without_recovery : Kind → Bool
without_recovery ordinary = true
without_recovery recovery = false

abbrev pub any_kind : Kind → Bool
any_kind k = true
