-- ===== src/Lease/Recovery.antt =====
-- What a lock file that another process left does to `acquire` of runner/src/lease.ts.
use mathlib.Core.Path.{subst}
use evm_contract_auditor_hon.Prelude.{
  ℕ, ◌≡◌, ◌≢◌, refl, sym, ◌∙◌, ap, Bool, true, false, Option, none, some, ◌==◌, ==_iff, Bool-cases,
  inl, inr, arith,
}
use evm_contract_auditor_hon.Lease.{
  LeaseRecord, LockFile, Phase, idle, writing, reading, removing, retrying, holding, failed, ended,
  is_process_running, Kind, Move, System, at, Step, by, Reach, here, next, any_kind, opened, exists,
  written, written_elsewhere, written_unlinked, write_failed, unlinked, unreadable, owner_runs,
  owner_ended, removed, opened_again, exists_again, released, killed,
}

at_self : (p : ℕ) (a : Phase) (phase : ℕ → Phase) → at p a phase p ≡ a
at_self p a phase = ground arith

at-other : (p q : ℕ) (a : Phase) (phase : ℕ → Phase) → (p == q) ≡ false → at p a phase q ≡ phase q
at-other p q a phase h = rw h

-- A process takes one more step.
extend :
    {s t : System} {k : Kind} {file : Option LockFile} {a b : Phase} (p : ℕ)
    → Reach any_kind s t
    → t.phase p ≡ a
    → Move (λ q. is_process_running (t.phase q)) p k t.file a file b
    → Reach any_kind s (record { file = file; phase = at p b t.phase })
extend {t} {k} {file} {b} p r e m =
    next r refl
      (by p (subst (λ a. Move (λ q. is_process_running (t.phase q)) p k t.file a file b) (sym e) m))

abbrev pub held_by : ℕ → ℕ → LockFile
held_by p now = record { creator = p; content = some (record { pid = p; acquired_at = now }) }

-- A state that process `p` can bring about, with the lease in its hands.
pub record Acquired (s : System) (p now : ℕ) : Type 0 where
  pub state : System
  pub reach : Reach any_kind s state
  pub holds : state.phase p ≡ holding
  pub file : state.file ≡ some (held_by p now)

module _ (phase : ℕ → Phase) (f : LockFile) (r : LeaseRecord) (p now : ℕ)
    (named : f.content ≡ some r) (gone : phase r.pid ≡ ended) (start : phase p ≡ idle) where
  apart : (p == r.pid) ≡ false
  apart = elim (Bool-cases (p == r.pid)) [
    | inl same ↦
        let e : p ≡ r.pid = (==_iff p r.pid).0 same in
        cc (subst (λ q. phase q ≡ ended) (sym e) gone, start)
    | inr other ↦ other
  ]

  abbrev seen : ℕ → Phase
  seen = at p reading phase

  owner_not_running : is_process_running (seen r.pid) ≡ false
  owner_not_running = ap is_process_running (at-other p r.pid reading phase apart ∙ gone)

  recover : Acquired (record { file = some f; phase = phase }) p now
  recover =
      let r₁ = extend p here start exists in
      let r₂ = extend p r₁ (at_self p reading phase) (owner_ended named owner_not_running) in
      let r₃ = extend p r₂ (at_self p removing seen) removed in
      let r₄ = extend p r₃ (at_self p retrying (at p removing seen)) opened_again in
      let r₅ =
        extend p r₄ (at_self p writing (at p retrying (at p removing seen)))
          (written {now = now} refl) in
      record {
        state = _;
        reach = r₅;
        holds = at_self p holding (at p writing (at p retrying (at p removing seen)));
        file = refl;
      }

-- If the lock names a process that has ended, a process that starts can reach the lease by steps of
-- its own, and the file is then its own and names it.
pub stale_lock-Acquired :
    (s : System) (f : LockFile) (r : LeaseRecord) (p now : ℕ)
    → s.file ≡ some f
    → f.content ≡ some r
    → s.phase r.pid ≡ ended
    → s.phase p ≡ idle
    → Acquired s p now
stale_lock-Acquired s f r p now there named gone start =
    subst (λ file. Acquired (record { file = file; phase = s.phase }) p now) (sym there)
      (recover s.phase f r p now named gone start)

abbrev pub waits : Phase → Bool
waits idle = true
waits reading = true
waits failed = true
waits ended = true
waits _ = false

-- A lock file that nobody wrote to, with nobody past the check of its owner.
pub record IsStuck (s : System) : Type 0 where
  pub file : LockFile
  pub there : s.file ≡ some file
  pub empty : file.content ≡ none
  pub outside : (p : ℕ) → waits (s.phase p) ≡ true

-- A move in such a state leaves the file alone, and the process outside.
record StaysOut (file file' : Option LockFile) (b : Phase) : Type 0 where
  same : file' ≡ file
  out : waits b ≡ true

Move-StaysOut :
    {running : ℕ → Bool} {p : ℕ} {k : Kind} {file file' : Option LockFile} {a b : Phase}
    (f : LockFile)
    → Move running p k file a file' b
    → file ≡ some f
    → f.content ≡ none
    → waits a ≡ true
    → StaysOut file file' b
Move-StaysOut f opened e n w = cc
Move-StaysOut f exists e n w = record { same = refl; out = refl }
Move-StaysOut f (written _) e n w = cc
Move-StaysOut f (written_elsewhere _) e n w = cc
Move-StaysOut f written_unlinked e n w = cc
Move-StaysOut f write_failed e n w = cc
Move-StaysOut f unlinked e n w = cc
Move-StaysOut f (unreadable _) e n w = record { same = refl; out = refl }
Move-StaysOut f (owner_runs _ _) e n w = record { same = refl; out = refl }
Move-StaysOut f (owner_ended c _) e n w = cc (c, n, e)
Move-StaysOut f removed e n w = cc
Move-StaysOut f opened_again e n w = cc
Move-StaysOut f exists_again e n w = cc
Move-StaysOut f released e n w = cc
Move-StaysOut f killed e n w = record { same = refl; out = refl }

Step-IsStuck : {k : Kind} {s t : System} → Step k s t → IsStuck s → IsStuck t
Step-IsStuck {s} (by p {file} {phase} m) stuck =
    let kept = Move-StaysOut stuck.file m stuck.there stuck.empty (stuck.outside p) in
    record {
      file = stuck.file;
      there = kept.same ∙ stuck.there;
      empty = stuck.empty;
      outside = λ q. elim (Bool-cases (p == q)) [
        | inl same ↦ rw same kept.out
        | inr other ↦ rw other (stuck.outside q)
      ];
    }

Reach-IsStuck : {s t : System} → IsStuck s → Reach any_kind s t → IsStuck t
Reach-IsStuck stuck here = stuck
Reach-IsStuck stuck (next r _ st) = Step-IsStuck st (Reach-IsStuck stuck r)

-- A lock file that was created and never written to is never recovered: while no process is past the
-- check of the owner, no later run brings any process the lease, whichever processes start or end.
pub empty_lock-blocks :
    {s t : System} (p : ℕ) → IsStuck s → Reach any_kind s t → t.phase p ≢ holding
empty_lock-blocks p stuck r e = let out = (Reach-IsStuck stuck r).outside p in cc (out, e)
