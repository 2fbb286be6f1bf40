-- ===== src/Lease/Exclusion.antt =====
-- Mutual exclusion by the lock file of runner/src/lease.ts.
use evm_contract_auditor_hon.Prelude.{
  ℕ, ◌≡◌, refl, ap, Bool, true, false, Option, none, some, ◌==◌, if◌then◌else◌, ==_iff, Bool-cases,
  inl, inr, arith,
}
use mathlib.Core.Path.{subst}
use evm_contract_auditor_hon.Lease.{
  LockFile, Phase, writing, holding, Kind, Move, System, Step, by, Reach, here, next, fresh,
  without_recovery, created, opened, exists, written, written_elsewhere, written_unlinked,
  write_failed, unlinked, unreadable, owner_runs, owner_ended, removed, opened_again, exists_again,
  released, killed,
}

-- The phases in which a process has created the file of its attempt and not released it.
abbrev in_lock : Phase → Bool
in_lock writing = true
in_lock holding = true
in_lock _ = false

abbrev Owned : Option LockFile → ℕ → Type 0
Owned file q = (f : LockFile) × (file ≡ some f) × (f.creator ≡ q)

creator_unique : (file : Option LockFile) (p q : ℕ) → Owned file p → Owned file q → p ≡ q
creator_unique none p q (f, e, _) (g, d, _) = cc
creator_unique (some h) p q (f, e, m) (g, d, n) = cc

-- The process that moves, and any other process.
module _ {running : ℕ → Bool} {p : ℕ} where
  Move-own :
      {k : Kind} {file file' : Option LockFile} {a a' : Phase}
      → Move running p k file a file' a'
      → (in_lock a ≡ true → Owned file p)
      → in_lock a' ≡ true
      → Owned file' p
  Move-own opened own h = (created p, refl, refl)
  Move-own opened_again own h = (created p, refl, refl)
  Move-own (written c) own h = (_, refl, c)
  Move-own (written_elsewhere c) own h = own refl
  Move-own written_unlinked own h = own refl
  Move-own exists own h = cc
  Move-own write_failed own h = cc
  Move-own unlinked own h = cc
  Move-own (unreadable _) own h = cc
  Move-own (owner_runs _ _) own h = cc
  Move-own (owner_ended _ _) own h = cc
  Move-own removed own h = cc
  Move-own exists_again own h = cc
  Move-own released own h = cc
  Move-own killed own h = cc

  Move-other :
      {k : Kind} {file file' : Option LockFile} {a a' : Phase}
      → Move running p k file a file' a'
      → without_recovery k ≡ true
      → (in_lock a ≡ true → Owned file p)
      → (q : ℕ) → (p == q) ≡ false
      → Owned file q
      → Owned file' q
  Move-other opened calm own q other (f, e, c) = cc
  Move-other opened_again calm own q other (f, e, c) = cc
  Move-other (written {f} m) calm own q other (g, e, c) = (_, refl, cc (e, c))
  Move-other (released {file}) calm own q other o =
      let same = creator_unique file p q (own refl) o in absurd (ground arith)
  Move-other removed calm own q other o = cc
  Move-other (written_elsewhere _) calm own q other o = o
  Move-other written_unlinked calm own q other o = o
  Move-other exists calm own q other o = o
  Move-other write_failed calm own q other o = o
  Move-other unlinked calm own q other o = o
  Move-other (unreadable _) calm own q other o = o
  Move-other (owner_runs _ _) calm own q other o = o
  Move-other (owner_ended _ _) calm own q other o = o
  Move-other exists_again calm own q other o = o
  Move-other killed calm own q other o = o

-- Every process in the lock created the file that is there.
pub record IsExclusive (s : System) : Type 0 where
  pub owned : (q : ℕ) → in_lock (s.phase q) ≡ true → Owned s.file q

Step-IsExclusive :
    {k : Kind} {s t : System}
    → without_recovery k ≡ true
    → Step k s t
    → IsExclusive s
    → IsExclusive t
Step-IsExclusive {s} calm (by p {file} {phase} m) inv = record {
  owned = λ q h. elim (Bool-cases (p == q)) [
    | inl same ↦
        let e : p ≡ q = (==_iff p q).0 same in
        subst (λ r. Owned file r) e
          (Move-own m (inv.owned p)
            (subst (λ b. in_lock (if b then phase else s.phase q) ≡ true) same h))
    | inr other ↦
        Move-other m calm (inv.owned p) q other
          (inv.owned q (subst (λ b. in_lock (if b then phase else s.phase q) ≡ true) other h))
  ];
}

Reach-IsExclusive : {s : System} → Reach without_recovery fresh s → IsExclusive s
Reach-IsExclusive here = record { owned = λ q h. cc }
Reach-IsExclusive (next r calm st) = Step-IsExclusive calm st (Reach-IsExclusive r)

-- However many processes start, fail to write, are killed or release the lock, and in whatever
-- order: in a run from an unlocked directory in which no process removes a stale lock, at most one
-- process holds the lease.
pub without_recovery-exclusive :
    {s : System}
    → Reach without_recovery fresh s
    → (p q : ℕ) → s.phase p ≡ holding
    → s.phase q ≡ holding
    → p ≡ q
without_recovery-exclusive {s} r p q hp hq =
    let inv = Reach-IsExclusive r in
    creator_unique s.file p q (inv.owned p (ap in_lock hp)) (inv.owned q (ap in_lock hq))
