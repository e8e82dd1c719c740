-- ===== src/Xfer/Dest/Protocol.antt =====
-- xfer.c: what the log of an atomic transfer may be, as a machine that reads the log.
use fb_adb.Prelude.{ℕ, List, [], ◌∷◌, Bytes}
use fb_adb.Outcome.{Errno, ok, died, aborted, fault}
use fb_adb.Fs.{Sys, done, left_by, spinning}
use fb_adb.Xfer.Calls.{
  creat_wronly_excl, directory_rdonly, Syscall, stat_path, open_path, fallocate, ftruncate, futimes,
  fchmod, fsync, rename, Event, called, refused, copied, unlinked, Run,
}

-- Nothing is made yet; the temporary file is open, or holds all bytes; it has the final name; it is gone.
pub data Phase : Type 0 where
  begun : Phase
  temporary_open : ℕ → Phase
  temporary_full : ℕ → Phase
  published : Phase
  dropped : Phase

-- The calls that finish a file whose bytes are all there.
pub data Finishes (fd : ℕ) : Syscall → Type 0 where
  trims : {n : ℕ} → Finishes fd (ftruncate fd n)
  stamps : {a m : ℕ × ℕ} → Finishes fd (futimes fd a m)
  permits : {mode : ℕ} → Finishes fd (fchmod fd mode)
  flushes : Finishes fd (fsync fd)

-- One event of the log. A call that fails changes nothing.
pub data Step (temporary filename parent : Bytes) : Phase → Event → Phase → Type 0 where
  fails : {p : Phase} {c : Syscall} {e : Errno} → Step temporary filename parent p (refused c e) p
  looks :
      {p : Phase} {name : Bytes} {r : ℕ}
      → Step temporary filename parent p (called (stat_path name) r) p
  creates :
      {mode fd : ℕ}
      → Step temporary filename parent begun
          (called (open_path temporary creat_wronly_excl mode) fd)
          (temporary_open fd)
  reserves :
      {fd n r : ℕ}
      → Step temporary filename parent
          (temporary_open fd)
          (called (fallocate fd n) r)
          (temporary_open fd)
  fills :
      {fd total : ℕ}
      → Step temporary filename parent (temporary_open fd) (copied fd total) (temporary_full fd)
  finishes :
      {fd r : ℕ} {c : Syscall}
      → Finishes fd c
      → Step temporary filename parent (temporary_full fd) (called c r) (temporary_full fd)
  publishes :
      {fd r : ℕ}
      → Step temporary filename parent
          (temporary_full fd)
          (called (rename temporary filename) r)
          published
  opens_parent :
      {mode fd : ℕ}
      → Step temporary filename parent published
          (called (open_path parent directory_rdonly mode) fd)
          published
  flushes_parent :
      {fd r : ℕ} → Step temporary filename parent published (called (fsync fd) r) published
  drops_open :
      {fd : ℕ} → Step temporary filename parent (temporary_open fd) (unlinked temporary) dropped
  drops_full :
      {fd : ℕ} → Step temporary filename parent (temporary_full fd) (unlinked temporary) dropped
  drops_none : Step temporary filename parent published (unlinked temporary) published

-- A log, in its order.
pub data Steps (temporary filename parent : Bytes) : Phase → List Event → Phase → Type 0 where
  stop : {p : Phase} → Steps temporary filename parent p [] p
  next :
      {p q r : Phase} {e : Event} {es : List Event}
      → Step temporary filename parent p e q
      → Steps temporary filename parent q es r
      → Steps temporary filename parent p (e ∷ es) r

-- The temporary file is not left behind.
abbrev pub Settled : Phase → Type 0
Settled begun = Unit {0}
Settled (temporary_open fd) = ⊥
Settled (temporary_full fd) = ⊥
Settled published = Unit {0}
Settled dropped = Unit {0}

-- A cleanup that unlinks the temporary file can run.
abbrev pub Made : Phase → Type 0
Made begun = ⊥
Made (temporary_open fd) = Unit {0}
Made (temporary_full fd) = Unit {0}
Made published = Unit {0}
Made dropped = ⊥

-- Where a run ends: `Q` if it returns, `D` if it dies.
abbrev pub EndsIn :
    {K A : Type 0} → (A → Phase → Type 0) → (Phase → Type 0) → Sys K A → Phase → Type 0
EndsIn Q D (done a k) q = Q a q
EndsIn Q D (left_by (ok u)) q = Unit {0}
EndsIn Q D (left_by (died e)) q = D q
EndsIn Q D (left_by aborted) q = Unit {0}
EndsIn Q D (left_by fault) q = Unit {0}
EndsIn Q D spinning q = Unit {0}

-- The log of a run leads from one phase to another, where the run ends as it should.
pub record Runs {K A : Type 0} (temporary filename parent : Bytes) (p : Phase)
    (Q : A → Phase → Type 0) (D : Phase → Type 0) (m : Run K A) : Type 0 where
  pub phase : Phase
  pub steps : Steps temporary filename parent p m.log phase
  pub ends : EndsIn Q D m.end phase
