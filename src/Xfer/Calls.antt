-- ===== src/Xfer/Calls.antt =====
-- xfer.c: a run of system calls, which keeps the log of those that it made, also where it leaves by die.
-- What the kernel answers is a parameter.
use fb_adb.Prelude.{ℕ, Bool, true, false, ◌&&◌, List, [], ◌∷◌, ◌++◌, Bytes, ◌==◌}
use fb_adb.Outcome.{Errno, Outcome, ok, died, aborted, fault}
use fb_adb.Fs.{Sys, done, left_by, spinning}
use fb_adb.Xfer.{Stat}

abbrev pub eacces : Errno
eacces = 13

abbrev pub eisdir : Errno
eisdir = 21

abbrev pub enosys : Errno
enosys = 38

abbrev pub eopnotsupp : Errno
eopnotsupp = 95

-- The flags of the calls of `open`, less O_CLOEXEC, which all have.
pub data OpenFlags : Type 0 where
  creat_wronly_excl : OpenFlags
  wronly_creat_trunc : OpenFlags
  directory_rdonly : OpenFlags
  rdonly : OpenFlags

-- The system calls that do not move the file's bytes. `futimes` is given seconds and microseconds.
pub data Syscall : Type 0 where
  stat_path : Bytes → Syscall
  open_path : Bytes → OpenFlags → ℕ → Syscall
  fstat_fd : ℕ → Syscall
  fallocate : ℕ → ℕ → Syscall
  ftruncate : ℕ → ℕ → Syscall
  futimes : ℕ → (ℕ × ℕ) → (ℕ × ℕ) → Syscall
  fchmod : ℕ → ℕ → Syscall
  fsync : ℕ → Syscall
  rename : Bytes → Bytes → Syscall
  dup : ℕ → Syscall
  fadvise_sequential : ℕ → Syscall

-- What a call returns, and what it puts into a `struct stat` that it is given.
pub data Answer : Type 0 where
  refused_with : Errno → Answer
  gave : ℕ → Stat → Answer

-- A call that returned its number, one that failed, the copy loop when it has returned its total, and the
-- unlink of a cleanup, whose answer nobody reads.
pub data Event : Type 0 where
  called : Syscall → ℕ → Event
  refused : Syscall → Errno → Event
  copied : ℕ → ℕ → Event
  unlinked : Bytes → Event

pub record Run (K A : Type 0) : Type 0 where
  pub log : List Event
  pub end : Sys K A

abbrev pub plain : {K A : Type 0} → Sys K A → Run K A
plain m = record { log = []; end = m }

abbrev pub after : {K A B : Type 0} → List Event → Sys K A → (A → K → Run K B) → Run K B
after log (done a k) f = let r = f a k in record { log = log ++ r.log; end = r.end }
after log (left_by o) f = record { log = log; end = left_by o }
after log spinning f = record { log = log; end = spinning }

unfoldable pub then_run : {K A B : Type 0} → Run K A → (A → K → Run K B) → Run K B
then_run m f = after m.log m.end f

-- A decision that leaves the kernel alone.
abbrev pub decide : {K A : Type 0} → Outcome A → K → Run K A
decide (ok a) k = plain (done a k)
decide (died e) k = plain (left_by (died e))
decide aborted k = plain (left_by aborted)
decide fault k = plain (left_by fault)

-- What the resource lists do with a cleanup that was committed: it runs when the call dies.
abbrev pub cleanup_at : {K A : Type 0} → Bool → Bytes → List Event → Sys K A → Run K A
cleanup_at true name log (left_by (died e)) = record {
  log = log ++ unlinked name ∷ [];
  end = left_by (died e);
}
cleanup_at committed name log end = record { log = log; end = end }

unfoldable pub with_unlink_cleanup : {K A : Type 0} → Bool → Bytes → Run K A → Run K A
with_unlink_cleanup committed name m = cleanup_at committed name m.log m.end

-- `if (b) ...`.
abbrev pub only_if : {K A : Type 0} → Bool → (K → Run K A) → K → Run K (Unit {0})
only_if true m k = then_run (m k) λ _ k1. plain (done tt k1)
only_if false m k = plain (done tt k)

-- `strcmp` says that two strings are the same.
unfoldable pub same_string : Bytes → Bytes → Bool
same_string [] [] = true
same_string [] (b ∷ bs) = false
same_string (c ∷ cs) [] = false
same_string (c ∷ cs) (b ∷ bs) = let rest = same_string cs bs in c == b && rest

abbrev pub event_of : Syscall → Answer → Event
event_of c (refused_with e) = refused c e
event_of c (gave n st) = called c n

module _ {K : Type 0} (kernel : K → Syscall → Answer × K) where
  unfoldable pub try_call : Syscall → K → Run K Answer
  try_call c k =
      let r = kernel k c in record { log = event_of c (r.0) ∷ []; end = done (r.0) (r.1) }

  abbrev pub on_answer : Answer → K → Run K (ℕ × Stat)
  on_answer (refused_with e) k = plain (left_by (died e))
  on_answer (gave n st) k = plain (done (n, st) k)

  -- A call after which a failure is `die_errno`.
  unfoldable pub must_call : Syscall → K → Run K (ℕ × Stat)
  must_call c k = then_run (try_call c k) on_answer
