-- ===== src/Xfer/Dest.antt =====
-- xfer.c: the receiver's file. The name functions of libc, strtoul and the random part of the temporary
-- file's name are parameters.
pub mod Protocol
pub mod Rules
pub mod Atomic
pub mod Store
mod Tests
use fb_adb.Prelude.{
  ℕ, ◌+◌, ◌-◌, ◌/◌, ◌%◌, ◌^◌, Bool, true, false, not, ◌||◌, ◌&&◌, Option, none, some, List, [], ◌∷◌,
  ◌++◌, Bytes, codes, length, ltb, ◌==◌, if◌then◌else◌,
}
use fb_adb.Outcome.{Errno, Outcome, ok, died, ◌>>=◌, ◌>>◌, einval, ecomm, die_if}
use fb_adb.Fs.{Sys, done, left_by, spinning}
use fb_adb.Xfer.{
  xfer_msg_stat, XferMsg, StatBody, Stat, as_stat, recv_xfer_msg, copy_loop_posix_recv,
}
use fb_adb.Xfer.Calls.{
  eacces, eisdir, enosys, eopnotsupp, OpenFlags, creat_wronly_excl, wronly_creat_trunc,
  directory_rdonly, Syscall, stat_path, open_path, fstat_fd, fallocate, ftruncate, futimes, fchmod,
  fsync, rename, Answer, refused_with, gave, Event, copied, Run, plain, after, then_run, decide,
  with_unlink_cleanup, try_call, must_call, only_if, same_string,
}

-- `S_ISDIR` and `S_ISREG`.
abbrev pub is_dir : ℕ → Bool
is_dir mode = mode / 4096 % 16 == 4

abbrev pub is_reg : ℕ → Bool
is_reg mode = mode / 4096 % 16 == 8

-- `struct xfer_opts`.
pub record XferOpts : Type 0 where
  pub write_mode : Option Bytes
  pub mode : Option Bytes
  pub preserve : Bool
  pub sync : Bool

-- Where the file goes: its name, its directory, and a write mode that what is there calls for.
pub record Target : Type 0 where
  pub filename : Bytes
  pub parent_directory : Bytes
  pub write_mode : Option Bytes

-- The open file: its descriptor and name, the name that it gets at the end, and whether it is regular.
pub record Dest : Type 0 where
  pub dest_fd : ℕ
  pub filename : Bytes
  pub rename_to : Option Bytes
  pub regular_file : Bool

abbrev or_else : Option Bytes → Option Bytes → Option Bytes
or_else none other = other
or_else (some b) other = some b

-- Whether to write to a file of another name, and whether the program chose so.
unfoldable pub choose_atomic : Option Bytes → Outcome (Bool × Bool)
choose_atomic none = ok (true, true)
choose_atomic (some write_mode) =
    if same_string write_mode (codes "atomic")
    then ok (true, false)
    else if same_string write_mode (codes "inplace")
    then ok (false, false)
    else died einval

-- The file's explicit mode bits, when it has some. `strtoul` of base 8 gives the value, the errno and what
-- the end pointer points to.
unfoldable pub explicit_modes :
    (Bytes → ℕ × Errno × Bytes) → XferOpts → StatBody → Outcome (Bool × ℕ)
explicit_modes strtoul opts st = elim opts.mode [
  | none ↦ ok (if opts.preserve then (true, st.ugo_bits) else (false, 0))
  | some text ↦
      let (omode, errno, endptr) = strtoul text in
      die_if (not (errno == 0) || not (length endptr == 0) || not (omode / 512 == 0)) einval
      >> ok (true, omode)
]

-- Where the file goes, by what `stat` says of the name.
unfoldable pub find_target : (Bytes → Bytes) → Answer → Bytes → Option Bytes → Outcome Target
find_target xdirname (refused_with e) filename desired_basename =
    ok (record { filename = filename; parent_directory = xdirname filename; write_mode = none })
find_target xdirname (gave n st) filename desired_basename =
    if is_dir st.st_mode
    then elim desired_basename [
      | none ↦ died eisdir
      | some basename ↦ ok (record {
        filename = filename ++ codes "/" ++ basename;
        parent_directory = filename;
        write_mode = none;
      })
    ]
    else ok (record {
      filename = filename;
      parent_directory = xdirname filename;
      write_mode =
          if is_reg st.st_mode && not (ltb 1 st.st_nlink) then none else some (codes "inplace");
    })

-- `%s/.%s.fb-adb-%s`.
unfoldable pub temporary_name : (Bytes → Bytes) → (Bytes → Bytes) → Bytes → Bytes → Bytes
temporary_name xdirname xbasename random filename =
    xdirname filename ++ codes "/." ++ xbasename filename ++ codes ".fb-adb-" ++ random

module _ {K : Type 0} (kernel : K → Syscall → Answer × K) where
  unfoldable pub open_in_place : Bytes → ℕ → K → Run K Dest
  open_in_place filename creat_mode k =
      then_run (must_call kernel (open_path filename wronly_creat_trunc creat_mode) k) λ r k1.
        then_run (must_call kernel (fstat_fd (r.0)) k1) λ q k2. plain (
          done
            (record {
              dest_fd = r.0;
              filename = filename;
              rename_to = none;
              regular_file = is_reg (q.1).st_mode;
            })
            k2)

  abbrev on_new : Answer → Bytes → Bytes → Bool → ℕ → K → Run K Dest
  on_new (gave fd st) temporary filename automatic_mode creat_mode k = plain (
      done
        (record {
          dest_fd = fd;
          filename = temporary;
          rename_to = some filename;
          regular_file = true;
        })
        k)
  on_new (refused_with e) temporary filename automatic_mode creat_mode k =
      if e == eacces && automatic_mode
      then open_in_place filename creat_mode k
      else plain (left_by (died e))

  -- Under the temporary name, if the mode is atomic and the directory lets us.
  unfoldable pub open_dest : Bool → Bool → Bytes → Bytes → ℕ → K → Run K Dest
  open_dest atomic automatic_mode temporary filename creat_mode k =
      if atomic
      then then_run (try_call kernel (open_path temporary creat_wronly_excl creat_mode) k)
          (λ a k1. on_new a temporary filename automatic_mode creat_mode k1)
      else open_in_place filename creat_mode k

  abbrev on_fallocate : Answer → K → Run K Bool
  on_fallocate (gave n st) k = plain (done true k)
  on_fallocate (refused_with e) k =
      if e == enosys || e == eopnotsupp then plain (done false k) else plain (left_by (died e))

  unfoldable pub fallocate_if_supported : ℕ → ℕ → K → Run K Bool
  fallocate_if_supported fd size k =
      then_run (decide (die_if (ltb (2 ^ 63 - 1) size) einval) k)
        λ _ k1. then_run (try_call kernel (fallocate fd size) k1) on_fallocate

  unfoldable pub xftruncate : ℕ → ℕ → K → Run K (ℕ × Stat)
  xftruncate fd size k =
      then_run (decide (die_if (ltb (2 ^ 63 - 1) size) einval) k)
        λ _ k1. must_call kernel (ftruncate fd size) k1

  module _ (opts : XferOpts) (st : StatBody) (parent_directory : Bytes) (chmod : Bool × ℕ)
      (dest : Dest) where
    abbrev after_reserve : Bool → K → Run K Bool
    after_reserve true k = fallocate_if_supported dest.dest_fd st.size k
    after_reserve false k = plain (done false k)

    -- Space for the file, where the file system can reserve it.
    unfoldable pub reserve : K → Run K Bool
    reserve k = after_reserve (dest.regular_file && ltb 0 st.size) k

    -- Times in seconds and microseconds.
    unfoldable pub set_times : K → Run K (Unit {0})
    set_times = only_if opts.preserve (
        must_call kernel
          (futimes dest.dest_fd (st.atime, st.atime_ns / 1000) (st.mtime, st.mtime_ns / 1000)))

    abbrev pub rename_it : Option Bytes → K → Run K (Unit {0})
    rename_it none k = plain (done tt k)
    rename_it (some rename_to) k =
        only_if true (must_call kernel (rename dest.filename rename_to)) k

    unfoldable pub sync_directory : K → Run K (ℕ × Stat)
    sync_directory k =
        then_run (must_call kernel (open_path parent_directory directory_rdonly 0) k)
          λ r k1. must_call kernel (fsync (r.0)) k1

    -- What is left to do when the bytes are in the file.
    unfoldable pub finish : Bool → ℕ → K → Run K (Unit {0})
    finish preallocated total_written k =
        then_run
          (only_if (preallocated && ltb total_written st.size)
            (xftruncate dest.dest_fd total_written) k)
          λ _ k1. then_run (set_times k1) λ _ k2.
            then_run (only_if (chmod.0) (must_call kernel (fchmod dest.dest_fd (chmod.1))) k2)
              λ _ k3.
                then_run (only_if opts.sync (must_call kernel (fsync dest.dest_fd)) k3) λ _ k4.
                  then_run (rename_it dest.rename_to k4) λ _ k5. only_if opts.sync sync_directory k5

    module _ (rdr : K → ℕ → Sys K Bytes) (wtr : ℕ → K → Bytes → Sys K (Unit {0}))
        (realloc : ℕ → Bool) (fresh : ℕ) (garbage : Bytes) (fuel : ℕ) where
      abbrev pub copy_run : Sys K ℕ → Run K ℕ
      copy_run (done total k) = record { log = copied dest.dest_fd total ∷ []; end = done total k }
      copy_run (left_by o) = plain (left_by o)
      copy_run spinning = plain spinning

      unfoldable pub copy_file : K → Run K ℕ
      copy_file k =
          copy_run (copy_loop_posix_recv rdr (wtr dest.dest_fd) realloc fresh garbage fuel k)

      unfoldable pub fill_dest : K → Run K (Unit {0})
      fill_dest k = then_run (reserve k) λ preallocated k1.
          then_run (copy_file k1) λ total_written k2. finish preallocated total_written k2

  module _ (rdr : K → ℕ → Sys K Bytes) (wtr : ℕ → K → Bytes → Sys K (Unit {0})) (realloc : ℕ → Bool)
      (fresh : ℕ) (garbage : Bytes) (fuel : ℕ) (xdirname xbasename : Bytes → Bytes)
      (strtoul : Bytes → ℕ × Errno × Bytes) (random : Bytes) (opts : XferOpts) where
    -- The bytes of the file go to a name that was chosen.
    unfoldable pub store_file : StatBody → Target → Bool × Bool → Bool × ℕ → K → Run K (Unit {0})
    store_file st target atomic chmod k =
        then_run
          (open_dest (atomic.0) (atomic.1)
            (temporary_name xdirname xbasename random target.filename) target.filename
            (if chmod.1 == 0 then 438 else 128) k)
          λ dest k1. with_unlink_cleanup dest.regular_file dest.filename (
            fill_dest opts st target.parent_directory chmod dest rdr wtr realloc fresh garbage fuel
              k1)

    unfoldable pub do_xfer_recv : Bytes → Option Bytes → K → Run K (Unit {0})
    do_xfer_recv filename desired_basename k =
        then_run (plain (recv_xfer_msg rdr garbage k)) λ statm k1.
          then_run (decide (die_if (not (statm.type == xfer_msg_stat)) ecomm) k1) λ _ k2.
            then_run (try_call kernel (stat_path filename) k2) λ a k3.
              then_run (decide (find_target xdirname a filename desired_basename) k3) λ target k4.
                then_run (decide (choose_atomic (or_else target.write_mode opts.write_mode)) k4)
                  λ atomic k5.
                    then_run (decide (explicit_modes strtoul opts (as_stat statm.u)) k5)
                      λ chmod k6. store_file (as_stat statm.u) target atomic chmod k6
