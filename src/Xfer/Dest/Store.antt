-- ===== src/Xfer/Dest/Store.antt =====
-- xfer.c: do_xfer_recv in its atomic mode, by its log.
use fb_adb.Prelude.{
  ℕ, ◌≤◌, Bool, true, false, ◌&&◌, ◌≡◌, refl, ap, ◌∙◌, arith, Option, none, some, [], ◌∷◌, Bytes,
  codes, ltb, ◌==◌,
}
use fb_adb.Outcome.{Errno, ok}
use fb_adb.Fs.{Sys, done}
use fb_adb.Xfer.{StatBody}
use fb_adb.Xfer.Calls.{
  eacces, event_of, same_string, creat_wronly_excl, Syscall, stat_path, open_path, Answer,
  refused_with, gave, decide, with_unlink_cleanup, try_call,
}
use fb_adb.Xfer.Dest.{
  is_dir, is_reg, XferOpts, Target, Dest, choose_atomic, find_target, temporary_name, on_new,
  open_dest, fill_dest, store_file, do_xfer_recv,
}
use fb_adb.Xfer.Dest.Protocol.{
  Phase, begun, temporary_open, published, creates, looks, fails, stop, next, Settled, Runs,
}
use fb_adb.Xfer.Dest.Rules.{then_rule, then_at, decide_plain, cleanup_rule, plain_rule, try_rule}
use fb_adb.Xfer.Dest.Atomic.{fill_rule}

and_false : (b : Bool) → (b && false) ≡ false
and_false true = refl
and_false false = refl

-- What `stat` says of a name that can be replaced: nothing, or a regular file with no other name.
abbrev pub Single : Answer → Type 0
Single (refused_with e) = Unit {0}
Single (gave n st) = (is_reg st.st_mode ≡ true) × (st.st_nlink ≤ 1)

module _ {K : Type 0} (kernel : K → Syscall → Answer × K) (rdr : K → ℕ → Sys K Bytes)
    (wtr : ℕ → K → Bytes → Sys K (Unit {0})) (realloc : ℕ → Bool) (fresh : ℕ) (garbage : Bytes)
    (fuel : ℕ) (xdirname xbasename : Bytes → Bytes) (strtoul : Bytes → ℕ × Errno × Bytes)
    (random : Bytes) (opts : XferOpts) where
  -- The open temporary file.
  abbrev new_dest : Bytes → Bytes → ℕ → Dest
  new_dest temporary filename fd = record {
    dest_fd = fd;
    filename = temporary;
    rename_to = some filename;
    regular_file = true;
  }

  abbrev IsNew : Bytes → Bytes → Dest → Phase → Type 0
  IsNew temporary filename d q =
      (fd : ℕ) × (d ≡ new_dest temporary filename fd) × (q ≡ temporary_open fd)

  open_rule :
      (temporary filename parent : Bytes) (creat_mode : ℕ) (k : K)
      → Runs temporary filename parent begun
          (IsNew temporary filename)
          Settled
          (open_dest kernel true false temporary filename creat_mode k)
  unfolding open_dest
  open_rule temporary filename parent creat_mode k =
      then_rule
        (try_rule kernel {Q = seen} (open_path temporary creat_wronly_excl creat_mode) k (λ e. refl)
          λ n st. (temporary_open n, creates, refl))
        opened
    where
      seen : Answer → Phase → Type 0
      seen (refused_with e) q = q ≡ begun
      seen (gave n st) q = q ≡ temporary_open n

      opened :
          (a : Answer) (k : K) (q : Phase)
          → seen a q
          → Runs temporary filename parent q
              (IsNew temporary filename)
              Settled
              (on_new kernel a temporary filename false creat_mode k)
      opened (refused_with e) k q s =
          rw (s, and_false (e == eacces)) (record { phase = begun; steps = stop; ends = tt })
      opened (gave n st) k q s = record { phase = q; steps = stop; ends = (n, refl, s) }

  -- Whatever the kernel answers.
  store_rule :
      (st : StatBody) (target : Target) (chmod : Bool × ℕ) (k : K)
      → Runs
          (temporary_name xdirname xbasename random target.filename)
          target.filename
          target.parent_directory
          begun
          (λ a q. q ≡ published)
          Settled
          (store_file kernel rdr wtr realloc fresh garbage fuel xdirname xbasename strtoul random
            opts st target
            (true, false)
            chmod
            k)
  unfolding store_file
  store_rule st target chmod k = then_rule (open_rule _ _ _ _ k) stored
    where
      temporary : Bytes
      temporary = temporary_name xdirname xbasename random target.filename

      stored :
          (dest : Dest) (k : K) (q : Phase)
          → IsNew temporary target.filename dest q
          → Runs temporary target.filename target.parent_directory q
              (λ a q. q ≡ published)
              Settled
              (with_unlink_cleanup dest.regular_file dest.filename (
                fill_dest kernel opts st target.parent_directory chmod dest rdr wtr realloc fresh
                  garbage fuel k))
      stored dest k q (fd, same, at_) =
          rw (same, at_)
            (cleanup_rule
              (fill_rule kernel rdr wtr realloc fresh garbage fuel opts st chmod fd true k))

  -- The name that is asked for is the one that is replaced.
  found :
      (a : Answer) (filename : Bytes) (desired_basename : Option Bytes)
      → Single a
      → find_target xdirname a filename desired_basename
        ≡ ok (record {
          filename = filename;
          parent_directory = xdirname filename;
          write_mode = none;
        })
  unfolding find_target
  found (refused_with e) filename desired_basename single = refl
  found (gave n st) filename desired_basename (regular, alone) =
      let no_dir : is_dir st.st_mode ≡ false = ground (arith, regular) in
      let one : ltb 1 st.st_nlink ≡ false = ground (arith, alone) in rw (no_dir, regular, one) refl

  -- A decision whose result is known.
  sure :
      {A : Type 0} {temporary filename parent : Bytes} {p : Phase} (a : A) (k : K)
      → Runs temporary filename parent p (λ a' q. (a' ≡ a) × (q ≡ p)) Settled (decide (ok a) k)
  sure {p = p} a k = record { phase = p; steps = stop; ends = (refl, refl) }

  look_rule :
      {temporary target parent : Bytes} (filename : Bytes) (p : Phase) (k : K)
      → Single ((kernel k (stat_path filename)).0)
      → Runs temporary target parent p
          (λ a q. Single a × (q ≡ p))
          Settled
          (try_call kernel (stat_path filename) k)
  unfolding try_call
  look_rule {temporary} {target} {parent} filename p k single =
      looked ((kernel k (stat_path filename)).0) single
    where
      looked :
          (a : Answer)
          → Single a
          → Runs {A = Answer} temporary target parent p
              (λ a q. Single a × (q ≡ p))
              Settled
              (record {
                log = event_of (stat_path filename) a ∷ [];
                end = done a ((kernel k (stat_path filename)).1);
              })
      looked (refused_with e) single = record {
        phase = p;
        steps = next fails stop;
        ends = (single, refl);
      }
      looked (gave n st) single = record {
        phase = p;
        steps = next looks stop;
        ends = (single, refl);
      }

  atomic_chosen : choose_atomic (some (codes "atomic")) ≡ ok (true, false)
  unfolding choose_atomic same_string
  atomic_chosen = refl

  -- When the mode is atomic and the name is free or a regular file with one link, then whatever the
  -- kernel and the peer do, the log of do_xfer_recv is one of the protocol: the name is given only by a
  -- rename after all bytes are in the temporary file; the call returns only after it; and where a call
  -- that dies had opened a temporary file and not renamed it, it unlinked it.
  pub do_xfer_recv_atomic :
      (filename : Bytes) (desired_basename : Option Bytes) (k : K)
      → opts.write_mode ≡ some (codes "atomic")
      → ((k : K) → Single ((kernel k (stat_path filename)).0))
      → Runs
          (temporary_name xdirname xbasename random filename)
          filename
          (xdirname filename)
          begun
          (λ a q. q ≡ published)
          Settled
          (do_xfer_recv kernel rdr wtr realloc fresh garbage fuel xdirname xbasename strtoul random
            opts filename desired_basename k)
  unfolding do_xfer_recv
  do_xfer_recv_atomic filename desired_basename k asked single =
      let chosen : choose_atomic opts.write_mode ≡ ok (true, false) =
        ap choose_atomic asked ∙ atomic_chosen in
      then_at (plain_rule tt _) λ statm k1. then_at (decide_plain tt _ k1) λ _ k2.
        then_rule (look_rule filename _ k2 (single k2)) λ a k3 q seen.
          rw (seen.1, found a filename desired_basename (seen.0))
            (then_rule (sure _ k3) λ target k4 q' same.
              rw (same.0, same.1, chosen)
                (then_rule (sure _ k4) λ atomic k5 q'' both.
                  rw (both.0, both.1)
                    (then_at (decide_plain tt _ k5) λ chmod k6. store_rule _ _ chmod k6)))
