-- ===== src/Xfer/Dest/Atomic.antt =====
-- xfer.c: a file that is received under a temporary name.
use fb_adb.Prelude.{ℕ, Bool, true, false, ◌&&◌, ◌||◌, ◌≡◌, refl, some, Bytes, ltb, ◌==◌}
use fb_adb.Outcome.{ok, died, aborted, fault}
use fb_adb.Fs.{Sys, done, left_by, spinning}
use fb_adb.Xfer.{StatBody, copy_loop_posix_recv}
use fb_adb.Xfer.Calls.{
  enosys, eopnotsupp, Syscall, fallocate, Answer, refused_with, gave, called, Run, must_call,
  only_if,
}
use fb_adb.Xfer.Dest.{
  XferOpts, Dest, on_fallocate, fallocate_if_supported, xftruncate, after_reserve, reserve,
  set_times, sync_directory, finish, copy_run, copy_file, fill_dest,
}
use fb_adb.Xfer.Dest.Protocol.{
  Phase, Step, temporary_open, temporary_full, published, trims, stamps, permits, flushes, reserves,
  fills, finishes, publishes, opens_parent, flushes_parent, stop, next, Made, Runs,
}
use fb_adb.Xfer.Dest.Rules.{
  then_rule, then_at, decide_plain, if_rule, plain_rule, try_rule, must_rule,
}

module _ {K : Type 0} {temporary filename parent : Bytes} where
  only_rule :
      {A : Type 0} {p : Phase} {m : K → Run K A}
      → ((k : K) → Runs temporary filename parent p (λ a q. q ≡ p) Made (m k))
      → (b : Bool) (k : K) → Runs temporary filename parent p (λ a q. q ≡ p) Made (only_if b m k)
  only_rule {p = p} run true k =
      then_rule (run k) λ a k q e. record { phase = q; steps = stop; ends = e }
  only_rule {p = p} run false k = record { phase = p; steps = stop; ends = refl }

  module _ (kernel : K → Syscall → Answer × K) where
    -- A call that leaves the phase as it is.
    stay_rule :
        {p : Phase} (c : Syscall) (k : K)
        → Made p
        → ((n : ℕ) → Step temporary filename parent p (called c n) p)
        → Runs temporary filename parent p (λ a q. q ≡ p) Made (must_call kernel c k)
    stay_rule {p = p} c k made step = must_rule kernel c k made λ n st. (p, step n, refl)

    fallocate_rule :
        (fd size : ℕ) (k : K)
        → Runs temporary filename parent
            (temporary_open fd)
            (λ a q. q ≡ temporary_open fd)
            Made
            (fallocate_if_supported kernel fd size k)
    unfolding fallocate_if_supported
    fallocate_rule fd size k = then_at (decide_plain tt _ k) λ _ k1.
        then_at
          (try_rule kernel (fallocate fd size) k1 (λ e. refl)
            (λ n st. (temporary_open fd, reserves, refl)))
          answered
      where
        answered :
            (a : Answer) (k : K)
            → Runs temporary filename parent
                (temporary_open fd)
                (λ a q. q ≡ temporary_open fd)
                Made
                (on_fallocate kernel a k)
        answered (gave n st) k = plain_rule tt _
        answered (refused_with e) k =
            if_rule (e == enosys || e == eopnotsupp) (plain_rule tt _) (plain_rule tt _)

    reserve_rule :
        (opts : XferOpts) (st : StatBody) (parent' : Bytes) (chmod : Bool × ℕ) (dest : Dest) (k : K)
        → Runs temporary filename parent
            (temporary_open dest.dest_fd)
            (λ a q. q ≡ temporary_open dest.dest_fd)
            Made
            (reserve kernel opts st parent' chmod dest k)
    unfolding reserve
    reserve_rule opts st parent' chmod dest k = by_size (dest.regular_file && ltb 0 st.size)
      where
        by_size :
            (b : Bool)
            → Runs temporary filename parent
                (temporary_open dest.dest_fd)
                (λ a q. q ≡ temporary_open dest.dest_fd)
                Made
                (after_reserve kernel opts st parent' chmod dest b k)
        by_size true = fallocate_rule dest.dest_fd st.size k
        by_size false = plain_rule tt _

    finish_rule :
        (opts : XferOpts) (st : StatBody) (chmod : Bool × ℕ) (fd total : ℕ)
        (regular preallocated : Bool) (k : K)
        → Runs temporary filename parent
            (temporary_full fd)
            (λ a q. q ≡ published)
            Made
            (finish kernel opts st parent chmod
              (record {
                dest_fd = fd;
                filename = temporary;
                rename_to = some filename;
                regular_file = regular;
              })
              preallocated
              total
              k)
    unfolding finish xftruncate set_times sync_directory
    finish_rule opts st chmod fd total regular preallocated k =
        then_at
          (only_rule
            (λ k. then_at (decide_plain tt _ k) λ _ k'. stay_rule _ k' tt λ n. finishes trims) _ _)
          λ _ k1. then_at (only_rule (λ k. stay_rule _ k tt λ n. finishes stamps) _ k1) λ _ k2.
            then_at (only_rule (λ k. stay_rule _ k tt λ n. finishes permits) _ k2) λ _ k3.
              then_at (only_rule (λ k. stay_rule _ k tt λ n. finishes flushes) _ k3) λ _ k4.
                then_at
                  (then_at (must_rule kernel _ k4 tt λ n st. (published, publishes, refl))
                    λ _ k5. plain_rule tt _)
                  λ _ k5.
                    only_rule
                      (λ k.
                        then_at (stay_rule _ k tt λ n. opens_parent)
                          λ _ k'. stay_rule _ k' tt λ n. flushes_parent)
                      _ k5

    module _ (rdr : K → ℕ → Sys K Bytes) (wtr : ℕ → K → Bytes → Sys K (Unit {0}))
        (realloc : ℕ → Bool) (fresh : ℕ) (garbage : Bytes) (fuel : ℕ) where
      copy_rule :
          (opts : XferOpts) (st : StatBody) (parent' : Bytes) (chmod : Bool × ℕ) (dest : Dest)
          (k : K)
          → Runs temporary filename parent
              (temporary_open dest.dest_fd)
              (λ a q. q ≡ temporary_full dest.dest_fd)
              Made
              (copy_file kernel opts st parent' chmod dest rdr wtr realloc fresh garbage fuel k)
      unfolding copy_file
      copy_rule opts st parent' chmod dest k =
          copied_rule (copy_loop_posix_recv rdr (wtr dest.dest_fd) realloc fresh garbage fuel k)
        where
          copied_rule :
              (m : Sys K ℕ)
              → Runs temporary filename parent
                  (temporary_open dest.dest_fd)
                  (λ a q. q ≡ temporary_full dest.dest_fd)
                  Made
                  (copy_run kernel opts st parent' chmod dest rdr wtr realloc fresh garbage fuel m)
          copied_rule (done total k) = record { phase = _; steps = next fills stop; ends = refl }
          copied_rule (left_by (ok u)) = record { phase = _; steps = stop; ends = tt }
          copied_rule (left_by (died e)) = record { phase = _; steps = stop; ends = tt }
          copied_rule (left_by aborted) = record { phase = _; steps = stop; ends = tt }
          copied_rule (left_by fault) = record { phase = _; steps = stop; ends = tt }
          copied_rule spinning = record { phase = _; steps = stop; ends = tt }

      pub fill_rule :
          (opts : XferOpts) (st : StatBody) (chmod : Bool × ℕ) (fd : ℕ) (regular : Bool) (k : K)
          → Runs temporary filename parent
              (temporary_open fd)
              (λ a q. q ≡ published)
              Made
              (fill_dest kernel opts st parent chmod
                (record {
                  dest_fd = fd;
                  filename = temporary;
                  rename_to = some filename;
                  regular_file = regular;
                })
                rdr
                wtr
                realloc
                fresh
                garbage
                fuel
                k)
      unfolding fill_dest
      fill_rule opts st chmod fd regular k = then_at (reserve_rule _ _ _ _ _ k) λ preallocated k1.
          then_at (copy_rule _ _ _ _ _ k1)
            λ total k2. finish_rule opts st chmod fd total regular preallocated k2
