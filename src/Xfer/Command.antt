-- ===== src/Xfer/Command.antt =====
-- xfer.c: the commands of the stub, over the two directions of a transfer.
use fb_adb.Prelude.{ℕ, Bool, Option, Bytes, codes, if◌then◌else◌}
use fb_adb.Outcome.{Errno, ok, died, einval}
use fb_adb.Fs.{Sys, left_by}
use fb_adb.Xfer.{Stat, send_stat_packet, copy_loop_posix_send}
use fb_adb.Xfer.Calls.{
  rdonly, Syscall, open_path, fstat_fd, dup, fadvise_sequential, Answer, Run, plain, then_run,
  try_call, must_call, same_string,
}
use fb_adb.Xfer.Dest.{XferOpts, do_xfer_recv}

-- `struct cmd_xfer_stub_info`.
pub record XferStubInfo : Type 0 where
  pub mode : Bytes
  pub filename : Bytes
  pub desired_basename : Option Bytes
  pub xfer : XferOpts

module _ {K : Type 0} (kernel : K → Syscall → Answer × K) (file_rdr : ℕ → K → ℕ → Sys K Bytes)
    (peer_wtr : K → Bytes → Sys K (Unit {0})) (fuel : ℕ) where
  unfoldable pub open_source : Bytes → K → Run K (ℕ × Stat)
  open_source filename k =
      if same_string filename (codes "-")
      then must_call kernel (dup 0) k
      else must_call kernel (open_path filename rdonly 0) k

  unfoldable pub do_xfer_send : Bytes → K → Run K (Unit {0})
  do_xfer_send filename k = then_run (open_source filename k) λ r k1.
      then_run (must_call kernel (fstat_fd (r.0)) k1) λ q k2.
        then_run (plain (send_stat_packet peer_wtr (ok (q.1)) k2)) λ _ k3.
          then_run (try_call kernel (fadvise_sequential (r.0)) k3)
            λ _ k4. plain (copy_loop_posix_send (file_rdr (r.0)) peer_wtr fuel k4)

  module _ (peer_rdr : K → ℕ → Sys K Bytes) (file_wtr : ℕ → K → Bytes → Sys K (Unit {0}))
      (realloc : ℕ → Bool) (fresh : ℕ) (garbage : Bytes) (xdirname xbasename : Bytes → Bytes)
      (strtoul : Bytes → ℕ × Errno × Bytes) (random : Bytes) where
    unfoldable pub do_xfer : XferStubInfo → K → Run K (Unit {0})
    do_xfer info k =
        if same_string info.mode (codes "recv")
        then do_xfer_recv kernel peer_rdr file_wtr realloc fresh garbage fuel xdirname xbasename
            strtoul random info.xfer info.filename info.desired_basename k
        else if same_string info.mode (codes "send")
        then do_xfer_send info.filename k
        else plain (left_by (died einval))
