-- ===== src/Xfer/Dest/Tests.antt =====
-- A file of five bytes that replaces another one.
use fb_adb.Prelude.{ℕ, ◌≡◌, refl, arith, none, some, [], ◌++◌, Bytes, codes, true}
use fb_adb.Outcome.{Errno}
use fb_adb.Proto.{to_le, of_le}
use fb_adb.Fs.{done, read_all, write_all, stored}
use fb_adb.Fs.Ends.{read_first, write_second}
use fb_adb.Xfer.{
  as_stat, copy_loop_posix_recv, payload_size, recv_chunk, recv_chunks, recv_data_header,
  recv_xfer_msg, stat_union, xfer_msg_size,
}
use fb_adb.Fs.Memory.{file, sink, enough}
use fb_adb.Xfer.Tests.{hello_wire, script, script_wire}
use fb_adb.Xfer.Calls.{
  Answer, Run, Syscall, gave, must_call, same_string, then_run, try_call, with_unlink_cleanup,
}
use fb_adb.Xfer.Dest.{
  XferOpts, choose_atomic, copy_file, do_xfer_recv, explicit_modes, fallocate_if_supported,
  fill_dest, find_target, finish, open_dest, open_in_place, reserve, set_times, store_file,
  sync_directory, temporary_name, xftruncate,
}
use fb_adb.Util.{satadd}
use fb_adb.Growable.{resize_buffer}
use fb_adb.Xfer.Wire.{header}
use fb_adb.Xfer.Dest.Protocol.{begun, published, Settled, Runs}
use fb_adb.Xfer.Dest.Store.{do_xfer_recv_atomic}

abbrev World : Type 0
World = Bytes × Bytes

abbrev kernel : World → Syscall → Answer × World
kernel k c = (gave 3 script, k)

abbrev dirname : Bytes → Bytes
dirname name = codes "/data"

abbrev basename : Bytes → Bytes
basename name = codes "a"

abbrev strtoul : Bytes → ℕ × Errno × Bytes
strtoul text = (420, 0, [])

abbrev opts : XferOpts
opts = record {
  write_mode = some (codes "atomic");
  mode = some (codes "644");
  preserve = true;
  sync = true;
}

abbrev start : World
start = (script_wire ++ hello_wire, [])

abbrev received : Run World (Unit {0})
received =
    do_xfer_recv kernel (read_first file) (λ fd. write_second sink) enough 7 [] 2 dirname basename
      strtoul (codes "6e2f") opts (codes "/data/a") none start

do_xfer_recv_atomic_example :
    Runs
      (temporary_name dirname basename (codes "6e2f") (codes "/data/a"))
      (codes "/data/a")
      (codes "/data")
      begun
      (λ a q. q ≡ published)
      Settled
      received
do_xfer_recv_atomic_example =
    do_xfer_recv_atomic kernel (read_first file) (λ fd. write_second sink) enough 7 [] 2 dirname
      basename strtoul (codes "6e2f") opts (codes "/data/a") none start refl
      λ k. (refl, omega arith)

received_end : received.end ≡ done tt ([], codes "hello")
unfolding stat_union as_stat payload_size xfer_msg_size recv_xfer_msg recv_data_header recv_chunk
    recv_chunks copy_loop_posix_recv then_run with_unlink_cleanup same_string try_call must_call
    choose_atomic explicit_modes find_target temporary_name open_in_place open_dest
    fallocate_if_supported xftruncate reserve set_times sync_directory finish copy_file fill_dest
    store_file do_xfer_recv to_le of_le read_all write_all stored resize_buffer satadd header
received_end = refl
