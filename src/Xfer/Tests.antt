-- ===== src/Xfer/Tests.antt =====
-- A file of five bytes from one machine to the other.
use fb_adb.Prelude.{◌≡◌, refl, ap, arith, [], ◌∷◌, ◌++◌, Bytes, codes}
use fb_adb.Outcome.{ok}
use fb_adb.Proto.{to_le}
use fb_adb.Fs.{done, read_all, write_all, stored}
use fb_adb.Fs.Ends.{read_first, write_second}
use fb_adb.Fs.Memory.{file, sink, two, enough, second_of}
use fb_adb.Xfer.{
  XferMsg, Stat, as_stat, xfer_msg_stat, stat_union, xfer_msg_bytes, xfer_msg_size, send_xfer_msg,
  send_stat_packet, send_data_header, data_union, recv_xfer_msg, copy_loop_posix_send,
  copy_loop_posix_recv,
}
use fb_adb.Xfer.Wire.{header, FitsStat, sent_stat, stat_received, recv_accepts_cut}
use fb_adb.Xfer.Receive.{recv-send}

abbrev pub hello_wire : Bytes
hello_wire =
    11 ∷ 0 ∷ 0 ∷ 0 ∷ 0 ∷ 0 ∷ 0 ∷ 0 ∷ 5 ∷ 0 ∷ 0 ∷ 0 ∷ codes "hello"
    ++ (11 ∷ 0 ∷ 0 ∷ 0 ∷ 0 ∷ 0 ∷ 0 ∷ 0 ∷ 0 ∷ 0 ∷ 0 ∷ 0 ∷ [])

hello_piped :
    (s' : Bytes × Bytes)
    → copy_loop_posix_send (read_first file) (write_second sink) 2 (codes "hello", []) ≡ done tt s'
    → hello_wire ++ codes "next" ≡ s'.1 ++ codes "next"
unfolding copy_loop_posix_send send_data_header send_xfer_msg xfer_msg_size xfer_msg_bytes
    data_union to_le read_all write_all
hello_piped s' e = ap (λ r. second_of r ++ codes "next") e

recv-send_example :
    (s' t' : Bytes × Bytes) × (copy_loop_posix_send
        (read_first file)
        (write_second sink)
        2
        (codes "hello", [])
      ≡ done tt s')
    × (copy_loop_posix_recv
          (read_first file)
          (write_second sink)
          enough
          7
          []
          2
          (hello_wire ++ codes "next", codes "old ")
        ≡ done 5 t')
    × (t'.1 ≡ codes "old hello")
    × (t'.0 ≡ codes "next")
recv-send_example =
    recv-send two two enough 7 [] (λ _. refl) 2 (codes "hello", [])
      (hello_wire ++ codes "next", codes "old ") (codes "next") (omega arith) (omega arith) refl
      hello_piped

abbrev pub script : Stat
script = record {
  st_mode = 33188;
  st_nlink = 1;
  times = record {
    atime = 1700000000;
    mtime = 1600000000;
    size = 5;
    atime_ns = 7;
    mtime_ns = 8;
    ugo_bits = 0;
  };
}

script-FitsStat : FitsStat (sent_stat script)
script-FitsStat = record {
  atime_fits = omega arith;
  mtime_fits = omega arith;
  size_fits = omega arith;
  atime_ns_fits = omega arith;
  mtime_ns_fits = omega arith;
  ugo_bits_fits = omega arith;
}

abbrev pub script_wire : Bytes
script_wire = header xfer_msg_stat ++ stat_union (sent_stat script)

script_piped :
    (s' : Bytes × Bytes)
    → send_stat_packet (write_second sink) (ok script) (codes "hello", []) ≡ done tt s'
    → script_wire ++ hello_wire ≡ s'.1 ++ hello_wire
unfolding send_stat_packet send_xfer_msg xfer_msg_size xfer_msg_bytes stat_union to_le write_all
    header
script_piped s' e = ap (λ r. second_of r ++ hello_wire) e

stat_received_example :
    (s' : Bytes × Bytes) × (send_stat_packet (write_second sink) (ok script) (codes "hello", [])
      ≡ done tt s')
    × ((t' : Bytes × Bytes) × (m : XferMsg) × (recv_xfer_msg
            (read_first file)
            []
            (script_wire ++ hello_wire, [])
          ≡ done m t')
        × (m.type ≡ xfer_msg_stat)
        × (as_stat m.u ≡ sent_stat script)
        × (t'.0 ≡ hello_wire))
stat_received_example =
    stat_received two two [] (codes "hello", []) (script_wire ++ hello_wire, []) script hello_wire
      script-FitsStat refl script_piped

recv_accepts_cut_example :
    (t' : Bytes × Bytes) × (recv_xfer_msg
        (read_first file)
        (codes "secret")
        (header xfer_msg_stat ++ 1 ∷ 2 ∷ [], [])
      ≡ done (record { type = xfer_msg_stat; u = stored (codes "secret") 0 (1 ∷ 2 ∷ []) }) t')
recv_accepts_cut_example =
    recv_accepts_cut two (codes "secret") (1 ∷ 2 ∷ []) (header xfer_msg_stat ++ 1 ∷ 2 ∷ [], [])
      (omega arith) refl
