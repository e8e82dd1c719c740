-- ===== src/Xfer.antt =====
-- xfer.c: the messages of a file transfer, and the two loops that copy a file. Structures are packed
-- and the world is little-endian. A descriptor is a function on the kernel's state, which reads or
-- writes a whole buffer as read_all and write_all do.
pub mod Wire
pub mod Copy
pub mod Receive
pub mod Calls
pub mod Dest
pub mod Command
mod Tests
use fb_adb.Prelude.{
  ℕ, zero, suc, ◌+◌, ◌-◌, ◌%◌, ◌^◌, Bool, not, ◌++◌, Bytes, length, take, drop, get_or, replicate,
  ltb, ◌==◌, if◌then◌else◌,
}
use fb_adb.Outcome.{Outcome, ok, died, ecomm, die_if}
use fb_adb.Util.{satadd}
use fb_adb.Proto.{to_le, of_le}
use fb_adb.Fs.{Sys, done, spinning, then_sys, of_outcome, stored}
use fb_adb.Growable.{GrowableBuffer, empty_buffer, resize_buffer}

-- `enum xfer_msg_type`.
abbrev pub xfer_msg_stat : ℕ
xfer_msg_stat = 10

abbrev pub xfer_msg_data : ℕ
xfer_msg_data = 11

-- `struct xfer_msg`: its type and the 34 bytes of its union.
pub record XferMsg : Type 0 where
  pub type : ℕ
  pub u : Bytes

-- `u.stat`.
pub record StatBody : Type 0 where
  pub atime : ℕ
  pub mtime : ℕ
  pub size : ℕ
  pub atime_ns : ℕ
  pub mtime_ns : ℕ
  pub ugo_bits : ℕ

-- `offsetof (struct xfer_msg, u)`, and `sizeof` of the union and of its parts.
abbrev pub offsetof_u : ℕ
offsetof_u = 8

abbrev pub sizeof_stat : ℕ
sizeof_stat = 34

abbrev pub sizeof_data : ℕ
sizeof_data = 4

-- The union with one part set, a field with as many bits as it has.
unfoldable pub stat_union : StatBody → Bytes
stat_union st =
    to_le 8 st.atime
    ++ to_le 8 st.mtime
    ++ to_le 8 st.size
    ++ to_le 4 st.atime_ns
    ++ to_le 4 st.mtime_ns
    ++ to_le 2 st.ugo_bits

unfoldable pub data_union : ℕ → Bytes
data_union payload_size = to_le 4 payload_size ++ replicate (sizeof_stat - sizeof_data) 0

unfoldable pub as_stat : Bytes → StatBody
as_stat u = record {
  atime = of_le (take 8 u);
  mtime = of_le (take 8 (drop 8 u));
  size = of_le (take 8 (drop 16 u));
  atime_ns = of_le (take 4 (drop 24 u));
  mtime_ns = of_le (take 4 (drop 28 u));
  ugo_bits = of_le (take 2 (drop 32 u));
}

unfoldable pub payload_size : Bytes → ℕ
payload_size u = of_le (take 4 u)

-- The message in memory, whose padding is 0.
unfoldable pub xfer_msg_bytes : XferMsg → Bytes
xfer_msg_bytes m = to_le 1 m.type ++ replicate 7 0 ++ m.u

unfoldable pub xfer_msg_size : ℕ → Outcome ℕ
xfer_msg_size type =
    if type == xfer_msg_stat
    then ok (offsetof_u + sizeof_stat)
    else if type == xfer_msg_data
    then ok (offsetof_u + sizeof_data)
    else died ecomm

-- What fstat gives of a file.
pub record Stat : Type 0 where
  pub st_mode : ℕ
  pub st_nlink : ℕ
  pub times : StatBody

module _ {S : Type 0} (wtr : S → Bytes → Sys S (Unit {0})) where
  unfoldable pub send_xfer_msg : S → XferMsg → Sys S (Unit {0})
  send_xfer_msg s m = of_outcome (xfer_msg_size m.type) λ n. wtr s (take n (xfer_msg_bytes m))

  -- What `fstat` answers is a parameter.
  unfoldable pub send_stat_packet : Outcome Stat → S → Sys S (Unit {0})
  send_stat_packet fstat s = of_outcome fstat λ st.
      let body = record st.times { ugo_bits = st.st_mode % 2 ^ 9 } in
      send_xfer_msg s (record { type = xfer_msg_stat; u = stat_union body })

  unfoldable pub send_data_header : S → ℕ → Sys S (Unit {0})
  send_data_header s size = send_xfer_msg s (record { type = xfer_msg_data; u = data_union size })

module _ {S : Type 0} (rdr : S → ℕ → Sys S Bytes) (garbage : Bytes) where
  -- `garbage` is what the stack holds where the message is put. The result of the second read is not
  -- looked at.
  unfoldable pub recv_xfer_msg : S → Sys S XferMsg
  recv_xfer_msg s = then_sys (rdr s offsetof_u) λ h s1.
      of_outcome (die_if (ltb (length h) offsetof_u) ecomm) λ _.
        of_outcome (xfer_msg_size (get_or h 0 0)) λ msize.
          then_sys (rdr s1 (msize - offsetof_u))
            λ bs s2. done (record { type = get_or h 0 0; u = stored garbage 0 bs }) s2

  unfoldable pub recv_data_header : S → Sys S ℕ
  recv_data_header s = then_sys (recv_xfer_msg s) λ m s1.
      of_outcome (die_if (not (m.type == xfer_msg_data)) ecomm) λ _. done (payload_size m.u) s1

abbrev pub bufsz : ℕ
bufsz = 32768

module _ {S : Type 0} (rdr : S → ℕ → Sys S Bytes) (wtr : S → Bytes → Sys S (Unit {0})) where
  -- The loop reads from the file and writes to the peer.
  unfoldable pub copy_loop_posix_send : ℕ → S → Sys S (Unit {0})
  copy_loop_posix_send zero s = spinning
  copy_loop_posix_send (suc fuel) s = then_sys (rdr s bufsz) λ buf s1.
      then_sys (send_data_header wtr s1 (length buf)) λ _ s2. then_sys (wtr s2 buf) λ _ s3.
        let rest = copy_loop_posix_send fuel s3 in if ltb 0 (length buf) then rest else done tt s3

  module _ (realloc : ℕ → Bool) (fresh : ℕ) (garbage : Bytes) where
    -- One chunk: the buffer and the total behind it, and the size of the chunk.
    unfoldable pub recv_chunk : S → GrowableBuffer → ℕ → Sys S (GrowableBuffer × ℕ × ℕ)
    recv_chunk s buf total_written = then_sys (recv_data_header rdr garbage s) λ chunksz s1.
        of_outcome (resize_buffer realloc fresh buf chunksz) λ gb.
          then_sys (rdr s1 chunksz) λ bs s2.
            of_outcome (die_if (not (length bs == chunksz)) ecomm) λ _.
              let gb' = record gb { buf = stored gb.buf 0 bs } in
              then_sys (wtr s2 (take chunksz gb'.buf)) λ _ s3.
                let added = satadd (2 ^ 64 - 1) total_written chunksz in
                of_outcome (die_if (added.0) ecomm) λ _. done (gb', added.1, chunksz) s3

    -- The loop reads from the peer and writes to the file.
    unfoldable pub recv_chunks : ℕ → S → GrowableBuffer → ℕ → Sys S ℕ
    recv_chunks zero s buf total_written = spinning
    recv_chunks (suc fuel) s buf total_written = then_sys (recv_chunk s buf total_written) λ r s1.
        let rest = recv_chunks fuel s1 (r.0) (r.1) in if ltb 0 (r.2) then rest else done (r.1) s1

    unfoldable pub copy_loop_posix_recv : ℕ → S → Sys S ℕ
    copy_loop_posix_recv fuel s = recv_chunks fuel s empty_buffer 0
