-- ===== src/Core/Receive.antt =====
-- core.c: what the loop does with a message from the peer. `stub` says whether FBADB_STUB is defined.
use fb_adb.Prelude.{
  ℕ, Bool, true, not, ◌&&◌, ◌||◌, [], ◌∷◌, Bytes, length, ltb, leb, ◌==◌, if◌then◌else◌,
}
use fb_adb.Outcome.{ecomm, Outcome, ok, died, aborted, ◌>>=◌, ◌>>◌, assert, die_if}
use fb_adb.Util.{sub_size, satadd}
use fb_adb.Ringbuf.{ringbuf_room, ringbuf_copy_out, ringbuf_readable_iov, of_iovec}
use fb_adb.Channel.{is_to_fd, is_open, Writes, uint32_max}
use fb_adb.Channel.Poll.{channel_close}
use fb_adb.Proto.{
  Msg, MsgChannelData, MsgChannelDataLz4, MsgChannelWindow, MsgChannelClose, as_data, as_data_lz4,
  as_window, as_close, sizeof_data, sizeof_data_lz4, sizeof_window, sizeof_close, msg_channel_data,
  msg_channel_data_lz4, msg_channel_window, msg_channel_close, msg_error,
}
use fb_adb.Core.{
  FbAdbSh, from_peer, nr_special_ch, channel_at, set_channel, write_to, remove_from, pop_bytes,
}

-- What `LZ4_decompress_safe` returns: a negative number, or the bytes that it stored.
pub data Lz4Result : Type 0 where
  lz4_malformed : Lz4Result
  lz4_decoded : Bytes → Lz4Result

-- The guard of the handlers: the number is that of a special channel or too large.
unfoldable pub invalid_channel : FbAdbSh → ℕ → Bool
invalid_channel sh i = leb i nr_special_ch || ltb sh.nrch i

unfoldable pub process_msg_channel_data : Writes → FbAdbSh → MsgChannelData → Outcome FbAdbSh
process_msg_channel_data writes sh m = do
  cmdch ← channel_at sh.ch from_peer
  die_if (invalid_channel sh m.channel) ecomm
  c ← channel_at sh.ch m.channel
  die_if (not (is_to_fd c.dir)) ecomm
  let payloadsz = sub_size m.msg.size sizeof_data
  let closed = remove_from sh from_peer payloadsz
  let deliver : Outcome FbAdbSh = (do
    die_if (ltb (ringbuf_room c.rb) payloadsz) ecomm
    rio ← ringbuf_readable_iov cmdch.rb payloadsz
    sh' ←
        write_to writes sh m.channel
          (of_iovec cmdch.rb.mem rio.v0 ∷ of_iovec cmdch.rb.mem rio.v1 ∷ [])
    remove_from sh' from_peer payloadsz)
  if not (is_open c) then closed else deliver

-- `assert (ret == uncompressed_size)` fails for a negative number.
unfoldable pub decompressed : Lz4Result → ℕ → Outcome Bytes
decompressed lz4_malformed uncompressed_size = aborted
decompressed (lz4_decoded bs) uncompressed_size = do
  die_if (length bs == 0) ecomm
  assert (length bs == uncompressed_size)
  ok bs

unfoldable pub process_msg_channel_data_lz4 :
    (Bytes → ℕ → Lz4Result) → Writes → FbAdbSh → MsgChannelDataLz4 → Outcome FbAdbSh
process_msg_channel_data_lz4 lz4_decompress_safe writes sh m = do
  cmdch ← channel_at sh.ch from_peer
  die_if (invalid_channel sh m.channel) ecomm
  c ← channel_at sh.ch m.channel
  die_if (not (is_to_fd c.dir)) ecomm
  let compressed_size = sub_size m.msg.size sizeof_data_lz4
  let closed = remove_from sh from_peer compressed_size
  let deliver : Outcome FbAdbSh = (do
    die_if (ltb (ringbuf_room c.rb) m.uncompressed_size) ecomm
    rio ← ringbuf_readable_iov cmdch.rb compressed_size
    let whole : Outcome Bytes = ringbuf_copy_out cmdch.rb compressed_size
    src ← (if leb compressed_size rio.v0.len then ok (of_iovec cmdch.rb.mem rio.v0) else whole)
    bs ← decompressed (lz4_decompress_safe src m.uncompressed_size) m.uncompressed_size
    sh' ← write_to writes sh m.channel (bs ∷ [])
    remove_from sh' from_peer compressed_size)
  if not (is_open c) then closed else deliver

unfoldable pub process_msg_channel_window : FbAdbSh → MsgChannelWindow → Outcome FbAdbSh
process_msg_channel_window sh m = do
  die_if (invalid_channel sh m.channel) ecomm
  c ← channel_at sh.ch m.channel
  die_if (is_to_fd c.dir) ecomm
  let grown : Outcome FbAdbSh = (do
    let added = satadd uint32_max c.window m.window_delta
    die_if added.0 ecomm
    ok (set_channel sh m.channel (record c { window = added.1 })))
  if not (is_open c) then ok sh else grown

unfoldable pub process_msg_channel_close : FbAdbSh → MsgChannelClose → Outcome FbAdbSh
process_msg_channel_close sh m =
    let closed = channel_at sh.ch m.channel >>= λ c.
    ok (set_channel sh m.channel (channel_close (record c { sent_eof = true }))) in
    if invalid_channel sh m.channel then ok sh else closed

unfoldable pub read_cmdmsg : FbAdbSh → Msg → ℕ → Outcome (Bytes × FbAdbSh)
read_cmdmsg sh mhdr msz = do die_if (not (mhdr.size == msz)) ecomm; pop_bytes sh msz

-- Both of its branches die for a message of that type.
unfoldable pub look_for_stub_error : Msg → Outcome (Unit {0})
look_for_stub_error m = die_if (m.type == msg_error) ecomm

unfoldable pub fb_adb_sh_process_msg :
    Bool → (Bytes → ℕ → Lz4Result) → Writes → FbAdbSh → Msg → Outcome FbAdbSh
fb_adb_sh_process_msg stub lz4_decompress_safe writes sh mhdr =
    let on_data : Outcome FbAdbSh = (do
      die_if (ltb mhdr.size sizeof_data) ecomm
      r ← pop_bytes sh sizeof_data
      process_msg_channel_data writes r.1 (as_data r.0)) in
    let on_data_lz4 : Outcome FbAdbSh = (do
      die_if (ltb mhdr.size sizeof_data_lz4) ecomm
      r ← pop_bytes sh sizeof_data_lz4
      process_msg_channel_data_lz4 lz4_decompress_safe writes r.1 (as_data_lz4 r.0)) in
    let on_window : Outcome FbAdbSh = (do
      r ← read_cmdmsg sh mhdr sizeof_window
      process_msg_channel_window r.1 (as_window r.0)) in
    let on_close : Outcome FbAdbSh = (do
      r ← read_cmdmsg sh mhdr sizeof_close
      process_msg_channel_close r.1 (as_close r.0)) in
    let on_error : Outcome FbAdbSh = (do
      r ← read_cmdmsg sh mhdr mhdr.size
      look_for_stub_error mhdr
      ok r.1) in
    let unrecognized : Outcome FbAdbSh = remove_from sh from_peer mhdr.size >>= λ _. died ecomm in
    if mhdr.type == msg_channel_data
    then on_data
    else if mhdr.type == msg_channel_data_lz4
    then on_data_lz4
    else if mhdr.type == msg_channel_window
    then on_window
    else if mhdr.type == msg_channel_close
    then on_close
    else if not stub && mhdr.type == msg_error
    then on_error
    else unrecognized
