-- ===== src/Core/Transmit.antt =====
-- core.c: the messages that the loop sends: credit for bytes written, data, and the end of a channel.
use fb_adb.Prelude.{
  ℕ, ◌+◌, ◌-◌, ◌%◌, ◌^◌, true, not, ◌&&◌, [], ◌∷◌, Bytes, length, ltb, leb, ◌==◌, if◌then◌else◌,
}
use fb_adb.Outcome.{Outcome, ok, ◌>>=◌, ◌>>◌, assert}
use fb_adb.Util.{xmin, iovec_sum}
use fb_adb.Ringbuf.{ringbuf_size, ringbuf_readable_iov, of_iovec, gather}
use fb_adb.Channel.{Channel, is_to_fd, is_open, Writes}
use fb_adb.Channel.Poll.{channel_close}
use fb_adb.Proto.{
  window_bytes, data_bytes, data_lz4_bytes, close_bytes, sizeof_data, sizeof_data_lz4,
  sizeof_window, sizeof_close, msg_channel_data, msg_channel_data_lz4, msg_channel_window,
  msg_channel_close,
}
use fb_adb.Core.{FbAdbSh, to_peer, channel_at, set_channel, write_to, remove_from, fb_adb_maxoutmsg}

unfoldable pub xmit_acks : Writes → ℕ → FbAdbSh → Outcome FbAdbSh
xmit_acks writes chno sh = do
  c ← channel_at sh.ch chno
  maxoutmsg ← fb_adb_maxoutmsg sh
  let m = window_bytes (record {
    msg = record { size = sizeof_window; type = msg_channel_window };
    window_delta = c.bytes_written;
    channel = chno;
  })
  let acknowledge : Outcome FbAdbSh = (do
    sh' ← write_to writes sh to_peer (m ∷ [])
    c' ← channel_at sh'.ch chno
    ok (set_channel sh' chno (record c' { bytes_written = 0 })))
  if ltb 0 c.bytes_written && leb sizeof_window maxoutmsg then acknowledge else ok sh

-- The calls that send data return how much work they did besides the state.
unfoldable pub xmit_data_uncompressed : Writes → ℕ → ℕ → ℕ → FbAdbSh → Outcome (ℕ × FbAdbSh)
xmit_data_uncompressed writes chno avail maxoutmsg sh =
    let payloadsz = xmin avail (maxoutmsg - sizeof_data) in
    let send : Outcome (ℕ × FbAdbSh) = (do
      c ← channel_at sh.ch chno
      rio ← ringbuf_readable_iov c.rb payloadsz
      let m = data_bytes (record {
        msg = record {
          size = iovec_sum (sizeof_data ∷ rio.v0.len ∷ rio.v1.len ∷ []) % 2 ^ 16;
          type = msg_channel_data;
        };
        channel = chno;
      })
      assert (not (chno == 0))
      sh' ←
          write_to writes sh to_peer (m ∷ of_iovec c.rb.mem rio.v0 ∷ of_iovec c.rb.mem rio.v1 ∷ [])
      sh'' ← remove_from sh' chno payloadsz
      ok (1, sh'')) in
    if ltb maxoutmsg sizeof_data then ok (0, sh) else send

abbrev pub max_compression_block : ℕ
max_compression_block = 65536

abbrev pub min_compression_block : ℕ
min_compression_block = 13

abbrev int_max : ℕ
int_max = 2 ^ 31 - 1

-- What lz4.h offers: the most that so many bytes can grow to, and from the source and the room of the
-- destination the bytes stored, and how many of the source they stand for. No bytes is a failure.
pub record Lz4 : Type 0 where
  pub compress_bound : ℕ → ℕ
  pub compress_dest_size : Bytes → ℕ → Bytes × ℕ

unfoldable pub xmit_data_lz4 : Lz4 → Writes → ℕ → ℕ → ℕ → FbAdbSh → Outcome (ℕ × FbAdbSh)
xmit_data_lz4 lz4 writes chno avail maxoutmsg sh =
    let src_size = xmin (xmin (xmin avail int_max) max_compression_block) (2 ^ 16 - 1) in
    let plain : Outcome (ℕ × FbAdbSh) = xmit_data_uncompressed writes chno avail maxoutmsg sh in
    let send : Outcome (ℕ × FbAdbSh) = (do
      assert (leb maxoutmsg (int_max + sizeof_data_lz4))
      let dst_size = xmin (maxoutmsg - sizeof_data_lz4) (lz4.compress_bound src_size)
      c ← channel_at sh.ch chno
      rio ← ringbuf_readable_iov c.rb src_size
      let r = lz4.compress_dest_size (gather c.rb.mem rio) dst_size
      let out_size = length r.0
      let consumed_size = r.1
      let part : Outcome (ℕ × FbAdbSh) =
          xmit_data_uncompressed writes chno consumed_size maxoutmsg sh
      let m = data_lz4_bytes (record {
        msg = record { size = (out_size + sizeof_data_lz4) % 2 ^ 16; type = msg_channel_data_lz4 };
        uncompressed_size = consumed_size;
        channel = chno;
      })
      let compressed : Outcome (ℕ × FbAdbSh) = (do
        sh' ← write_to writes sh to_peer (m ∷ r.0 ∷ [])
        sh'' ← remove_from sh' chno consumed_size
        ok (1, sh''))
      let checked : Outcome (ℕ × FbAdbSh) = (do
        assert (leb consumed_size src_size)
        assert (leb out_size dst_size)
        if leb (consumed_size + sizeof_data) (out_size + sizeof_data_lz4) then part else compressed)
      if out_size == 0 then plain else checked) in
    if ltb maxoutmsg sizeof_data_lz4 then ok (0, sh) else send

unfoldable pub xmit_data : Lz4 → Writes → ℕ → FbAdbSh → Outcome (ℕ × FbAdbSh)
xmit_data lz4 writes chno sh = do
  c ← channel_at sh.ch chno
  maxoutmsg ← fb_adb_maxoutmsg sh
  let avail = ringbuf_size c.rb
  let compressed : Outcome (ℕ × FbAdbSh) = xmit_data_lz4 lz4 writes chno avail maxoutmsg sh
  let plain : Outcome (ℕ × FbAdbSh) = xmit_data_uncompressed writes chno avail maxoutmsg sh
  if not (is_to_fd c.dir) && ltb 0 avail
      then (if c.compress && leb min_compression_block avail then compressed else plain)
      else ok (0, sh)

unfoldable pub xmit_eof : Writes → ℕ → FbAdbSh → Outcome (ℕ × FbAdbSh)
xmit_eof writes chno sh = do
  c ← channel_at sh.ch chno
  maxoutmsg ← fb_adb_maxoutmsg sh
  let m =
      close_bytes
        (record { msg = record { size = sizeof_close; type = msg_channel_close }; channel = chno })
  let send : Outcome (ℕ × FbAdbSh) = (do
    sh' ← write_to writes sh to_peer (m ∷ [])
    c' ← channel_at sh'.ch chno
    ok (1, set_channel sh' chno (record c' { sent_eof = true })))
  if not (is_open c) && not c.sent_eof && ringbuf_size c.rb == 0 && leb sizeof_close maxoutmsg
      then send
      else ok (0, sh)

unfoldable pub do_pending_close : Channel → Channel
do_pending_close c =
    if is_to_fd c.dir && is_open c && ringbuf_size c.rb == 0 && c.pending_close
    then channel_close c
    else c
