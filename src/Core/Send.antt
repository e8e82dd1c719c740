-- ===== src/Core/Send.antt =====
-- core.c: what a channel's data becomes on the way to the peer.
use fb_adb.Prelude.{
  ℕ, ◌+◌, ◌-◌, ◌%◌, ◌^◌, ◌≤◌, ◌<◌, ◌≡◌, ◌≢◌, refl, sym, ap, ◌∙◌, arith, true, false, List, [], ◌∷◌,
  ◌++◌, Bytes, length, take, drop, length-append, length-take, take-append-drop, ltb, ◌==◌,
}
use fb_adb.Outcome.{ok}
use fb_adb.Util.{iovec_sum, iovec_sum_onto, xmin}
use fb_adb.Ringbuf.{
  Ringbuf, RingbufIo, ringbuf_room, ringbuf_size, ringbuf_readable_iov, ringbuf_io_region, of_iovec,
}
use fb_adb.Ringbuf.Inv.{IsValid}
use fb_adb.Ringbuf.Refine.{contents, length-contents, shrunk, shrunk-IsValid, contents-shrunk}
use fb_adb.Channel.{Channel, to_fd, is_open, Writes}
use fb_adb.Channel.Poll.{concat}
use fb_adb.Channel.Flow.{Takes, channel_write_flow}
use fb_adb.Proto.{sizeof_data, data_bytes, msg_channel_data}
use fb_adb.Core.{FbAdbSh, to_peer, channel_at, set_channel, write_to, remove_from}
use fb_adb.Core.Transmit.{xmit_data_uncompressed}
use fb_adb.Core.Bounds.{channel_at-with_self, channel_at-with_other}
use fb_adb.Core.Steps.{remove_from_lem, write_to_lem, regions_lem}
use fb_adb.Core.Deliver.{data_frame, length-data_bytes}

regions_len :
    (rb : Ringbuf) (len : ℕ) (rio : RingbufIo)
    → ringbuf_readable_iov rb len ≡ ok rio
    → rio.v0.len + rio.v1.len ≡ len
unfolding ringbuf_readable_iov ringbuf_io_region
regions_len rb len rio h = ground arith

-- The length that goes into the header.
frame_size :
    (n a b : ℕ)
    → a + b ≡ n
    → sizeof_data + n < 2 ^ 16
    → iovec_sum (sizeof_data ∷ a ∷ b ∷ []) % 2 ^ 16 ≡ sizeof_data + n
unfolding iovec_sum iovec_sum_onto
frame_size n a b e h = omega arith

-- What sending `payload` from channel `i` to the peer means: it leaves the channel's ring at the
-- front, and behind what was already on its way to the peer comes the frame.
pub record Sent (sh sh' : FbAdbSh) (i : ℕ) (c d : Channel) (payload : Bytes) : Type 0 where
  pub source : Channel
  pub target : Channel
  pub wire : Bytes
  pub at_source : channel_at sh'.ch i ≡ ok source
  pub at_target : channel_at sh'.ch to_peer ≡ ok target
  pub source_valid : IsValid source.rb
  pub target_valid : IsValid target.rb
  pub source_rest : payload ++ contents source.rb ≡ contents c.rb
  pub flow :
      wire ++ contents target.rb ≡ contents d.rb ++ (data_bytes (data_frame i payload) ++ payload)
  pub log : sh'.sent ≡ sh.sent ++ (to_peer, wire) ∷ []

concat-head :
    (head : Bytes) (iov : List Bytes) (payload : Bytes)
    → concat iov ≡ payload
    → concat (head ∷ iov) ≡ head ++ payload
unfolding concat
concat-head head iov payload e = ap (λ w. head ++ w) e

module _ (writes : Writes) (i : ℕ) (c d : Channel) (sh : FbAdbSh) where
  send_runs :
      (avail maxoutmsg n : ℕ) {rio : RingbufIo} {sh1 sh2 : FbAdbSh}
      → sizeof_data ≤ maxoutmsg
      → xmin avail (maxoutmsg - sizeof_data) ≡ n
      → i ≢ 0
      → channel_at sh.ch i ≡ ok c
      → ringbuf_readable_iov c.rb n ≡ ok rio
      → iovec_sum (sizeof_data ∷ rio.v0.len ∷ rio.v1.len ∷ []) % 2 ^ 16 ≡ sizeof_data + n
      → write_to writes sh to_peer (
          data_bytes (record {
            msg = record { size = sizeof_data + n; type = msg_channel_data };
            channel = i;
          })
          ∷ of_iovec c.rb.mem rio.v0
          ∷ of_iovec c.rb.mem rio.v1
          ∷ [])
        ≡ ok sh1
      → remove_from sh1 i n ≡ ok sh2
      → xmit_data_uncompressed writes i avail maxoutmsg sh ≡ ok (1, sh2)
  unfolding xmit_data_uncompressed
  send_runs avail maxoutmsg n room size nonzero at_c readable header written removed =
      let roomy : ltb maxoutmsg sizeof_data ≡ false = ground arith in
      let named : (i == 0) ≡ false = ground arith in
      simp (xmit_data_uncompressed, roomy, size, at_c, readable, header, named, written, removed)

  -- With at most the channel's bytes available and a message of at most the room in the peer's ring,
  -- a call of `xmit_data_uncompressed` returns after one piece of work. It sends the oldest bytes of
  -- the channel, as many as are available and fit behind the header.
  pub xmit_data_uncompressed_sends :
      (avail maxoutmsg : ℕ)
      → 2 ≤ i
      → channel_at sh.ch i ≡ ok c
      → channel_at sh.ch to_peer ≡ ok d
      → IsValid c.rb
      → IsValid d.rb
      → d.dir ≡ to_fd
      → is_open d ≡ true
      → ((k : ℕ) → Takes (writes k))
      → avail ≤ ringbuf_size c.rb
      → sizeof_data ≤ maxoutmsg
      → maxoutmsg ≤ ringbuf_room d.rb
      → maxoutmsg < 2 ^ 16
      → (payload : Bytes) × (sh' : FbAdbSh) × (xmit_data_uncompressed writes i avail maxoutmsg sh
          ≡ ok (1, sh'))
        × (length payload ≡ xmin avail (maxoutmsg - sizeof_data))
        × Sent sh sh' i c d payload
  xmit_data_uncompressed_sends avail maxoutmsg special at_c at_d v vd out alive takes h room fits
        short =
      let fit = xmin avail (maxoutmsg - sizeof_data) in
      let payload = take fit (contents c.rb) in
      let n = length payload in
      let few : fit ≤ avail = ground arith in
      let little : fit ≤ maxoutmsg - sizeof_data = ground arith in
      let size : n ≡ fit = omega (arith, length-take fit (contents c.rb), length-contents c.rb) in
      let (rio, r, whole) =
        regions_lem payload (drop fit (contents c.rb)) v
          (sym (take-append-drop fit (contents c.rb))) in
      let head = data_bytes (data_frame i payload) in
      let iov = head ∷ of_iovec c.rb.mem rio.v0 ∷ of_iovec c.rb.mem rio.v1 ∷ [] in
      let bytes =
        concat-head head (of_iovec c.rb.mem rio.v0 ∷ of_iovec c.rb.mem rio.v1 ∷ []) payload whole in
      let (d', wire, w, vd', same) =
        channel_write_flow (writes sh.nr_writes) d iov vd out alive
          (rw bytes
            (omega (arith, length-append head payload, length-data_bytes (data_frame i payload))))
          (takes sh.nr_writes) in
      let sh1 : FbAdbSh = record (set_channel sh to_peer d') {
        nr_writes = sh.nr_writes + 1;
        sent = sh.sent ++ (to_peer, wire) ∷ [];
      } in
      let at_c1 : channel_at sh1.ch i ≡ ok c =
        channel_at-with_other sh.ch to_peer i d' (omega arith) ∙ at_c in
      let c' = record c { rb = shrunk c.rb n } in
      let enough : n ≤ ringbuf_size c.rb = omega arith in
      let written = write_to_lem writes sh to_peer d iov at_d w in
      (
        payload,
        set_channel sh1 i c',
        send_runs avail maxoutmsg n room (sym size) (omega arith) at_c r
            (frame_size n rio.v0.len rio.v1.len (regions_len c.rb n rio r) (omega arith)) written
            (remove_from_lem sh1 i n c at_c1 v enough),
        size,
        record {
          source = c';
          target = d';
          wire = wire;
          at_source = channel_at-with_self sh1.ch i c c' at_c1;
          at_target =
              channel_at-with_other sh1.ch i to_peer c' (omega arith)
              ∙ channel_at-with_self sh.ch to_peer d d' at_d;
          source_valid = shrunk-IsValid n v enough;
          target_valid = vd';
          source_rest =
              ap (λ w. payload ++ w)
                (contents-shrunk n v enough ∙ ap (λ k. drop k (contents c.rb)) size)
              ∙ take-append-drop fit (contents c.rb);
          flow = same ∙ ap (λ w. contents d.rb ++ w) bytes;
          log = refl;
        },
      )
