-- ===== src/Core/Credit.antt =====
-- core.c: credit for bytes written goes to the peer and widens the window of its channel.
use fb_adb.Prelude.{
  ℕ, ◌+◌, ◌^◌, ◌≤◌, ◌<◌, ◌≡◌, ◌≢◌, refl, sym, ap, ◌∙◌, arith, Bool, true, ◌&&◌, [], ◌∷◌, ◌++◌,
  append-nil, Bytes, length, take, take-append_length, ltb, leb,
}
use fb_adb.Outcome.{ok}
use fb_adb.Util.{xmin, satadd}
use fb_adb.Ringbuf.{ringbuf_room, ringbuf_size}
use fb_adb.Ringbuf.Inv.{IsValid}
use fb_adb.Ringbuf.Refine.{contents, shrunk, shrunk-IsValid}
use fb_adb.Channel.{Channel, to_fd, from_fd, is_open, Writes, uint32_max}
use fb_adb.Channel.Poll.{concat}
use fb_adb.Channel.Flow.{Takes, channel_write_flow}
use fb_adb.Proto.{
  MsgChannelWindow, sizeof_window, window_bytes, msg_bytes, to_le, as_window, msg_channel_window,
}
use fb_adb.Proto.Frames.{as_window-window_bytes}
use fb_adb.Core.{
  FbAdbSh, from_peer, to_peer, channel_at, set_channel, write_to, pop_bytes, fb_adb_maxoutmsg,
}
use fb_adb.Core.Receive.{
  Lz4Result, invalid_channel, read_cmdmsg, process_msg_channel_window, fb_adb_sh_process_msg,
}
use fb_adb.Core.Transmit.{xmit_acks}
use fb_adb.Core.Bounds.{channel_at-with_self, channel_at-with_other}
use fb_adb.Core.Steps.{write_to_lem, pop_bytes_lem, rest_left}

-- The message that gives `delta` bytes of credit for channel `i`.
abbrev pub window_frame : ℕ → ℕ → MsgChannelWindow
window_frame i delta = record {
  msg = record { size = sizeof_window; type = msg_channel_window };
  window_delta = delta;
  channel = i;
}

length-window_bytes : (m : MsgChannelWindow) → length (window_bytes m) ≡ sizeof_window
unfolding window_bytes msg_bytes to_le
length-window_bytes m = refl

-- Credit on its way: the channel owes none any more, and the frame stands behind what was already on
-- its way to the peer.
pub record Credited (sh sh' : FbAdbSh) (i : ℕ) (c d : Channel) : Type 0 where
  pub target : Channel
  pub wire : Bytes
  pub at_source : channel_at sh'.ch i ≡ ok (record c { bytes_written = 0 })
  pub at_target : channel_at sh'.ch to_peer ≡ ok target
  pub target_valid : IsValid target.rb
  pub flow :
      wire ++ contents target.rb ≡ contents d.rb ++ window_bytes (window_frame i c.bytes_written)

acks_run :
    (writes : Writes) (i : ℕ) (c d c' : Channel) (sh sh1 : FbAdbSh)
    → channel_at sh.ch i ≡ ok c
    → channel_at sh.ch to_peer ≡ ok d
    → 0 < c.bytes_written
    → sizeof_window ≤ sh.max_outgoing_msg
    → sizeof_window ≤ ringbuf_room d.rb
    → write_to writes sh to_peer (window_bytes (window_frame i c.bytes_written) ∷ []) ≡ ok sh1
    → channel_at sh1.ch i ≡ ok c'
    → xmit_acks writes i sh ≡ ok (set_channel sh1 i (record c' { bytes_written = 0 }))
unfolding xmit_acks fb_adb_maxoutmsg
acks_run writes i c d c' sh sh1 at_c at_d owed large room written at_c1 =
    let due : (ltb 0 c.bytes_written
          && leb sizeof_window (xmin sh.max_outgoing_msg (ringbuf_room d.rb)))
        ≡ true =
      ground arith in
    simp (xmit_acks, fb_adb_maxoutmsg, at_c, at_d, due, written, at_c1)

-- A channel other than the peer's that owes credit sends it, when a message of that size is allowed
-- and fits the peer's ring: the frame carries all the bytes written since the last one, and the
-- channel then owes none.
pub xmit_acks_credits :
    (writes : Writes) (i : ℕ) (c d : Channel) (sh : FbAdbSh)
    → i ≢ to_peer
    → channel_at sh.ch i ≡ ok c
    → channel_at sh.ch to_peer ≡ ok d
    → IsValid d.rb
    → d.dir ≡ to_fd
    → is_open d ≡ true
    → ((k : ℕ) → Takes (writes k))
    → 0 < c.bytes_written
    → sizeof_window ≤ sh.max_outgoing_msg
    → sizeof_window ≤ ringbuf_room d.rb
    → (sh' : FbAdbSh) × (xmit_acks writes i sh ≡ ok sh') × Credited sh sh' i c d
unfolding concat
xmit_acks_credits writes i c d sh special at_c at_d vd out alive takes owed large room =
    let frame = window_bytes (window_frame i c.bytes_written) in
    let whole : concat (frame ∷ []) ≡ frame = append-nil frame in
    let (d', wire, w, vd', same) =
      channel_write_flow (writes sh.nr_writes) d (frame ∷ []) vd out alive
        (omega (arith, ap length whole, length-window_bytes (window_frame i c.bytes_written)))
        (takes sh.nr_writes) in
    let sh1 : FbAdbSh = record (set_channel sh to_peer d') {
      nr_writes = sh.nr_writes + 1;
      sent = sh.sent ++ (to_peer, wire) ∷ [];
    } in
    let at_c1 : channel_at sh1.ch i ≡ ok c =
      channel_at-with_other sh.ch to_peer i d' (omega arith) ∙ at_c in
    let paid = record c { bytes_written = 0 } in
    (
      set_channel sh1 i paid,
      acks_run writes i c d c sh sh1 at_c at_d owed large room
          (write_to_lem writes sh to_peer d (frame ∷ []) at_d w) at_c1,
      record {
        target = d';
        wire = wire;
        at_source = channel_at-with_self sh1.ch i c paid at_c1;
        at_target =
            channel_at-with_other sh1.ch i to_peer paid (λ e. special e)
            ∙ channel_at-with_self sh.ch to_peer d d' at_d;
        target_valid = vd';
        flow = same ∙ ap (λ w. contents d.rb ++ w) whole;
      },
    )

grant_runs :
    (stub : Bool) (lz4_decompress_safe : Bytes → ℕ → Lz4Result) (writes : Writes) (sh sh1 : FbAdbSh)
    (i delta : ℕ) (c : Channel) (bs : Bytes)
    → pop_bytes sh sizeof_window ≡ ok (bs, sh1)
    → as_window bs ≡ window_frame i delta
    → 2 ≤ i
    → i ≤ sh1.nrch
    → channel_at sh1.ch i ≡ ok c
    → c.dir ≡ from_fd
    → is_open c ≡ true
    → c.window + delta ≤ uint32_max
    → fb_adb_sh_process_msg stub lz4_decompress_safe writes sh (window_frame i delta).msg
      ≡ ok (set_channel sh1 i (record c { window = c.window + delta }))
unfolding fb_adb_sh_process_msg read_cmdmsg process_msg_channel_window invalid_channel satadd
grant_runs stub lz4_decompress_safe writes sh sh1 i delta c bs popped frame special below at_c
      source alive fits =
    ground (arith, popped, frame, at_c)

-- A credit message for an open channel from a descriptor, at the head of the peer's ring, that does not
-- overflow the window: its handling returns, the window grows by just that credit, and the ring is left
-- with what followed the message.
pub process_window_grants :
    (stub : Bool) (lz4_decompress_safe : Bytes → ℕ → Lz4Result) (writes : Writes) (sh : FbAdbSh)
    (i delta : ℕ) (c cmdch : Channel) (rest : Bytes)
    → 2 ≤ i
    → i ≤ sh.nrch
    → i < 2 ^ 8
    → channel_at sh.ch i ≡ ok c
    → channel_at sh.ch from_peer ≡ ok cmdch
    → IsValid cmdch.rb
    → contents cmdch.rb ≡ window_bytes (window_frame i delta) ++ rest
    → c.dir ≡ from_fd
    → is_open c ≡ true
    → c.window + delta ≤ uint32_max
    → (sh' : FbAdbSh) × (source : Channel) × (fb_adb_sh_process_msg stub lz4_decompress_safe writes
          sh
          (window_frame i delta).msg
        ≡ ok sh')
      × (channel_at sh'.ch i ≡ ok (record c { window = c.window + delta }))
      × (channel_at sh'.ch from_peer ≡ ok source)
      × IsValid source.rb
      × (contents source.rb ≡ rest)
process_window_grants stub lz4_decompress_safe writes sh i delta c cmdch rest special below byte
      at_c at_cmd v held source alive fits =
    let frame = window_frame i delta in
    let nine = length-window_bytes frame in
    let (enough, left) = rest_left (window_bytes frame) rest v held in
    let nine_held : sizeof_window ≤ ringbuf_size cmdch.rb = omega arith in
    let cmdch1 = record cmdch { rb = shrunk cmdch.rb sizeof_window } in
    let sh1 = set_channel sh from_peer cmdch1 in
    let at_c1 : channel_at sh1.ch i ≡ ok c =
      channel_at-with_other sh.ch from_peer i cmdch1 (omega arith) ∙ at_c in
    let at_cmd1 : channel_at sh1.ch from_peer ≡ ok cmdch1 =
      channel_at-with_self sh.ch from_peer cmdch cmdch1 at_cmd in
    let wider = record c { window = c.window + delta } in
    (
      set_channel sh1 i wider,
      cmdch1,
      grant_runs stub lz4_decompress_safe writes sh sh1 i delta c
          (take sizeof_window (contents cmdch.rb))
          (pop_bytes_lem sh sizeof_window cmdch at_cmd v nine_held)
          (ap (λ w. as_window (take sizeof_window w)) held
            ∙ ap (λ n. as_window (take n (window_bytes frame ++ rest))) (sym nine)
            ∙ ap as_window (
                take-append_length (window_bytes frame) rest
                ∙ sym (append-nil (window_bytes frame)))
            ∙ as_window-window_bytes frame []
                (record { size_fits = omega arith; type_fits = omega arith }) (omega arith) byte)
          special below at_c1 source alive fits,
      channel_at-with_self sh1.ch i c wider at_c1,
      channel_at-with_other sh1.ch i from_peer wider (omega arith) ∙ at_cmd1,
      shrunk-IsValid sizeof_window v nine_held,
      rw nine at left,
    )
