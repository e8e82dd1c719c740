-- ===== src/Core/Deliver.antt =====
-- core.c: a data message at the head of the peer's ring reaches the channel that it names.
use fb_adb.Prelude.{
  ℕ, ◌+◌, ◌^◌, ◌≤◌, ◌<◌, ◌≡◌, refl, sym, ap, ◌∙◌, arith, Bool, true, false, ◌||◌, [], ◌∷◌, ◌++◌,
  append-nil, Bytes, length, take, take-append_length, ltb, leb,
}
use fb_adb.Outcome.{ok, ◌>>=◌}
use fb_adb.Util.{sub_size}
use fb_adb.Ringbuf.{Ringbuf, RingbufIo, ringbuf_room, ringbuf_size, ringbuf_readable_iov, of_iovec}
use fb_adb.Ringbuf.Inv.{IsValid}
use fb_adb.Ringbuf.Refine.{contents, shrunk, shrunk-IsValid}
use fb_adb.Channel.{Channel, to_fd, is_open, Writes}
use fb_adb.Channel.Poll.{channel_write}
use fb_adb.Channel.Flow.{Takes, channel_write_flow}
use fb_adb.Proto.{
  MsgChannelData, sizeof_data, data_bytes, msg_bytes, to_le, as_data, msg_channel_data,
}
use fb_adb.Proto.Frames.{FitsMsg, as_data-data_bytes}
use fb_adb.Core.{FbAdbSh, from_peer, nr_special_ch, channel_at, set_channel, remove_from, pop_bytes}
use fb_adb.Core.Receive.{
  Lz4Result, invalid_channel, process_msg_channel_data, fb_adb_sh_process_msg,
}
use fb_adb.Core.Bounds.{channel_at-with_self, channel_at-with_other}
use fb_adb.Core.Steps.{remove_from_lem, write_to_lem, pop_bytes_lem, rest_left, regions_lem}

-- What delivery of `payload` to channel `i` means: only the channel and the peer's ring change, and
-- nothing of what the channel held or of the payload is lost.
pub record Delivered (sh sh' : FbAdbSh) (i : ℕ) (c : Channel) (payload rest : Bytes) : Type 0 where
  pub target : Channel
  pub source : Channel
  pub sent : Bytes
  pub at_target : channel_at sh'.ch i ≡ ok target
  pub at_source : channel_at sh'.ch from_peer ≡ ok source
  pub target_valid : IsValid target.rb
  pub source_valid : IsValid source.rb
  pub source_rest : contents source.rb ≡ rest
  pub flow : sent ++ contents target.rb ≡ contents c.rb ++ payload
  pub log : sh'.sent ≡ sh.sent ++ (i, sent) ∷ []

-- The header of a data message.
abbrev pub data_frame : ℕ → Bytes → MsgChannelData
data_frame i payload = record {
  msg = record { size = sizeof_data + length payload; type = msg_channel_data };
  channel = i;
}

pub length-data_bytes : (m : MsgChannelData) → length (data_bytes m) ≡ sizeof_data
unfolding data_bytes msg_bytes to_le
length-data_bytes m = refl

head_read :
    (rb : Ringbuf) (m : MsgChannelData) (rest : Bytes)
    → contents rb ≡ data_bytes m ++ rest
    → FitsMsg m.msg
    → m.channel < 2 ^ 8
    → as_data (take sizeof_data (contents rb)) ≡ m
head_read rb m rest held f h =
    ap (λ w. as_data (take sizeof_data w)) held
    ∙ ap (λ n. as_data (take n (data_bytes m ++ rest))) (sym (length-data_bytes m))
    ∙ ap as_data (take-append_length (data_bytes m) rest ∙ sym (append-nil (data_bytes m)))
    ∙ as_data-data_bytes m [] f h

module _ (writes : Writes) (i : ℕ) (c : Channel) (payload rest : Bytes) (special : 2 ≤ i)
    (v : IsValid c.rb) (out : c.dir ≡ to_fd) (alive : is_open c ≡ true)
    (fits : length payload ≤ ringbuf_room c.rb) (takes : (k : ℕ) → Takes (writes k)) where
  data_runs :
      (sh : FbAdbSh) (cmdch : Channel) (m : MsgChannelData) {rio : RingbufIo} {r : Channel × Bytes}
      {sh' : FbAdbSh}
      → i ≤ sh.nrch
      → channel_at sh.ch i ≡ ok c
      → channel_at sh.ch from_peer ≡ ok cmdch
      → m.channel ≡ i
      → sub_size m.msg.size sizeof_data ≡ length payload
      → ringbuf_readable_iov cmdch.rb (length payload) ≡ ok rio
      → channel_write
          (writes sh.nr_writes)
          c
          (of_iovec cmdch.rb.mem rio.v0 ∷ of_iovec cmdch.rb.mem rio.v1 ∷ [])
        ≡ ok r
      → remove_from
          (record (set_channel sh i r.0) {
            nr_writes = sh.nr_writes + 1;
            sent = sh.sent ++ (i, r.1) ∷ [];
          })
          from_peer
          (length payload)
        ≡ ok sh'
      → process_msg_channel_data writes sh m ≡ ok sh'
  unfolding process_msg_channel_data invalid_channel
  data_runs sh cmdch m below at_c at_cmd chan n readable w removed =
      let guarded : (leb i nr_special_ch || ltb sh.nrch i) ≡ false = ground arith in
      let roomy : ltb (ringbuf_room c.rb) (length payload) ≡ false = ground arith in
      simp
        (
          process_msg_channel_data, invalid_channel, at_cmd, chan, guarded, at_c, out, n, alive,
          roomy, readable,
        )
        (ap (λ o. o >>= λ s. remove_from s from_peer (length payload))
            (write_to_lem writes sh i c _ at_c w)
          ∙ removed)

  data_lem :
      (sh : FbAdbSh) (cmdch : Channel) (m : MsgChannelData)
      → i ≤ sh.nrch
      → channel_at sh.ch i ≡ ok c
      → channel_at sh.ch from_peer ≡ ok cmdch
      → IsValid cmdch.rb
      → contents cmdch.rb ≡ payload ++ rest
      → m.channel ≡ i
      → m.msg.size ≡ sizeof_data + length payload
      → m.msg.size < 2 ^ 16
      → (sh' : FbAdbSh) × (process_msg_channel_data writes sh m ≡ ok sh')
        × Delivered sh sh' i c payload rest
  data_lem sh cmdch m below at_c at_cmd vcmd held chan size small =
      let (enough, left) = rest_left payload rest vcmd held in
      let (rio, r, whole) = regions_lem payload rest vcmd held in
      let iov = of_iovec cmdch.rb.mem rio.v0 ∷ of_iovec cmdch.rb.mem rio.v1 ∷ [] in
      let (c', sent, w, vc', same) =
        channel_write_flow (writes sh.nr_writes) c iov v out alive (rw whole fits)
          (takes sh.nr_writes) in
      let sh1 : FbAdbSh = record (set_channel sh i c') {
        nr_writes = sh.nr_writes + 1;
        sent = sh.sent ++ (i, sent) ∷ [];
      } in
      let at_cmd1 : channel_at sh1.ch from_peer ≡ ok cmdch =
        channel_at-with_other sh.ch i from_peer c' (omega arith) ∙ at_cmd in
      let cmdch' = record cmdch { rb = shrunk cmdch.rb (length payload) } in
      let removed = remove_from_lem sh1 from_peer (length payload) cmdch at_cmd1 vcmd enough in
      let n : sub_size m.msg.size sizeof_data ≡ length payload = omega arith in
      (
        set_channel sh1 from_peer cmdch',
        data_runs sh cmdch m below at_c at_cmd chan n r w removed,
        record {
          target = c';
          source = cmdch';
          sent = sent;
          at_target =
              channel_at-with_other sh1.ch from_peer i cmdch' (omega arith)
              ∙ channel_at-with_self sh.ch i c c' at_c;
          at_source = channel_at-with_self sh1.ch from_peer cmdch cmdch' at_cmd1;
          target_valid = vc';
          source_valid = shrunk-IsValid (length payload) vcmd enough;
          source_rest = left;
          flow = same ∙ ap (λ w. contents c.rb ++ w) whole;
          log = refl;
        },
      )

  -- The frame is read from the head of the ring, and its handler runs.
  message_runs :
      (stub : Bool) (lz4_decompress_safe : Bytes → ℕ → Lz4Result) (sh : FbAdbSh) {bs : Bytes}
      {sh1 sh' : FbAdbSh}
      → pop_bytes sh sizeof_data ≡ ok (bs, sh1)
      → as_data bs ≡ data_frame i payload
      → process_msg_channel_data writes sh1 (data_frame i payload) ≡ ok sh'
      → fb_adb_sh_process_msg stub lz4_decompress_safe writes sh (data_frame i payload).msg ≡ ok sh'
  unfolding fb_adb_sh_process_msg
  message_runs stub lz4_decompress_safe sh popped frame handled =
      ground (arith, popped, frame, handled)

  -- A data message for an open channel to a descriptor, whose ring has room for the payload, at the
  -- head of the ring of the peer: when every `writev` takes at most what it is offered, its handling
  -- returns, the payload comes behind what the channel still held, what `writev` took is its front, and
  -- the peer's ring is left with what followed the message.
  pub process_data_delivers :
      (stub : Bool) (lz4_decompress_safe : Bytes → ℕ → Lz4Result) (sh : FbAdbSh) (cmdch : Channel)
      → i ≤ sh.nrch
      → i < 2 ^ 8
      → sizeof_data + length payload < 2 ^ 16
      → channel_at sh.ch i ≡ ok c
      → channel_at sh.ch from_peer ≡ ok cmdch
      → IsValid cmdch.rb
      → contents cmdch.rb ≡ data_bytes (data_frame i payload) ++ (payload ++ rest)
      → (sh' : FbAdbSh) × (fb_adb_sh_process_msg stub lz4_decompress_safe writes sh
            (data_frame i payload).msg
          ≡ ok sh')
        × Delivered sh sh' i c payload rest
  unfolding fb_adb_sh_process_msg
  process_data_delivers stub lz4_decompress_safe sh cmdch below byte short at_c at_cmd vcmd held =
      let frame = data_frame i payload in
      let (enough, left) = rest_left (data_bytes frame) (payload ++ rest) vcmd held in
      let five : sizeof_data ≤ ringbuf_size cmdch.rb = omega (arith, length-data_bytes frame) in
      let cmdch1 = record cmdch { rb = shrunk cmdch.rb sizeof_data } in
      let sh1 = set_channel sh from_peer cmdch1 in
      let (sh', e, d) =
        data_lem sh1 cmdch1 frame below
          (channel_at-with_other sh.ch from_peer i cmdch1 (omega arith) ∙ at_c)
          (channel_at-with_self sh.ch from_peer cmdch cmdch1 at_cmd)
          (shrunk-IsValid sizeof_data vcmd five) (rw (length-data_bytes frame) at left) refl refl
          short in
      (
        sh',
        message_runs stub lz4_decompress_safe sh
            (pop_bytes_lem sh sizeof_data cmdch at_cmd vcmd five)
            (head_read cmdch.rb frame (payload ++ rest) held
              (record { size_fits = short; type_fits = omega arith }) byte)
            e,
        record {
          target = d.target;
          source = d.source;
          sent = d.sent;
          at_target = d.at_target;
          at_source = d.at_source;
          target_valid = d.target_valid;
          source_valid = d.source_valid;
          source_rest = d.source_rest;
          flow = d.flow;
          log = d.log;
        },
      )
