-- ===== src/Core/Tests.antt =====
-- A stub with one channel to a child, and the theorems at it.
use fb_adb.Prelude.{
  ℕ, ◌≡◌, ◌↔◌, refl, [], ◌∷◌, ◌++◌, ◌≤◌, ◌-◌, false, true, some, Bytes, codes, arith, length, min,
}
use fb_adb.Outcome.{ok, fault}
use fb_adb.Util.{xmin}
use fb_adb.Adbenc.{state0}
use fb_adb.Ringbuf.{Ringbuf, ringbuf_size, ringbuf_room, ringbuf_capacity, wrote}
use fb_adb.Ringbuf.Inv.{IsValid}
use fb_adb.Ringbuf.Refine.{contents}
use fb_adb.Ringbuf.Window.{window}
use fb_adb.Channel.{Channel, Direction, to_fd, from_fd, Writes}
use fb_adb.Channel.Flow.{Takes}
use fb_adb.Proto.{
  Msg, MsgChannelData, MsgChannelDataLz4, MsgChannelWindow, MsgChannelClose, data_bytes,
  window_bytes, msg_bytes, to_le, sizeof_data, msg_channel_data, msg_channel_data_lz4,
  msg_channel_window, msg_channel_close,
}
use fb_adb.Core.{FbAdbSh, from_peer, channel_at}
use fb_adb.Core.Receive.{
  Lz4Result, lz4_malformed, process_msg_channel_data, process_msg_channel_data_lz4,
  process_msg_channel_window, process_msg_channel_close, fb_adb_sh_process_msg,
}
use fb_adb.Core.Transmit.{xmit_acks, xmit_data_uncompressed}
use fb_adb.Core.Bounds.{nr_channels, handlers_fault_iff}
use fb_adb.Core.Deliver.{Delivered, data_frame, process_data_delivers}
use fb_adb.Core.Credit.{window_frame, Credited, xmit_acks_credits, process_window_grants}
use fb_adb.Core.Send.{Sent, xmit_data_uncompressed_sends}

-- A ring of sixteen bytes that holds the first `n` of them.
abbrev ring : ℕ → Bytes → Ringbuf
ring n mem = record { nr_removed = 0; nr_added = n; capacity = 16; mem = mem }

ring-IsValid : (n : ℕ) (mem : Bytes) → n ≤ 16 → length mem ≡ 16 → IsValid (ring n mem)
unfolding ringbuf_size
ring-IsValid n mem h e = record {
  exponent = 4;
  pow = refl;
  small = omega arith;
  storage = e;
  added_fits = omega arith;
  removed_fits = omega arith;
  held = omega arith;
}

abbrev channel_with : Direction → Ringbuf → Channel
channel_with dir rb = record {
  fdh = some 1;
  dir = dir;
  err = 0;
  rb = rb;
  saved_term_state = false;
  bytes_written = 0;
  window = 100;
  adb_hack_state = state0;
  sent_eof = false;
  pending_close = false;
  always_buffer = false;
  track_bytes_written = false;
  track_window = false;
  adb_encoding_hack = false;
  compress = false;
}

-- Three bytes for channel 2, and the first byte of the next message.
abbrev arrived : Bytes
arrived = 8 ∷ 0 ∷ 40 ∷ 0 ∷ 2 ∷ codes "abc" ++ 6 ∷ codes "xxxxxxx"

abbrev stub_sh : FbAdbSh
stub_sh = record {
  max_outgoing_msg = 4096;
  nrch = 3;
  turn = 0;
  ch =
      channel_with from_fd (ring 9 arrived)
      ∷ channel_with to_fd (ring 0 (codes "xxxxxxxxxxxxxxxx"))
      ∷ channel_with to_fd (ring 2 (codes "hixxxxxxxxxxxxxx"))
      ∷ [];
  nr_writes = 0;
  sent = [];
}

abbrev writes : Writes
writes k bs = wrote (min (length bs) 1)

writes-Takes : (k : ℕ) → Takes (writes k)
writes-Takes k bs = omega arith

abbrev no_lz4 : Bytes → ℕ → Lz4Result
no_lz4 bs n = lz4_malformed

empty_room : (mem : Bytes) (n : ℕ) → n ≤ 16 → ringbuf_room (ring n mem) ≡ 16 - n
unfolding ringbuf_room ringbuf_size ringbuf_capacity
empty_room mem n h = omega arith

abbrev peer_ring : Channel
peer_ring = channel_with from_fd (ring 9 arrived)

abbrev peer_out : Channel
peer_out = channel_with to_fd (ring 0 (codes "xxxxxxxxxxxxxxxx"))

abbrev child_stdin : Channel
child_stdin = channel_with to_fd (ring 2 (codes "hixxxxxxxxxxxxxx"))

process_data_delivers_example :
    (sh' : FbAdbSh) × (fb_adb_sh_process_msg true no_lz4 writes stub_sh
        (data_frame 2 (codes "abc")).msg
      ≡ ok sh')
    × Delivered stub_sh sh' 2 child_stdin (codes "abc") (6 ∷ [])
unfolding channel_at data_bytes msg_bytes to_le contents window ringbuf_size
process_data_delivers_example =
    process_data_delivers writes 2 child_stdin (codes "abc") (6 ∷ []) (omega arith)
      (ring-IsValid 2 _ (omega arith) refl) refl refl
      (omega (arith, empty_room (codes "hixxxxxxxxxxxxxx") 2 (omega arith))) writes-Takes true
      no_lz4 stub_sh peer_ring (omega arith) (omega arith) (omega arith) refl refl
      (ring-IsValid 9 arrived (omega arith) refl) refl

-- The same channels where the third one reads from a child.
abbrev child_stdout : Channel
child_stdout = channel_with from_fd (ring 2 (codes "hixxxxxxxxxxxxxx"))

abbrev sending_sh : FbAdbSh
sending_sh = record stub_sh { ch = peer_ring ∷ peer_out ∷ child_stdout ∷ [] }

xmit_data_uncompressed_sends_example :
    (payload : Bytes) × (sh' : FbAdbSh) × (xmit_data_uncompressed writes 2 2 16 sending_sh
      ≡ ok (1, sh'))
    × (length payload ≡ xmin 2 (16 - sizeof_data))
    × Sent sending_sh sh' 2 child_stdout peer_out payload
unfolding channel_at ringbuf_size
xmit_data_uncompressed_sends_example =
    xmit_data_uncompressed_sends writes 2 child_stdout peer_out sending_sh 2 16 (omega arith) refl
      refl (ring-IsValid 2 _ (omega arith) refl) (ring-IsValid 0 _ (omega arith) refl) refl refl
      writes-Takes (omega arith) (omega arith)
      (omega (arith, empty_room (codes "xxxxxxxxxxxxxxxx") 0 (omega arith))) (omega arith)

abbrev header : ℕ → ℕ → Msg
header size type = record { size = size; type = type }

abbrev credit : MsgChannelWindow
credit = record { msg = header 9 msg_channel_window; window_delta = 7; channel = 3 }

abbrev closing : MsgChannelClose
closing = record { msg = header 5 msg_channel_close; channel = 2 }

abbrev plain : MsgChannelData
plain = record { msg = header 5 msg_channel_data; channel = 3 }

abbrev packed : MsgChannelDataLz4
packed = record { msg = header 7 msg_channel_data_lz4; uncompressed_size = 0; channel = 3 }

handlers_fault_iff_example :
    ((process_msg_channel_window stub_sh credit ≡ fault) ↔ (credit.channel ≡ stub_sh.nrch))
    × ((process_msg_channel_close stub_sh closing ≡ fault) ↔ (closing.channel ≡ stub_sh.nrch))
    × (plain.channel ≡ stub_sh.nrch → process_msg_channel_data writes stub_sh plain ≡ fault)
    × (packed.channel ≡ stub_sh.nrch
        → process_msg_channel_data_lz4 no_lz4 writes stub_sh packed ≡ fault)
unfolding nr_channels
handlers_fault_iff_example =
    handlers_fault_iff stub_sh refl (omega arith) no_lz4 writes credit closing plain packed

-- Channel 2 owes credit for seven bytes, and credit for seven bytes arrived for it.
abbrev owing : Channel
owing = record child_stdin { bytes_written = 7 }

abbrev owing_sh : FbAdbSh
owing_sh = record stub_sh { ch = peer_ring ∷ peer_out ∷ owing ∷ [] }

xmit_acks_credits_example :
    (sh' : FbAdbSh) × (xmit_acks writes 2 owing_sh ≡ ok sh')
    × Credited owing_sh sh' 2 owing peer_out
unfolding channel_at
xmit_acks_credits_example =
    xmit_acks_credits writes 2 owing peer_out owing_sh (λ e. absurd (omega arith)) refl refl
      (ring-IsValid 0 _ (omega arith) refl) refl refl writes-Takes (omega arith) (omega arith)
      (omega (arith, empty_room (codes "xxxxxxxxxxxxxxxx") 0 (omega arith)))

abbrev credit_ring : Channel
credit_ring = channel_with from_fd (ring 9 (9 ∷ 0 ∷ 42 ∷ 0 ∷ 7 ∷ 0 ∷ 0 ∷ 0 ∷ 2 ∷ codes "xxxxxxx"))

abbrev granted_sh : FbAdbSh
granted_sh = record stub_sh { ch = credit_ring ∷ peer_out ∷ child_stdout ∷ [] }

process_window_grants_example :
    (sh' : FbAdbSh) × (source : Channel) × (fb_adb_sh_process_msg true no_lz4 writes granted_sh
        (window_frame 2 7).msg
      ≡ ok sh')
    × (channel_at sh'.ch 2 ≡ ok (record child_stdout { window = 107 }))
    × (channel_at sh'.ch from_peer ≡ ok source)
    × IsValid source.rb
    × (contents source.rb ≡ [])
unfolding channel_at window_bytes msg_bytes to_le contents window ringbuf_size
process_window_grants_example =
    process_window_grants true no_lz4 writes granted_sh 2 7 child_stdout credit_ring []
      (omega arith) (omega arith) (omega arith) refl refl (ring-IsValid 9 _ (omega arith) refl) refl
      refl refl (omega arith)
