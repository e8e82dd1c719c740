-- ===== src/Core/Link.antt =====
-- core.c and channel.c: one channel from the side that reads a descriptor to the side that writes one,
-- with what is on its way between them. The events are calls that the two event loops make. The size of a
-- message is not cut to its 16 bits, since both programs keep max_outgoing_msg below 2^16.
pub mod Balance
pub mod Messages
pub mod Run
mod Tests
use fb_adb.Prelude.{
  ℕ, ◌+◌, ◌-◌, Bool, true, false, not, List, [], ◌∷◌, ◌++◌, Bytes, length, ltb, leb, ◌&&◌,
  if◌then◌else◌,
}
use fb_adb.Outcome.{ecomm, Outcome, ok, aborted, died, fault, ◌>>=◌, ◌>>◌, die_if}
use fb_adb.Util.{satadd, xmin}
use fb_adb.Ringbuf.{ringbuf_size, ringbuf_room, ringbuf_copy_out, ringbuf_note_removed}
use fb_adb.Channel.{
  Channel, Io, returned, failed, stopped, spinning, is_open, uint32_max, Reads, Writes,
}
use fb_adb.Channel.Poll.{channel_write, channel_poll}
use fb_adb.Channel.Fill.{got_by}
use fb_adb.Proto.{sizeof_data}

-- The two channels, the payloads and the credit on their way, in the order in which they were sent,
-- and all bytes that the first descriptor gave and the second took.
pub record Link : Type 0 where
  pub source : Channel
  pub payloads : List Bytes
  pub sink : Channel
  pub credits : List ℕ
  pub given : Bytes
  pub taken : Bytes

-- What happens next: a descriptor is ready, the source's loop sends data in a message of at most some
-- size, and the sink's loop takes it; the sink's loop sends credit, and the source's loop takes it.
pub data Event : Type 0 where
  poll_source poll_sink : Reads → Writes → Event
  send_data : ℕ → Event
  take_data : Writes → Event
  send_credit take_credit : Event

abbrev pub of_poll : Io (Unit {0}) → (Channel → Bytes → Link) → Outcome Link
of_poll (returned a c sent) f = ok (f c sent)
of_poll (failed e c sent) f = died e
of_poll stopped f = aborted
of_poll spinning f = aborted

-- `xmit_data` of an uncompressed message.
unfoldable pub send : ℕ → Link → Outcome Link
send maxoutmsg l =
    let n = xmin (ringbuf_size l.source.rb) (maxoutmsg - sizeof_data) in
    let sent : Outcome Link = (do
      payload ← ringbuf_copy_out l.source.rb n
      noted ← ringbuf_note_removed l.source.rb n
      ok (record l {
        source = record l.source { rb = noted.1 };
        payloads = l.payloads ++ payload ∷ [];
      })) in
    if ltb 0 (ringbuf_size l.source.rb) && leb sizeof_data maxoutmsg then sent else ok l

-- The part of `process_msg_channel_data` behind its guards.
unfoldable pub take : Writes → Bytes → Link → Outcome Link
take writes payload l =
    let written : Outcome Link = (do
      die_if (ltb (ringbuf_room l.sink.rb) (length payload)) ecomm
      r ← channel_write (writes 0) l.sink (payload ∷ [])
      ok (record l { sink = r.0; taken = l.taken ++ r.1 })) in
    if not (is_open l.sink) then ok l else written

-- The part of `process_msg_channel_window` behind its guards.
unfoldable pub grant : ℕ → Link → Outcome Link
grant delta l =
    let grown : Outcome Link = (do
      let added = satadd uint32_max l.source.window delta
      die_if added.0 ecomm
      ok (record l { source = record l.source { window = added.1 } })) in
    if not (is_open l.source) then ok l else grown

abbrev take_first : Writes → List Bytes → Link → Outcome Link
take_first writes [] l = ok l
take_first writes (p ∷ ps) l = take writes p (record l { payloads = ps })

abbrev grant_first : List ℕ → Link → Outcome Link
grant_first [] l = ok l
grant_first (delta ∷ ds) l = grant delta (record l { credits = ds })

unfoldable pub step : Event → Link → Outcome Link
step (poll_source reads writes) l = of_poll (channel_poll 0 reads writes l.source) λ c sent.
    record l {
      source = c;
      given = l.given ++ (if is_open l.source then got_by reads l.source else []);
    }
step (poll_sink reads writes) l =
    of_poll (channel_poll 0 reads writes l.sink)
      λ c sent. record l { sink = c; taken = l.taken ++ sent }
step (send_data maxoutmsg) l = send maxoutmsg l
step (take_data writes) l = take_first writes l.payloads l
step send_credit l =
    if ltb 0 l.sink.bytes_written
    then ok (record l {
      sink = record l.sink { bytes_written = 0 };
      credits = l.credits ++ l.sink.bytes_written ∷ [];
    })
    else ok l
step take_credit l = grant_first l.credits l

unfoldable pub run : List Event → Link → Outcome Link
run [] l = ok l
run (e ∷ es) l = step e l >>= run es
