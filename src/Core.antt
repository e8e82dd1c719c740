-- ===== src/Core.antt =====
-- core.c: the event loop that carries the channels' bytes over the two channels of the peer.
pub mod Receive
pub mod Transmit
pub mod Loop
pub mod Bounds
pub mod Steps
pub mod Deliver
pub mod Send
pub mod Credit
pub mod Link
pub mod Message
mod Tests
use fb_adb.Prelude.{
  ℕ, zero, suc, ◌+◌, ◌-◌, Bool, true, false, Option, none, some, List, [], ◌∷◌, ◌++◌, Bytes, ltb,
  leb, if◌then◌else◌,
}
use fb_adb.Outcome.{Errno, ecomm, Outcome, ok, died, aborted, fault, ◌>>=◌, ◌>>◌, assert, die_if}
use fb_adb.Util.{sub_size, xmin}
use fb_adb.Ringbuf.{
  Ringbuf, Writev, ringbuf_size, ringbuf_room, ringbuf_copy_out, ringbuf_note_removed,
}
use fb_adb.Channel.{Channel, Writes}
use fb_adb.Channel.Poll.{channel_write}
use fb_adb.Proto.{Msg, as_msg, sizeof_msg}

-- `enum channel_names`.
abbrev pub from_peer : ℕ
from_peer = 0

abbrev pub to_peer : ℕ
to_peer = 1

abbrev pub nr_special_ch : ℕ
nr_special_ch = to_peer

-- `struct fb_adb_sh`. The last two fields are no part of it: how many calls of `channel_write` there
-- were, which numbers the answers of `writev`, and the bytes that those calls wrote, each time with
-- the number of the channel.
pub record FbAdbSh : Type 0 where
  pub max_outgoing_msg : ℕ
  pub nrch : ℕ
  pub turn : ℕ
  pub ch : List Channel
  pub nr_writes : ℕ
  pub sent : List (ℕ × Bytes)

-- An element of the array `ch`, and the array with an element changed. The array is the list; an
-- index beyond it is a fault.
unfoldable pub channel_at : List Channel → ℕ → Outcome Channel
channel_at [] i = fault
channel_at (c ∷ cs) zero = ok c
channel_at (c ∷ cs) (suc i) = channel_at cs i

unfoldable pub with_channel : List Channel → ℕ → Channel → List Channel
with_channel [] i d = []
with_channel (c ∷ cs) zero d = d ∷ cs
with_channel (c ∷ cs) (suc i) d = c ∷ with_channel cs i d

abbrev pub set_channel : FbAdbSh → ℕ → Channel → FbAdbSh
set_channel sh i c = record sh { ch = with_channel sh.ch i c }

-- `channel_write (sh->ch[i], ...)`.
unfoldable pub write_to : Writes → FbAdbSh → ℕ → List Bytes → Outcome FbAdbSh
write_to writes sh i iov = do
  c ← channel_at sh.ch i
  r ← channel_write (writes sh.nr_writes) c iov
  ok (record (set_channel sh i r.0) {
    nr_writes = sh.nr_writes + 1;
    sent = sh.sent ++ (i, r.1) ∷ [];
  })

-- `ringbuf_note_removed (sh->ch[i]->rb, n)`.
unfoldable pub remove_from : FbAdbSh → ℕ → ℕ → Outcome FbAdbSh
remove_from sh i n = do
  c ← channel_at sh.ch i
  noted ← ringbuf_note_removed c.rb n
  ok (set_channel sh i (record c { rb = noted.1 }))

-- `ringbuf_copy_out` of the head of the message, and `ringbuf_note_removed` of it.
unfoldable pub pop_bytes : FbAdbSh → ℕ → Outcome (Bytes × FbAdbSh)
pop_bytes sh n = do
  cmdch ← channel_at sh.ch from_peer
  bs ← ringbuf_copy_out cmdch.rb n
  sh' ← remove_from sh from_peer n
  ok (bs, sh')

-- Whether there is a whole message in the ring, and its header.
unfoldable pub detect_msg : Ringbuf → Outcome (Option Msg)
detect_msg rb =
    let avail = ringbuf_size rb in
    let header : Outcome (Option Msg) = (do
      bs ← ringbuf_copy_out rb sizeof_msg
      let mhdr = as_msg bs
      let partial : Outcome (Option Msg) =
          die_if (ltb (ringbuf_room rb) (mhdr.size - avail)) ecomm >> ok none
      if ltb avail mhdr.size then partial else ok (some mhdr)) in
    if ltb avail sizeof_msg then ok none else header

unfoldable pub fb_adb_maxoutmsg : FbAdbSh → Outcome ℕ
fb_adb_maxoutmsg sh = do
  c ← channel_at sh.ch to_peer
  ok (xmin sh.max_outgoing_msg (ringbuf_room c.rb))
