-- ===== src/Core/Loop.antt =====
-- core.c: one turn of the event loop. Fuel bounds the loops over messages and over rounds of work.
use fb_adb.Prelude.{
  ℕ, zero, suc, ◌+◌, ◌%◌, ◌^◌, Bool, true, false, not, ◌&&◌, none, some, List, [], ◌∷◌, Bytes, map,
  ltb, leb, if◌then◌else◌,
}
use fb_adb.Outcome.{Outcome, ok, ◌>>=◌, ◌>>◌, assert}
use fb_adb.Ringbuf.{ringbuf_size}
use fb_adb.Channel.{
  Channel, is_open, Reads, Writes, Io, returned, failed, stopped, spinning, PollRequest,
  channel_request_poll,
}
use fb_adb.Channel.Poll.{channel_poll}
use fb_adb.Proto.{Msg}
use fb_adb.Core.{
  FbAdbSh, from_peer, nr_special_ch, channel_at, set_channel, remove_from, detect_msg,
}
use fb_adb.Core.Transmit.{Lz4, xmit_acks, xmit_data, xmit_eof, do_pending_close}

-- The loop's state, and whether the loop came to its end before the fuel did.
abbrev pub Looped : Type 0
Looped = Bool × FbAdbSh

unfoldable pub process_all : (FbAdbSh → Msg → Outcome FbAdbSh) → ℕ → FbAdbSh → Outcome Looped
process_all process_msg zero sh = ok (false, sh)
process_all process_msg (suc fuel) sh = do
  cmdch ← channel_at sh.ch from_peer
  found ← detect_msg cmdch.rb
  elim found [
    | none ↦ ok (true, sh)
    | some mhdr ↦ process_msg sh mhdr >>= λ sh'. process_all process_msg fuel sh'
  ]

-- A dead peer's partial message.
unfoldable pub drop_partial : FbAdbSh → Outcome FbAdbSh
drop_partial sh = do
  c ← channel_at sh.ch from_peer
  let dropped = remove_from sh from_peer (ringbuf_size c.rb)
  if not (is_open c) && ltb 0 (ringbuf_size c.rb) then dropped else ok sh

-- `(i + sh->turn) % nrch`.
unfoldable pub turn_of : FbAdbSh → ℕ → ℕ
turn_of sh i = (i + sh.turn) % 2 ^ 32 % sh.nrch

abbrev pub next_turn : FbAdbSh → FbAdbSh
next_turn sh = record sh { turn = (sh.turn + 1) % 2 ^ 32 }

-- The bodies of the two `for` loops, for `left` more channels from the `i`th on.
unfoldable pub ack_all : Writes → ℕ → ℕ → FbAdbSh → Outcome FbAdbSh
ack_all writes i zero sh = ok sh
ack_all writes i (suc left) sh =
    xmit_acks writes (turn_of sh i) sh >>= λ sh'. ack_all writes (i + 1) left sh'

unfoldable pub serve : Lz4 → Writes → ℕ → FbAdbSh → Outcome (ℕ × FbAdbSh)
serve lz4 writes chno sh = do
  r ← (if ltb nr_special_ch chno then xmit_data lz4 writes chno sh else ok (0, sh))
  c ← channel_at r.1.ch chno
  e ← xmit_eof writes chno (set_channel r.1 chno (do_pending_close c))
  ok (r.0 + e.0, e.1)

unfoldable pub serve_all : Lz4 → Writes → ℕ → ℕ → ℕ → FbAdbSh → Outcome (ℕ × FbAdbSh)
serve_all lz4 writes i zero work_done sh = ok (work_done, sh)
serve_all lz4 writes i (suc left) work_done sh = do
  r ← serve lz4 writes (turn_of sh i) sh
  serve_all lz4 writes (i + 1) left (work_done + r.0) r.1

unfoldable pub work_rounds : Lz4 → Writes → ℕ → FbAdbSh → Outcome Looped
work_rounds lz4 writes zero sh = ok (false, sh)
work_rounds lz4 writes (suc fuel) sh = do
  r ← serve_all lz4 writes 0 sh.nrch 0 sh
  let again = work_rounds lz4 writes fuel (next_turn r.1)
  if ltb 0 r.0 then again else ok (true, next_turn r.1)

unfoldable pub io_loop_pump :
    (FbAdbSh → Msg → Outcome FbAdbSh) → Lz4 → Writes → ℕ → FbAdbSh → Outcome Looped
io_loop_pump process_msg lz4 writes fuel sh = do
  assert (leb nr_special_ch sh.nrch)
  drained ← process_all process_msg fuel sh
  let pumped : Outcome Looped = (do
    sh1 ← drop_partial drained.1
    sh2 ← ack_all writes 0 sh1.nrch sh1
    work_rounds lz4 writes fuel (next_turn sh2))
  if drained.0 then pumped else ok drained

-- The channels after `poll`, each with what it wrote, or how the process ended.
pub data Polled : Type 0 where
  polled : List (Channel × Bytes) → Polled
  poll_stopped poll_spinning : Polled

abbrev cons_polled : Channel × Bytes → Polled → Polled
cons_polled r (polled rs) = polled (r ∷ rs)
cons_polled r poll_stopped = poll_stopped
cons_polled r poll_spinning = poll_spinning

-- `channel_poll` catches every error, so `failed` does not come back from it.
abbrev poll_one : Io (Unit {0}) → Polled → Polled
poll_one (returned a c sent) rest = cons_polled (c, sent) rest
poll_one (failed e c sent) rest = poll_stopped
poll_one stopped rest = poll_stopped
poll_one spinning rest = poll_spinning

-- The requests that `poll` is given.
unfoldable pub poll_requests : List Channel → List PollRequest
poll_requests cs = map channel_request_poll cs

-- The last loop of `io_loop_do_io`; `ready` says for which channels `poll` set an event.
unfoldable pub poll_ready : (ℕ → Bool) → ℕ → (ℕ → Reads) → (ℕ → Writes) → ℕ → List Channel → Polled
poll_ready ready fuel reads writes chno [] = polled []
poll_ready ready fuel reads writes chno (c ∷ cs) =
    let rest = poll_ready ready fuel reads writes (chno + 1) cs in
    if ready chno
    then poll_one (channel_poll fuel (reads chno) (writes chno) c) rest
    else cons_polled (c, []) rest
