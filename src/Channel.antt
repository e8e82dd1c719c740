-- ===== src/Channel.antt =====
-- channel.c: a file descriptor with a ring of bytes. System calls are parameters: what each call of
-- `read` and `write` gives, by its number. Bytes that go to the descriptor are a result.
pub mod Hack
pub mod Poll
pub mod Flow
pub mod Step
pub mod Kept
pub mod Progress
pub mod Fill
mod Tests
use fb_adb.Prelude.{
  ℕ, zero, suc, ◌+◌, ◌-◌, ◌%◌, ◌^◌, Bool, true, false, not, ◌&&◌, ◌||◌, Option, none, some, List,
  [], ◌∷◌, ◌++◌, Bytes, length, take, drop, ltb, leb, ◌==◌, if◌then◌else◌,
}
use fb_adb.Outcome.{Errno, eintr, eagain, Outcome, ok, died, aborted, fault, ◌>>=◌, ◌>>◌, assert}
use fb_adb.Util.{size_mod, sub_size, xmin, xmax, iovec_sum}
use fb_adb.Adbenc.{AdbState, state0, state1, state2, Coded, adb_encode, adb_decode}
use fb_adb.Ringbuf.{
  Ringbuf, Iovec, RingbufIo, ringbuf_new, ringbuf_size, ringbuf_room, ringbuf_note_added,
  ringbuf_note_removed, ringbuf_read_in, ringbuf_write_out, ringbuf_copy_in, ringbuf_readable_iov,
  ringbuf_writable_iov, gather, Readv, read_failed, read_bytes, Writev, write_failed, wrote,
}

-- `enum channel_direction`.
pub data Direction : Type 0 where
  to_fd from_fd : Direction

abbrev pub is_to_fd : Direction → Bool
is_to_fd to_fd = true
is_to_fd from_fd = false

abbrev pub uint32_max : ℕ
uint32_max = 2 ^ 32 - 1

-- `struct channel`; `fdh` holds the descriptor, and `saved_term_state` says whether there is one.
pub record Channel : Type 0 where
  pub fdh : Option ℕ
  pub dir : Direction
  pub err : Errno
  pub rb : Ringbuf
  pub saved_term_state : Bool
  pub bytes_written : ℕ
  pub window : ℕ
  pub adb_hack_state : AdbState
  pub sent_eof : Bool
  pub pending_close : Bool
  pub always_buffer : Bool
  pub track_bytes_written : Bool
  pub track_window : Bool
  pub adb_encoding_hack : Bool
  pub compress : Bool

abbrev pub is_open : Channel → Bool
is_open c = elim c.fdh [ none ↦ false | some fd ↦ true ]

abbrev pub half_sent : AdbState → Bool
half_sent state0 = false
half_sent _ = true

unfoldable pub channel_new : (ℕ → Outcome Bytes) → Option ℕ → ℕ → Direction → Outcome Channel
channel_new xalloc fdh rbsz direction = do
  rb ← ringbuf_new xalloc rbsz
  ok (record {
    fdh = fdh;
    dir = direction;
    err = 0;
    rb = rb;
    saved_term_state = false;
    bytes_written = 0;
    window = 0;
    adb_hack_state = state0;
    sent_eof = false;
    pending_close = false;
    always_buffer = false;
    track_bytes_written = false;
    track_window = false;
    adb_encoding_hack = false;
    compress = false;
  })

unfoldable pub channel_wanted_readsz : Channel → ℕ
channel_wanted_readsz c =
    if is_to_fd c.dir then 0 else if not (is_open c) then 0 else xmin (ringbuf_room c.rb) c.window

unfoldable pub channel_wanted_writesz : Channel → ℕ
channel_wanted_writesz c =
    if not (is_to_fd c.dir)
    then 0
    else if not (is_open c)
    then 0
    else xmin (ringbuf_size c.rb) (uint32_max - c.bytes_written)
      + (if half_sent c.adb_hack_state then 1 else 0)

-- `struct pollfd` without the answer: the descriptor and whether to wait for input or output.
pub data PollRequest : Type 0 where
  poll_in poll_out : ℕ → PollRequest
  no_poll : PollRequest

abbrev request_on : Option ℕ → (ℕ → PollRequest) → PollRequest
request_on none f = no_poll
request_on (some fd) f = f fd

-- A channel with no descriptor wants nothing, so the descriptor is read only where there is one.
unfoldable pub channel_request_poll : Channel → PollRequest
channel_request_poll c =
    if not (channel_wanted_readsz c == 0)
    then request_on c.fdh poll_in
    else if not (channel_wanted_writesz c == 0)
    then request_on c.fdh poll_out
    else no_poll

-- How a call ends that does I/O on a channel: the channel as it then is, and the bytes written to
-- the descriptor. `spinning` is the end of the fuel.
pub data Io {ℓ} (A : Type ℓ) : Type ℓ where
  returned : A → Channel → Bytes → Io A
  failed : Errno → Channel → Bytes → Io A
  stopped spinning : Io A

abbrev pub sent_first {ℓ} : {A : Type ℓ} → Bytes → Io A → Io A
sent_first bs (returned a c sent) = returned a c (bs ++ sent)
sent_first bs (failed e c sent) = failed e c (bs ++ sent)
sent_first bs stopped = stopped
sent_first bs spinning = spinning

abbrev pub then_io {ℓ κ} : {A : Type ℓ} {B : Type κ} → Io A → (A → Channel → Io B) → Io B
then_io (returned a c sent) f = sent_first sent (f a c)
then_io (failed e c sent) f = failed e c sent
then_io stopped f = stopped
then_io spinning f = spinning

-- An outcome that leaves the channel alone unless it returns.
abbrev pub of_outcome {ℓ κ} : {A : Type ℓ} {B : Type κ} → Channel → Outcome A → (A → Io B) → Io B
of_outcome c (ok a) f = f a
of_outcome c (died e) f = failed e c []
of_outcome c aborted f = stopped
of_outcome c fault f = stopped

-- The results of successive `read` and `write` calls: by the number of the call, from the size asked
-- for or from the bytes offered.
abbrev pub Reads : Type 0
Reads = ℕ → ℕ → Readv

abbrev pub Writes : Type 0
Writes = ℕ → Bytes → Writev

unfoldable pub channel_read_1 : Reads → Channel → ℕ → Io ℕ
channel_read_1 reads c sz = of_outcome c (ringbuf_read_in (reads 0) c.rb sz) λ got.
    of_outcome c (ringbuf_note_added got.1 got.0)
      λ noted. returned got.0 (record c { rb = noted.1 }) []

abbrev pub taken_bytes : Writev → Bytes → Bytes
taken_bytes (write_failed e) bs = []
taken_bytes (wrote n) bs = take n bs

-- The bytes that `writev` is offered are those of the ring's regions.
unfoldable pub channel_write_1 : Writes → Channel → ℕ → Io ℕ
channel_write_1 writes c sz = of_outcome c (ringbuf_readable_iov c.rb (xmin sz (2 ^ 63 - 1))) λ rio.
    let offered = gather c.rb.mem rio in
    of_outcome c (ringbuf_write_out (writes 0) c.rb sz) λ nr_written.
      of_outcome c (ringbuf_note_removed c.rb nr_written) λ noted.
        returned nr_written (record c { rb = noted.1 }) (taken_bytes (writes 0 offered) offered)
