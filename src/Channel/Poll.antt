-- ===== src/Channel/Poll.antt =====
-- Writing to a channel, closing it, and what the event loop does when its descriptor is ready.
use fb_adb.Prelude.{
  ℕ, ◌+◌, ◌-◌, ◌%◌, ◌^◌, Bool, true, false, not, ◌&&◌, ◌||◌, none, List, [], ◌∷◌, ◌++◌, Bytes,
  length, map, take, drop, ltb, leb, ◌==◌, if◌then◌else◌,
}
use fb_adb.Outcome.{Errno, eintr, eagain, Outcome, ok, ◌>>=◌, ◌>>◌, assert}
use fb_adb.Util.{iovec_sum, xmin}
use fb_adb.Ringbuf.{
  Ringbuf, ringbuf_size, ringbuf_note_added, ringbuf_note_removed, ringbuf_copy_in, Writev,
  write_failed, wrote,
}
use fb_adb.Channel.{
  Channel, is_to_fd, is_open, uint32_max, Io, returned, failed, stopped, spinning, then_io,
  of_outcome, sent_first, Reads, Writes, channel_wanted_readsz, channel_wanted_writesz,
  channel_read_1, channel_write_1,
}
use fb_adb.Channel.Hack.{channel_read_adb_hack, channel_write_adb_hack}

-- The bytes of an array of `struct iovec`.
unfoldable pub concat : List Bytes → Bytes
concat [] = []
concat (bs ∷ iov) = bs ++ concat iov

-- `directwrsz` after a `writev`; one that fails counts as 0.
abbrev pub direct_size : Writev → ℕ
direct_size (write_failed e) = 0
direct_size (wrote n) = n

-- The loop that puts into the ring what was not written directly.
unfoldable pub buffer_rest : Ringbuf → ℕ → List Bytes → Outcome Ringbuf
buffer_rest rb directwrsz [] = ok rb
buffer_rest rb directwrsz (bs ∷ iov) = do
  let skip = xmin (length bs) directwrsz
  rb' ← ringbuf_copy_in rb (drop skip bs)
  noted ← ringbuf_note_added rb' (length bs - skip)
  buffer_rest noted.1 (directwrsz - skip) iov

-- Whether `channel_write` tries `writev` first.
unfoldable pub try_direct : Channel → List Bytes → Bool
try_direct c iov =
    not c.always_buffer
    && ringbuf_size c.rb == 0
    && not c.adb_encoding_hack
    && not
        (c.track_bytes_written && ltb (uint32_max - c.bytes_written) (iovec_sum (map length iov)))

unfoldable pub channel_write : (Bytes → Writev) → Channel → List Bytes → Outcome (Channel × Bytes)
channel_write writev c iov = do
  assert (is_to_fd c.dir)
  let directwrsz = if try_direct c iov then direct_size (writev (concat iov)) else 0
  let written =
      if c.track_bytes_written && try_direct c iov
      then (c.bytes_written + directwrsz) % 2 ^ 32
      else c.bytes_written
  let buffered = buffer_rest c.rb directwrsz iov
  if not (is_open c)
      then ok (c, [])
      else buffered >>= λ rb.
          ok (record c { rb = rb; bytes_written = written }, take directwrsz (concat iov))

-- `ttysave_restore` and `fdh_destroy` act on the terminal and the descriptor only.
unfoldable pub channel_close : Channel → Channel
channel_close c =
    if is_open c && (not (is_to_fd c.dir) || ringbuf_size c.rb == 0)
    then record c { pending_close = true; saved_term_state = false; fdh = none }
    else record c { pending_close = true }

unfoldable pub channel_dead_p : Channel → Bool
channel_dead_p c = not (is_open c) && ringbuf_size c.rb == 0 && c.sent_eof

unfoldable pub after_read : ℕ → Channel → Io (Unit {0})
after_read nr_read c =
    let c' = if c.track_window then record c { window = c.window - nr_read } else c in
    if leb nr_read c.window
    then returned tt (if nr_read == 0 then channel_close c' else c') []
    else stopped

unfoldable pub after_write : ℕ → Channel → Io (Unit {0})
after_write nr_written c =
    let c' =
      if c.track_bytes_written
      then record c { bytes_written = c.bytes_written + nr_written }
      else c in
    if leb nr_written (uint32_max - c.bytes_written)
    then returned tt (if c'.pending_close && ringbuf_size c'.rb == 0 then channel_close c' else c')
        []
    else stopped

unfoldable pub poll_read : Reads → Channel → Io (Unit {0})
poll_read reads c =
    let sz = channel_wanted_readsz c in
    if ltb 0 sz
    then then_io
        (if c.adb_encoding_hack
          then channel_read_adb_hack reads c sz
          else channel_read_1 reads c sz)
        after_read
    else returned tt c []

unfoldable pub poll_write : ℕ → Writes → Channel → Io (Unit {0})
poll_write fuel writes c =
    let sz = channel_wanted_writesz c in
    if ltb 0 sz
    then then_io
        (if c.adb_encoding_hack
          then channel_write_adb_hack fuel writes c sz
          else channel_write_1 writes c sz)
        after_write
    else returned tt c []

unfoldable pub poll_channel_2 : ℕ → Reads → Writes → Channel → Io (Unit {0})
poll_channel_2 fuel reads writes c = then_io (poll_read reads c) (λ _ c'. poll_write fuel writes c')

unfoldable pub error_temporary_p : Errno → Bool
error_temporary_p e = e == eintr || e == eagain

-- What `channel_poll` does with an error that it caught.
unfoldable pub channel_failed : Errno → Channel → Bytes → Io (Unit {0})
channel_failed e c sent =
    if error_temporary_p e
    then returned tt c sent
    else sent_first sent (
        of_outcome c
          (if is_to_fd c.dir then ringbuf_note_removed c.rb (ringbuf_size c.rb) else ok (0, c.rb))
          λ noted. returned tt (record (channel_close (record c { rb = noted.1 })) { err = e }) [])

unfoldable pub channel_poll : ℕ → Reads → Writes → Channel → Io (Unit {0})
channel_poll fuel reads writes c = elim (poll_channel_2 fuel reads writes c) [
  | returned a c' sent ↦ returned a c' sent
  | failed e c' sent ↦ channel_failed e c' sent
  | stopped ↦ stopped
  | spinning ↦ spinning
]
