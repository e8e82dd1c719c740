-- ===== src/Channel/Tests.antt =====
-- A channel to a descriptor that takes three bytes of any `writev`, a channel from one that gives two,
-- and the theorems at them.
use fb_adb.Prelude.{
  ◌≡◌, refl, [], ◌∷◌, ◌++◌, ◌^◌, ◌≤◌, ◌-◌, false, true, some, List, Bytes, codes, arith, length,
  min, take,
}
use fb_adb.Outcome.{ok}
use fb_adb.Adbenc.{state0}
use fb_adb.Ringbuf.{
  Ringbuf, ringbuf_size, ringbuf_room, ringbuf_capacity, read_bytes, Writev, wrote,
}
use fb_adb.Ringbuf.Inv.{IsValid}
use fb_adb.Ringbuf.Refine.{contents}
use fb_adb.Channel.{Channel, to_fd, from_fd, Reads, Writes}
use fb_adb.Channel.Poll.{concat, channel_write}
use fb_adb.Channel.Flow.{Takes, channel_write_flow}
use fb_adb.Channel.Progress.{offer}

abbrev held_two : Ringbuf
held_two = record { nr_removed = 2 ^ 64 - 1; nr_added = 1; capacity = 8; mem = codes "bxxxxxxa" }

held_two-IsValid : IsValid held_two
unfolding ringbuf_size
held_two-IsValid = record {
  exponent = 3;
  pow = refl;
  small = omega arith;
  storage = refl;
  added_fits = omega arith;
  removed_fits = omega arith;
  held = omega arith;
}

abbrev output : Channel
output = record {
  fdh = some 1;
  dir = to_fd;
  err = 0;
  rb = held_two;
  saved_term_state = false;
  bytes_written = 0;
  window = 0;
  adb_hack_state = state0;
  sent_eof = false;
  pending_close = false;
  always_buffer = false;
  track_bytes_written = true;
  track_window = false;
  adb_encoding_hack = false;
  compress = false;
}

abbrev writev : Bytes → Writev
writev bs = wrote (min (length bs) 3)

writev-Takes : Takes writev
writev-Takes bs = omega arith

abbrev reads : Reads
reads k n = read_bytes []

abbrev writes : Writes
writes k = writev

abbrev array : List Bytes
array = codes "cd" ∷ codes "e" ∷ []

output_room : ringbuf_room output.rb ≡ 6
unfolding ringbuf_room ringbuf_size ringbuf_capacity
output_room = refl

array_fits : length (concat array) ≤ ringbuf_room output.rb
unfolding concat
array_fits = omega (arith, output_room)

channel_write_flow_example :
    (c' : Channel) × (sent : Bytes) × (channel_write writev output array ≡ ok (c', sent))
    × IsValid c'.rb
    × (sent ++ contents c'.rb ≡ contents output.rb ++ concat array)
channel_write_flow_example =
    channel_write_flow writev output array held_two-IsValid refl refl array_fits writev-Takes

-- What the ring and the count of bytes written allow.
abbrev offered : Bytes
offered = offer 0 reads writes output held_two-IsValid refl refl

abbrev input : Channel
input = record output {
  dir = from_fd;
  window = 5;
  track_window = true;
  track_bytes_written = false;
}

abbrev gives_two : Reads
gives_two k n = read_bytes (take n (codes "fg"))
