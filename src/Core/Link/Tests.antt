-- ===== src/Core/Link/Tests.antt =====
-- A link whose sink takes two bytes of any `writev`, and its invariant over a run.
use fb_adb.Prelude.{
  ◌≡◌, refl, [], ◌∷◌, false, true, some, List, codes, arith, length, length-take, min,
  take as take_bytes,
}
use fb_adb.Outcome.{ok}
use fb_adb.Adbenc.{state0}
use fb_adb.Ringbuf.{Ringbuf, ringbuf_size, read_bytes, wrote}
use fb_adb.Ringbuf.Inv.{IsValid}
use fb_adb.Channel.{Channel, Direction, to_fd, from_fd, Reads, Writes}
use fb_adb.Ringbuf.Refine.{contents}
use fb_adb.Ringbuf.Window.{window}
use fb_adb.Channel.Poll.{concat}
use fb_adb.Channel.Flow.{Takes}
use fb_adb.Channel.Fill.{Gives}
use fb_adb.Core.Link.{
  Link, Event, poll_source, poll_sink, send_data, take_data, send_credit, take_credit, run,
}
use fb_adb.Core.Link.Balance.{Fair}
use fb_adb.Core.Link.Run.{AllPromised, run-Fair}

abbrev empty_ring : Ringbuf
empty_ring = record { nr_removed = 0; nr_added = 0; capacity = 8; mem = codes "xxxxxxxx" }

empty_ring-IsValid : IsValid empty_ring
unfolding ringbuf_size
empty_ring-IsValid = record {
  exponent = 3;
  pow = refl;
  small = omega arith;
  storage = refl;
  added_fits = omega arith;
  removed_fits = omega arith;
  held = omega arith;
}

abbrev channel : Direction → Channel
channel dir = record {
  fdh = some 1;
  dir = dir;
  err = 0;
  rb = empty_ring;
  saved_term_state = false;
  bytes_written = 0;
  window = 8;
  adb_hack_state = state0;
  sent_eof = false;
  pending_close = false;
  always_buffer = false;
  track_bytes_written = true;
  track_window = true;
  adb_encoding_hack = false;
  compress = false;
}

abbrev link : Link
link = record {
  source = channel from_fd;
  payloads = [];
  sink = channel to_fd;
  credits = [];
  given = [];
  taken = [];
}

link-Fair : Fair 8 link
unfolding ringbuf_size concat contents window
link-Fair = record {
  source_valid = empty_ring-IsValid;
  sink_valid = empty_ring-IsValid;
  source_dir = refl;
  sink_dir = refl;
  source_plain = refl;
  sink_plain = refl;
  sink_state = refl;
  source_tracks = refl;
  sink_tracks = refl;
  roomy = omega arith;
  narrow = omega arith;
  balance = omega arith;
  order = λ _. refl;
  prefix = ([], refl);
}

abbrev reads : Reads
reads k n = read_bytes (take_bytes n (codes "abc"))

reads-Gives : Gives (reads 0)
reads-Gives n = omega (arith, length-take n (codes "abc"))

abbrev writes : Writes
writes k bs = wrote (min (length bs) 2)

writes-Takes : Takes (writes 0)
writes-Takes bs = omega arith

abbrev events : List Event
events =
    poll_source reads writes
    ∷ send_data 64
    ∷ take_data writes
    ∷ send_credit
    ∷ poll_source reads writes
    ∷ take_credit
    ∷ poll_sink reads writes
    ∷ []

events-AllPromised : AllPromised events
events-AllPromised =
    (reads-Gives, (tt, (writes-Takes, (tt, (reads-Gives, (tt, (writes-Takes, tt)))))))

run-Fair_example : (l' : Link) × (run events link ≡ ok l') × Fair 8 l'
run-Fair_example = run-Fair events link events-AllPromised link-Fair
