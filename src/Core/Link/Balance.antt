-- ===== src/Core/Link/Balance.antt =====
-- The invariant of a link: the window and everything on its way fit the ring of the sink, and no byte
-- is lost, doubled or reordered.
use fb_adb.Prelude.{
  ℕ, ◌+◌, ◌≤◌, ◌≡◌, refl, sym, ap, ◌∙◌, arith, true, false, inl, inr, Bool-cases, List, [], ◌∷◌,
  ◌++◌, append_assoc, append-nil, Bytes, take as take_bytes, take-append-drop, length,
  length-append,
}
use fb_adb.Outcome.{ok}
use fb_adb.Adbenc.{state0}
use fb_adb.Ringbuf.{ringbuf_size}
use fb_adb.Ringbuf.Inv.{IsValid}
use fb_adb.Ringbuf.Refine.{contents, length-contents, shrunk, shrunk-IsValid, contents-shrunk}
use fb_adb.Channel.{
  returned, channel_wanted_readsz, channel_wanted_writesz, Channel, to_fd, from_fd, is_open,
  uint32_max, Reads, Writes,
}
use fb_adb.Channel.Poll.{concat, channel_poll, poll_channel_2, poll_read, poll_write}
use fb_adb.Channel.Flow.{Takes}
use fb_adb.Channel.Fill.{Gives, Filled, got_by, channel_poll_fill}
use fb_adb.Channel.Kept.{Kept, Failed}
use fb_adb.Channel.Progress.{channel_poll-Kept}
use fb_adb.Core.Link.{Link, poll_source, poll_sink, step}

abbrev pub sum : List ℕ → ℕ
sum [] = 0
sum (n ∷ ns) = n + sum ns

-- The bytes that the sink has room for, at most `capacity` of them, are the source's to use.
pub record Fair (capacity : ℕ) (l : Link) : Type 0 where
  pub source_valid : IsValid l.source.rb
  pub sink_valid : IsValid l.sink.rb
  pub source_dir : l.source.dir ≡ from_fd
  pub sink_dir : l.sink.dir ≡ to_fd
  pub source_plain : l.source.adb_encoding_hack ≡ false
  pub sink_plain : l.sink.adb_encoding_hack ≡ false
  pub sink_state : l.sink.adb_hack_state ≡ state0
  pub source_tracks : l.source.track_window ≡ true
  pub sink_tracks : l.sink.track_bytes_written ≡ true
  pub roomy : capacity ≤ l.sink.rb.capacity
  pub narrow : capacity ≤ uint32_max
  pub balance :
      l.source.window
        + ringbuf_size l.source.rb
        + length (concat l.payloads)
        + ringbuf_size l.sink.rb
        + l.sink.bytes_written
        + sum l.credits
      ≤ capacity
  pub order :
      is_open l.sink ≡ true
      → l.taken ++ (contents l.sink.rb ++ (concat l.payloads ++ contents l.source.rb)) ≡ l.given
  pub prefix : (rest : Bytes) × (l.taken ++ rest ≡ l.given)

concat-append : (ps : List Bytes) (p : Bytes) → concat (ps ++ p ∷ []) ≡ concat ps ++ p
unfolding concat
concat-append [] p = append-nil p
concat-append (q ∷ ps) p =
    ap (λ w. q ++ w) (concat-append ps p) ∙ sym (append_assoc q (concat ps) p)

pub sum-append : (ns : List ℕ) (n : ℕ) → sum (ns ++ n ∷ []) ≡ sum ns + n
sum-append [] n = omega arith
sum-append (m ∷ ns) n = omega (arith, sum-append ns n)

closed_poll :
    (reads : Reads) (writes : Writes) (c : Channel)
    → is_open c ≡ false
    → channel_poll 0 reads writes c ≡ returned tt c []
unfolding channel_poll poll_channel_2 poll_read poll_write channel_wanted_readsz
    channel_wanted_writesz
closed_poll reads writes c e = ground arith

module _ {capacity : ℕ} {l : Link} (f : Fair capacity l) where
  source_fills :
      (c' : Channel) (got : Bytes)
      → Filled l.source c' got
      → Fair capacity (record l { source = c'; given = l.given ++ got })
  source_fills c' got filled =
      let size : ringbuf_size c'.rb ≡ ringbuf_size l.source.rb + length got = omega (
        arith,
        ap length filled.flow,
        length-append (contents l.source.rb) got,
        length-contents c'.rb,
        length-contents l.source.rb,
      ) in
      record {
        source_valid = filled.valid;
        sink_valid = f.sink_valid;
        source_dir = filled.same_dir ∙ f.source_dir;
        sink_dir = f.sink_dir;
        source_plain = filled.same_hack ∙ f.source_plain;
        sink_plain = f.sink_plain;
        sink_state = f.sink_state;
        source_tracks = filled.same_track ∙ f.source_tracks;
        sink_tracks = f.sink_tracks;
        roomy = f.roomy;
        narrow = f.narrow;
        balance = omega (arith, filled.windowed f.source_tracks, size, f.balance);
        order = λ alive. simp (filled.flow, ← f.order alive, append_assoc);
        prefix = (
          f.prefix.0 ++ got,
          sym (append_assoc l.taken f.prefix.0 got) ∙ ap (λ w. w ++ got) f.prefix.1,
        );
      }

  pub poll_source-Fair :
      (reads : Reads) (writes : Writes)
      → Gives (reads 0)
      → (l' : Link) × (step (poll_source reads writes) l ≡ ok l') × Fair capacity l'
  unfolding step
  poll_source-Fair reads writes gives = elim (Bool-cases (is_open l.source)) [
    | inl alive ↦
        let (c', e, filled) =
          channel_poll_fill 0 reads writes l.source f.source_valid alive f.source_plain f.source_dir
            gives (omega (arith, f.balance, f.narrow)) in
        (
          record l { source = c'; given = l.given ++ got_by reads l.source },
          rw (e, alive) refl,
          source_fills c' (got_by reads l.source) filled,
        )
    | inr closed ↦ (
      record l { given = l.given ++ [] },
      rw (closed_poll reads writes l.source closed, closed) refl,
      rw (append-nil l.given) f,
    )
  ]

  sink_keeps :
      (c' : Channel) (sent : Bytes)
      → is_open l.sink ≡ true
      → Kept l.sink c' sent
      → Fair capacity (record l { sink = c'; taken = l.taken ++ sent })
  sink_keeps c' sent alive k =
      let count = k.counted f.sink_tracks (omega (arith, f.balance, f.narrow)) in
      let size : ringbuf_size c'.rb + length sent ≡ ringbuf_size l.sink.rb = omega (
        arith,
        ap length k.flow,
        length-append sent (contents c'.rb),
        length-contents c'.rb,
        length-contents l.sink.rb,
      ) in
      let same : (l.taken ++ sent)
            ++ (contents c'.rb ++ (concat l.payloads ++ contents l.source.rb))
          ≡ l.given =
        simp (append_assoc, ← f.order alive, ← k.flow) in
      record {
        source_valid = f.source_valid;
        sink_valid = k.valid;
        source_dir = f.source_dir;
        sink_dir = k.same_dir ∙ f.sink_dir;
        source_plain = f.source_plain;
        sink_plain = k.same_hack ∙ f.sink_plain;
        sink_state = k.same_state ∙ f.sink_state;
        source_tracks = f.source_tracks;
        sink_tracks = k.same_track ∙ f.sink_tracks;
        roomy = omega (arith, k.same_capacity, f.roomy);
        narrow = f.narrow;
        balance = omega (arith, count.0, size, f.balance);
        order = λ _. same;
        prefix = (contents c'.rb ++ (concat l.payloads ++ contents l.source.rb), same);
      }

  sink_fails :
      (c' : Channel)
      → Failed l.sink c'
      → Fair capacity (record l { sink = c'; taken = l.taken ++ [] })
  sink_fails c' k = record {
    source_valid = f.source_valid;
    sink_valid = k.valid;
    source_dir = f.source_dir;
    sink_dir = k.same_dir ∙ f.sink_dir;
    source_plain = f.source_plain;
    sink_plain = k.same_hack ∙ f.sink_plain;
    sink_state = k.same_state ∙ f.sink_state;
    source_tracks = f.source_tracks;
    sink_tracks = k.same_track ∙ f.sink_tracks;
    roomy = omega (arith, k.same_capacity, f.roomy);
    narrow = f.narrow;
    balance = omega (arith, k.same_count, ap length k.empty, length-contents c'.rb, f.balance);
    order = λ alive. absurd (ground (arith, k.closed));
    prefix = (f.prefix.0, ap (λ w. w ++ f.prefix.0) (append-nil l.taken) ∙ f.prefix.1);
  }

  pub poll_sink-Fair :
      (reads : Reads) (writes : Writes)
      → Takes (writes 0)
      → (l' : Link) × (step (poll_sink reads writes) l ≡ ok l') × Fair capacity l'
  unfolding step
  poll_sink-Fair reads writes takes = elim (Bool-cases (is_open l.sink)) [
    | inl alive ↦
        let (c', sent, e, outcome) =
          channel_poll-Kept 0 reads writes l.sink f.sink_valid alive f.sink_plain f.sink_dir
            f.sink_state takes in
        (
          record l { sink = c'; taken = l.taken ++ sent },
          rw e refl,
          elim outcome [
            | inl k ↦ sink_keeps c' sent alive k
            | inr (none_sent, k) ↦ rw none_sent (sink_fails c' k)
          ],
        )
    | inr closed ↦ (
      record l { taken = l.taken ++ [] },
      rw (closed_poll reads writes l.sink closed) refl,
      rw (append-nil l.taken) f,
    )
  ]

  pub source_sends :
      (n : ℕ)
      → n ≤ ringbuf_size l.source.rb
      → Fair capacity (record l {
        source = record l.source { rb = shrunk l.source.rb n };
        payloads = l.payloads ++ take_bytes n (contents l.source.rb) ∷ [];
      })
  source_sends n h =
      let payload = take_bytes n (contents l.source.rb) in
      let left = contents-shrunk n f.source_valid h in
      let whole = concat-append l.payloads payload in
      let parts : payload ++ contents (shrunk l.source.rb n) ≡ contents l.source.rb =
        ap (λ w. payload ++ w) left ∙ take-append-drop n (contents l.source.rb) in
      record {
        source_valid = shrunk-IsValid n f.source_valid h;
        sink_valid = f.sink_valid;
        source_dir = f.source_dir;
        sink_dir = f.sink_dir;
        source_plain = f.source_plain;
        sink_plain = f.sink_plain;
        sink_state = f.sink_state;
        source_tracks = f.source_tracks;
        sink_tracks = f.sink_tracks;
        roomy = f.roomy;
        narrow = f.narrow;
        balance = omega (
          arith,
          ap length whole,
          length-append (concat l.payloads) payload,
          ap length parts,
          length-append payload (contents (shrunk l.source.rb n)),
          length-contents (shrunk l.source.rb n),
          length-contents l.source.rb,
          f.balance,
        );
        order = λ alive. simp (whole, append_assoc, parts, f.order alive);
        prefix = f.prefix;
      }
