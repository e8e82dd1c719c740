-- ===== src/Channel/Progress.antt =====
-- What one call of `channel_poll` does to an open channel without the adb encoding.
use fb_adb.Prelude.{
  ℕ, ◌+◌, ◌-◌, ◌≤◌, ◌≡◌, refl, sym, ap, ap₂, ◌∙◌, arith, true, false, ◌&&◌, ◌⊎◌, inl, inr,
  Bool-cases, le→leb, [], ◌++◌, append-nil, Bytes, length, take, take-append-drop, drop_all,
  length-take, take_nil, take-take, ltb, ◌==◌, if◌then◌else◌,
}
use fb_adb.Outcome.{Errno}
use fb_adb.Util.{xmin}
use fb_adb.Adbenc.{state0}
use fb_adb.Ringbuf.{Ringbuf, ringbuf_size, Writev, write_failed, wrote}
use fb_adb.Ringbuf.Inv.{IsValid}
use fb_adb.Ringbuf.Refine.{
  contents, length-contents, shrunk, shrunk-IsValid, contents-shrunk, note_removed_lem,
  capacity-shrunk,
}
use fb_adb.Channel.{
  Channel, to_fd, is_open, uint32_max, returned, failed, then_io, Reads, Writes,
  channel_wanted_readsz, channel_wanted_writesz, channel_write_1,
}
use fb_adb.Channel.Poll.{
  direct_size, channel_close, after_write, poll_read, poll_write, poll_channel_2, error_temporary_p,
  channel_failed, channel_poll,
}
use fb_adb.Channel.Flow.{Takes}
use fb_adb.Channel.Step.{write_1_wrote, write_1_failed}
use fb_adb.Channel.Kept.{Kept, After, Failed, unchanged, rb-close, close_empty}

Writev-cases : (w : Writev) → ((n : ℕ) × (w ≡ wrote n)) ⊎ ((e : Errno) × (w ≡ write_failed e))
Writev-cases (wrote n) = inl (n, refl)
Writev-cases (write_failed e) = inr (e, refl)

take_none : (n sz : ℕ) (xs : Bytes) → sz ≡ 0 → take n (take sz xs) ≡ []
take_none n sz xs e = rw e (take_nil n)

module _ (fuel : ℕ) (reads : Reads) (writes : Writes) (c : Channel) (v : IsValid c.rb)
    (alive : is_open c ≡ true) (plain : c.adb_encoding_hack ≡ false) where
  after_write_lem :
      (n sz : ℕ) (c1 : Channel) (sent : Bytes)
      → n ≤ sz
      → sz ≤ uint32_max - c1.bytes_written
      → (c' : Channel) × (then_io (returned n c1 sent) after_write ≡ returned tt c' sent)
        × After c1 c' n
  unfolding after_write channel_close
  after_write_lem n sz c1 sent h k =
      let c2 =
        if c1.track_bytes_written then record c1 { bytes_written = c1.bytes_written + n } else c1 in
      let c3 = if c2.pending_close && ringbuf_size c2.rb == 0 then channel_close c2 else c2 in
      (
        c3,
        rw (le→leb n (uint32_max - c1.bytes_written) (omega arith), append-nil sent) refl,
        record {
          same_rb = ground arith;
          same_dir = ground arith;
          same_hack = ground arith;
          same_state = ground arith;
          same_track = ground arith;
          counted = λ t. ground arith;
        },
      )

  fail_lem :
      (e : Errno)
      → c.dir ≡ to_fd
      → (c' : Channel) × (channel_failed e c [] ≡ returned tt c' [])
        × (Kept c c' [] ⊎ ((error_temporary_p e ≡ false) × (c'.err ≡ e) × Failed c c'))
  unfolding channel_failed channel_close
  fail_lem e out = elim (Bool-cases (error_temporary_p e)) [
    | inl temporary ↦ (c, rw temporary refl, inl (unchanged v))
    | inr hard ↦
        let size = ringbuf_size c.rb in
        let c2 = record c { rb = shrunk c.rb size } in
        let all : size ≤ size = omega arith in
        let none_left : contents c2.rb ≡ [] =
          contents-shrunk size v all
          ∙ drop_all size (contents c.rb) (omega (arith, length-contents c.rb)) in
        let empty : ringbuf_size c2.rb ≡ 0 = sym (length-contents c2.rb) ∙ ap length none_left in
        (
          record (channel_close c2) { err = e },
          rw (hard, out, note_removed_lem size v all) refl,
          inr (
            hard,
            refl,
            record {
              valid = rw (rb-close c2) (shrunk-IsValid size v all);
              empty = ap contents (rb-close c2) ∙ none_left;
              closed = close_empty c2 empty;
              hard = hard;
              same_capacity =
                  ap (λ (r : Ringbuf). r.capacity) (rb-close c2) ∙ capacity-shrunk c.rb size;
              same_dir = ground arith;
              same_hack = ground arith;
              same_state = ground arith;
              same_track = ground arith;
              same_count = ground arith;
            },
          ),
        )
  ]

  want_no_read : c.dir ≡ to_fd → channel_wanted_readsz c ≡ 0
  unfolding channel_wanted_readsz
  want_no_read out = rw out refl

  want_write :
      c.dir ≡ to_fd
      → c.adb_hack_state ≡ state0
      → channel_wanted_writesz c ≡ xmin (ringbuf_size c.rb) (uint32_max - c.bytes_written)
  unfolding channel_wanted_writesz
  want_write out whole = rw (out, alive, whole) (omega arith)

  poll_wrote :
      {sz n : ℕ} {c1 c' : Channel} {sent : Bytes}
      → channel_wanted_readsz c ≡ 0
      → channel_wanted_writesz c ≡ sz
      → ltb 0 sz ≡ true
      → channel_write_1 writes c sz ≡ returned n c1 sent
      → then_io (returned n c1 sent) after_write ≡ returned tt c' sent
      → channel_poll fuel reads writes c ≡ returned tt c' sent
  unfolding channel_poll poll_channel_2 poll_read poll_write
  poll_wrote r w some_bytes one done =
      simp (channel_poll, poll_channel_2, poll_read, poll_write, r, w, some_bytes, plain, one, done)

  poll_failed :
      {sz : ℕ} {e : Errno} {c' : Channel}
      → channel_wanted_readsz c ≡ 0
      → channel_wanted_writesz c ≡ sz
      → ltb 0 sz ≡ true
      → channel_write_1 writes c sz ≡ failed e c []
      → channel_failed e c [] ≡ returned tt c' []
      → channel_poll fuel reads writes c ≡ returned tt c' []
  unfolding channel_poll poll_channel_2 poll_read poll_write
  poll_failed r w some_bytes one done =
      simp (channel_poll, poll_channel_2, poll_read, poll_write, r, w, some_bytes, plain, one, done)

  poll_idle :
      {sz : ℕ}
      → channel_wanted_readsz c ≡ 0
      → channel_wanted_writesz c ≡ sz
      → ltb 0 sz ≡ false
      → channel_poll fuel reads writes c ≡ returned tt c []
  unfolding channel_poll poll_channel_2 poll_read poll_write
  poll_idle r w nothing =
      rw (channel_poll, poll_channel_2, poll_read, poll_write, r, w, nothing) refl

  wrote-Kept :
      (sz n : ℕ) (c' : Channel)
      → n ≤ sz
      → sz ≤ ringbuf_size c.rb
      → sz ≤ uint32_max - c.bytes_written
      → After (record c { rb = shrunk c.rb n }) c' n
      → Kept c c' (take n (take sz (contents c.rb)))
  wrote-Kept sz n c' h k few a =
      let fits : n ≤ ringbuf_size c.rb = omega arith in
      let sent = take-take n sz (contents c.rb) h in
      record {
        valid = rw a.same_rb (shrunk-IsValid n v fits);
        flow =
            ap₂ ◌++◌ sent (ap contents a.same_rb ∙ contents-shrunk n v fits)
            ∙ take-append-drop n (contents c.rb);
        same_capacity = ap (λ (r : Ringbuf). r.capacity) a.same_rb ∙ capacity-shrunk c.rb n;
        same_dir = a.same_dir;
        same_hack = a.same_hack;
        same_state = a.same_state;
        same_track = a.same_track;
        counted = λ t small. omega (
          arith,
          a.counted t,
          ap length sent,
          length-take n (contents c.rb),
          length-contents c.rb,
        );
      }

  -- The bytes that the channel offers to `write`, and the answer.
  abbrev pub offer : Bytes
  offer = take (xmin (ringbuf_size c.rb) (uint32_max - c.bytes_written)) (contents c.rb)

  -- The channel is in order afterwards, or `write` failed and so has the channel.
  abbrev Polled : Channel → Bytes → Type 0
  Polled c' sent =
      (channel_poll fuel reads writes c ≡ returned tt c' sent)
      × (sent ≡ take (direct_size (writes 0 offer)) offer)
      × (Kept c c' sent
          ⊎ ((e : Errno) × (writes 0 offer ≡ write_failed e)
              × (error_temporary_p e ≡ false)
              × (ltb 0 (length offer) ≡ true)
              × (c'.err ≡ e)
              × (sent ≡ [])
              × Failed c c'))

  channel_poll-Polled :
      c.dir ≡ to_fd
      → c.adb_hack_state ≡ state0
      → Takes (writes 0)
      → (c' : Channel) × (sent : Bytes) × Polled c' sent
  channel_poll-Polled out whole takes =
      let sz = xmin (ringbuf_size c.rb) (uint32_max - c.bytes_written) in
      let held : sz ≤ ringbuf_size c.rb = ground arith in
      let below : sz ≤ uint32_max - c.bytes_written = ground arith in
      let size : length offer ≡ sz =
        omega (arith, length-take sz (contents c.rb), length-contents c.rb, held) in
      let taken : direct_size (writes 0 offer) ≤ sz = omega (arith, takes offer, size) in
      elim (Bool-cases (ltb 0 sz)) [
        | inr nothing ↦
            let zero : sz ≡ 0 = ground (arith, nothing) in
            (
              c,
              [],
              (
                poll_idle (want_no_read out) (want_write out whole) nothing,
                sym (take_none (direct_size (writes 0 offer)) sz (contents c.rb) zero),
                inl (unchanged v),
              ),
            )
        | inl wanted ↦ elim (Writev-cases (writes 0 offer)) [
          | inl (n, e) ↦
              let fits : n ≤ sz = rw e at taken in
              let c1 = record c { rb = shrunk c.rb n } in
              let one = write_1_wrote c sz v (omega arith) writes n held e fits in
              let (c', a, after) = after_write_lem n sz c1 (take n offer) fits below in
              (
                c',
                take n offer,
                (
                  poll_wrote (want_no_read out) (want_write out whole) wanted one a,
                  ap (λ w. take (direct_size w) offer) (sym e),
                  inl (wrote-Kept sz n c' fits held below after),
                ),
              )
          | inr (e, w) ↦
              let one = write_1_failed c sz v (omega arith) writes e held w in
              let (c', a, b) = fail_lem e out in
              (
                c',
                [],
                (
                  poll_failed (want_no_read out) (want_write out whole) wanted one a,
                  ap (λ w. take (direct_size w) offer) (sym w),
                  elim b [
                    | inl kept ↦ inl kept
                    | inr (hard, err, bad) ↦ inr (e, w, hard, rw size wanted, err, refl, bad)
                  ],
                ),
              )
        ]
      ]

  -- The channel is in order afterwards, or has failed.
  pub channel_poll-Kept :
      c.dir ≡ to_fd
      → c.adb_hack_state ≡ state0
      → Takes (writes 0)
      → (c' : Channel) × (sent : Bytes) × (channel_poll fuel reads writes c ≡ returned tt c' sent)
        × (Kept c c' sent ⊎ ((sent ≡ []) × Failed c c'))
  channel_poll-Kept out whole takes =
      let (c', sent, (e, _, b)) = channel_poll-Polled out whole takes in
      (
        c',
        sent,
        e,
        elim b [ inl kept ↦ inl kept | inr (_, _, _, _, _, none, bad) ↦ inr (none, bad) ],
      )
