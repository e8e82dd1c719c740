-- ===== src/Channel/Fill.antt =====
-- What one call of `channel_poll` does to a channel that reads, without the adb encoding.
use fb_adb.Prelude.{
  ℕ, ◌+◌, ◌-◌, ◌≤◌, ◌≡◌, refl, sym, ap, ◌∙◌, arith, true, false, ◌⊎◌, inl, inr, Bool-cases, le→leb,
  [], ◌++◌, append-nil, ◌∷◌, Bytes, length, ltb, ◌==◌, if◌then◌else◌,
}
use fb_adb.Outcome.{Errno}
use fb_adb.Util.{xmin}
use fb_adb.Ringbuf.{Ringbuf, ringbuf_room, Readv, read_failed, read_bytes}
use fb_adb.Ringbuf.Inv.{IsValid}
use fb_adb.Ringbuf.Refine.{contents, extended, extended-IsValid, contents-extended}
use fb_adb.Channel.{
  Channel, from_fd, is_open, uint32_max, returned, failed, Reads, Writes, channel_wanted_readsz,
  channel_wanted_writesz, channel_read_1,
}
use fb_adb.Channel.Poll.{
  channel_close, after_read, poll_read, poll_write, poll_channel_2, error_temporary_p,
  channel_failed, channel_poll,
}
use fb_adb.Channel.Step.{read_1_got, read_1_failed}

-- What the kernel promises of `read`: it gives at most what it is asked for.
abbrev pub read_result : Readv → Bytes
read_result (read_failed e) = []
read_result (read_bytes bs) = bs

abbrev pub Gives : (ℕ → Readv) → Type 0
Gives read = (n : ℕ) → length (read_result (read n)) ≤ n

-- The bytes that a call of `channel_poll` gets.
abbrev pub got_by : Reads → Channel → Bytes
got_by reads c =
    if ltb 0 (channel_wanted_readsz c) then read_result (reads 0 (channel_wanted_readsz c)) else []

-- A channel after it got some bytes, which closes only where there were none.
pub record Filled (c c' : Channel) (got : Bytes) : Type 0 where
  pub valid : IsValid c'.rb
  pub flow : contents c'.rb ≡ contents c.rb ++ got
  pub same_capacity : c'.rb.capacity ≡ c.rb.capacity
  pub same_dir : c'.dir ≡ c.dir
  pub same_hack : c'.adb_encoding_hack ≡ c.adb_encoding_hack
  pub same_track : c'.track_window ≡ c.track_window
  pub windowed : c.track_window ≡ true → c'.window + length got ≡ c.window
  pub window_le : c'.window ≤ c.window
  pub closing : (is_open c' ≡ true) ⊎ (got ≡ [])

Readv-cases :
    (r : Readv) → ((bs : Bytes) × (r ≡ read_bytes bs)) ⊎ ((e : Errno) × (r ≡ read_failed e))
Readv-cases (read_bytes bs) = inl (bs, refl)
Readv-cases (read_failed e) = inr (e, refl)

nothing_read :
    {c : Channel} (c' : Channel)
    → IsValid c.rb
    → c'.rb ≡ c.rb
    → c'.dir ≡ c.dir
    → c'.adb_encoding_hack ≡ c.adb_encoding_hack
    → c'.track_window ≡ c.track_window
    → c'.window ≡ c.window
    → Filled c c' []
nothing_read {c} c' v rb dir hack track window = record {
  valid = rw rb v;
  flow = ap contents rb ∙ sym (append-nil (contents c.rb));
  same_capacity = ap (λ (r : Ringbuf). r.capacity) rb;
  same_dir = dir;
  same_hack = hack;
  same_track = track;
  windowed = λ t. omega arith;
  window_le = omega arith;
  closing = inr refl;
}

module _ (fuel : ℕ) (reads : Reads) (writes : Writes) (c : Channel) (v : IsValid c.rb)
    (alive : is_open c ≡ true) (plain : c.adb_encoding_hack ≡ false)
    (source : c.dir ≡ from_fd) where
  want_read : channel_wanted_readsz c ≡ xmin (ringbuf_room c.rb) c.window
  unfolding channel_wanted_readsz
  want_read = rw (source, alive) refl

  no_write : (c' : Channel) → c'.dir ≡ from_fd → poll_write fuel writes c' ≡ returned tt c' []
  unfolding poll_write channel_wanted_writesz
  no_write c' out = ground arith

  closing_lem :
      (c2 : Channel) (bs : Bytes)
      → c2.fdh ≡ c.fdh
      → (is_open (if length bs == 0 then channel_close c2 else c2) ≡ true) ⊎ (bs ≡ [])
  closing_lem c2 [] e = inr refl
  closing_lem c2 (b ∷ bs) e = inl (ground arith)

  got_bytes :
      (sz : ℕ) (bs : Bytes)
      → length bs ≤ sz
      → sz ≤ ringbuf_room c.rb
      → sz ≤ c.window
      → (c' : Channel) × (after_read (length bs) (record c { rb = extended c.rb bs })
          ≡ returned tt c' [])
        × (c'.dir ≡ from_fd)
        × Filled c c' bs
  unfolding after_read channel_close
  got_bytes sz bs h k few =
      let fits : length bs ≤ ringbuf_room c.rb = omega arith in
      let c1 = record c { rb = extended c.rb bs } in
      let c2 = if c1.track_window then record c1 { window = c1.window - length bs } else c1 in
      let c3 = if length bs == 0 then channel_close c2 else c2 in
      let same : c3.rb ≡ extended c.rb bs = ground arith in
      (
        c3,
        rw (after_read, le→leb (length bs) c.window (omega arith)) refl,
        ground arith,
        record {
          valid = rw same (extended-IsValid bs v fits);
          flow = ap contents same ∙ contents-extended bs v fits;
          same_capacity = ap (λ (r : Ringbuf). r.capacity) same;
          same_dir = ground arith;
          same_hack = ground arith;
          same_track = ground arith;
          windowed = λ t. ground arith;
          window_le = ground arith;
          closing = closing_lem c2 bs (ground arith);
        },
      )

  -- An error, temporary or not.
  read_fails :
      (e : Errno) → (c' : Channel) × (channel_failed e c [] ≡ returned tt c' []) × Filled c c' []
  unfolding channel_failed channel_close
  read_fails e =
      let c' =
        if error_temporary_p e
        then c
        else record (channel_close (record c { rb = c.rb })) { err = e } in
      (
        c',
        ground arith,
        nothing_read c' v (ground arith) (ground arith) (ground arith) (ground arith)
            (ground arith),
      )

  poll_got :
      {sz n : ℕ} {c1 c' : Channel}
      → channel_wanted_readsz c ≡ sz
      → ltb 0 sz ≡ true
      → channel_read_1 reads c sz ≡ returned n c1 []
      → after_read n c1 ≡ returned tt c' []
      → c'.dir ≡ from_fd
      → channel_poll fuel reads writes c ≡ returned tt c' []
  unfolding channel_poll poll_channel_2 poll_read
  poll_got {c' = c'} r some_bytes one done out =
      simp (channel_poll, poll_channel_2, poll_read, r, some_bytes, plain, one, done)
        (rw (no_write c' out) refl)

  poll_read_failed :
      {sz : ℕ} {e : Errno} {c' : Channel}
      → channel_wanted_readsz c ≡ sz
      → ltb 0 sz ≡ true
      → channel_read_1 reads c sz ≡ failed e c []
      → channel_failed e c [] ≡ returned tt c' []
      → channel_poll fuel reads writes c ≡ returned tt c' []
  unfolding channel_poll poll_channel_2 poll_read
  poll_read_failed r some_bytes one done =
      simp (channel_poll, poll_channel_2, poll_read, r, some_bytes, plain, one, done)

  poll_full :
      {sz : ℕ}
      → channel_wanted_readsz c ≡ sz
      → ltb 0 sz ≡ false
      → channel_poll fuel reads writes c ≡ returned tt c []
  unfolding channel_poll poll_channel_2 poll_read
  poll_full r nothing =
      simp (channel_poll, poll_channel_2, poll_read, r, nothing) (rw (no_write c source) refl)

  got_lem :
      (sz : ℕ)
      → channel_wanted_readsz c ≡ sz
      → got_by reads c ≡ (if ltb 0 sz then read_result (reads 0 sz) else [])
  got_lem sz e = ap (λ n. if ltb 0 n then read_result (reads 0 n) else []) e

  pub channel_poll_fill :
      Gives (reads 0)
      → c.window ≤ uint32_max
      → (c' : Channel) × (channel_poll fuel reads writes c ≡ returned tt c' [])
        × Filled c c' (got_by reads c)
  channel_poll_fill gives narrow =
      let sz = xmin (ringbuf_room c.rb) c.window in
      let room : sz ≤ ringbuf_room c.rb = ground arith in
      let few : sz ≤ c.window = ground arith in
      elim (Bool-cases (ltb 0 sz)) [
        | inr nothing ↦ (
          c,
          poll_full want_read nothing,
          rw (got_lem sz want_read, nothing) (nothing_read c v refl refl refl refl refl),
        )
        | inl wanted ↦ elim (Readv-cases (reads 0 sz)) [
          | inl (bs, e) ↦
              let fits : length bs ≤ sz = rw (ap read_result e) at (gives sz) in
              let one = read_1_got c sz v (omega arith) reads bs room e fits in
              let (c', a, out, filled) = got_bytes sz bs fits room few in
              (c', poll_got want_read wanted one a out, rw (got_lem sz want_read, wanted, e) filled)
          | inr (e, w) ↦
              let one = read_1_failed c sz v (omega arith) reads e room w in
              let (c', a, filled) = read_fails e in
              (
                c',
                poll_read_failed want_read wanted one a,
                rw (got_lem sz want_read, wanted, w) filled,
              )
        ]
      ]
