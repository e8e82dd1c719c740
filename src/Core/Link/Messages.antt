-- ===== src/Core/Link/Messages.antt =====
-- core.c: the events of a link that send and take data and credit, and its invariant.
use fb_adb.Prelude.{
  ℕ, ◌+◌, ◌-◌, ◌≤◌, ◌≡◌, refl, sym, ap, ◌∙◌, arith, true, false, inl, inr, Bool-cases, List, [],
  ◌∷◌, ◌++◌, append_assoc, append-nil, Bytes, length, length-append, ltb, leb, ◌&&◌,
  take as take_bytes,
}
use fb_adb.Outcome.{ok}
use fb_adb.Util.{satadd, xmin}
use fb_adb.Ringbuf.{ringbuf_size, ringbuf_room}
use fb_adb.Ringbuf.Inv.{room-add-size}
use fb_adb.Ringbuf.Refine.{contents, length-contents, shrunk, note_removed_lem, copy_out_lem}
use fb_adb.Channel.{Channel, is_open, uint32_max, Writes}
use fb_adb.Channel.Poll.{concat}
use fb_adb.Channel.Flow.{Takes, Written, channel_write-Written}
use fb_adb.Proto.{sizeof_data}
use fb_adb.Core.Link.{Link, send_credit, send, take, grant, step}
use fb_adb.Core.Link.Balance.{Fair, sum-append, source_sends}

module _ {capacity : ℕ} {l : Link} (f : Fair capacity l) where
  pub send-Fair : (maxoutmsg : ℕ) → (l' : Link) × (send maxoutmsg l ≡ ok l') × Fair capacity l'
  unfolding send
  send-Fair maxoutmsg =
      let n = xmin (ringbuf_size l.source.rb) (maxoutmsg - sizeof_data) in
      let fits : n ≤ ringbuf_size l.source.rb = ground arith in
      elim (Bool-cases (ltb 0 (ringbuf_size l.source.rb) && leb sizeof_data maxoutmsg)) [
        | inl due ↦ (
          record l {
            source = record l.source { rb = shrunk l.source.rb n };
            payloads = l.payloads ++ take_bytes n (contents l.source.rb) ∷ [];
          },
          rw (due, copy_out_lem n f.source_valid fits, note_removed_lem n f.source_valid fits) refl,
          source_sends f n fits,
        )
        | inr idle ↦ (l, rw idle refl, f)
      ]

  pub credit-Fair : (l' : Link) × (step send_credit l ≡ ok l') × Fair capacity l'
  unfolding step
  credit-Fair = elim (Bool-cases (ltb 0 l.sink.bytes_written)) [
    | inl owed ↦ (
      record l {
        sink = record l.sink { bytes_written = 0 };
        credits = l.credits ++ l.sink.bytes_written ∷ [];
      },
      rw owed refl,
      record {
        source_valid = f.source_valid;
        sink_valid = f.sink_valid;
        source_dir = f.source_dir;
        sink_dir = f.sink_dir;
        source_plain = f.source_plain;
        sink_plain = f.sink_plain;
        sink_state = f.sink_state;
        source_tracks = f.source_tracks;
        sink_tracks = f.sink_tracks;
        roomy = f.roomy;
        narrow = f.narrow;
        balance = omega (arith, sum-append l.credits l.sink.bytes_written, f.balance);
        order = f.order;
        prefix = f.prefix;
      },
    )
    | inr even ↦ (l, rw even refl, f)
  ]

moved_on :
    (t s q' q p r u : Bytes)
    → s ++ q' ≡ q ++ p
    → (t ++ s) ++ (q' ++ (r ++ u)) ≡ t ++ (q ++ ((p ++ r) ++ u))
moved_on t s q' q p r u e =
    append_assoc t s (q' ++ (r ++ u))
    ∙ ap (λ w. t ++ w)
        (sym (append_assoc s q' (r ++ u)) ∙ ap (λ w. w ++ (r ++ u)) e ∙ simp append_assoc)

module _ {capacity : ℕ} (l : Link) where
  sink_takes :
      (p : Bytes) (ps : List Bytes) (c' : Channel) (sent : Bytes)
      → is_open l.sink ≡ true
      → Written l.sink c' p sent
      → Fair capacity (record l { payloads = p ∷ ps })
      → Fair capacity (record l { payloads = ps; sink = c'; taken = l.taken ++ sent })
  unfolding concat
  sink_takes p ps c' sent alive w f =
      let count = w.counted f.sink_tracks (omega (arith, f.balance, f.narrow)) in
      let size : ringbuf_size c'.rb + length sent ≡ ringbuf_size l.sink.rb + length p = omega (
        arith,
        ap length w.flow,
        length-append sent (contents c'.rb),
        length-append (contents l.sink.rb) p,
        length-contents c'.rb,
        length-contents l.sink.rb,
      ) in
      let same : (l.taken ++ sent) ++ (contents c'.rb ++ (concat ps ++ contents l.source.rb))
          ≡ l.given =
        moved_on l.taken sent (contents c'.rb) (contents l.sink.rb) p (concat ps)
          (contents l.source.rb) w.flow
        ∙ f.order alive in
      record {
        source_valid = f.source_valid;
        sink_valid = w.valid;
        source_dir = f.source_dir;
        sink_dir = ap (λ (c : Channel). c.dir) w.same_fields ∙ f.sink_dir;
        source_plain = f.source_plain;
        sink_plain = ap (λ (c : Channel). c.adb_encoding_hack) w.same_fields ∙ f.sink_plain;
        sink_state = ap (λ (c : Channel). c.adb_hack_state) w.same_fields ∙ f.sink_state;
        source_tracks = f.source_tracks;
        sink_tracks = ap (λ (c : Channel). c.track_bytes_written) w.same_fields ∙ f.sink_tracks;
        roomy = omega (arith, w.same_capacity, f.roomy);
        narrow = f.narrow;
        balance = omega (arith, count.0, size, f.balance, length-append p (concat ps));
        order = λ _. same;
        prefix = (contents c'.rb ++ (concat ps ++ contents l.source.rb), same);
      }

  -- The first payload arrives.
  pub take-Fair :
      (writes : Writes) (p : Bytes) (ps : List Bytes)
      → Takes (writes 0)
      → Fair capacity (record l { payloads = p ∷ ps })
      → (l' : Link) × (take writes p (record l { payloads = ps }) ≡ ok l') × Fair capacity l'
  unfolding take concat
  take-Fair writes p ps takes f = elim (Bool-cases (is_open l.sink)) [
    | inr closed ↦ (
      record l { payloads = ps },
      rw closed refl,
      record {
        source_valid = f.source_valid;
        sink_valid = f.sink_valid;
        source_dir = f.source_dir;
        sink_dir = f.sink_dir;
        source_plain = f.source_plain;
        sink_plain = f.sink_plain;
        sink_state = f.sink_state;
        source_tracks = f.source_tracks;
        sink_tracks = f.sink_tracks;
        roomy = f.roomy;
        narrow = f.narrow;
        balance = omega (arith, f.balance, length-append p (concat ps));
        order = λ alive. absurd (ground arith);
        prefix = f.prefix;
      },
    )
    | inl alive ↦
        let one : concat (p ∷ []) ≡ p = append-nil p in
        let fits : length p ≤ ringbuf_room l.sink.rb =
          omega
            (arith, f.balance, length-append p (concat ps), room-add-size f.sink_valid, f.roomy) in
        let (c', sent, e, w) =
          channel_write-Written (writes 0) l.sink (p ∷ []) f.sink_valid f.sink_dir alive
            (rw one fits) takes in
        let roomy : ltb (ringbuf_room l.sink.rb) (length p) ≡ false = ground arith in
        (
          record l { payloads = ps; sink = c'; taken = l.taken ++ sent },
          rw (alive, roomy, e) refl,
          sink_takes p ps c' sent alive (rw one at w) f,
        )
  ]

  -- The first credit arrives.
  pub grant-Fair :
      (delta : ℕ) (ds : List ℕ)
      → Fair capacity (record l { credits = delta ∷ ds })
      → (l' : Link) × (grant delta (record l { credits = ds }) ≡ ok l') × Fair capacity l'
  unfolding grant satadd
  grant-Fair delta ds f =
      let kept : (w : ℕ)
          → w ≤ l.source.window + delta
          → Fair capacity (record l { credits = ds; source = record l.source { window = w } }) =
        λ w h. record {
          source_valid = f.source_valid;
          sink_valid = f.sink_valid;
          source_dir = f.source_dir;
          sink_dir = f.sink_dir;
          source_plain = f.source_plain;
          sink_plain = f.sink_plain;
          sink_state = f.sink_state;
          source_tracks = f.source_tracks;
          sink_tracks = f.sink_tracks;
          roomy = f.roomy;
          narrow = f.narrow;
          balance = omega (arith, f.balance, h);
          order = f.order;
          prefix = f.prefix;
        } in
      elim (Bool-cases (is_open l.source)) [
        | inl alive ↦
            let small : ltb (uint32_max - l.source.window) delta ≡ false =
              ground (arith, f.balance, f.narrow) in
            (
              record l {
                credits = ds;
                source = record l.source { window = l.source.window + delta };
              },
              rw (alive, small) refl,
              kept (l.source.window + delta) (omega arith),
            )
        | inr closed ↦
            (record l { credits = ds }, rw closed refl, kept l.source.window (omega arith))
      ]
