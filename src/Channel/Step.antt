-- ===== src/Channel/Step.antt =====
-- What one call of `channel_poll` does to a channel without the adb encoding.
use fb_adb.Prelude.{ℕ, ◌≤◌, ◌≡◌, arith, le→leb, [], Bytes, length, take}
use fb_adb.Outcome.{Errno}
use fb_adb.Util.{xmin}
use fb_adb.Ringbuf.{
  ringbuf_size, ringbuf_room, ringbuf_capacity, ringbuf_note_added, ringbuf_readable_iov,
  ringbuf_write_out, ringbuf_read_in, finish_read, finish_write, read_failed, read_bytes,
  write_failed, wrote, ssize_max,
}
use fb_adb.Ringbuf.Inv.{IsValid}
use fb_adb.Ringbuf.Refine.{
  contents, extended, region_added, shrunk, note_removed_lem, region_removed,
}
use fb_adb.Channel.{Channel, returned, failed, Reads, Writes, channel_read_1, channel_write_1}

-- The results of `channel_write_1` and `channel_read_1`, by what the kernel answers.
module _ (c : Channel) (sz : ℕ) (v : IsValid c.rb) (clipped : sz ≤ ssize_max) where
  small : xmin sz ssize_max ≡ sz
  small = ground arith

  pub write_1_wrote :
      (writes : Writes) (n : ℕ)
      → sz ≤ ringbuf_size c.rb
      → writes 0 (take sz (contents c.rb)) ≡ wrote n
      → n ≤ sz
      → channel_write_1 writes c sz
        ≡ returned n (record c { rb = shrunk c.rb n }) (take n (take sz (contents c.rb)))
  unfolding channel_write_1 ringbuf_readable_iov ringbuf_write_out finish_write
  write_1_wrote writes n h e k =
      let (rio, r, g) = region_removed sz v h in
      let fits : n ≤ ringbuf_size c.rb = omega arith in
      rw (small, le→leb _ _ h, r, g, e) (ground (arith, note_removed_lem n v fits))

  pub write_1_failed :
      (writes : Writes) (e : Errno)
      → sz ≤ ringbuf_size c.rb
      → writes 0 (take sz (contents c.rb)) ≡ write_failed e
      → channel_write_1 writes c sz ≡ failed e c []
  unfolding channel_write_1 ringbuf_readable_iov ringbuf_write_out finish_write
  write_1_failed writes e h w =
      let (rio, r, g) = region_removed sz v h in rw (small, le→leb _ _ h, r, g, w) (ground arith)

  pub read_1_got :
      (reads : Reads) (bs : Bytes)
      → sz ≤ ringbuf_room c.rb
      → reads 0 sz ≡ read_bytes bs
      → length bs ≤ sz
      → channel_read_1 reads c sz ≡ returned (length bs) (record c { rb = extended c.rb bs }) []
  unfolding channel_read_1 ringbuf_read_in finish_read ringbuf_note_added ringbuf_room ringbuf_size
      ringbuf_capacity
  read_1_got reads bs h e k =
      let (rio, r, s) = region_added bs v (omega arith) sz k h in ground (arith, small, r, s, e)

  pub read_1_failed :
      (reads : Reads) (e : Errno)
      → sz ≤ ringbuf_room c.rb
      → reads 0 sz ≡ read_failed e
      → channel_read_1 reads c sz ≡ failed e c []
  unfolding channel_read_1 ringbuf_read_in finish_read
  read_1_failed reads e h w =
      let (rio, r, s) = region_added [] v (omega arith) sz (omega arith) h in
      ground (arith, small, r, s, w)
