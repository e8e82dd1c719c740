-- ===== src/Core/Steps.antt =====
-- core.c: the calls on single channels of the array that the handlers and senders share.
use fb_adb.Prelude.{
  ℕ, ◌+◌, ◌≤◌, ◌≡◌, ap, ◌∙◌, arith, List, [], ◌∷◌, ◌++◌, append-nil, Bytes, length, take, drop,
  length-append, take-append_length, drop-append_length, le→leb,
}
use fb_adb.Outcome.{ok}
use fb_adb.Ringbuf.{Ringbuf, RingbufIo, ringbuf_size, ringbuf_readable_iov, of_iovec, gather}
use fb_adb.Ringbuf.Inv.{IsValid}
use fb_adb.Ringbuf.Refine.{
  contents, length-contents, shrunk, contents-shrunk, note_removed_lem, region_removed,
  copy_out_lem,
}
use fb_adb.Channel.{Channel, Writes}
use fb_adb.Channel.Poll.{concat, channel_write}
use fb_adb.Core.{FbAdbSh, from_peer, channel_at, set_channel, write_to, remove_from, pop_bytes}

-- A call of `ringbuf_note_removed` on a channel of the array.
pub remove_from_lem :
    (sh : FbAdbSh) (i n : ℕ) (c : Channel)
    → channel_at sh.ch i ≡ ok c
    → IsValid c.rb
    → n ≤ ringbuf_size c.rb
    → remove_from sh i n ≡ ok (set_channel sh i (record c { rb = shrunk c.rb n }))
unfolding remove_from
remove_from_lem sh i n c e v h = ground (arith, e, note_removed_lem n v h)

pub write_to_lem :
    (writes : Writes) (sh : FbAdbSh) (i : ℕ) (c : Channel) (iov : List Bytes) {r : Channel × Bytes}
    → channel_at sh.ch i ≡ ok c
    → channel_write (writes sh.nr_writes) c iov ≡ ok r
    → write_to writes sh i iov
      ≡ ok (record (set_channel sh i r.0) {
        nr_writes = sh.nr_writes + 1;
        sent = sh.sent ++ (i, r.1) ∷ [];
      })
unfolding write_to
write_to_lem writes sh i c iov at_c w = simp (at_c, w)

pub pop_bytes_lem :
    (sh : FbAdbSh) (n : ℕ) (c : Channel)
    → channel_at sh.ch from_peer ≡ ok c
    → IsValid c.rb
    → n ≤ ringbuf_size c.rb
    → pop_bytes sh n
      ≡ ok (take n (contents c.rb), set_channel sh from_peer (record c { rb = shrunk c.rb n }))
unfolding pop_bytes
pop_bytes_lem sh n c e v h =
    ground (arith, e, copy_out_lem n v h, remove_from_lem sh from_peer n c e v h)

-- The ring after `head` is removed from its front.
pub rest_left :
    {rb : Ringbuf} (head rest : Bytes)
    → IsValid rb
    → contents rb ≡ head ++ rest
    → (length head ≤ ringbuf_size rb) × (contents (shrunk rb (length head)) ≡ rest)
rest_left {rb} head rest v held =
    let fits : length head ≤ ringbuf_size rb =
      omega (arith, length-contents rb, ap length held, length-append head rest) in
    (
      fits,
      contents-shrunk (length head) v fits
          ∙ ap (drop (length head)) held
          ∙ drop-append_length head rest,
    )

-- The two regions of the head of a ring are the head.
pub regions_lem :
    {rb : Ringbuf} (head rest : Bytes)
    → IsValid rb
    → contents rb ≡ head ++ rest
    → (rio : RingbufIo) × (ringbuf_readable_iov rb (length head) ≡ ok rio)
      × (concat (of_iovec rb.mem rio.v0 ∷ of_iovec rb.mem rio.v1 ∷ []) ≡ head)
unfolding ringbuf_readable_iov concat gather
regions_lem {rb} head rest v held =
    let (fits, left) = rest_left head rest v held in
    let (rio, r, g) = region_removed (length head) v fits in
    (
      rio,
      rw (le→leb _ _ fits) r,
      ap (λ w. of_iovec rb.mem rio.v0 ++ w) (append-nil (of_iovec rb.mem rio.v1))
          ∙ g
          ∙ ap (take (length head)) held
          ∙ take-append_length head rest,
    )
