-- ===== src/Channel/Flow.antt =====
-- The bytes of a channel are neither lost, doubled nor reordered between its ring and its descriptor.
use fb_adb.Prelude.{
  ℕ, zero, suc, ◌+◌, ◌-◌, ◌%◌, ◌^◌, ◌≤◌, ◌<◌, ◌≡◌, map, length-take, false, refl, sym, ap, ◌∙◌,
  arith, true, ◌&&◌, List, [], ◌∷◌, ◌++◌, append-nil, append_assoc, Bytes, length, take, drop,
  if◌then◌else◌, Bool-cases, inl, inr, ◌⊎◌, length-append, length-drop, take-append-drop, drop_all,
}
use fb_adb.Outcome.{ok, ◌>>=◌}
use fb_adb.Util.{xmin, size_mod, add_size, iovec_sum, iovec_sum_onto}
use fb_adb.Ringbuf.{
  Ringbuf, ringbuf_size, ringbuf_room, ringbuf_note_added, ringbuf_copy_in, Writev,
}
use fb_adb.Ringbuf.Inv.{IsValid, room-add-size, capacity_le}
use fb_adb.Ringbuf.Refine.{
  contents, contents_nil, extended, extended-IsValid, contents-extended, size-extended,
  copy_in_added,
}
use fb_adb.Channel.{Channel, to_fd, is_open, uint32_max}
use fb_adb.Channel.Poll.{concat, direct_size, buffer_rest, try_direct, channel_write}

-- What the kernel promises of `writev`: it takes at most what it is offered.
abbrev pub Takes : (Bytes → Writev) → Type 0
Takes writev = (bs : Bytes) → direct_size (writev bs) ≤ length bs

-- One more `iovec` in the ring.
buffer_one :
    {rb : Ringbuf} (bs : Bytes) (skip : ℕ)
    → IsValid rb
    → length (drop skip bs) ≤ ringbuf_room rb
    → skip ≤ length bs
    → (ringbuf_copy_in rb (drop skip bs) >>= λ rb'. ringbuf_note_added rb' (length bs - skip))
      ≡ ok (length bs - skip, extended rb (drop skip bs))
buffer_one {rb} bs skip v h k = rw (← length-drop skip bs) (copy_in_added (drop skip bs) v h)

drop-concat :
    (n : ℕ) (xs ys : Bytes)
    → drop n (xs ++ ys) ≡ drop (xmin (length xs) n) xs ++ drop (n - xmin (length xs) n) ys
drop-concat zero [] ys = refl
drop-concat zero (x ∷ xs) ys =
    ap (λ k. drop k (x ∷ xs) ++ drop (0 - k) ys) {x = 0} {y = xmin (suc (length xs)) 0}
      (ground arith)
drop-concat (suc n) [] ys =
    ap (λ m. drop m ys) {x = suc n} {y = suc n - 0} (omega arith)
    ∙ ap (λ k. drop k [] ++ drop (suc n - k) ys) {x = 0} {y = xmin 0 (suc n)} (ground arith)
drop-concat (suc n) (x ∷ xs) ys =
    drop-concat n xs ys
    ∙ ap (λ m. drop (xmin (length xs) n) xs ++ drop m ys) {x = n - xmin (length xs) n}
        {y = suc n - suc (xmin (length xs) n)} (omega arith)
    ∙ ap (λ k. drop k (x ∷ xs) ++ drop (suc n - k) ys) {x = suc (xmin (length xs) n)}
        {y = xmin (suc (length xs)) (suc n)} (ground arith)

room-extended :
    {rb : Ringbuf} (bs : Bytes)
    → IsValid rb
    → (fits : length bs ≤ ringbuf_room rb)
    → ringbuf_room (extended rb bs) + length bs ≡ ringbuf_room rb
room-extended {rb} bs v fits =
    let v' = extended-IsValid bs v fits in
    omega (arith, room-add-size v, room-add-size v', size-extended bs v fits)

-- The loop leaves behind the ring's bytes exactly those of the array that were not written directly.
pub buffer_rest_lem :
    (iov : List Bytes) (rb : Ringbuf) (n : ℕ)
    → IsValid rb
    → length (concat iov) - n ≤ ringbuf_room rb
    → (rb' : Ringbuf) × (buffer_rest rb n iov ≡ ok rb')
      × IsValid rb'
      × (contents rb' ≡ contents rb ++ drop n (concat iov))
      × (rb'.capacity ≡ rb.capacity)
unfolding buffer_rest concat
buffer_rest_lem [] rb n v h = (
  rb,
  refl,
  v,
  sym (append-nil (contents rb)) ∙ ap (λ w. contents rb ++ w) (sym (drop_all n [] (omega arith))),
  refl,
)
buffer_rest_lem (bs ∷ iov) rb n v h =
    let skip = xmin (length bs) n in
    let small : skip ≤ length bs = ground arith in
    let left : n - skip ≡ n - length bs = ground arith in
    let room : length (drop skip bs) ≤ ringbuf_room rb =
      ground (arith, length-drop skip bs, length-append bs (concat iov)) in
    let v' = extended-IsValid (drop skip bs) v room in
    let (rb', e, w, same, cap) = buffer_rest_lem iov (extended rb (drop skip bs)) (n - skip) v' (
      omega (
        arith,
        room-extended (drop skip bs) v room,
        length-drop skip bs,
        length-append bs (concat iov),
        left,
      )) in
    (
      rb',
      ground (arith, buffer_one bs skip v room small, e),
      w,
      same
          ∙ ap (λ w. w ++ drop (n - skip) (concat iov)) (contents-extended (drop skip bs) v room)
          ∙ append_assoc (contents rb) (drop skip bs) (drop (n - skip) (concat iov))
          ∙ ap (λ w. contents rb ++ w) (sym (drop-concat n bs (concat iov))),
      cap,
    )

try_direct-empty :
    (c : Channel) (iov : List Bytes) → try_direct c iov ≡ true → ringbuf_size c.rb ≡ 0
unfolding try_direct
try_direct-empty c iov h = ground arith

joined :
    (n : ℕ) (q q' new : Bytes)
    → q' ≡ q ++ drop n new
    → (n ≡ 0) ⊎ (q ≡ [])
    → take n new ++ q' ≡ q ++ new
joined n q q' new s (inl z) = rw (s, z)
joined n q q' new s (inr z) = rw (s, z) (take-append-drop n new)

iovec_sum_onto-concat :
    (t : ℕ) (iov : List Bytes)
    → t + length (concat iov) < size_mod
    → iovec_sum_onto t (map length iov) ≡ t + length (concat iov)
unfolding iovec_sum_onto concat
iovec_sum_onto-concat t [] h = omega arith
iovec_sum_onto-concat t (bs ∷ iov) h =
    omega (arith, length-append bs (concat iov), iovec_sum_onto-concat (add_size t (length bs)) iov)

-- A channel after `channel_write`, where `sent` went to the descriptor and `new` was written.
pub record Written (c c' : Channel) (new sent : Bytes) : Type 0 where
  pub valid : IsValid c'.rb
  pub flow : sent ++ contents c'.rb ≡ contents c.rb ++ new
  pub same_capacity : c'.rb.capacity ≡ c.rb.capacity
  pub same_fields : c' ≡ record c { rb = c'.rb; bytes_written = c'.bytes_written }
  pub counted :
      c.track_bytes_written ≡ true
      → c.bytes_written ≤ uint32_max
      → (c'.bytes_written ≡ c.bytes_written + length sent) × (c'.bytes_written ≤ uint32_max)

count_written :
    (c : Channel) (iov : List Bytes) (n : ℕ)
    → length (concat iov) < size_mod
    → n ≤ length (concat iov)
    → (try_direct c iov ≡ false → n ≡ 0)
    → c.track_bytes_written ≡ true
    → c.bytes_written ≤ uint32_max
    → let written =
        if c.track_bytes_written && try_direct c iov
        then (c.bytes_written + n) % 2 ^ 32
        else c.bytes_written in
      (written ≡ c.bytes_written + length (take n (concat iov))) × (written ≤ uint32_max)
unfolding try_direct iovec_sum
count_written c iov n small few idle track fits =
    ground (arith, iovec_sum_onto-concat 0 iov (omega arith), length-take n (concat iov))

-- What is to come out of the channel: the bytes in its ring, and behind them those of the array.
module _ (writev : Bytes → Writev) (c : Channel) (iov : List Bytes) (v : IsValid c.rb)
    (out : c.dir ≡ to_fd) (alive : is_open c ≡ true)
    (fits : length (concat iov) ≤ ringbuf_room c.rb) where
  write_with :
      (n : ℕ)
      → n ≡ (if try_direct c iov then direct_size (writev (concat iov)) else 0)
      → (n ≡ 0) ⊎ (contents c.rb ≡ [])
      → n ≤ length (concat iov)
      → (c' : Channel) × (sent : Bytes) × (channel_write writev c iov ≡ ok (c', sent))
        × Written c c' (concat iov) sent
  unfolding channel_write
  write_with n e which few =
      let (rb', b, w, same, cap) = buffer_rest_lem iov c.rb n v (omega arith) in
      let small : length (concat iov) < size_mod = omega (arith, room-add-size v, capacity_le v) in
      (
        record c {
          rb = rb';
          bytes_written =
              if c.track_bytes_written && try_direct c iov
              then (c.bytes_written + n) % 2 ^ 32
              else c.bytes_written;
        },
        take n (concat iov),
        ground (arith, b),
        record {
          valid = w;
          flow = joined n (contents c.rb) (contents rb') (concat iov) same which;
          same_capacity = cap;
          same_fields = refl;
          counted = count_written c iov n small few (λ no. rw no at e);
        },
      )

  pub channel_write-Written :
      Takes writev
      → (c' : Channel) × (sent : Bytes) × (channel_write writev c iov ≡ ok (c', sent))
        × Written c c' (concat iov) sent
  channel_write-Written takes = elim (Bool-cases (try_direct c iov)) [
    | inl direct ↦
        write_with (direct_size (writev (concat iov))) (rw direct)
          (inr (contents_nil c.rb (try_direct-empty c iov direct))) (takes (concat iov))
    | inr buffered ↦ write_with 0 (rw buffered) (inl refl) (omega arith)
  ]

  -- `channel_write` on an open channel with room for the array returns, and what it wrote to the
  -- descriptor, followed by the ring's bytes, is what the ring held followed by the array.
  pub channel_write_flow :
      Takes writev
      → (c' : Channel) × (sent : Bytes) × (channel_write writev c iov ≡ ok (c', sent))
        × IsValid c'.rb
        × (sent ++ contents c'.rb ≡ contents c.rb ++ concat iov)
  channel_write_flow takes =
      let (c', sent, e, w) = channel_write-Written takes in (c', sent, e, w.valid, w.flow)
