-- ===== src/Ringbuf/Refine.antt =====
-- A valid ring is a bounded queue of bytes: what each operation does to the bytes that it holds.

use fb_adb.Prelude.{
  ℕ, ◌+◌, ◌%◌, ◌≤◌, ◌<◌, ◌≡◌, inl, inr, refl, ap, ap₂, ◌∙◌, sym, arith, [], ◌++◌, Bytes, length,
  take, drop, take-append_length, drop-append_length, if◌then◌else◌, ◌==◌, Bool-cases, ==_iff,
}
use fb_adb.Outcome.{ok, aborted, ◌>>=◌}
use fb_adb.Util.{add_size}
use fb_adb.Ringbuf.{
  Ringbuf, RingbufIo, ringbuf_size, ringbuf_room, ringbuf_capacity, ringbuf_io_region,
  ringbuf_note_added, ringbuf_note_removed, ringbuf_copy_in, ringbuf_copy_out, scatter, gather,
}
use fb_adb.Ringbuf.Window.{
  window, store, length-window, length-store, window-store, window-append, window_mod, store_mod,
}
use fb_adb.Ringbuf.Inv.{
  IsValid, capacity_pos, capacity_le, room-add-size, added_place, mod_capacity,
}
use fb_adb.Ringbuf.Region.{region, io_region_lem, gather_lem, scatter_lem}

-- The bytes that the ring holds, the oldest first.
unfoldable pub contents : Ringbuf → Bytes
contents rb = window rb.mem rb.capacity rb.nr_removed (ringbuf_size rb)

pub length-contents : (rb : Ringbuf) → length (contents rb) ≡ ringbuf_size rb
unfolding contents
length-contents rb = length-window rb.mem rb.capacity rb.nr_removed (ringbuf_size rb)

-- The ring after `bs` went in behind the newest byte and the counter moved.
abbrev pub extended : Ringbuf → Bytes → Ringbuf
extended rb bs = record rb {
  mem = store rb.mem rb.capacity rb.nr_added bs;
  nr_added = add_size rb.nr_added (length bs);
}

module _ {rb : Ringbuf} (bs : Bytes) (v : IsValid rb) (fits : length bs ≤ ringbuf_room rb) where
  pub size-extended : ringbuf_size (extended rb bs) ≡ ringbuf_size rb + length bs
  unfolding ringbuf_size ringbuf_room ringbuf_capacity
  size-extended = omega (arith, v.held, v.added_fits, v.removed_fits, capacity_le v)

  pub extended-IsValid : IsValid (extended rb bs)
  extended-IsValid = record {
    exponent = v.exponent;
    pow = v.pow;
    small = v.small;
    storage = length-store rb.mem rb.capacity rb.nr_added bs ∙ v.storage;
    added_fits = omega arith;
    removed_fits = v.removed_fits;
    held = omega (arith, size-extended, room-add-size v);
  }

  pub contents-extended : contents (extended rb bs) ≡ contents rb ++ bs
  unfolding contents
  contents-extended =
      ap₂ (λ m n. window m rb.capacity rb.nr_removed n)
        (store_mod rb.mem rb.capacity rb.nr_added (rb.nr_removed + ringbuf_size rb) bs
          (added_place v))
        size-extended
      ∙ window-store rb.mem rb.capacity rb.nr_removed (ringbuf_size rb) bs v.storage
          (omega (arith, room-add-size v))

  pub region_added :
      (len : ℕ)
      → length bs ≤ len
      → len ≤ ringbuf_room rb
      → (rio : RingbufIo) × (ringbuf_io_region rb rb.nr_added len ≡ ok rio)
        × (scatter rb.mem rio bs ≡ store rb.mem rb.capacity rb.nr_added bs)
  region_added len h k = (
    region rb.capacity (rb.nr_added % rb.capacity) len,
    io_region_lem rb.nr_added len v (omega (arith, room-add-size v)),
    scatter_lem rb.mem rb.capacity rb.nr_added len bs (capacity_pos v)
        (omega (arith, room-add-size v)) h,
  )

  -- `ringbuf_copy_in`, then `ringbuf_note_added` of as many bytes, neither stops nor dies.
  pub copy_in_added :
      (ringbuf_copy_in rb bs >>= λ rb'. ringbuf_note_added rb' (length bs))
      ≡ ok (length bs, extended rb bs)
  unfolding ringbuf_copy_in ringbuf_note_added ringbuf_room ringbuf_size ringbuf_capacity
  copy_in_added =
      let (rio, e, s) = region_added (length bs) (omega arith) fits in ground (arith, e, s)

-- The ring after its oldest `nr` bytes were dropped, and an empty ring starts again at 0.
abbrev pub moved : Ringbuf → ℕ → Ringbuf
moved rb nr = record rb { nr_removed = add_size rb.nr_removed nr }

abbrev pub reset : Ringbuf → Ringbuf
reset rb = record rb { nr_added = 0; nr_removed = 0 }

pub shrunk : Ringbuf → ℕ → Ringbuf
shrunk rb nr = if ringbuf_size (moved rb nr) == 0 then reset rb else moved rb nr

pub contents_nil : (rb : Ringbuf) → ringbuf_size rb ≡ 0 → contents rb ≡ []
unfolding contents
contents_nil rb e = ap (window rb.mem rb.capacity rb.nr_removed) e ∙ (unfold window in refl)

size-reset : (rb : Ringbuf) → ringbuf_size (reset rb) ≡ 0
unfolding ringbuf_size
size-reset rb = refl

module _ {rb : Ringbuf} (nr : ℕ) (v : IsValid rb) (fits : nr ≤ ringbuf_size rb) where
  size-moved : ringbuf_size (moved rb nr) + nr ≡ ringbuf_size rb
  unfolding ringbuf_size
  size-moved = omega (arith, v.held, v.added_fits, v.removed_fits, capacity_le v)

  contents-moved : contents (moved rb nr) ≡ drop nr (contents rb)
  unfolding contents
  contents-moved =
      let size = ringbuf_size (moved rb nr) in
      window_mod rb.mem rb.capacity (add_size rb.nr_removed nr) (rb.nr_removed + nr) size
        (mod_capacity v (rb.nr_removed + nr))
      ∙ sym (drop-append_length (window rb.mem rb.capacity rb.nr_removed nr) _)
      ∙ ap₂ drop (length-window rb.mem rb.capacity rb.nr_removed nr) (
          sym (window-append rb.mem rb.capacity rb.nr_removed nr size)
          ∙ ap (window rb.mem rb.capacity rb.nr_removed) (omega (arith, size-moved)))

  reset-IsValid : IsValid (reset rb)
  reset-IsValid = record {
    exponent = v.exponent;
    pow = v.pow;
    small = v.small;
    storage = v.storage;
    added_fits = omega arith;
    removed_fits = omega arith;
    held = omega (arith, size-reset rb);
  }

  moved-IsValid : IsValid (moved rb nr)
  moved-IsValid = record {
    exponent = v.exponent;
    pow = v.pow;
    small = v.small;
    storage = v.storage;
    added_fits = v.added_fits;
    removed_fits = omega arith;
    held = omega (arith, size-moved, v.held);
  }

  pub shrunk-IsValid : IsValid (shrunk rb nr)
  unfolding shrunk
  shrunk-IsValid = elim (Bool-cases (ringbuf_size (moved rb nr) == 0)) [
    | inl empty ↦ rw empty reset-IsValid
    | inr some_left ↦ rw some_left moved-IsValid
  ]

  pub contents-shrunk : contents (shrunk rb nr) ≡ drop nr (contents rb)
  unfolding shrunk
  contents-shrunk = elim (Bool-cases (ringbuf_size (moved rb nr) == 0)) [
    | inl empty ↦ rw empty (
        contents_nil (reset rb) (size-reset rb)
        ∙ sym (contents_nil (moved rb nr) ((==_iff _ _).0 empty))
        ∙ contents-moved)
    | inr some_left ↦ rw some_left contents-moved
  ]

  pub note_removed_lem : ringbuf_note_removed rb nr ≡ ok (nr, shrunk rb nr)
  unfolding ringbuf_note_removed shrunk
  note_removed_lem = ground arith

  take-contents : take nr (contents rb) ≡ window rb.mem rb.capacity rb.nr_removed nr
  unfolding contents
  take-contents =
      let first = window rb.mem rb.capacity rb.nr_removed nr in
      let size = ringbuf_size (moved rb nr) in
      let split =
        ap (window rb.mem rb.capacity rb.nr_removed) {x = ringbuf_size rb} {y = nr + size}
          (omega (arith, size-moved))
        ∙ window-append rb.mem rb.capacity rb.nr_removed nr size in
      ap (take nr) split
      ∙ ap (λ n. take n (first ++ window rb.mem rb.capacity (rb.nr_removed + nr) size))
          (sym (length-window rb.mem rb.capacity rb.nr_removed nr))
      ∙ take-append_length first _

  pub region_removed :
      (rio : RingbufIo) × (ringbuf_io_region rb rb.nr_removed nr ≡ ok rio)
      × (gather rb.mem rio ≡ take nr (contents rb))
  region_removed = (
    region rb.capacity (rb.nr_removed % rb.capacity) nr,
    io_region_lem rb.nr_removed nr v (omega (arith, v.held)),
    gather_lem rb.mem rb.capacity rb.nr_removed nr (capacity_pos v) (omega (arith, v.held))
        ∙ sym take-contents,
  )

  -- `ringbuf_copy_out` gives the oldest bytes, in order.
  pub copy_out_lem : ringbuf_copy_out rb nr ≡ ok (take nr (contents rb))
  unfolding ringbuf_copy_out
  copy_out_lem = let (rio, e, g) = region_removed in ground (arith, e, g)

-- Too many bytes in, or out, and an `assert` stops the program before anything changes.
pub copy_in_aborts :
    (rb : Ringbuf) (bs : Bytes) → ringbuf_room rb < length bs → ringbuf_copy_in rb bs ≡ aborted
unfolding ringbuf_copy_in
copy_in_aborts rb bs h = ground arith

pub copy_out_aborts : (rb : Ringbuf) (n : ℕ) → ringbuf_size rb < n → ringbuf_copy_out rb n ≡ aborted
unfolding ringbuf_copy_out
copy_out_aborts rb n h = ground arith

pub capacity-shrunk : (rb : Ringbuf) (n : ℕ) → (shrunk rb n).capacity ≡ rb.capacity
unfolding shrunk
capacity-shrunk rb n = ground arith
