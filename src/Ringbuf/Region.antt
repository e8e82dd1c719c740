-- ===== src/Ringbuf/Region.antt =====
-- The two regions of `ringbuf_io_region` cover successive positions of the ring.
use native.Mathlib.Nat.{mod-add-mod, mod-eq_of_lt, mod-lt, mod_self}
use fb_adb.Prelude.{
  ℕ, zero, suc, ◌+◌, ◌-◌, ◌%◌, ◌≤◌, ◌<◌, ◌≡◌, inl, inr, refl, ap, ap₂, ◌∙◌, sym, arith, [], ◌∷◌,
  ◌++◌, append-nil, Bytes, length, get_or, set, take, drop, take_all, drop_all, take-append-drop,
  length-take, length-drop, none, some, ltb, if◌then◌else◌, Bool-cases, ltb→lt,
}
use fb_adb.Outcome.{ok}
use fb_adb.Ringbuf.{
  Ringbuf, RingbufIo, ringbuf_io_region, memcpy_in, memcpy_out, to_iovec, of_iovec, scatter, gather,
}
use fb_adb.Ringbuf.Window.{window, store, window-append, store-append, window_mod, store_mod}
use native.Mathlib.Decide.{dec_le}
use fb_adb.Ringbuf.Inv.{IsValid, clip_lem, capacity_pos, capacity_le}

-- The regions from index `i` on, in a ring of size `cap`.
pub region : ℕ → ℕ → ℕ → RingbufIo
region cap i len =
    if ltb cap (i + len)
    then record {
      v0 = record { base = some i; len = cap - i };
      v1 = record { base = some 0; len = len - (cap - i) };
    }
    else record { v0 = record { base = some i; len = len }; v1 = record { base = none; len = 0 } }

pub io_region_lem :
    {rb : Ringbuf} (pos len : ℕ)
    → IsValid rb
    → len ≤ rb.capacity
    → ringbuf_io_region rb pos len ≡ ok (region rb.capacity (pos % rb.capacity) len)
unfolding ringbuf_io_region region
io_region_lem {rb} pos len v h =
    ground (arith, clip_lem v pos, capacity_le v, mod-lt pos {m = rb.capacity} (capacity_pos v))

next_place : (cap pos i : ℕ) → pos % cap ≡ i → i + 1 < cap → (pos + 1) % cap ≡ i + 1
next_place cap pos i e h =
    omega (
      arith,
      mod-add-mod pos cap 1,
      ap (λ x. (x + 1) % cap) e,
      mod-eq_of_lt {n = i + 1} {m = cap} h,
    )

memcpy_out-window :
    (mem : Bytes) (cap pos i n : ℕ)
    → pos % cap ≡ i
    → i + n ≤ cap
    → memcpy_out mem i n ≡ window mem cap pos n
unfolding memcpy_out window
memcpy_out-window mem cap pos i zero e h = refl
memcpy_out-window mem cap pos i (suc zero) e h = ap (λ k. get_or mem k 0 ∷ []) (sym e)
memcpy_out-window mem cap pos i (suc (suc n)) e h =
    ap₂ (λ k w. get_or mem k 0 ∷ w) (sym e)
      (memcpy_out-window mem cap (pos + 1) (i + 1) (suc n) (next_place cap pos i e (omega arith))
        (omega arith))

memcpy_in-store :
    (mem : Bytes) (cap pos i : ℕ) (bs : Bytes)
    → pos % cap ≡ i
    → i + length bs ≤ cap
    → memcpy_in mem i bs ≡ store mem cap pos bs
unfolding memcpy_in store
memcpy_in-store mem cap pos i [] e h = refl
memcpy_in-store mem cap pos i (b ∷ []) e h = ap (λ k. set mem k b) (sym e)
memcpy_in-store mem cap pos i (b ∷ c ∷ bs) e h =
    memcpy_in-store (set mem i b) cap (pos + 1) (i + 1) (c ∷ bs)
      (next_place cap pos i e (omega arith)) (omega arith)
    ∙ ap (λ k. store (set mem k b) cap (pos + 1) (c ∷ bs)) (sym e)

-- The position where the second region begins.
turn_place : (cap pos : ℕ) → 0 < cap → (pos + (cap - pos % cap)) % cap ≡ 0 % cap
turn_place cap pos h =
    sym (mod-add-mod pos cap (cap - pos % cap))
    ∙ ap (λ x. x % cap) sum
    ∙ mod_self cap
    ∙ sym (mod-eq_of_lt h)
  where
    sum : pos % cap + (cap - pos % cap) ≡ cap
    sum = omega (arith, mod-lt pos {m = cap} h)

pub gather_lem :
    (mem : Bytes) (cap pos len : ℕ)
    → 0 < cap
    → len ≤ cap
    → gather mem (region cap (pos % cap) len) ≡ window mem cap pos len
unfolding gather region of_iovec
gather_lem mem cap pos len h k = elim (Bool-cases (ltb cap (pos % cap + len))) [
  | inl wraps ↦
      let first = cap - pos % cap in
      let over : cap < pos % cap + len = ltb→lt _ _ wraps in
      let below = mod-lt pos {m = cap} h in
      rw wraps (
        ap₂ ◌++◌ (memcpy_out-window mem cap pos (pos % cap) first refl (omega arith)) (
          memcpy_out-window mem cap 0 0 (len - first) (mod-eq_of_lt h) (omega arith)
          ∙ window_mod mem cap 0 (pos + first) (len - first) (sym (turn_place cap pos h)))
        ∙ sym (window-append mem cap pos first (len - first))
        ∙ ap (window mem cap pos) (omega arith))
  | inr straight ↦
      rw straight (append-nil _ ∙ memcpy_out-window mem cap pos (pos % cap) len refl (ground arith))
]

-- The bytes for the second region stand behind those of the first.
turn_store :
    (m : Bytes) (cap pos : ℕ) (bs : Bytes)
    → 0 < cap
    → store m cap 0 (drop (cap - pos % cap) bs)
      ≡ store m cap (pos + length (take (cap - pos % cap) bs)) (drop (cap - pos % cap) bs)
turn_store m cap pos bs h =
    let first = cap - pos % cap in
    elim (dec_le first (length bs)) [
      | yes reach ↦
          let full : length (take first bs) ≡ first = omega (arith, length-take first bs) in
          rw full (store_mod m cap 0 (pos + first) (drop first bs) (sym (turn_place cap pos h)))
      | no short ↦ rw (drop_all first bs (omega arith)) (unfold store in refl)
    ]

pub scatter_lem :
    (mem : Bytes) (cap pos len : ℕ) (bs : Bytes)
    → 0 < cap
    → len ≤ cap
    → length bs ≤ len
    → scatter mem (region cap (pos % cap) len) bs ≡ store mem cap pos bs
unfolding scatter region to_iovec
scatter_lem mem cap pos len bs h k fits = elim (Bool-cases (ltb cap (pos % cap + len))) [
  | inl wraps ↦
      let first = cap - pos % cap in
      let below = mod-lt pos {m = cap} h in
      let over : cap < pos % cap + len = ltb→lt _ _ wraps in
      rw
        (
          wraps,
          memcpy_in-store mem cap pos (pos % cap) (take first bs) refl
              (omega (arith, length-take first bs)),
          memcpy_in-store (store mem cap pos (take first bs)) cap 0 0 (drop first bs)
              (mod-eq_of_lt h) (omega (arith, length-drop first bs)),
        )
        (turn_store (store mem cap pos (take first bs)) cap pos bs h
          ∙ sym (store-append mem cap pos (take first bs) (drop first bs))
          ∙ ap (store mem cap pos) (take-append-drop first bs))
  | inr straight ↦
      rw (straight, take_all len bs fits)
        (memcpy_in-store mem cap pos (pos % cap) bs refl (ground arith))
]
