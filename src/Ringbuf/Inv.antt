-- ===== src/Ringbuf/Inv.antt =====
-- The invariant of `struct ringbuf`, and what it says of the counters and of `ringbuf_clip`.
use Prim.Native.Nat.{◌∣◌, bit_and}
use native.Mathlib.Nat.{
  mod-mod_of_dvd, dvd_refl, dvd-mul_right_of_dvd, add-suc, add-zero, pow-suc, pow-le-pow_right,
  mod_self,
}
use fb_adb.Prelude.{ℕ, zero, suc, ◌+◌, ◌-◌, ◌%◌, ◌^◌, ◌≤◌, ◌<◌, ◌≡◌, ap, ◌∙◌, arith, length}
use fb_adb.Prelude.Bits.{bit_and_mask, pow_pos}
use fb_adb.Outcome.{ok}
use fb_adb.Util.{size_mod}
use fb_adb.Ringbuf.{Ringbuf, ringbuf_size, ringbuf_room, ringbuf_capacity, ringbuf_clip}

-- The capacity is a power of two below 2^64 and the size of the memory, both counters are
-- `size_t` values, and at most `capacity` bytes are held.
pub record IsValid (rb : Ringbuf) : Type 0 where
  pub exponent : ℕ
  pub pow : rb.capacity ≡ 2 ^ exponent
  pub small : exponent ≤ 63
  pub storage : length rb.mem ≡ rb.capacity
  pub added_fits : rb.nr_added < size_mod
  pub removed_fits : rb.nr_removed < size_mod
  pub held : ringbuf_size rb ≤ rb.capacity

pow_dvd : (k d : ℕ) → 2 ^ k ∣ 2 ^ (k + d)
pow_dvd k zero = rw add-zero (dvd_refl (2 ^ k))
pow_dvd k (suc d) = rw (add-suc, pow-suc) (dvd-mul_right_of_dvd (2 ^ k) (pow_dvd k d) 2)

size_dvd : (k : ℕ) → k ≤ 63 → 2 ^ k ∣ size_mod
size_dvd k h = let e : k + (64 - k) ≡ 64 = omega arith in rw e at (pow_dvd k (64 - k))

module _ {rb : Ringbuf} (v : IsValid rb) where
  pub capacity_pos : 0 < rb.capacity
  capacity_pos = omega (arith, v.pow, pow_pos v.exponent)

  pub capacity_le : rb.capacity ≤ 2 ^ 63
  capacity_le = rw v.pow (pow-le-pow_right {n = 2} (omega arith) v.small)

  -- Wrapping as `size_t` does not show in the index.
  pub mod_capacity : (x : ℕ) → x % size_mod % rb.capacity ≡ x % rb.capacity
  mod_capacity x = mod-mod_of_dvd rb.capacity x (rw v.pow (size_dvd v.exponent v.small))

  pub room-add-size : ringbuf_room rb + ringbuf_size rb ≡ rb.capacity
  unfolding ringbuf_room ringbuf_capacity
  room-add-size = omega (arith, v.held, capacity_le)

  pub added_place : rb.nr_added % rb.capacity ≡ (rb.nr_removed + ringbuf_size rb) % rb.capacity
  unfolding ringbuf_size
  added_place = ap (λ x. x % rb.capacity) whole ∙ mod_capacity (rb.nr_removed + ringbuf_size rb)
    where
      whole : rb.nr_added ≡ (rb.nr_removed + ringbuf_size rb) % size_mod
      whole = omega (arith, v.added_fits, v.removed_fits)

  pub clip_lem : (pos : ℕ) → ringbuf_clip rb pos ≡ ok (pos % rb.capacity)
  unfolding ringbuf_clip
  clip_lem pos = ground (
    arith,
    v.pow,
    ap (λ c. bit_and c (c - 1)) v.pow,
    ap (λ c. bit_and pos (c - 1)) v.pow,
    bit_and_mask v.exponent (2 ^ v.exponent),
    mod_self (2 ^ v.exponent),
    bit_and_mask v.exponent pos,
    ap (λ c. pos % c) v.pow,
  )
