-- ===== src/Ringbuf/New.antt =====
-- `ringbuf_new`: the sizes that it takes, and the ring that it makes.
use fb_adb.Prelude.{ℕ, ◌*◌, ◌^◌, ◌≤◌, ◌<◌, ◌≡◌, refl, arith, [], Bytes, length, ◌⊎◌}
use fb_adb.Outcome.{ok, died, erange, Outcome}
use fb_adb.Util.{size_mod, nextpow2sz}
use fb_adb.Util.Pow2.{nextpow2sz_lem, nextpow2sz-zero}
use fb_adb.Prelude.Bits.{pow_pos}
use fb_adb.Ringbuf.{Ringbuf, ringbuf_new, ringbuf_size}
use fb_adb.Ringbuf.Inv.{IsValid}
use fb_adb.Ringbuf.Refine.{contents, contents_nil}

-- A size from 1 to 2^63 gives a valid empty ring with room for at least that many bytes, and for
-- less than twice as many, where the allocation returns a block of the size that it was asked for.
pub new_lem :
    (xalloc : ℕ → Outcome Bytes) (block : ℕ → Bytes) (requested : ℕ)
    → ((n : ℕ) → xalloc n ≡ ok (block n))
    → ((n : ℕ) → length (block n) ≡ n)
    → 0 < requested
    → requested ≤ 2 ^ 63
    → (rb : Ringbuf) × (ringbuf_new xalloc requested ≡ ok rb)
      × IsValid rb
      × (contents rb ≡ [])
      × (requested ≤ rb.capacity)
      × (rb.capacity < 2 * requested)
unfolding ringbuf_new
new_lem xalloc block requested gives size pos small =
    let (k, e, k_small, lo, hi) = nextpow2sz_lem requested pos small in
    let rb : Ringbuf = record {
      nr_removed = 0;
      nr_added = 0;
      capacity = nextpow2sz requested;
      mem = block (nextpow2sz requested);
    } in
    let none_held : ringbuf_size rb ≡ 0 = unfold ringbuf_size in refl in
    (
      rb,
      ground (arith, gives (nextpow2sz requested), pow_pos k),
      record {
        exponent = k;
        pow = e;
        small = k_small;
        storage = size (nextpow2sz requested);
        added_fits = omega arith;
        removed_fits = omega arith;
        held = omega arith;
      },
      contents_nil rb none_held,
      omega arith,
      omega arith,
    )

-- Size 0, and a size above 2^63, are refused with ERANGE before anything is allocated.
pub new_refuses :
    (xalloc : ℕ → Outcome Bytes) (requested : ℕ)
    → requested < size_mod
    → (requested ≡ 0) ⊎ (2 ^ 63 < requested)
    → ringbuf_new xalloc requested ≡ died erange
unfolding ringbuf_new
new_refuses xalloc requested h which = ground (arith, nextpow2sz-zero requested which h)
