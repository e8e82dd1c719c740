-- ===== src/Util.antt =====
-- Arithmetic helpers of util.c and util.h, on a 64-bit `size_t`.
pub mod Pow2
pub mod Hex
mod Tests
use Prim.Native.Nat.{bit_and, bit_or}
use fb_adb.Prelude.{
  ℕ, ◌+◌, ◌-◌, ◌*◌, ◌/◌, ◌%◌, ◌^◌, Bool, true, false, List, [], ◌∷◌, ltb, ◌==◌, if◌then◌else◌,
}

abbrev pub size_mod : ℕ
size_mod = 2 ^ 64

-- `a + b` and `a - b` on `size_t`.
abbrev pub add_size : ℕ → ℕ → ℕ
add_size a b = (a + b) % size_mod

abbrev pub sub_size : ℕ → ℕ → ℕ
sub_size a b = (a + size_mod - b) % size_mod

abbrev pub xmin : ℕ → ℕ → ℕ
xmin a b = if ltb b a then b else a

abbrev pub xmax : ℕ → ℕ → ℕ
xmax a b = if ltb b a then a else b

-- `SATADD` on an unsigned type with maximum `top`: whether it overflowed, and what is stored.
unfoldable pub satadd : ℕ → ℕ → ℕ → Bool × ℕ
satadd top a b = if ltb (top - a) b then (true, top) else (false, a + b)

-- `XPOW2P` of a value that is not zero.
abbrev pub xpow2p : ℕ → Bool
xpow2p v = bit_and v (v - 1) == 0

-- `sz |= sz >> k`.
abbrev pub smear : ℕ → ℕ → ℕ
smear k sz = bit_or sz (sz / 2 ^ k)

unfoldable pub nextpow2sz : ℕ → ℕ
nextpow2sz sz =
    let a = sub_size sz 1 in
    add_size 1 (smear 32 (smear 16 (smear 8 (smear 4 (smear 2 (smear 1 a))))))

-- `iovec_sum` over the lengths.
unfoldable pub iovec_sum_onto : ℕ → List ℕ → ℕ
iovec_sum_onto total [] = total
iovec_sum_onto total (n ∷ iov) = iovec_sum_onto (add_size total n) iov

unfoldable pub iovec_sum : List ℕ → ℕ
unfolding iovec_sum_onto
iovec_sum = iovec_sum_onto 0
