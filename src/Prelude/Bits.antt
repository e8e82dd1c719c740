-- ===== src/Prelude/Bits.antt =====
-- `&` with a mask of low bits and `|` of a number with its own shift, as arithmetic.
use Prim.Native.Nat.{digits, bitwise, bit_and, bit_or, bit_and-bitwise, bit_or-bitwise}
use native.Mathlib.Nat.{
  pow-suc, one-le-pow, mul-add-mod_self_right, mod-eq_of_lt, div-add-mod', mod-lt,
}
use fb_adb.Prelude.{
  ℕ, zero, suc, ◌+◌, ◌-◌, ◌*◌, ◌/◌, ◌%◌, ◌^◌, ◌≤◌, ◌<◌, min, max, ◌≡◌, refl, ◌∙◌, ap, arith,
}

-- The fuel of the digit recursion does not matter once it is enough.
digits-eq :
    (z : ℕ → ℕ) (f : ℕ → ℕ → ℕ) (k n a b : ℕ) → a ≤ k → a ≤ n → digits z f k a b ≡ digits z f n a b
digits-eq z f zero zero zero b h h' = refl
digits-eq z f zero (suc n) zero b h h' = refl
digits-eq z f (suc k) zero zero b h h' = refl
digits-eq z f (suc k) (suc n) zero b h h' = refl
digits-eq z f zero n (suc a) b h h' = absurd (omega arith)
digits-eq z f (suc k) zero (suc a) b h h' = absurd (omega arith)
digits-eq z f (suc k) (suc n) (suc a) b h h' =
    rw (digits-eq z f k n (suc a / 2) (b / 2) (omega arith) (omega arith))

bitwise_digit :
    (z : ℕ → ℕ) (f : ℕ → ℕ → ℕ) (a b : ℕ)
    → bitwise z f (suc a) b ≡ bitwise z f (suc a / 2) (b / 2) * 2 + f (suc a % 2) (b % 2)
bitwise_digit z f a b =
    omega (arith, digits-eq z f a (suc a / 2) (suc a / 2) (b / 2) (omega arith) (omega arith))

pub bit_and_digit : (a b : ℕ) → bit_and a b ≡ bit_and (a / 2) (b / 2) * 2 + min (a % 2) (b % 2)
bit_and_digit zero b = omega (arith, bit_and-bitwise 0 b, bit_and-bitwise 0 (b / 2))
bit_and_digit (suc a) b =
    rw (bit_and-bitwise (suc a) b, bit_and-bitwise (suc a / 2) (b / 2))
      (bitwise_digit (λ y. 0) min a b)

pub bit_or_digit : (a b : ℕ) → bit_or a b ≡ bit_or (a / 2) (b / 2) * 2 + max (a % 2) (b % 2)
bit_or_digit zero b = omega (arith, bit_or-bitwise 0 b, bit_or-bitwise 0 (b / 2))
bit_or_digit (suc a) b =
    rw (bit_or-bitwise (suc a) b, bit_or-bitwise (suc a / 2) (b / 2))
      (bitwise_digit (λ y. y) max a b)

bit_and-zero : (n a : ℕ) → a ≤ n → bit_and a 0 ≡ 0
bit_and-zero n zero h = omega (arith, bit_and-bitwise 0 0)
bit_and-zero zero (suc a) h = absurd (omega arith)
bit_and-zero (suc n) (suc a) h =
    omega (arith, bit_and_digit (suc a) 0, bit_and-zero n (suc a / 2) (omega arith))

-- A remainder by its quotient.
pub mod_of_parts : (q d r : ℕ) → r < d → (q * d + r) % d ≡ r
mod_of_parts q d r h = mul-add-mod_self_right q d r ∙ mod-eq_of_lt h

pub pow_pos : (k : ℕ) → 1 ≤ 2 ^ k
pow_pos k = one-le-pow k 2 (omega arith)

pub pow_twice : (k : ℕ) → 2 ^ suc k ≡ 2 * 2 ^ k
pow_twice k = omega (arith, pow-suc 2 k)

mod_digit : (a m : ℕ) → 0 < m → a % (2 * m) ≡ (a / 2 % m) * 2 + a % 2
mod_digit a m h =
    ap (λ x. x % (2 * m)) split
    ∙ mod_of_parts (a / 2 / m) (2 * m) ((a / 2 % m) * 2 + a % 2) (omega (arith, mod-lt (a / 2) h))
  where
    split : a ≡ a / 2 / m * (2 * m) + ((a / 2 % m) * 2 + a % 2)
    split = omega (arith, div-add-mod' (a / 2) m)

-- `a & (2 ^ k - 1)` is the remainder by `2 ^ k`.
pub bit_and_mask : (k a : ℕ) → bit_and a (2 ^ k - 1) ≡ a % 2 ^ k
bit_and_mask zero a = omega (arith, bit_and-zero a a (omega arith))
bit_and_mask (suc k) a = omega (
  arith,
  bit_and_digit a (2 ^ suc k - 1),
  ap (bit_and (a / 2)) half,
  bit_and_mask k (a / 2),
  mod_digit a (2 ^ k) (pow_pos k),
  ap (λ m. a % m) (pow_twice k),
  pow_twice k,
  pow_pos k,
)
  where
    half : (2 ^ suc k - 1) / 2 ≡ 2 ^ k - 1
    half = omega (arith, pow_twice k, pow_pos k)
