-- ===== src/Util/Pow2.antt =====
-- `nextpow2sz` rounds up to a power of two, by the bits of the smeared number.
use Prim.Native.Nat.{bit_or}
use native.Mathlib.Nat.{
  div-div-eq-div-mul, div-le_self, div-eq_of_lt, div-lt_iff_lt-mul, pow-le-pow_right, add-suc,
  div-one, add-zero, div-eq_of_lt-le,
}
use native.Mathlib.Decide.{dec_lt, dec_le}
use fb_adb.Prelude.{
  ℕ, zero, suc, ◌+◌, ◌*◌, ◌/◌, ◌%◌, ◌^◌, ◌≤◌, ◌<◌, max, ◌≡◌, ◌⊎◌, refl, ap, ap₂, ◌∙◌, sym, arith,
}
use fb_adb.Prelude.Bits.{bit_or_digit, pow_twice, pow_pos}
use fb_adb.Util.{size_mod, add_size, sub_size, smear, nextpow2sz}

-- Bit `i` of `x`.
abbrev bit : ℕ → ℕ → ℕ
bit x i = x / 2 ^ i % 2

div-pow-suc : (x i : ℕ) → x / 2 ^ suc i ≡ x / 2 / 2 ^ i
div-pow-suc x i = ap (λ m. x / m) (pow_twice i) ∙ sym (div-div-eq-div-mul x 2 (2 ^ i))

bit_or_half : (a b : ℕ) → bit_or a b / 2 ≡ bit_or (a / 2) (b / 2)
bit_or_half a b = omega (arith, bit_or_digit a b)

bit_or_shift : (i a b : ℕ) → bit_or a b / 2 ^ i ≡ bit_or (a / 2 ^ i) (b / 2 ^ i)
bit_or_shift zero a b = simp div-one
bit_or_shift (suc i) a b =
    div-pow-suc (bit_or a b) i
    ∙ ap (λ x. x / 2 ^ i) (bit_or_half a b)
    ∙ bit_or_shift i (a / 2) (b / 2)
    ∙ ap₂ bit_or (sym (div-pow-suc a i)) (sym (div-pow-suc b i))

bit-bit_or : (a b i : ℕ) → bit (bit_or a b) i ≡ max (bit a i) (bit b i)
bit-bit_or a b i =
    omega (arith, ap (λ x. x % 2) (bit_or_shift i a b), bit_or_digit (a / 2 ^ i) (b / 2 ^ i))

pow-add : (i j : ℕ) → 2 ^ (i + j) ≡ 2 ^ i * 2 ^ j
pow-add i zero = rw add-zero (omega arith)
pow-add i (suc j) =
    rw add-suc (omega (arith, pow_twice (i + j), pow-add i j, ap (λ m. 2 ^ i * m) (pow_twice j)))

bit_shift : (x k i : ℕ) → bit (x / 2 ^ k) i ≡ bit x (k + i)
bit_shift x k i =
    ap (λ y. y % 2) (div-div-eq-div-mul x (2 ^ k) (2 ^ i) ∙ ap (λ m. x / m) (sym (pow-add k i)))

-- The top `t` of the `n` bits of `x` are ones, and there are no more bits.
record Top (n t x : ℕ) : Type 0 where
  ones : (i : ℕ) → n ≤ i + t → i < n → bit x i ≡ 1
  short : x / 2 ^ n ≡ 0

below : (n x : ℕ) → x / 2 ^ n ≡ 0 → x < 2 ^ n
below n x e =
    omega (arith, (div-lt_iff_lt-mul {k = 2 ^ n} {x = x} {y = 1} (pow_pos n)).0 (omega arith))

smear-Top : (n t x : ℕ) → Top n t x → Top n (t + t) (smear t x)
smear-Top n t x top = record {
  ones = λ i h k. elim (dec_le n (i + t)) [
    | yes near ↦ omega (arith, bit-bit_or x (x / 2 ^ t) i, top.ones i near k)
    | no far ↦ omega (
      arith,
      bit-bit_or x (x / 2 ^ t) i,
      bit_shift x t i,
      top.ones (t + i) (omega arith) (omega arith),
    )
  ];
  short =
      bit_or_shift n x (x / 2 ^ t)
      ∙ ap₂ bit_or top.short
          (div-eq_of_lt (omega (arith, div-le_self x (2 ^ t), below n x top.short)));
}

-- `n` ones are `2 ^ n - 1`.
all_ones : (n x : ℕ) → Top n n x → x + 1 ≡ 2 ^ n
all_ones zero x top = omega (arith, top.short)
all_ones (suc n) x top =
    let half : Top n n (x / 2) = record {
      ones = λ i h k.
          ap (λ y. y % 2) (sym (div-pow-suc x i)) ∙ top.ones (suc i) (omega arith) (omega arith);
      short = sym (div-pow-suc x n) ∙ top.short;
    } in
    omega (arith, all_ones n (x / 2) half, pow_twice n, top.ones 0 (omega arith) (omega arith))

-- The place of the highest bit.
top_bit : (f a : ℕ) → 0 < a → a < 2 ^ f → (n : ℕ) × (n < f) × (2 ^ n ≤ a) × (a < 2 ^ suc n)
top_bit zero a pos h = absurd (omega arith)
top_bit (suc f) a pos h = elim (dec_lt a (2 ^ f)) [
  | yes less ↦ let (n, small, lo, hi) = top_bit f a pos less in (n, omega arith, lo, hi)
  | no more ↦ (f, omega arith, omega arith, h)
]

Top-start : (n a : ℕ) → 2 ^ n ≤ a → a < 2 ^ suc n → Top (suc n) 1 a
Top-start n a lo hi = record {
  ones = λ i h k. ap (bit a) {x = i} {y = n} (omega arith) ∙ ap (λ q. q % 2) one;
  short = div-eq_of_lt hi;
}
  where
    one : a / 2 ^ n ≡ 1
    one = div-eq_of_lt-le {k = 1} (2 ^ n) (omega arith) (omega (arith, pow_twice n))

-- All six smears.
abbrev smeared : ℕ → ℕ
smeared a = smear 32 (smear 16 (smear 8 (smear 4 (smear 2 (smear 1 a)))))

smeared_lem : (n a : ℕ) → n ≤ 63 → 2 ^ n ≤ a → a < 2 ^ suc n → smeared a + 1 ≡ 2 ^ suc n
smeared_lem n a small lo hi = all_ones (suc n) (smeared a) full
  where
    wide : Top (suc n) 64 (smeared a)
    wide = smear-Top (suc n) 32 _ (
        smear-Top (suc n) 16 _ (
          smear-Top (suc n) 8 _ (
            smear-Top (suc n) 4 _
              (smear-Top (suc n) 2 _ (smear-Top (suc n) 1 a (Top-start n a lo hi))))))

    full : Top (suc n) (suc n) (smeared a)
    full = record { ones = λ i h k. wide.ones i (omega arith) k; short = wide.short }

-- A size from 1 to 2^63 is rounded up to the least power of two that is not smaller.
pub nextpow2sz_lem :
    (sz : ℕ)
    → 0 < sz
    → sz ≤ 2 ^ 63
    → (k : ℕ) × (nextpow2sz sz ≡ 2 ^ k) × (k ≤ 63) × (sz ≤ 2 ^ k) × (2 ^ k < 2 * sz)
unfolding nextpow2sz
nextpow2sz_lem zero pos h = absurd (omega arith)
nextpow2sz_lem (suc zero) pos h = (0, refl, omega arith, omega arith, omega arith)
nextpow2sz_lem (suc (suc sz)) pos h =
    let e : sub_size (suc (suc sz)) 1 ≡ suc sz = omega arith in
    let (n, small, lo, hi) = top_bit 63 (suc sz) (omega arith) (omega arith) in
    let bound = pow-le-pow_right {n = 2} (omega arith) {i = suc n} {j = 63} small in
    (
      suc n,
      ap (λ a. add_size 1 (smeared a)) e
          ∙ omega (arith, smeared_lem n (suc sz) (omega arith) lo hi),
      omega arith,
      omega arith,
      omega (arith, pow_twice n),
    )

smeared_wraps : (a : ℕ) → 2 ^ 63 ≤ a → a < size_mod → add_size 1 (smeared a) ≡ 0
smeared_wraps a lo hi = omega (arith, smeared_lem 63 a (omega arith) lo hi)

-- Zero, and a size that no `size_t` power of two reaches, give 0.
pub nextpow2sz-zero : (sz : ℕ) → (sz ≡ 0) ⊎ (2 ^ 63 < sz) → sz < size_mod → nextpow2sz sz ≡ 0
unfolding nextpow2sz
nextpow2sz-zero sz which h = smeared_wraps (sub_size sz 1) (omega arith) (omega arith)
