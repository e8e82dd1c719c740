-- ===== src/Ringbuf/Window.antt =====
-- The bytes at successive positions of a ring, and what a write just behind them does.
use native.Mathlib.Nat.{mod-add-mod, mod-eq_of_lt, mod-eq-sub-mod, add-zero, suc-add, mod-lt}
use native.Mathlib.Decide.{dec_lt}
use fb_adb.Prelude.{
  ℕ, zero, suc, ◌+◌, ◌-◌, ◌%◌, ◌≤◌, ◌<◌, ◌≡◌, ◌≢◌, refl, ap, ap₂, ◌∙◌, sym, arith, [], ◌∷◌, ◌++◌,
  append_assoc, append-nil, Bytes, length, get_or, set, length-set,
}

-- The `n` bytes from position `pos` on, going round at the end of the memory.
unfoldable pub window : Bytes → ℕ → ℕ → ℕ → Bytes
window mem cap pos zero = []
window mem cap pos (suc n) = get_or mem (pos % cap) 0 ∷ window mem cap (pos + 1) n

-- Bytes stored one by one at successive positions.
unfoldable pub store : Bytes → ℕ → ℕ → Bytes → Bytes
store mem cap pos [] = mem
store mem cap pos (b ∷ bs) = store (set mem (pos % cap) b) cap (pos + 1) bs

pub length-window : (mem : Bytes) (cap pos n : ℕ) → length (window mem cap pos n) ≡ n
unfolding window
length-window mem cap pos zero = refl
length-window mem cap pos (suc n) = ap suc (length-window mem cap (pos + 1) n)

pub length-store :
    (mem : Bytes) (cap pos : ℕ) (bs : Bytes) → length (store mem cap pos bs) ≡ length mem
unfolding store
length-store mem cap pos [] = refl
length-store mem cap pos (b ∷ bs) =
    length-store (set mem (pos % cap) b) cap (pos + 1) bs ∙ length-set mem (pos % cap) b

get_or-set_self : (xs : Bytes) (i v d : ℕ) → i < length xs → get_or (set xs i v) i d ≡ v
get_or-set_self [] i v d h = absurd (omega arith)
get_or-set_self (x ∷ xs) zero v d h = refl
get_or-set_self (x ∷ xs) (suc i) v d h = get_or-set_self xs i v d (omega arith)

get_or-set_ne : (xs : Bytes) (i j v d : ℕ) → i ≢ j → get_or (set xs i v) j d ≡ get_or xs j d
get_or-set_ne [] i j v d h = refl
get_or-set_ne (x ∷ xs) zero zero v d h = absurd (h refl)
get_or-set_ne (x ∷ xs) zero (suc j) v d h = refl
get_or-set_ne (x ∷ xs) (suc i) zero v d h = refl
get_or-set_ne (x ∷ xs) (suc i) (suc j) v d h = get_or-set_ne xs i j v d (λ e. h (ap suc e))

-- Less than once round the ring, no position comes again.
pub mod_apart : (cap x d : ℕ) → 0 < d → d < cap → (x + d) % cap ≢ x % cap
mod_apart cap x d pos small e = elim (dec_lt (x % cap + d) cap) [
  | yes p ↦ omega (arith, mod-add-mod x cap d, mod-eq_of_lt p)
  | no p ↦ omega (
    arith,
    mod-add-mod x cap d,
    mod-lt x {m = cap} (omega arith),
    mod-eq-sub-mod {n = x % cap + d} {m = cap} (omega arith),
    mod-eq_of_lt {n = x % cap + d - cap} {m = cap}
        (omega (arith, mod-lt x {m = cap} (omega arith))),
  )
]

-- A write `n` places on leaves the window of `n` bytes alone.
window-set :
    (mem : Bytes) (cap pos n b : ℕ)
    → n < cap
    → window (set mem ((pos + n) % cap) b) cap pos n ≡ window mem cap pos n
unfolding window
window-set mem cap pos zero b h = refl
window-set mem cap pos (suc n) b h =
    ap₂ ◌∷◌
      (get_or-set_ne mem ((pos + suc n) % cap) (pos % cap) b 0
        (mod_apart cap pos (suc n) (omega arith) h))
      (ap (λ p. window (set mem (p % cap) b) cap (pos + 1) n) (omega arith)
        ∙ window-set mem cap (pos + 1) n b (omega arith))

window-concat :
    (mem : Bytes) (cap pos n : ℕ)
    → window mem cap pos (suc n) ≡ window mem cap pos n ++ get_or mem ((pos + n) % cap) 0 ∷ []
unfolding window
window-concat mem cap pos zero = rw add-zero
window-concat mem cap pos (suc n) = ap (◌∷◌ (get_or mem (pos % cap) 0)) (
    window-concat mem cap (pos + 1) n
    ∙ ap (λ p. window mem cap (pos + 1) n ++ get_or mem (p % cap) 0 ∷ []) (omega arith))

-- Bytes stored behind a window extend it by exactly those bytes.
pub window-store :
    (mem : Bytes) (cap pos n : ℕ) (bs : Bytes)
    → length mem ≡ cap
    → n + length bs ≤ cap
    → window (store mem cap (pos + n) bs) cap pos (n + length bs) ≡ window mem cap pos n ++ bs
unfolding store
window-store mem cap pos n [] l h = rw (add-zero, append-nil)
window-store mem cap pos n (b ∷ bs) l h =
    let mem' = set mem ((pos + n) % cap) b in
    ap₂ (λ p m. window (store mem' cap p bs) cap pos m) (omega arith) (omega arith)
    ∙ window-store mem' cap pos (suc n) bs (length-set mem ((pos + n) % cap) b ∙ l) (omega arith)
    ∙ ap (λ w. w ++ bs)
        (window-concat mem' cap pos n
          ∙ ap₂ (λ w x. w ++ x ∷ []) (window-set mem cap pos n b (omega arith))
              (get_or-set_self mem ((pos + n) % cap) b 0
                (omega (arith, mod-lt (pos + n) {m = cap} (omega arith)))))
    ∙ append_assoc (window mem cap pos n) (b ∷ []) bs

pub window-append :
    (mem : Bytes) (cap pos m n : ℕ)
    → window mem cap pos (m + n) ≡ window mem cap pos m ++ window mem cap (pos + m) n
unfolding window
window-append mem cap pos zero n = ap₂ (λ p k. window mem cap p k) (omega arith) (omega arith)
window-append mem cap pos (suc m) n = rw suc-add (
    ap (◌∷◌ (get_or mem (pos % cap) 0)) (
      window-append mem cap (pos + 1) m n
      ∙ ap (λ p. window mem cap (pos + 1) m ++ window mem cap p n) (omega arith)))

pub store-append :
    (mem : Bytes) (cap pos : ℕ) (xs ys : Bytes)
    → store mem cap pos (xs ++ ys) ≡ store (store mem cap pos xs) cap (pos + length xs) ys
unfolding store
store-append mem cap pos [] ys = rw add-zero
store-append mem cap pos (x ∷ xs) ys =
    store-append (set mem (pos % cap) x) cap (pos + 1) xs ys
    ∙ ap (λ p. store (store (set mem (pos % cap) x) cap (pos + 1) xs) cap p ys) (omega arith)

-- Only the remainder of the position counts.
pub window_mod :
    (mem : Bytes) (cap p q n : ℕ) → p % cap ≡ q % cap → window mem cap p n ≡ window mem cap q n
unfolding window
window_mod mem cap p q zero e = refl
window_mod mem cap p q (suc n) e =
    ap₂ (λ i w. get_or mem i 0 ∷ w) e
      (window_mod mem cap (p + 1) (q + 1) n
        (sym (mod-add-mod p cap 1) ∙ ap (λ i. (i + 1) % cap) e ∙ mod-add-mod q cap 1))

pub store_mod :
    (mem : Bytes) (cap p q : ℕ) (bs : Bytes)
    → p % cap ≡ q % cap
    → store mem cap p bs ≡ store mem cap q bs
unfolding store
store_mod mem cap p q [] e = refl
store_mod mem cap p q (b ∷ bs) e =
    ap (λ i. store (set mem i b) cap (p + 1) bs) e
    ∙ store_mod (set mem (q % cap) b) cap (p + 1) (q + 1) bs
        (sym (mod-add-mod p cap 1) ∙ ap (λ i. (i + 1) % cap) e ∙ mod-add-mod q cap 1)
