-- ===== src/Strutil/Buffer.antt =====
-- What `lim_strcat` leaves in the buffer: as much of the text as fits, and the count of all of it.

use fb_adb.Prelude.{
  ℕ, ◌+◌, ◌^◌, ◌≤◌, ◌<◌, ◌≡◌, refl, ap, ap₂, ◌∙◌, arith, [], ◌∷◌, ◌++◌, append-nil, append_assoc,
  Bytes, length, drop, set, length-append,
}
use fb_adb.Strutil.{Lim, lim_outc, lim_strcat}

pub lim_strcat-append :
    (bufsz : ℕ) (s t : Bytes) (l : Lim)
    → lim_strcat bufsz (s ++ t) l ≡ lim_strcat bufsz t (lim_strcat bufsz s l)
unfolding lim_strcat
lim_strcat-append bufsz [] t l = refl
lim_strcat-append bufsz (c ∷ s) t l = lim_strcat-append bufsz s t (lim_outc bufsz c l)

-- From the end of the buffer on, bytes are counted and not stored.
pub lim_strcat_past :
    (bufsz : ℕ) (s : Bytes) (l : Lim)
    → bufsz ≤ l.pos
    → l.pos + length s < 2 ^ 64
    → lim_strcat bufsz s l ≡ record l { pos = l.pos + length s }
unfolding lim_strcat lim_outc
lim_strcat_past bufsz [] l h w = ground arith
lim_strcat_past bufsz (c ∷ s) l h w = ground (arith, lim_strcat_past bufsz s (lim_outc bufsz c l))

set-append : (a f : Bytes) (y c : ℕ) → set (a ++ y ∷ f) (length a) c ≡ (a ++ c ∷ []) ++ f
set-append [] f y c = refl
set-append (x ∷ a) f y c = ap (◌∷◌ x) (set-append a f y c)

outc_within :
    (bufsz c y : ℕ) (a f : Bytes)
    → length a < bufsz
    → length a + 1 < 2 ^ 64
    → lim_outc bufsz c (record { pos = length a; buf = a ++ y ∷ f })
      ≡ record { pos = length (a ++ c ∷ []); buf = (a ++ c ∷ []) ++ f }
unfolding lim_outc
outc_within bufsz c y a f h w = ground (arith, set-append a f y c, length-append a (c ∷ []))

-- Within the buffer, the text stands behind what was there.
pub lim_strcat_within :
    (bufsz : ℕ) (s a f : Bytes)
    → length a + length s ≤ bufsz
    → length s ≤ length f
    → length a + length s < 2 ^ 64
    → lim_strcat bufsz s (record { pos = length a; buf = a ++ f })
      ≡ record { pos = length a + length s; buf = (a ++ s) ++ drop (length s) f }
unfolding lim_strcat
lim_strcat_within bufsz [] a f h k w = ground (arith, append-nil a)
lim_strcat_within bufsz (c ∷ s) a [] h k w = absurd (omega arith)
lim_strcat_within bufsz (c ∷ s) a (y ∷ f) h k w =
    rw (outc_within bufsz c y a f (omega arith) (omega arith)) (
      lim_strcat_within bufsz s (a ++ c ∷ []) f (omega (arith, length-append a (c ∷ [])))
        (omega arith) (omega (arith, length-append a (c ∷ [])))
      ∙ ap₂ (λ n b. record { pos = n; buf = b ++ drop (length s) f })
          (omega (arith, length-append a (c ∷ []))) (append_assoc a (c ∷ []) s))
