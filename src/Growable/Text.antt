-- ===== src/Growable/Text.antt =====
-- util.c: the calls on strings, against what they do to a text.
use fb_adb.Prelude.{
  ℕ, zero, suc, ◌+◌, ◌^◌, ◌≤◌, ◌<◌, ◌≡◌, refl, ap, sym, ◌∙◌, arith, Bool, true, false, ◌⊎◌, inl,
  inr, Bool-cases, [], ◌∷◌, ◌++◌, append-nil, append_assoc, Bytes, codes, length, length-append,
  length-take, take, set, get_or, leb, All,
}
use fb_adb.Outcome.{Outcome, ok, ◌>>=◌}
use fb_adb.Growable.{
  GrowableBuffer, GrowableString, empty_buffer, in_set, trim_end, growable_string_append_c,
  growable_string_c_str, growable_string_trim_trailing_whitespace,
}
use fb_adb.Growable.Held.{Holds, empty-Holds, Holds-front, Holds-set, room_lem}

-- What is left of a text without the bytes of a set at its end.
pub record Trimmed (cs s t : Bytes) : Type 0 where
  pub tail : Bytes
  pub whole : s ≡ t ++ tail
  pub junk : All (λ c. in_set cs c ≡ true) tail
  pub kept : (t ≡ []) ⊎ ((t' : Bytes) × (c : ℕ) × (t ≡ t' ++ c ∷ []) × (in_set cs c ≡ false))

take-get :
    (buf : Bytes) (n : ℕ) → n < length buf → take (suc n) buf ≡ take n buf ++ get_or buf n 0 ∷ []
take-get [] n h = absurd (omega arith)
take-get (x ∷ buf) zero h = refl
take-get (x ∷ buf) (suc n) h = ap (λ w. x ∷ w) (take-get buf n (omega arith))

All-snoc : (P : ℕ → Type 0) (xs : Bytes) (c : ℕ) → All P xs → P c → All P (xs ++ c ∷ [])
All-snoc P [] c all one = (one, tt)
All-snoc P (x ∷ xs) c all one = (all.0, All-snoc P xs c all.1 one)

pub trim_end-Trimmed :
    (cs buf : Bytes) (n : ℕ)
    → n ≤ length buf
    → Trimmed cs (take n buf) (take (trim_end cs buf n) buf)
unfolding trim_end
trim_end-Trimmed cs buf zero h = record { tail = []; whole = refl; junk = tt; kept = inl refl }
trim_end-Trimmed cs buf (suc n) h =
    let c = get_or buf n 0 in
    let parts = take-get buf n (omega arith) in
    elim (Bool-cases (in_set cs c)) [
      | inl e ↦
          let t = trim_end-Trimmed cs buf n (omega arith) in
          rw e (record {
            tail = t.tail ++ c ∷ [];
            whole =
                parts
                ∙ ap (λ w. w ++ c ∷ []) t.whole
                ∙ append_assoc (take (trim_end cs buf n) buf) t.tail (c ∷ []);
            junk = All-snoc (λ x. in_set cs x ≡ true) t.tail c t.junk e;
            kept = t.kept;
          })
      | inr e ↦ rw e (record {
        tail = [];
        whole = sym (append-nil (take (suc n) buf));
        junk = tt;
        kept = inr (take n buf, c, parts, e);
      })
    ]

pub trim_end_le : (cs buf : Bytes) (n : ℕ) → trim_end cs buf n ≤ n
unfolding trim_end
trim_end_le cs buf zero = omega arith
trim_end_le cs buf (suc n) = ground (arith, trim_end_le cs buf n)

-- Appends each byte of a text.
abbrev pub append_all : (ℕ → Bool) → ℕ → GrowableString → Bytes → Outcome GrowableString
append_all realloc fresh gs [] = ok gs
append_all realloc fresh gs (c ∷ s) =
    growable_string_append_c realloc fresh gs c >>= λ gs'. append_all realloc fresh gs' s

abbrev pub empty_string : GrowableString
empty_string = record { strlen = 0; gb = empty_buffer }

module _ (realloc : ℕ → Bool) (fresh : ℕ) (memory : (sz : ℕ) → realloc sz ≡ true) where
  append_lem :
      (gb : GrowableBuffer) (text : Bytes) (c : ℕ)
      → Holds gb text
      → length text ≤ 2 ^ 60
      → (gb' : GrowableBuffer) × (growable_string_append_c realloc fresh
            (record { strlen = length text; gb = gb })
            c
          ≡ ok (record { strlen = length (text ++ c ∷ []); gb = gb' }))
        × Holds gb' (text ++ c ∷ [])
  unfolding growable_string_append_c
  append_lem gb text c h small =
      let (gb', made, h', room) = room_lem realloc fresh memory gb text h small in
      let fits : leb (length text) gb.bufsz ≡ true = ground (arith, h.fits) in
      let size : length (text ++ c ∷ []) ≡ length text + 1 =
        omega (arith, length-append text (c ∷ [])) in
      (
        record gb' { buf = set gb'.buf (length text) c },
        rw (fits, made, room, size) refl,
        Holds-set c h' (ground arith),
      )

  append_all_lem :
      (s : Bytes) (gb : GrowableBuffer) (text : Bytes)
      → Holds gb text
      → length text + length s ≤ 2 ^ 60
      → (gb' : GrowableBuffer) × (append_all realloc fresh
            (record { strlen = length text; gb = gb })
            s
          ≡ ok (record { strlen = length (text ++ s); gb = gb' }))
        × Holds gb' (text ++ s)
  append_all_lem [] gb text h small = (gb, rw (append-nil text) refl, rw (append-nil text) h)
  append_all_lem (c ∷ s) gb text h small =
      let (gb1, one, h1) = append_lem gb text c h (omega arith) in
      let (gb2, more, h2) =
        append_all_lem s gb1 (text ++ c ∷ []) h1 (omega (arith, length-append text (c ∷ []))) in
      let whole : (text ++ c ∷ []) ++ s ≡ text ++ (c ∷ s) = append_assoc text (c ∷ []) s in
      (gb2, rw one (rw whole at more), rw whole at h2)

  c_str_lem :
      (gb : GrowableBuffer) (text : Bytes)
      → Holds gb text
      → length text ≤ 2 ^ 60
      → (gb' : GrowableBuffer) × (growable_string_c_str realloc fresh
            (record { strlen = length text; gb = gb })
          ≡ ok (record { strlen = length text; gb = gb' }))
        × Holds gb' (text ++ 0 ∷ [])
  unfolding growable_string_c_str
  c_str_lem gb text h small =
      let (gb', made, h', room) = room_lem realloc fresh memory gb text h small in
      let fits : leb (length text) gb.bufsz ≡ true = ground (arith, h.fits) in
      (
        record gb' { buf = set gb'.buf (length text) 0 },
        rw (fits, made, room) refl,
        Holds-set 0 h' (ground arith),
      )

  trim_c_str :
      (gb : GrowableBuffer) (s : Bytes)
      → Holds gb s
      → length s ≤ 2 ^ 60
      → (gs' : GrowableString) × (t : Bytes) × (growable_string_c_str realloc fresh
            (growable_string_trim_trailing_whitespace (record { strlen = length s; gb = gb }))
          ≡ ok gs')
        × Trimmed (codes " \t\r\n\u{b}") s t
        × (gs'.strlen ≡ length t)
        × Holds gs'.gb (t ++ 0 ∷ [])
  unfolding growable_string_trim_trailing_whitespace
  trim_c_str gb s h small =
      let ws = codes " \t\r\n\u{b}" in
      let n = trim_end ws gb.buf (length s) in
      let few : n ≤ length s = trim_end_le ws gb.buf (length s) in
      let t = take n gb.buf in
      let size : length t ≡ n = omega (arith, length-take n gb.buf, h.fits, h.storage) in
      let trimmed : Trimmed ws s t =
        rw h.front at (trim_end-Trimmed ws gb.buf (length s) (omega (arith, h.fits, h.storage))) in
      let short : Holds gb t = Holds-front t trimmed.tail (rw trimmed.whole at h) in
      let (gb', made, h') = c_str_lem gb t short (omega (arith, size)) in
      (
        record { strlen = length t; gb = gb' },
        t,
        ap (λ k. growable_string_c_str realloc fresh (record { strlen = k; gb = gb })) (sym size)
            ∙ made,
        trimmed,
        refl,
        h',
      )

  -- Where memory is left, appending each byte of a text of at most 2^60 bytes to an empty string,
  -- trimming it and asking for the C string returns; the buffer then begins with the text, less the
  -- white space and NULs at its end, and a NUL.
  pub append-trim :
      (s : Bytes)
      → length s ≤ 2 ^ 60
      → (gs : GrowableString) × (gs' : GrowableString) × (t : Bytes) × (append_all realloc fresh
            empty_string s
          ≡ ok gs)
        × (growable_string_c_str realloc fresh (growable_string_trim_trailing_whitespace gs)
            ≡ ok gs')
        × Trimmed (codes " \t\r\n\u{b}") s t
        × (gs'.strlen ≡ length t)
        × Holds gs'.gb (t ++ 0 ∷ [])
  append-trim s small =
      let (gb, added, h) = append_all_lem s empty_buffer [] empty-Holds (omega arith) in
      let (gs', t, made, trimmed, size, held) = trim_c_str gb s h small in
      (record { strlen = length s; gb = gb }, gs', t, added, made, trimmed, size, held)
