-- ===== src/Fs/Slurp.antt =====
-- fs.c: a whole file in a buffer.
use fb_adb.Prelude.{
  ℕ, zero, suc, ◌+◌, ◌-◌, ◌^◌, ◌≤◌, ◌<◌, ◌≡◌, refl, ap, sym, ◌∙◌, arith, Bool, true, false, Option,
  none, some, inl, inr, Bool-cases, [], ◌∷◌, ◌++◌, append_assoc, Bytes, length, length-take,
  length-append, length-drop, take, drop, take-append-drop, take-append_length, take_all, drop_all,
  replicate, set, ltb, ◌==◌,
}
use fb_adb.Outcome.{ok}
use fb_adb.Ringbuf.{Readv}
use fb_adb.Growable.{GrowableBuffer, empty_buffer, resize_buffer}
use fb_adb.Growable.Held.{Holds, empty-Holds, room_lem, resize_lem, close_lem, length-resized}
use fb_adb.Fs.{done, read_all, stored, with_space, slurp_rounds, slurp_fd_buf_1, slurp_fd}
use fb_adb.Fs.Kernel.{Source}
use fb_adb.Fs.Read.{read_all_lem}

Holds-text : {gb : GrowableBuffer} {t t' : Bytes} → t ≡ t' → Holds gb t → Holds gb t'
Holds-text e h = rw e at h

Holds-stored :
    {gb : GrowableBuffer} {text : Bytes} (bs : Bytes)
    → Holds gb text
    → length text + length bs ≤ gb.bufsz
    → Holds (record gb { buf = stored gb.buf (length text) bs }) (text ++ bs)
unfolding stored
Holds-stored {gb} {text} bs h room =
    let n = length text in
    let rest = drop (n + length bs) gb.buf in
    let parts : (take n gb.buf ++ bs) ++ rest ≡ (text ++ bs) ++ rest =
      ap (λ w. (w ++ bs) ++ rest) h.front in
    let size = length-append text bs in
    record {
      storage =
          ap length parts
          ∙ omega (
            arith,
            length-append (text ++ bs) rest,
            size,
            length-drop (n + length bs) gb.buf,
            h.storage,
          );
      fits = omega (arith, size);
      front = ap (take (length (text ++ bs))) parts ∙ take-append_length (text ++ bs) rest;
    }

module _ {S : Type 0} {read : S → ℕ → Readv × S} (source : Source read) (realloc : ℕ → Bool)
    (fresh : ℕ) (memory : (sz : ℕ) → realloc sz ≡ true) where
  space_lem :
      (gb : GrowableBuffer) (text : Bytes)
      → Holds gb text
      → length text ≤ 2 ^ 60
      → (gb' : GrowableBuffer) × (with_space read realloc fresh gb (length text) ≡ ok gb')
        × Holds gb' text
        × (length text < gb'.bufsz)
  unfolding with_space
  space_lem gb text h small =
      let (gb', made, h', room) = room_lem realloc fresh memory gb text h small in
      let same : (gb.bufsz - length text == 0) ≡ (length text == gb.bufsz) =
        ground (arith, h.fits) in
      (gb', rw same made, h', ground arith)

  -- The loop stored everything that was left.
  abbrev Slurped : ℕ → ℕ → S → GrowableBuffer → Bytes → Type 0
  Slurped fuel calls s gb text =
      (s' : S) × (gb' : GrowableBuffer) × (slurp_rounds read realloc fresh fuel calls s gb
          (length text)
        ≡ done (gb', length (text ++ source.left s)) s')
      × Holds gb' (text ++ source.left s)
      × (source.left s' ≡ [])

  last_round :
      (fuel calls : ℕ) (s s' : S) (gb gb' : GrowableBuffer) (n : ℕ) (bs : Bytes)
      → with_space read realloc fresh gb n ≡ ok gb'
      → read_all read calls s (gb'.bufsz - n) ≡ done bs s'
      → ltb 0 (length bs) ≡ false
      → slurp_rounds read realloc fresh (suc fuel) calls s gb n
        ≡ done (record gb' { buf = stored gb'.buf n bs }, n + length bs) s'
  unfolding slurp_rounds
  last_round fuel calls s s' gb gb' n bs made got none_got = rw (made, got, none_got) refl

  next_round :
      (fuel calls : ℕ) (s s' : S) (gb gb' : GrowableBuffer) (n : ℕ) (bs : Bytes)
      → with_space read realloc fresh gb n ≡ ok gb'
      → read_all read calls s (gb'.bufsz - n) ≡ done bs s'
      → ltb 0 (length bs) ≡ true
      → slurp_rounds read realloc fresh (suc fuel) calls s gb n
        ≡ slurp_rounds read realloc fresh fuel calls s'
            (record gb' { buf = stored gb'.buf n bs })
            (n + length bs)
  unfolding slurp_rounds
  next_round fuel calls s s' gb gb' n bs made got some_got = rw (made, got, some_got) refl

  rounds_lem :
      (fuel calls : ℕ) (s : S) (gb : GrowableBuffer) (text : Bytes)
      → Holds gb text
      → length (source.left s) < fuel
      → source.patience s + length (source.left s) + 2 ≤ calls
      → length text + length (source.left s) ≤ 2 ^ 60
      → Slurped fuel calls s gb text
  rounds_lem zero calls s gb text h enough patient small = absurd (omega arith)
  rounds_lem (suc fuel) calls s gb text h enough patient small =
      let (gb', made, h', room) = space_lem gb text h (omega arith) in
      let space = gb'.bufsz - length text in
      let bs = take space (source.left s) in
      let (s', got, left', pat) = read_all_lem source calls s space patient in
      let size : length bs ≤ space = omega (arith, length-take space (source.left s)) in
      let held = Holds-stored bs h' (omega arith) in
      let count = length-append text bs in
      elim (Bool-cases (ltb 0 (length bs))) [
        | inr none_got ↦
            let at_end : length (source.left s) ≤ space =
              ground (arith, length-take space (source.left s)) in
            let whole : bs ≡ source.left s = take_all space (source.left s) at_end in
            (
              s',
              record gb' { buf = stored gb'.buf (length text) bs },
              last_round fuel calls s s' gb gb' (length text) bs made got none_got
                  ∙ ap (λ k. done (record gb' { buf = stored gb'.buf (length text) bs }, k) s')
                      (sym count ∙ ap (λ w. length (text ++ w)) whole),
              Holds-text (ap (λ w. text ++ w) whole) held,
              left' ∙ drop_all space (source.left s) at_end,
            )
        | inl some_got ↦
            let fewer = ap length left' in
            let shrunk = length-drop space (source.left s) in
            let bytes = length-take space (source.left s) in
            let (s2, gb2, more, held2, none_left) =
              rounds_lem fuel calls s' (record gb' { buf = stored gb'.buf (length text) bs })
                (text ++ bs) held (ground (arith, fewer, shrunk, bytes))
                (omega (arith, fewer, shrunk)) (omega (arith, fewer, shrunk, bytes, count)) in
            let whole : (text ++ bs) ++ source.left s' ≡ text ++ source.left s =
              append_assoc text bs (source.left s')
              ∙ ap (λ w. text ++ (bs ++ w)) left'
              ∙ ap (λ w. text ++ w) (take-append-drop space (source.left s)) in
            (
              s2,
              gb2,
              next_round fuel calls s s' gb gb' (length text) bs made got some_got
                  ∙ ap
                      (λ k.
                        slurp_rounds read realloc fresh fuel calls s'
                          (record gb' { buf = stored gb'.buf (length text) bs }) k)
                      (sym count)
                  ∙ more
                  ∙ ap (λ w. done (gb2, length w) s2) whole,
              Holds-text whole held2,
              none_left,
            )
      ]

  started :
      (st_size : Option ℕ)
      → (gb : GrowableBuffer) × (elim st_size [
        | none ↦ ok empty_buffer
        | some n ↦ resize_buffer realloc fresh empty_buffer (n + 1)
      ]
          ≡ ok gb)
        × Holds gb []
  started none = (empty_buffer, refl, empty-Holds)
  started (some n) =
      let buf : Bytes = take (n + 1) [] ++ replicate (n + 1 - length {A = ℕ} []) fresh in
      (
        record { bufsz = n + 1; buf = buf },
        resize_lem realloc fresh memory empty_buffer (n + 1),
        record { storage = length-resized [] (n + 1) fresh; fits = omega arith; front = refl },
      )

  finished :
      (fuel calls : ℕ) (s s' : S) (st_size : Option ℕ) (gb gb' : GrowableBuffer) (n : ℕ)
      → elim st_size [
        | none ↦ ok empty_buffer
        | some k ↦ resize_buffer realloc fresh empty_buffer (k + 1)
      ]
        ≡ ok gb
      → slurp_rounds read realloc fresh fuel calls s gb 0 ≡ done (gb', n) s'
      → slurp_fd read realloc fresh fuel calls s st_size
        ≡ done
            (
              record {
                bufsz = n + 1;
                buf = set (take (n + 1) gb'.buf ++ replicate (n + 1 - length gb'.buf) fresh) n 0;
              },
              n + 1 - 1,
            )
            s'
  unfolding slurp_fd slurp_fd_buf_1
  finished fuel calls s s' st_size gb gb' n began rounds =
      rw (began, rounds) (rw (resize_lem realloc fresh memory gb' (n + 1)) refl)

  -- Where memory is left and at most 2^60 bytes are left in the file, with fuel for each byte and each
  -- interruption: `slurp_fd` returns all of them and a NUL in a buffer of just that size, whatever size
  -- fstat gave, and the file is at its end.
  pub slurp_fd_lem :
      (fuel calls : ℕ) (s : S) (st_size : Option ℕ)
      → length (source.left s) < fuel
      → source.patience s + length (source.left s) + 2 ≤ calls
      → length (source.left s) ≤ 2 ^ 60
      → (s' : S) × (slurp_fd read realloc fresh fuel calls s st_size
          ≡ done
              (
                record { bufsz = length (source.left s) + 1; buf = source.left s ++ 0 ∷ [] },
                length (source.left s),
              )
              s')
        × (source.left s' ≡ [])
  slurp_fd_lem fuel calls s st_size enough patient small =
      let (gb, began, h) = started st_size in
      let (s', gb', rounds, held, none_left) =
        rounds_lem fuel calls s gb [] h enough patient (omega arith) in
      let n = length (source.left s) in
      let one : n + 1 - 1 ≡ n = omega arith in
      (
        s',
        finished fuel calls s s' st_size gb gb' n began rounds
            ∙ ap (λ b. done (record { bufsz = n + 1; buf = b }, n + 1 - 1) s')
                (close_lem gb' (source.left s) 0 fresh held)
            ∙ ap (λ k. done (record { bufsz = n + 1; buf = source.left s ++ 0 ∷ [] }, k) s') one,
        none_left,
      )
