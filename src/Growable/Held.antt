-- ===== src/Growable/Held.antt =====
-- util.c: a buffer that holds a text in its first bytes, and how it makes room.
use fb_adb.Prelude.{
  ℕ, zero, suc, ◌+◌, ◌-◌, ◌*◌, ◌^◌, ◌≤◌, ◌<◌, ◌≡◌, refl, ap, sym, ◌∙◌, arith, Bool, true, false,
  inl, inr, Bool-cases, [], ◌∷◌, ◌++◌, Bytes, length, length-append, length-set, length-replicate,
  length-take, take, take_all, take-take, take-append_left, take-append_length, set, replicate, ltb,
  ◌==◌, if◌then◌else◌,
}
use fb_adb.Outcome.{ok}
use fb_adb.Util.{size_mod, satadd}
use fb_adb.Growable.{GrowableBuffer, empty_buffer, resize_buffer, grow_buffer_dwim}

-- The buffer's first bytes are the text.
pub record Holds (gb : GrowableBuffer) (text : Bytes) : Type 0 where
  pub storage : length gb.buf ≡ gb.bufsz
  pub fits : length text ≤ gb.bufsz
  pub front : take (length text) gb.buf ≡ text

pub take-set :
    (buf : Bytes) (n c : ℕ) → n < length buf → take (suc n) (set buf n c) ≡ take n buf ++ c ∷ []
take-set [] n c h = absurd (omega arith)
take-set (x ∷ buf) zero c h = refl
take-set (x ∷ buf) (suc n) c h = ap (λ w. x ∷ w) (take-set buf n c (omega arith))

pub Holds-set :
    {gb : GrowableBuffer} {text : Bytes} (c : ℕ)
    → Holds gb text
    → length text < gb.bufsz
    → Holds (record gb { buf = set gb.buf (length text) c }) (text ++ c ∷ [])
Holds-set {gb} {text} c h room =
    let size : length (text ++ c ∷ []) ≡ suc (length text) =
      omega (arith, length-append text (c ∷ [])) in
    record {
      storage = length-set gb.buf (length text) c ∙ h.storage;
      fits = omega (arith, size);
      front = rw size (
          take-set gb.buf (length text) c (omega (arith, h.storage))
          ∙ ap (λ w. w ++ c ∷ []) h.front);
    }

set_last :
    (buf line : Bytes) (c : ℕ)
    → length buf ≡ length line + 1
    → take (length line) buf ≡ line
    → set buf (length line) c ≡ line ++ c ∷ []
set_last buf line c h front =
    sym (
      take_all (suc (length line)) (set buf (length line) c)
        (omega (arith, length-set buf (length line) c)))
    ∙ take-set buf (length line) c (omega arith)
    ∙ ap (λ w. w ++ c ∷ []) front

pub length-resized :
    (buf : Bytes) (n fresh : ℕ) → length (take n buf ++ replicate (n - length buf) fresh) ≡ n
length-resized buf n fresh = omega (
  arith,
  length-append (take n buf) (replicate (n - length buf) fresh),
  length-take n buf,
  length-replicate (n - length buf) fresh,
)

-- What a buffer cut to its text and one byte more holds when that byte is set.
pub close_lem :
    (gb : GrowableBuffer) (text : Bytes) (c fresh : ℕ)
    → Holds gb text
    → set
        (take (length text + 1) gb.buf ++ replicate (length text + 1 - length gb.buf) fresh)
        (length text)
        c
      ≡ text ++ c ∷ []
close_lem gb text c fresh held =
    let n = length text in
    let extra = replicate (n + 1 - length gb.buf) fresh in
    let grown = take (n + 1) gb.buf ++ extra in
    let front : take n grown ≡ text =
      take-append_left n (take (n + 1) gb.buf) extra
        (omega (arith, length-take (n + 1) gb.buf, held.fits, held.storage))
      ∙ take-take n (n + 1) gb.buf (omega arith)
      ∙ held.front in
    set_last grown text c (length-resized gb.buf (n + 1) fresh) front

module _ (realloc : ℕ → Bool) (fresh : ℕ) (memory : (sz : ℕ) → realloc sz ≡ true) where
  pub resize_lem :
      (gb : GrowableBuffer) (n : ℕ)
      → resize_buffer realloc fresh gb n
        ≡ ok (record { bufsz = n; buf = take n gb.buf ++ replicate (n - length gb.buf) fresh })
  unfolding resize_buffer
  resize_lem gb n = rw (memory (if n == 0 then 1 else n)) refl

  dwim_lem :
      (gb : GrowableBuffer)
      → gb.bufsz ≤ 2 ^ 62
      → (n : ℕ) × (grow_buffer_dwim realloc fresh gb
          ≡ ok (record { bufsz = n; buf = take n gb.buf ++ replicate (n - length gb.buf) fresh }))
        × (gb.bufsz < n)
  unfolding grow_buffer_dwim satadd
  dwim_lem gb h =
      let bufsz = if gb.bufsz == 0 then 128 else gb.bufsz in
      let enlargement = if ltb (1024 * 1024) bufsz then 1024 * 1024 else bufsz in
      let small : ltb (size_mod - 1 - bufsz) enlargement ≡ false = ground arith in
      (bufsz + enlargement, rw small (resize_lem gb (bufsz + enlargement)), ground arith)

  -- The step that makes room for one more byte.
  pub room_lem :
      (gb : GrowableBuffer) (text : Bytes)
      → Holds gb text
      → length text ≤ 2 ^ 60
      → (gb' : GrowableBuffer) × ((if length text == gb.bufsz
            then grow_buffer_dwim realloc fresh gb
            else ok gb)
          ≡ ok gb')
        × Holds gb' text
        × (ltb (length text) gb'.bufsz ≡ true)
  room_lem gb text h small = elim (Bool-cases (length text == gb.bufsz)) [
    | inr e ↦ (gb, rw e refl, h, ground (arith, h.fits))
    | inl e ↦
        let full : length text ≡ gb.bufsz = ground arith in
        let (n, done, more) = dwim_lem gb (omega arith) in
        let front : take n gb.buf ≡ gb.buf = take_all n gb.buf (omega (arith, h.storage)) in
        (
          record { bufsz = n; buf = take n gb.buf ++ replicate (n - length gb.buf) fresh },
          rw e done,
          record {
            storage = length-resized gb.buf n fresh;
            fits = omega arith;
            front = rw front (
                take-append_left (length text) gb.buf (replicate (n - length gb.buf) fresh)
                  (omega (arith, h.storage))
                ∙ h.front);
          },
          ground arith,
        )
  ]

-- A text that begins the one that is held.
pub Holds-front : {gb : GrowableBuffer} (t tail : Bytes) → Holds gb (t ++ tail) → Holds gb t
Holds-front {gb} t tail h = record {
  storage = h.storage;
  fits = omega (arith, h.fits, length-append t tail);
  front =
      sym (take-take (length t) (length (t ++ tail)) gb.buf (omega (arith, length-append t tail)))
      ∙ ap (take (length t)) h.front
      ∙ take-append_length t tail;
}

pub empty-Holds : Holds empty_buffer []
empty-Holds = record { storage = refl; fits = omega arith; front = refl }
