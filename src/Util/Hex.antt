-- ===== src/Util/Hex.antt =====
-- util.c: the hexadecimal text of some bytes.
use fb_adb.Prelude.{
  ℕ, suc, ◌+◌, ◌-◌, ◌*◌, ◌/◌, ◌%◌, ◌^◌, ◌<◌, ◌≡◌, refl, ap, sym, ◌∙◌, arith, Bool, true, false, not,
  ◌&&◌, ◌||◌, inl, inr, Bool-cases, Option, none, some, [], ◌∷◌, ◌++◌, append_assoc, append-nil,
  Bytes, length, length-append, length-replicate, set, replicate, ltb, leb, if◌then◌else◌, All,
}
use fb_adb.Outcome.{Outcome, ok, erange, enomem, ◌>>◌, die_if}
use fb_adb.Util.{size_mod, satadd}

-- `%x` of a number below 16.
unfoldable pub hex_digit : ℕ → ℕ
hex_digit d = if ltb d 10 then b'0' + d else b'a' + (d - 10)

-- One call of `sprintf`, which stores a NUL behind its two digits.
unfoldable pub sprintf_hex : Bytes → ℕ → ℕ → Bytes
sprintf_hex buffer at_ b =
    set (set (set buffer at_ (hex_digit (b / 16))) (at_ + 1) (hex_digit (b % 16))) (at_ + 2) 0

unfoldable pub hex_loop : Bytes → ℕ → Bytes → Bytes
hex_loop buffer i [] = buffer
hex_loop buffer i (b ∷ bytes) = hex_loop (sprintf_hex buffer (i * 2) b) (i + 1) bytes

-- What `malloc` answers by the size, and what it leaves in memory, are parameters.
unfoldable pub hex_encode_bytes : (ℕ → Bool) → ℕ → Bytes → Outcome Bytes
hex_encode_bytes malloc fresh bytes = do
  let doubled = satadd (size_mod - 1) (length bytes) (length bytes)
  let closed = satadd (size_mod - 1) doubled.1 1
  die_if (doubled.0 || closed.0) erange
  die_if (not (malloc closed.1)) enomem
  let buffer = hex_loop (replicate closed.1 fresh) 0 bytes
  ok (set buffer (closed.1 - 1) 0)

-- The value of a lower-case digit, and the bytes of a text of pairs of digits.
abbrev digit_value : ℕ → Option ℕ
digit_value c =
    if leb b'0' c && leb c b'9'
    then some (c - b'0')
    else if leb b'a' c && leb c b'f'
    then some (c - b'a' + 10)
    else none

abbrev pair_value : Option ℕ → Option ℕ → Option ℕ
pair_value (some a) (some b) = some (16 * a + b)
pair_value _ _ = none

abbrev cons_byte : Option ℕ → Option Bytes → Option Bytes
cons_byte (some b) (some bs) = some (b ∷ bs)
cons_byte _ _ = none

abbrev pub unhex : Bytes → Option Bytes
unhex [] = some []
unhex (c ∷ []) = none
unhex (c ∷ d ∷ cs) = cons_byte (pair_value (digit_value c) (digit_value d)) (unhex cs)

abbrev hex_text : Bytes → Bytes
hex_text [] = []
hex_text (b ∷ bs) = hex_digit (b / 16) ∷ hex_digit (b % 16) ∷ hex_text bs

digit_value-hex_digit : (d : ℕ) → d < 16 → digit_value (hex_digit d) ≡ some d
unfolding hex_digit
digit_value-hex_digit d h = elim (Bool-cases (ltb d 10)) [
  | inl e ↦ rw e (ground arith)
  | inr e ↦ rw e (ground arith)
]

unhex-hex_text : (bs : Bytes) → All (λ b. b < 256) bs → unhex (hex_text bs) ≡ some bs
unhex-hex_text [] h = refl
unhex-hex_text (b ∷ bs) h =
    let high = digit_value-hex_digit (b / 16) (omega (arith, h.0)) in
    let low = digit_value-hex_digit (b % 16) (omega arith) in
    let whole : 16 * (b / 16) + b % 16 ≡ b = omega arith in
    rw (high, low, unhex-hex_text bs h.1, whole) refl

set-append : (xs ys : Bytes) (k v : ℕ) → set (xs ++ ys) (length xs + k) v ≡ xs ++ set ys k v
set-append [] ys k v = ap (λ n. set ys n v) (omega arith)
set-append (x ∷ xs) ys k v =
    let same : suc (length xs) + k ≡ suc (length xs + k) = omega arith in
    rw (same, set-append xs ys k v) refl

sprintf_lem :
    (before rs : Bytes) (r0 r1 r2 n b : ℕ)
    → length before ≡ n
    → sprintf_hex (before ++ r0 ∷ r1 ∷ r2 ∷ rs) n b
      ≡ before ++ hex_digit (b / 16) ∷ hex_digit (b % 16) ∷ 0 ∷ rs
unfolding sprintf_hex
sprintf_lem before rs r0 r1 r2 n b h =
    let high = hex_digit (b / 16) in
    let low = hex_digit (b % 16) in
    let here : n ≡ length before + 0 = omega arith in
    let one : set (before ++ r0 ∷ r1 ∷ r2 ∷ rs) n high ≡ before ++ high ∷ r1 ∷ r2 ∷ rs =
      ap (λ k. set (before ++ r0 ∷ r1 ∷ r2 ∷ rs) k high) here
      ∙ set-append before (r0 ∷ r1 ∷ r2 ∷ rs) 0 high in
    let two : set (before ++ high ∷ r1 ∷ r2 ∷ rs) (n + 1) low ≡ before ++ high ∷ low ∷ r2 ∷ rs =
      ap (λ k. set (before ++ high ∷ r1 ∷ r2 ∷ rs) (k + 1) low) (sym h)
      ∙ set-append before (high ∷ r1 ∷ r2 ∷ rs) 1 low in
    let three : set (before ++ high ∷ low ∷ r2 ∷ rs) (n + 2) 0 ≡ before ++ high ∷ low ∷ 0 ∷ rs =
      ap (λ k. set (before ++ high ∷ low ∷ r2 ∷ rs) (k + 2) 0) (sym h)
      ∙ set-append before (high ∷ low ∷ r2 ∷ rs) 2 0 in
    ap (λ w. set (set w (n + 1) low) (n + 2) 0) one ∙ ap (λ w. set w (n + 2) 0) two ∙ three

loop_lem :
    (bytes before rest : Bytes) (i : ℕ)
    → length before ≡ i * 2
    → length rest ≡ 2 * length bytes + 1
    → (last : ℕ) × (hex_loop (before ++ rest) i bytes ≡ (before ++ hex_text bytes) ++ last ∷ [])
unfolding hex_loop
loop_lem [] before [] i h size = absurd (omega arith)
loop_lem [] before (r ∷ []) i h size = (r, ap (λ w. w ++ r ∷ []) (sym (append-nil before)))
loop_lem [] before (r ∷ s ∷ rest) i h size = absurd (omega arith)
loop_lem (b ∷ bytes) before [] i h size = absurd (omega arith)
loop_lem (b ∷ bytes) before (r0 ∷ []) i h size = absurd (omega arith)
loop_lem (b ∷ bytes) before (r0 ∷ r1 ∷ []) i h size = absurd (omega arith)
loop_lem (b ∷ bytes) before (r0 ∷ r1 ∷ r2 ∷ rs) i h size =
    let high = hex_digit (b / 16) in
    let low = hex_digit (b % 16) in
    let pair = high ∷ low ∷ [] in
    let (last, more) =
      loop_lem bytes (before ++ pair) (0 ∷ rs) (i + 1) (omega (arith, length-append before pair))
        (omega arith) in
    (
      last,
      ap (λ w. hex_loop w (i + 1) bytes)
            (sprintf_lem before rs r0 r1 r2 (i * 2) b h ∙ sym (append_assoc before pair (0 ∷ rs)))
          ∙ more
          ∙ ap (λ w. w ++ last ∷ []) (append_assoc before pair (hex_text bytes)),
    )

length-hex_text : (bs : Bytes) → length (hex_text bs) ≡ 2 * length bs
length-hex_text [] = refl
length-hex_text (b ∷ bs) = omega (arith, length-hex_text bs)

-- Where memory is left, the text of fewer than 2^62 bytes is returned with a NUL behind it, and its
-- pairs of digits are read back as the bytes.
pub unhex-hex_encode_bytes :
    (malloc : ℕ → Bool) (fresh : ℕ) (bytes : Bytes)
    → ((sz : ℕ) → malloc sz ≡ true)
    → length bytes < 2 ^ 62
    → All (λ b. b < 256) bytes
    → (text : Bytes) × (hex_encode_bytes malloc fresh bytes ≡ ok (text ++ 0 ∷ []))
      × (unhex text ≡ some bytes)
unfolding hex_encode_bytes satadd
unhex-hex_encode_bytes malloc fresh bytes memory few small =
    let n = length bytes in
    let first : ltb (size_mod - 1 - n) n ≡ false = ground arith in
    let second : ltb (size_mod - 1 - (n + n)) 1 ≡ false = ground arith in
    let (last, looped) =
      loop_lem bytes [] (replicate (n + n + 1) fresh) 0 refl
        (omega (arith, length-replicate (n + n + 1) fresh)) in
    let end : n + n + 1 - 1 ≡ length (hex_text bytes) + 0 = omega (arith, length-hex_text bytes) in
    (
      hex_text bytes,
      rw (first, second, memory (n + n + 1), looped, end)
          (ap ok (set-append (hex_text bytes) (last ∷ []) 0 0)),
      unhex-hex_text bytes small,
    )
