-- ===== src/Adbenc/WriteAll.antt =====
-- What `write_all_adb_encoded` sends. It compares the number of encoded bytes with the size of the
-- plain input, so it stops at the first full buffer that reaches that size.
use native.Mathlib.Nat.{sub-zero}
use fb_adb.Prelude.{
  ℕ, zero, suc, ◌+◌, ◌*◌, ◌-◌, ◌/◌, ◌≤◌, ◌<◌, ◌≡◌, ◌⊎◌, ◌↔◌, inl, inr, [], ◌∷◌, some, append-nil,
  append-eq_left, refl, ap, sym, ◌∙◌, arith, Bytes, length, if◌then◌else◌, ◌==◌, ltb, ltb→lt,
  Bool-cases,
}
use fb_adb.Adbenc.{
  adb_escape1, adb_forbidden, AdbState, state0, state1, state2, Coded, encode_byte, adb_encode,
  encbuf_size, adb_decode, write_rounds, write_all_adb_encoded,
}
use fb_adb.Adbenc.RoundTrip.{decode-encode}
use fb_adb.Adbenc.Stream.{
  Pending, encode_byte-Pending, encode-Pending, encode-add, encode_nil, then_encode,
}

-- The rounds that are made when `left` bytes of the count are missing.
abbrev pub rounds : ℕ → ℕ
rounds left = (left + (encbuf_size - 1)) / encbuf_size

-- A call either fills its room or takes all of the input.
encode_fills :
    (n : ℕ) (s : AdbState) (input : Bytes)
    → (length (adb_encode n s input).out ≡ n) ⊎ ((adb_encode n s input).rest ≡ [])
unfolding adb_encode
encode_fills zero s input = inl refl
encode_fills (suc n) s [] = inr refl
encode_fills (suc n) s (c ∷ input) =
    ground
      (arith, encode_fills n (encode_byte s c).1 (if (encode_byte s c).2 then input else c ∷ input))

-- At least one byte is sent for each byte taken.
encode_grows :
    (n : ℕ) (s : AdbState) (input : Bytes)
    → Pending s input
    → length input ≤ length (adb_encode n s input).out + length (adb_encode n s input).rest
unfolding adb_encode encode_byte
encode_grows zero s input p = omega arith
encode_grows (suc n) s [] p = omega arith
encode_grows (suc n) state0 (c ∷ input) p = ground (
  arith,
  encode_grows n state0 input tt,
  encode_grows n state1 (c ∷ input),
  encode_grows n state2 (c ∷ input),
)
encode_grows (suc n) state1 (c ∷ input) p = ground (arith, encode_grows n state0 input tt)
encode_grows (suc n) state2 (c ∷ input) p = ground (arith, encode_grows n state0 input tt)

encode_join :
    (n m k : ℕ) (s : AdbState) (input : Bytes)
    → k ≡ n + m
    → (adb_encode k s input).out ≡ (then_encode m (adb_encode n s input)).out
encode_join n m k s input e = rw (e, encode-add n m s input)

encode_after_all : (m : ℕ) (e : Coded) → e.rest ≡ [] → (adb_encode m e.state e.rest).out ≡ []
encode_after_all m e h = rw (h, encode_nil m e.state)

encode_no_room : (n : ℕ) (s : AdbState) (input : Bytes) → n ≡ 0 → (adb_encode n s input).out ≡ []
unfolding adb_encode
encode_no_room zero s input e = refl
encode_no_room (suc n) s input e = absurd (omega arith)

-- Two ways to go on after a call that took all of the input are one.
then-eq : (m k : ℕ) (e : Coded) → e.rest ≡ [] → (then_encode m e).out ≡ (then_encode k e).out
then-eq m k e h = rw (encode_after_all m e h, encode_after_all k e h)

-- One round and what the later rounds send make up one encoding with room for all of them.
round_joins :
    (left m : ℕ) (s : AdbState) (input : Bytes)
    → 0 < left
    → m ≡ encbuf_size * rounds (left - length (adb_encode encbuf_size s input).out)
    → (then_encode m (adb_encode encbuf_size s input)).out
      ≡ (adb_encode (encbuf_size * rounds left) s input).out
round_joins left m s input pos e = elim (encode_fills encbuf_size s input) [
  | inl full ↦ sym (encode_join encbuf_size m (encbuf_size * rounds left) s input (omega arith))
  | inr taken ↦
      then-eq m (encbuf_size * rounds left - encbuf_size) (adb_encode encbuf_size s input) taken
      ∙ sym (
          encode_join encbuf_size (encbuf_size * rounds left - encbuf_size)
            (encbuf_size * rounds left) s input (omega arith))
]

write_rounds_lem :
    (fuel sz nr_written : ℕ) (s : AdbState) (input : Bytes)
    → Pending s input
    → sz ≤ nr_written + length input
    → sz - nr_written < fuel
    → write_rounds fuel sz nr_written s input
      ≡ some (adb_encode (encbuf_size * rounds (sz - nr_written)) s input).out
unfolding write_rounds
write_rounds_lem zero sz nr_written s input p h k = absurd (omega arith)
write_rounds_lem (suc fuel) sz nr_written s input p h k =
    let e = adb_encode encbuf_size s input in
    elim (Bool-cases (ltb nr_written sz)) [
      | inl more ↦
          let progress : 0 < length e.out =
            ground (arith, encode_fills encbuf_size s input, encode_grows encbuf_size s input p) in
          rw
            (
              more,
              write_rounds_lem fuel sz (nr_written + length e.out) e.state e.rest
                  (encode-Pending encbuf_size s input p)
                  (omega (arith, encode_grows encbuf_size s input p))
                  (omega (arith, ltb→lt nr_written sz more)),
            )
            (ap some (
              round_joins (sz - nr_written)
                (encbuf_size * rounds (sz - (nr_written + length e.out))) s input
                (omega (arith, ltb→lt nr_written sz more)) (omega arith)))
      | inr done ↦ rw done (ap some (sym (encode_no_room _ s input (ground arith))))
    ]

-- The bytes that are sent as two.
pub specials : Bytes → ℕ
specials [] = 0
specials (c ∷ input) =
    (if c == adb_escape1 then 1 else if c == adb_forbidden then 1 else 0) + specials input

-- The encoded bytes still to send.
abbrev cost : AdbState → Bytes → ℕ
cost state0 input = length input + specials input
cost _ input = length input + specials input - 1

cost_byte :
    (s : AdbState) (c : ℕ) (input : Bytes)
    → Pending s (c ∷ input)
    → suc (cost (encode_byte s c).1 (if (encode_byte s c).2 then input else c ∷ input))
      ≡ cost s (c ∷ input)
unfolding encode_byte specials
cost_byte state0 c input p = ground arith
cost_byte state1 c input p = ground arith
cost_byte state2 c input p = ground arith

cost_pos : (s : AdbState) (c : ℕ) (input : Bytes) → Pending s (c ∷ input) → 0 < cost s (c ∷ input)
cost_pos s c input p = omega (arith, cost_byte s c input p)

cost_nil : (s : AdbState) → cost s [] ≤ 0
unfolding specials
cost_nil state0 = omega arith
cost_nil state1 = omega arith
cost_nil state2 = omega arith

-- A call takes all of its input exactly when it has room for what is to be sent.
pub encode_takes_all :
    (n : ℕ) (s : AdbState) (input : Bytes)
    → Pending s input
    → ((adb_encode n s input).rest ≡ []) ↔ (cost s input ≤ n)
unfolding adb_encode
encode_takes_all zero s [] p = (λ e. cost_nil s, λ h. refl)
encode_takes_all zero s (c ∷ input) p = (λ e. cc, λ h. absurd (omega (arith, cost_pos s c input p)))
encode_takes_all (suc n) s [] p = (λ e. omega (arith, cost_nil s), λ h. refl)
encode_takes_all (suc n) s (c ∷ input) p =
    let ih =
      encode_takes_all n (encode_byte s c).1 (if (encode_byte s c).2 then input else c ∷ input)
        (encode_byte-Pending s c input p) in
    (
      λ e. omega (arith, ih.0 e, cost_byte s c input p),
      λ h. ih.1 (omega (arith, cost_byte s c input p)),
    )

-- `write_all_adb_encoded` returns, and what the peer decodes from what it sent is all of the buffer
-- exactly when the encoded buffer fits the whole `encbuf`s that cover the buffer's plain size.
pub write_all_complete_iff :
    (buf : Bytes)
    → (sent : Bytes) × (write_all_adb_encoded buf ≡ some sent)
      × (((adb_decode (length buf) state0 sent).out ≡ buf)
          ↔ (length buf + specials buf ≤ encbuf_size * rounds (length buf)))
unfolding write_all_adb_encoded
write_all_complete_iff buf =
    let room = encbuf_size * rounds (length buf) in
    let e = adb_encode room state0 buf in
    let d = decode-encode room (length buf) state0 buf tt (omega arith) in
    let iff = encode_takes_all room state0 buf tt in
    (
      e.out,
      rw sub-zero at (
          write_rounds_lem (suc (length buf)) (length buf) 0 state0 buf tt (omega arith)
            (omega arith)),
      (
        λ all. iff.0 (append-eq_left _ _ (d.stored ∙ sym all)),
        λ fits. sym (append-nil _) ∙ rw (iff.1 fits) at d.stored,
      ),
    )
