-- ===== src/Adbenc/Decode.antt =====
-- adbenc.c: decoding in parts.
use fb_adb.Prelude.{
  ℕ, zero, suc, ◌-◌, ◌≤◌, ◌≡◌, refl, ap, sym, ◌∙◌, arith, [], ◌∷◌, ◌++◌, append_assoc, Bytes,
  length, length-append,
}
use fb_adb.Adbenc.{AdbState, state0, state1, state2, decode_byte, adb_decode}

pub decode_nil : (room : ℕ) (st : AdbState) → (adb_decode room st []).out ≡ []
unfolding adb_decode
decode_nil room st = refl

few_stored : (st : AdbState) (c : ℕ) → length ((decode_byte st c).0) ≤ 1
unfolding decode_byte
few_stored state0 c = ground arith
few_stored state1 c = ground arith
few_stored state2 c = omega arith

pub length-decode :
    (a : Bytes) (room : ℕ) (st : AdbState) → length ((adb_decode room st a).out) ≤ length a
unfolding adb_decode
length-decode [] room st = omega arith
length-decode (c ∷ a) zero st = omega arith
length-decode (c ∷ a) (suc room) st =
    let stored = (decode_byte st c).0 in
    omega (
      arith,
      few_stored st c,
      length-decode a (suc room - length stored) ((decode_byte st c).1),
      length-append stored ((adb_decode (suc room - length stored) ((decode_byte st c).1) a).out),
    )

-- Decoding in two parts is decoding the whole, when there is room for the first.
pub decode-append :
    (a b : Bytes) (room : ℕ) (st : AdbState)
    → length a ≤ room
    → (adb_decode room st (a ++ b)).out
      ≡ (adb_decode room st a).out
        ++ (adb_decode
            (room - length ((adb_decode room st a).out))
            ((adb_decode room st a).state)
            b).out
unfolding adb_decode
decode-append [] b room st h = ap (λ k. (adb_decode k st b).out) (omega arith)
decode-append (c ∷ a) b zero st h = absurd (omega arith)
decode-append (c ∷ a) b (suc room) st h =
    let stored = (decode_byte st c).0 in
    let st' = (decode_byte st c).1 in
    let later = adb_decode (suc room - length stored) st' a in
    let left : suc room - length stored - length later.out
        ≡ suc room - length (stored ++ later.out) =
      omega (arith, length-append stored later.out) in
    ap (λ w. stored ++ w)
      (decode-append a b (suc room - length stored) st' (omega (arith, few_stored st c)))
    ∙ sym (
        append_assoc stored later.out
          ((adb_decode (suc room - length stored - length later.out) later.state b).out))
    ∙ ap (λ k. (stored ++ later.out) ++ (adb_decode k later.state b).out) left
