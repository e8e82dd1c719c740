-- ===== src/Adbenc/RoundTrip.antt =====
-- `adb_decode` undoes `adb_encode`, also where either stops in the middle of an escape.
use fb_adb.Prelude.{ℕ, zero, suc, ◌≤◌, ◌≡◌, [], ◌∷◌, ◌++◌, refl, arith, Bytes, length}
use fb_adb.Adbenc.{
  AdbState, state0, state1, state2, Coded, encode_byte, adb_encode, decode_byte, adb_decode,
}
use fb_adb.Adbenc.Stream.{Pending}

-- The state of a decoder that has read all that an encoder in state `s` has sent.
abbrev pub reading : AdbState → AdbState
reading state0 = state0
reading _ = state1

-- The decoder's room suffices, and what it has stored is what the encoder has taken.
pub record Decodes (s : AdbState) (input rest : Bytes) (d : Coded) : Type 0 where
  pub state : d.state ≡ reading s
  pub stored : d.out ++ rest ≡ input
  pub all_read : d.rest ≡ []

pub decode-encode :
    (n room : ℕ) (s : AdbState) (input : Bytes)
    → Pending s input
    → length input ≤ room
    → Decodes
        (adb_encode n s input).state
        input
        (adb_encode n s input).rest
        (adb_decode room (reading s) (adb_encode n s input).out)
unfolding adb_encode adb_decode encode_byte decode_byte
decode-encode zero room s input p h = record { state = refl; stored = refl; all_read = refl }
decode-encode (suc n) room s [] p h = record { state = refl; stored = refl; all_read = refl }
decode-encode (suc n) zero s (c ∷ input) p h = absurd (omega arith)
decode-encode (suc n) (suc room) state0 (c ∷ input) p h = ground (
  arith,
  decode-encode n room state0 input tt,
  decode-encode n (suc room) state1 (c ∷ input),
  decode-encode n (suc room) state2 (c ∷ input),
)
decode-encode (suc n) (suc room) state1 (c ∷ input) p h =
    ground (arith, decode-encode n room state0 input tt)
decode-encode (suc n) (suc room) state2 (c ∷ input) p h =
    ground (arith, decode-encode n room state0 input tt)
