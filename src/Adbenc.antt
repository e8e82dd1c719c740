-- ===== src/Adbenc.antt =====
-- adbenc.c: the byte code that keeps `~` off an adb pty. A pair of pointers `enc`, `encend` is the
-- room left; what the loop stores through them is the list `out`. `in`, `inend` are a list.
pub mod Stream
pub mod Decode
pub mod RoundTrip
pub mod WriteAll
mod Tests
use mathlib.Core.Option
use fb_adb.Prelude.{
  ℕ, zero, suc, ◌+◌, ◌-◌, Bool, true, false, Option, none, some, [], ◌∷◌, ◌++◌, Bytes, length, ◌==◌,
  ltb, if◌then◌else◌,
}

abbrev pub adb_forbidden : ℕ
adb_forbidden = b'~'

abbrev pub adb_escape1 : ℕ
adb_escape1 = b'!'

abbrev pub adb_escape2 : ℕ
adb_escape2 = b'@'

-- The values that the `uint8_t` state takes: it starts at 0, and only these functions write it.
pub data AdbState : Type 0 where
  state0 state1 state2 : AdbState

-- What `*inout_state`, the output and `*inout_in` are when a call returns.
pub record Coded : Type 0 where
  pub state : AdbState
  pub out : Bytes
  pub rest : Bytes

-- One round of the loop of `adb_encode`: the byte stored, the next state, and whether `in` moves.
pub encode_byte : AdbState → ℕ → ℕ × AdbState × Bool
encode_byte state0 c =
    if c == adb_escape1
    then (adb_escape1, state1, false)
    else if c == adb_forbidden
    then (adb_escape1, state2, false)
    else (c, state0, true)
encode_byte state1 c = (adb_escape1, state0, true)
encode_byte state2 c = (adb_escape2, state0, true)

-- `adb_encode`, by recursion on the room left.
pub adb_encode : ℕ → AdbState → Bytes → Coded
adb_encode zero s input = record { state = s; out = []; rest = input }
adb_encode (suc room) s [] = record { state = s; out = []; rest = [] }
adb_encode (suc room) s (c ∷ input) =
    let (b, s', moves) = encode_byte s c in
    let r = adb_encode room s' (if moves then input else c ∷ input) in record r { out = b ∷ r.out }

-- One round of the loop of `adb_decode`: what is stored, and the next state.
pub decode_byte : AdbState → ℕ → Bytes × AdbState
decode_byte state0 c = if c == adb_escape1 then ([], state1) else (c ∷ [], state0)
decode_byte state1 c = (if c == adb_escape1 then adb_escape1 ∷ [] else adb_forbidden ∷ [], state0)
decode_byte state2 c = ([], state2)

-- `adb_decode`, by recursion on the input, since a round may store nothing.
pub adb_decode : ℕ → AdbState → Bytes → Coded
adb_decode room s [] = record { state = s; out = []; rest = [] }
adb_decode zero s (c ∷ input) = record { state = s; out = []; rest = c ∷ input }
adb_decode (suc room) s (c ∷ input) =
    let (stored, s') = decode_byte s c in
    let r = adb_decode (suc room - length stored) s' input in record r { out = stored ++ r.out }

-- `sizeof (encbuf)` of `write_all_adb_encoded` and `read_all_adb_encoded`.
abbrev pub encbuf_size : ℕ
encbuf_size = 4096

-- The loop of `write_all_adb_encoded`: what it hands to `write_all`, which returns when all is
-- written. `none` is the end of the fuel.
pub write_rounds : ℕ → ℕ → ℕ → AdbState → Bytes → Option Bytes
write_rounds zero sz nr_written s input = none
write_rounds (suc fuel) sz nr_written s input =
    let e = adb_encode encbuf_size s input in
    let later = write_rounds fuel sz (nr_written + length e.out) e.state e.rest in
    if ltb nr_written sz then Option.map (λ sent. e.out ++ sent) later else some []

-- `write_all_adb_encoded`. Each round writes something, so `sz` rounds do.
pub write_all_adb_encoded : Bytes → Option Bytes
write_all_adb_encoded buf = write_rounds (suc (length buf)) (length buf) 0 state0 buf
