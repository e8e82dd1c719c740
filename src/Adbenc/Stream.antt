-- ===== src/Adbenc/Stream.antt =====
-- `adb_encode` in pieces: the state that it leaves makes the next call go on where it stopped.
use native.Mathlib.Nat.{suc-add}
use fb_adb.Prelude.{
  ℕ, zero, suc, ◌+◌, ◌*◌, ◌-◌, ◌≤◌, ◌<◌, ◌≡◌, ◌≢◌, [], ◌∷◌, ◌++◌, refl, ap, arith, Bytes, length,
  take, All, if◌then◌else◌,
}
use fb_adb.Adbenc.{
  adb_escape1, adb_forbidden, AdbState, state0, state1, state2, Coded, encode_byte, adb_encode,
}

pub encode_nil :
    (n : ℕ) (s : AdbState) → adb_encode n s [] ≡ record { state = s; out = []; rest = [] }
unfolding adb_encode
encode_nil zero s = refl
encode_nil (suc n) s = refl

-- What two calls in turn give, the second on the state and input that the first leaves.
abbrev pub then_encode : ℕ → Coded → Coded
then_encode m e = let f = adb_encode m e.state e.rest in record f { out = e.out ++ f.out }

-- Encoding with room for `n + m` bytes is encoding with room for `n`, then for `m`.
pub encode-add :
    (n m : ℕ) (s : AdbState) (input : Bytes)
    → adb_encode (n + m) s input ≡ then_encode m (adb_encode n s input)
unfolding adb_encode
encode-add zero m s input = ap (λ k. adb_encode k s input) (omega arith)
encode-add (suc n) m s [] = rw (suc-add n m, encode_nil m s)
encode-add (suc n) m s (c ∷ input) = rw (
  suc-add n m,
  encode-add n m (encode_byte s c).1 (if (encode_byte s c).2 then input else c ∷ input),
)

pub length-encode_le :
    (n : ℕ) (s : AdbState) (input : Bytes) → length (adb_encode n s input).out ≤ n
unfolding adb_encode
length-encode_le zero s input = omega arith
length-encode_le (suc n) s [] = omega arith
length-encode_le (suc n) s (c ∷ input) = omega (
  arith,
  length-encode_le n (encode_byte s c).1 (if (encode_byte s c).2 then input else c ∷ input),
)

-- With less room the output is the same, cut short.
pub encode_take :
    (k n : ℕ) (s : AdbState) (input : Bytes)
    → k ≤ n
    → (adb_encode k s input).out ≡ take k (adb_encode n s input).out
unfolding adb_encode
encode_take zero n s input h = refl
encode_take (suc k) zero s input h = absurd (omega arith)
encode_take (suc k) (suc n) s [] h = refl
encode_take (suc k) (suc n) s (c ∷ input) h = rw (
    encode_take k n (encode_byte s c).1 (if (encode_byte s c).2 then input else c ∷ input)
      (omega arith))

-- A byte of the input that is half sent when the state is not `state0`.
abbrev pub Pending : AdbState → Bytes → Type 0
Pending state0 input = Unit
Pending state1 [] = ⊥
Pending state1 (c ∷ input) = c ≡ adb_escape1
Pending state2 [] = ⊥
Pending state2 (c ∷ input) = c ≡ adb_forbidden

pub encode_byte-Pending :
    (s : AdbState) (c : ℕ) (input : Bytes)
    → Pending s (c ∷ input)
    → Pending (encode_byte s c).1 (if (encode_byte s c).2 then input else c ∷ input)
unfolding encode_byte
encode_byte-Pending state0 c input p = ground arith
encode_byte-Pending state1 c input p = tt
encode_byte-Pending state2 c input p = tt

pub encode-Pending :
    (n : ℕ) (s : AdbState) (input : Bytes)
    → Pending s input
    → Pending (adb_encode n s input).state (adb_encode n s input).rest
unfolding adb_encode
encode-Pending zero s input p = p
encode-Pending (suc n) s [] p = p
encode-Pending (suc n) s (c ∷ input) p =
    encode-Pending n (encode_byte s c).1 (if (encode_byte s c).2 then input else c ∷ input)
      (encode_byte-Pending s c input p)

-- The encoded bytes that a state and an input still need, at most.
abbrev pub owed : AdbState → Bytes → ℕ
owed state0 input = 2 * length input
owed _ input = 2 * length input - 1

encode_byte-owed :
    (s : AdbState) (c : ℕ) (input : Bytes)
    → owed (encode_byte s c).1 (if (encode_byte s c).2 then input else c ∷ input)
      < owed s (c ∷ input)
unfolding encode_byte
encode_byte-owed state0 c input = ground arith
encode_byte-owed state1 c input = ground arith
encode_byte-owed state2 c input = ground arith

-- Room for two bytes to each byte of the input is enough.
pub encode_finishes :
    (n : ℕ) (s : AdbState) (input : Bytes)
    → Pending s input
    → owed s input ≤ n
    → (adb_encode n s input).rest ≡ []
unfolding adb_encode
encode_finishes zero s [] p h = refl
encode_finishes zero state0 (c ∷ input) p h = absurd (omega arith)
encode_finishes zero state1 (c ∷ input) p h = absurd (omega arith)
encode_finishes zero state2 (c ∷ input) p h = absurd (omega arith)
encode_finishes (suc n) s [] p h = refl
encode_finishes (suc n) s (c ∷ input) p h =
    encode_finishes n (encode_byte s c).1 (if (encode_byte s c).2 then input else c ∷ input)
      (encode_byte-Pending s c input p) (omega (arith, encode_byte-owed s c input))

encode_byte_clean : (s : AdbState) (c : ℕ) → (encode_byte s c).0 ≢ adb_forbidden
unfolding encode_byte
encode_byte_clean state0 c = ground arith
encode_byte_clean state1 c = ground arith
encode_byte_clean state2 c = ground arith

-- No byte that `adb_encode` stores is `~`, whatever the input, the room and the state.
pub encode_clean :
    (n : ℕ) (s : AdbState) (input : Bytes) → All (λ b. b ≢ adb_forbidden) (adb_encode n s input).out
unfolding adb_encode
encode_clean zero s input = tt
encode_clean (suc n) s [] = tt
encode_clean (suc n) s (c ∷ input) = (
  encode_byte_clean s c,
  encode_clean n (encode_byte s c).1 (if (encode_byte s c).2 then input else c ∷ input),
)
