-- ===== src/Outcome.antt =====
-- How a call ends: it returns, it leaves by `die` (util.c) with an errno, which `catch_error` can
-- catch, an `assert` fails and the process stops, or C leaves open what happens.
use fb_adb.Prelude.{ℕ, Bool, true, false}

-- An errno, by its number on Linux.
abbrev pub Errno : Type 0
Errno = ℕ

abbrev pub eintr : Errno
eintr = 4

abbrev pub eagain : Errno
eagain = 11

abbrev pub enomem : Errno
enomem = 12

abbrev pub einval : Errno
einval = 22

abbrev pub erange : Errno
erange = 34

abbrev pub ecomm : Errno
ecomm = 70

-- `fault` is an access outside an array, where C says nothing of what follows.
pub data Outcome {ℓ} (A : Type ℓ) : Type ℓ where
  ok : A → Outcome A
  died : Errno → Outcome A
  aborted : Outcome A
  fault : Outcome A

infixl 5 ◌>>=◌ ◌>>◌
abbrev pub ◌>>=◌ {ℓ κ} : {A : Type ℓ} {B : Type κ} → Outcome A → (A → Outcome B) → Outcome B
ok a >>= f = f a
died e >>= f = died e
aborted >>= f = aborted
fault >>= f = fault

abbrev pub ◌>>◌ {ℓ} : {B : Type ℓ} → Outcome (Unit {0}) → Outcome B → Outcome B
m >> k = m >>= λ _. k

-- `assert (b)`.
abbrev pub assert : Bool → Outcome (Unit {0})
assert true = ok tt
assert false = aborted

-- `if (b) die (e, ...)`.
abbrev pub die_if : Bool → Errno → Outcome (Unit {0})
die_if true e = died e
die_if false e = ok tt
