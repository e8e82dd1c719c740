-- ===== src/Xenviron/Entries.antt =====
-- xenviron.c: a block that holds the entries of a list of variables, and what matches a name in it.
use fb_adb.Prelude.{
  ℕ, suc, ◌+◌, ◌≡◌, refl, ap, arith, Bool, true, false, ◌&&◌, Option, none, some, List, [], ◌∷◌,
  ◌++◌, Bytes, length, drop, ◌==◌, if◌then◌else◌, All, Bool-cases, inl, inr,
}
use fb_adb.Outcome.{ok}
use fb_adb.Xenviron.{equals_sign, strncmp, xenviron_match, get_in, find_slot, slot_end}

-- A variable: its name and its value.
abbrev pub Var : Type 0
Var = Bytes × Bytes

abbrev pub entry : Var → Bytes
entry v = v.0 ++ b'=' ∷ v.1

abbrev pub block : List Var → List (Option Bytes)
block [] = none ∷ []
block (v ∷ vs) = some (entry v) ∷ block vs

abbrev pub NoEquals : Bytes → Type 0
NoEquals = All (λ c. (c == b'=') ≡ false)

-- Every name is without '='.
abbrev pub Names : List Var → Type 0
Names = All (λ v. NoEquals v.0)

-- The first sequence is a front of the second.
abbrev pub is_prefix : Bytes → Bytes → Bool
is_prefix [] ys = true
is_prefix (x ∷ xs) [] = false
is_prefix (x ∷ xs) (y ∷ ys) = y == x && is_prefix xs ys

-- The value of the first variable whose name is a front of the wanted name.
abbrev pub lookup_front : List Var → Bytes → Option Bytes
lookup_front [] name = none
lookup_front (v ∷ vs) name = if is_prefix v.0 name then some v.1 else lookup_front vs name

abbrev pub has_front : List Var → Bytes → Bool
has_front [] name = false
has_front (v ∷ vs) name = if is_prefix v.0 name then true else has_front vs name

abbrev pub index_front : List Var → Bytes → ℕ
index_front [] name = 0
index_front (v ∷ vs) name = if is_prefix v.0 name then 0 else suc (index_front vs name)

equals_sign-entry : (n v : Bytes) → NoEquals n → equals_sign (n ++ b'=' ∷ v) ≡ some (length n)
unfolding equals_sign
equals_sign-entry [] v h = refl
equals_sign-entry (c ∷ n) v h = simp (equals_sign, h.0, equals_sign-entry n v h.1)

strncmp-entry : (n name v : Bytes) → strncmp (length n) name (n ++ v) ≡ is_prefix n name
unfolding strncmp
strncmp-entry [] name v = refl
strncmp-entry (c ∷ n) [] v = refl
strncmp-entry (c ∷ n) (x ∷ name) v = ap (λ b. x == c && b) (strncmp-entry n name v)

drop-entry : (n v : Bytes) → drop (suc (length n)) (n ++ b'=' ∷ v) ≡ v
drop-entry [] v = refl
drop-entry (c ∷ n) v = drop-entry n v

pub xenviron_match-entry :
    (v : Var) (name : Bytes)
    → NoEquals v.0
    → xenviron_match (entry v) name ≡ ok (if is_prefix v.0 name then some v.1 else none)
unfolding xenviron_match
xenviron_match-entry v name h = simp (
  xenviron_match,
  equals_sign-entry v.0 v.1 h,
  strncmp-entry v.0 name (b'=' ∷ v.1),
  drop-entry v.0 v.1,
)

pub get_in-block :
    (vs : List Var) (name : Bytes) → Names vs → get_in (block vs) name ≡ ok (lookup_front vs name)
unfolding get_in
get_in-block [] name h = refl
get_in-block (v ∷ vs) name h = elim (Bool-cases (is_prefix v.0 name)) [
  | inl e ↦ rw (get_in, xenviron_match-entry v name h.0, e) refl
  | inr e ↦ rw (get_in, xenviron_match-entry v name h.0, e) (get_in-block vs name h.1)
]

pub find_slot-block :
    (vs : List Var) (name : Bytes)
    → Names vs
    → find_slot (block vs) name ≡ ok (index_front vs name, has_front vs name)
unfolding find_slot
find_slot-block [] name h = refl
find_slot-block (v ∷ vs) name h = elim (Bool-cases (is_prefix v.0 name)) [
  | inl e ↦ rw (find_slot, xenviron_match-entry v name h.0, e) refl
  | inr e ↦
      rw (find_slot, xenviron_match-entry v name h.0, e) (rw (find_slot-block vs name h.1) refl)
]

pub slot_end-block : (vs : List Var) → slot_end (block vs) ≡ ok (length vs)
unfolding slot_end
slot_end-block [] = refl
slot_end-block (v ∷ vs) = rw (slot_end-block vs) refl

pub length-block : (vs : List Var) → length (block vs) ≡ length vs + 1
length-block [] = refl
length-block (v ∷ vs) = omega (arith, length-block vs)
