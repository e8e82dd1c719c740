-- ===== src/Xenviron.antt =====
-- xenviron.c: an environment block of "NAME=value" strings. The block is the list of the pointers that
-- its allocation holds, `none` for NULL; a C string is the list of its bytes before the NUL.
pub mod Entries
pub mod Assign
pub mod Remove
mod Tests
use fb_adb.Prelude.{
  ℕ, zero, suc, ◌+◌, ◌-◌, ◌*◌, Bool, true, false, Option, none, some, List, [], ◌∷◌, ◌++◌, Bytes,
  length, take, drop, set, replicate, ltb, ◌==◌, ◌&&◌, if◌then◌else◌,
}
use mathlib.Core.Option
use fb_adb.Outcome.{enomem, Outcome, ok, died, aborted, fault, ◌>>=◌, ◌>>◌, die_if}

pub record Xenviron : Type 0 where
  pub env : List (Option Bytes)

-- `(nr_slots + 1) * sizeof (char*)`.
unfoldable pub xenviron_allocsz : ℕ → ℕ
xenviron_allocsz nr_slots = (nr_slots + 1) * 8

-- Where in a string `strchr (entry, '=')` points.
unfoldable pub equals_sign : Bytes → Option ℕ
equals_sign [] = none
equals_sign (c ∷ cs) =
    let rest = Option.map suc (equals_sign cs) in if c == b'=' then some 0 else rest

-- `strncmp (s, t, n) == 0`.
unfoldable pub strncmp : ℕ → Bytes → Bytes → Bool
strncmp zero s t = true
strncmp (suc n) [] [] = true
strncmp (suc n) [] (y ∷ t) = false
strncmp (suc n) (x ∷ s) [] = false
strncmp (suc n) (x ∷ s) (y ∷ t) = x == y && strncmp n s t

-- An entry without '=' subtracts from NULL.
unfoldable pub xenviron_match : Bytes → Bytes → Outcome (Option Bytes)
xenviron_match entry name = elim (equals_sign entry) [
  | none ↦ fault
  | some n ↦ ok (if strncmp n name entry then some (drop (suc n) entry) else none)
]

abbrev pub on_match {ℓ} :
    {A : Type ℓ} → Outcome (Option Bytes) → (Bytes → Outcome A) → Outcome A → Outcome A
on_match (ok (some value)) f rest = f value
on_match (ok none) f rest = rest
on_match (died e) f rest = died e
on_match aborted f rest = aborted
on_match fault f rest = fault

-- The loop of `xenviron_get`. A block without NULL is read beyond its end.
unfoldable pub get_in : List (Option Bytes) → Bytes → Outcome (Option Bytes)
get_in [] name = fault
get_in (none ∷ env) name = ok none
get_in (some entry ∷ env) name =
    let rest = get_in env name in
    on_match (xenviron_match entry name) (λ value. ok (some value)) rest

unfoldable pub xenviron_get : Xenviron → Bytes → Outcome (Option Bytes)
xenviron_get xe name = get_in xe.env name

-- The loop that `xenviron_set` and `xenviron_unset` begin with: the index of the first slot that
-- matches or is NULL, and whether it matches.
unfoldable pub find_slot : List (Option Bytes) → Bytes → Outcome (ℕ × Bool)
find_slot [] name = fault
find_slot (none ∷ env) name = ok (0, false)
find_slot (some entry ∷ env) name =
    let rest = find_slot env name >>= λ r. ok (suc r.0, r.1) in
    on_match (xenviron_match entry name) (λ value. ok (0, true)) rest

-- The index of the first NULL.
unfoldable pub slot_end : List (Option Bytes) → Outcome ℕ
slot_end [] = fault
slot_end (none ∷ env) = ok 0
slot_end (some entry ∷ env) = slot_end env >>= λ n. ok (suc n)

-- What `malloc` and `realloc` answer by the size that they are asked for, and what `realloc` leaves in
-- memory that it adds.
module _ (malloc realloc : ℕ → Bool) (fresh : Option Bytes) where
  -- `resize_alloc (env, xenviron_allocsz (nr_slots))` where it succeeds.
  unfoldable pub resized : List (Option Bytes) → ℕ → List (Option Bytes)
  resized env nr_slots = let nr = nr_slots + 1 in take nr env ++ replicate (nr - length env) fresh

  unfoldable pub xenviron_allocate_entry : Bytes → Bytes → Outcome Bytes
  xenviron_allocate_entry name value =
      if malloc (length name + 1 + length value + 1) then ok (name ++ b'=' ∷ value) else died enomem

  unfoldable pub copy_strings : List Bytes → Outcome (List (Option Bytes))
  copy_strings [] = ok (none ∷ [])
  copy_strings (s ∷ ss) =
      let rest = copy_strings ss >>= λ env. ok (some s ∷ env) in
      if malloc (length s + 1) then rest else died enomem

  -- `none` stands for a NULL argument.
  unfoldable pub xenviron_create : Option (List Bytes) → Outcome Xenviron
  xenviron_create none =
      if malloc 8 && malloc (xenviron_allocsz 0)
      then ok (record { env = none ∷ [] })
      else died enomem
  xenviron_create (some copy_from) =
      let copied = copy_strings copy_from >>= λ env. ok (record { env = env }) in
      if malloc 8 && malloc (xenviron_allocsz (length copy_from)) then copied else died enomem

  unfoldable pub xenviron_set : Xenviron → Bytes → Bytes → Outcome Xenviron
  xenviron_set xe name value = do
    new_entry ← xenviron_allocate_entry name value
    found ← find_slot xe.env name
    let nr_slots = found.0 + 1
    let grown = record xe {
      env = set (set (resized xe.env nr_slots) nr_slots none) (nr_slots - 1) (some new_entry);
    }
    let replaced = record xe { env = set xe.env found.0 (some new_entry) }
    let added = if realloc (xenviron_allocsz nr_slots) then ok grown else died enomem
    if found.1 then ok replaced else added

  -- `memmove (&slot[0], &slot[1], xenviron_allocsz (nr_to_move))`.
  unfoldable pub memmove_down : List (Option Bytes) → ℕ → ℕ → Outcome (List (Option Bytes))
  memmove_down env slot nr_to_move =
      let nr = nr_to_move + 1 in
      if ltb (length env) (slot + 1 + nr)
      then fault
      else ok (take slot env ++ take nr (drop (slot + 1) env) ++ drop (slot + nr) env)

  unfoldable pub xenviron_unset : Xenviron → Bytes → Outcome Xenviron
  xenviron_unset xe name = find_slot xe.env name >>= λ found.
      let removed : Outcome Xenviron = (do
        nr_slots ← slot_end xe.env
        let nr_to_move = nr_slots - found.0
        env ← memmove_down xe.env found.0 nr_to_move
        ok (record xe {
          env =
              if realloc (xenviron_allocsz (nr_slots - 1)) then resized env (nr_slots - 1) else env;
        })) in
      if found.1 then removed else ok xe

  unfoldable pub clear_slots : List (Option Bytes) → Outcome (List (Option Bytes))
  clear_slots [] = fault
  clear_slots (none ∷ env) = ok (none ∷ env)
  clear_slots (some entry ∷ env) = clear_slots env >>= λ rest. ok (none ∷ rest)

  unfoldable pub xenviron_clear : Xenviron → Outcome Xenviron
  xenviron_clear xe = clear_slots xe.env >>= λ env.
      ok (record xe { env = if realloc (xenviron_allocsz 0) then resized env 0 else env })
