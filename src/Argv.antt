-- ===== src/Argv.antt =====
-- argv.c: NULL-terminated arrays of strings, and lists of strings with a cursor. An array is the list
-- of its strings before the NULL, and where the array itself is built, the list of its slots; a list is
-- its strings from the head, and its cursor the index of a node.
pub mod Concat
pub mod Walk
mod Tests
use fb_adb.Prelude.{
  ℕ, zero, suc, ◌+◌, ◌*◌, ◌/◌, ◌%◌, ◌^◌, ◌-◌, Bool, true, false, Option, none, some, List, [], ◌∷◌,
  ◌++◌, Bytes, length, get_elem?, set, replicate, ltb, leb, ◌==◌, ◌||◌, if◌then◌else◌,
}
use fb_adb.Outcome.{einval, enomem, Outcome, ok, died, ◌>>=◌, ◌>>◌, assert, die_if}
use fb_adb.Util.{size_mod, satadd}

unfoldable pub argv_count : List Bytes → ℕ
argv_count [] = 0
argv_count (s ∷ argv) = suc (argv_count argv)

-- The loop that adds the counts of the arrays, from a total.
unfoldable pub total_count : ℕ → List (List Bytes) → Outcome ℕ
total_count totalnr [] = ok totalnr
total_count totalnr (argv ∷ args) =
    let added = satadd (size_mod - 1) totalnr (argv_count argv) in
    let rest = total_count added.1 args in if added.0 then died einval else rest

-- What `malloc` answers by the size, and what it leaves in memory.
module _ (malloc : ℕ → Bool) (fresh : Option Bytes) where
  -- One string into a slot; with `deepcopy` memory for the copy is needed. `pos` is an `unsigned`.
  unfoldable pub put_string :
      Bool → List (Option Bytes) → ℕ → Bytes → Outcome (List (Option Bytes) × ℕ)
  put_string deepcopy new_argv pos s =
      if (if deepcopy then malloc (length s + 1) else true)
      then ok (set new_argv pos (some s), (pos + 1) % 2 ^ 32)
      else died enomem

  unfoldable pub put_strings :
      Bool → List (Option Bytes) → ℕ → List Bytes → Outcome (List (Option Bytes) × ℕ)
  put_strings deepcopy new_argv pos [] = ok (new_argv, pos)
  put_strings deepcopy new_argv pos (s ∷ argv) =
      put_string deepcopy new_argv pos s >>= λ r. put_strings deepcopy r.0 r.1 argv

  unfoldable pub put_arrays :
      Bool → List (Option Bytes) → ℕ → List (List Bytes) → Outcome (List (Option Bytes) × ℕ)
  put_arrays deepcopy new_argv pos [] = ok (new_argv, pos)
  put_arrays deepcopy new_argv pos (argv ∷ args) =
      put_strings deepcopy new_argv pos argv >>= λ r. put_arrays deepcopy r.0 r.1 args

  -- The arguments are `argv1` and those behind it, up to the NULL.
  unfoldable pub argv_concat_internal : Bool → List (List Bytes) → Outcome (List (Option Bytes))
  argv_concat_internal deepcopy args = do
    totalnr ← total_count 0 args
    die_if (totalnr == size_mod - 1 || ltb ((size_mod - 1) / 8) (totalnr + 1)) einval
    new_argv ←
        if malloc (8 * (1 + totalnr)) then ok (replicate (1 + totalnr) fresh) else died enomem
    r ← put_arrays deepcopy new_argv 0 args
    assert (r.1 == totalnr)
    ok (set r.0 totalnr none)

  unfoldable pub argv_concat_deepcopy : List (List Bytes) → Outcome (List (Option Bytes))
  argv_concat_deepcopy args = argv_concat_internal true args

  unfoldable pub argv_concat : List (List Bytes) → Outcome (List (Option Bytes))
  argv_concat args = argv_concat_internal false args

pub record Strlist : Type 0 where
  pub head : List Bytes
  pub cursor : Option ℕ

unfoldable pub strlist_new : Strlist
strlist_new = record { head = []; cursor = none }

-- The string at the cursor, or NULL.
unfoldable pub at_cursor : Strlist → Option Bytes
at_cursor sl = elim sl.cursor [ none ↦ none | some i ↦ get_elem? sl.head i ]

unfoldable pub strlist_rewind : Strlist → Option Bytes × Strlist
strlist_rewind sl =
    let slm = record sl { cursor = if length sl.head == 0 then none else some 0 } in
    (at_cursor slm, slm)

-- The node behind the cursor's, if there is one.
unfoldable pub strlist_next : Strlist → Option Bytes × Strlist
strlist_next sl =
    let slm = record sl {
      cursor = elim sl.cursor [
        | none ↦ none
        | some i ↦ if ltb (i + 1) (length sl.head) then some (i + 1) else none
      ];
    } in
    (at_cursor slm, slm)

unfoldable pub strlist_empty_p : Strlist → Bool
strlist_empty_p sl = length sl.head == 0

-- `STAILQ_CONCAT` on the heads of the recipient and the donor.
unfoldable pub strlist_xfer : List Bytes → List Bytes → List Bytes × List Bytes
strlist_xfer recipient donor = (recipient ++ donor, [])

module _ (malloc : ℕ → Bool) where
  -- The node has a link of 8 bytes in front of the string.
  unfoldable pub strlist_append : Strlist → Bytes → Outcome Strlist
  strlist_append sl s =
      if malloc (8 + (length s + 1))
      then ok (record sl { head = sl.head ++ s ∷ [] })
      else died enomem

  unfoldable pub strlist_extend_argv : Strlist → List Bytes → Outcome Strlist
  strlist_extend_argv sl [] = ok sl
  strlist_extend_argv sl (s ∷ src) = strlist_append sl s >>= λ sl'. strlist_extend_argv sl' src

  unfoldable pub strlist_from_argv : List Bytes → Outcome Strlist
  strlist_from_argv argv = strlist_extend_argv strlist_new argv

  -- The strings are the arguments before the NULL.
  unfoldable pub strlist : List Bytes → Outcome Strlist
  strlist strings = strlist_extend_argv strlist_new strings

  -- The loop of `strlist_extend` from the string at the cursor of another list, on fuel.
  unfoldable pub extend_loop :
      ℕ → Strlist → Option Bytes × Strlist → Outcome (Option (Strlist × Strlist))
  extend_loop zero sl r = ok none
  extend_loop (suc fuel) sl (none, src) = ok (some (sl, src))
  extend_loop (suc fuel) sl (some s, src) =
      strlist_append sl s >>= λ sl'. extend_loop fuel sl' (strlist_next src)

  -- The list and its source, whose cursor moves; `none` where the fuel ends. The source is another list.
  unfoldable pub strlist_extend : ℕ → Strlist → Strlist → Outcome (Option (Strlist × Strlist))
  strlist_extend fuel sl src = extend_loop fuel sl (strlist_rewind src)

-- The strings from the cursor on, which `strlist_to_argv` stores, on fuel.
unfoldable pub walk : ℕ → Option Bytes × Strlist → Option (List Bytes × Strlist)
walk zero r = none
walk (suc fuel) (none, sl) = some ([], sl)
walk (suc fuel) (some s, sl) =
    let rest = walk fuel (strlist_next sl) in
    elim rest [ none ↦ none | some r ↦ some (s ∷ r.0, r.1) ]

-- The first walk counts, the second stores.
unfoldable pub strlist_to_argv : (ℕ → Bool) → ℕ → Strlist → Outcome (Option (List Bytes × Strlist))
strlist_to_argv malloc fuel sl = elim (walk fuel (strlist_rewind sl)) [
  | none ↦ ok none
  | some r ↦
      if malloc (8 * (1 + length r.0)) then ok (walk fuel (strlist_rewind r.1)) else died enomem
]
