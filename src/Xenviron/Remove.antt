-- ===== src/Xenviron/Remove.antt =====
-- xenviron.c: variables that are removed, and a new environment.
use fb_adb.Prelude.{
  ℕ, suc, ◌+◌, ◌-◌, ◌<◌, ◌≡◌, refl, arith, Bool, true, Option, none, some, map, List, [], ◌∷◌,
  Bytes, length, replicate, ltb, if◌then◌else◌, Bool-cases, inl, inr,
}
use fb_adb.Outcome.{ok, fault}
use fb_adb.Xenviron.{
  Xenviron, get_in, xenviron_get, resized, copy_strings, xenviron_create, memmove_down,
  xenviron_unset, clear_slots, xenviron_clear, xenviron_allocsz,
}
use fb_adb.Xenviron.Entries.{
  Var, entry, block, Names, is_prefix, lookup_front, has_front, index_front, find_slot-block,
  slot_end-block, length-block,
}
use fb_adb.Xenviron.Assign.{of_vars, get-block}

index_lt :
    (vs : List Var) (name : Bytes) → has_front vs name ≡ true → index_front vs name < length vs
index_lt [] name h = absurd (ground arith)
index_lt (v ∷ vs) name h = elim (Bool-cases (is_prefix v.0 name)) [
  | inl e ↦ rw e (omega arith)
  | inr e ↦ rw e (omega (arith, index_lt vs name (rw e at h)))
]

module _ (malloc realloc : ℕ → Bool) (fresh : Option Bytes) where
  -- Unsetting reads the slot behind the block exactly when a variable matches; else it changes nothing.
  pub unset_overreads :
      (vs : List Var) (name : Bytes)
      → Names vs
      → xenviron_unset malloc realloc fresh (of_vars vs) name
        ≡ (if has_front vs name then fault else ok (of_vars vs))
  unfolding xenviron_unset memmove_down
  unset_overreads vs name names = elim (Bool-cases (has_front vs name)) [
    | inr e ↦ rw (find_slot-block vs name names, e) refl
    | inl e ↦
        let beyond : ltb (length (block vs))
              (index_front vs name + 1 + (length vs - index_front vs name + 1))
            ≡ true =
          ground (arith, length-block vs, index_lt vs name e) in
        rw (find_slot-block vs name names, e, slot_end-block vs, beyond) refl
  ]

  copy_strings-block :
      (vs : List Var)
      → ((sz : ℕ) → malloc sz ≡ true)
      → copy_strings malloc realloc fresh (map entry vs) ≡ ok (block vs)
  unfolding copy_strings
  copy_strings-block [] memory = refl
  copy_strings-block (v ∷ vs) memory =
      rw (copy_strings-block vs memory, memory (length (entry v) + 1)) refl

  cleared :
      (vs : List Var)
      → clear_slots malloc realloc fresh (block vs) ≡ ok (replicate (suc (length vs)) none)
  unfolding clear_slots
  cleared [] = refl
  cleared (v ∷ vs) = rw (cleared vs) refl

  -- Where memory is left and no name holds '=', an environment made from entries gives each name the
  -- value of the first entry whose name is a front of it, and after `xenviron_clear`, whether or not
  -- memory can be given back, it has no variable.
  pub create-clear :
      (vs : List Var) (name : Bytes)
      → Names vs
      → ((sz : ℕ) → malloc sz ≡ true)
      → (xe : Xenviron) × (xe' : Xenviron) × (xenviron_create malloc realloc fresh
            (some (map entry vs))
          ≡ ok xe)
        × (xenviron_get xe name ≡ ok (lookup_front vs name))
        × (xenviron_clear malloc realloc fresh xe ≡ ok xe')
        × (xenviron_get xe' name ≡ ok none)
  unfolding xenviron_create xenviron_clear xenviron_get get_in resized
  create-clear vs name names memory =
      let nones = replicate (suc (length vs)) none in
      let xe' : Xenviron = record {
        env = if realloc (xenviron_allocsz 0) then resized malloc realloc fresh nones 0 else nones;
      } in
      (
        of_vars vs,
        xe',
        rw
            (
              memory 8,
              memory (xenviron_allocsz (length (map entry vs))),
              copy_strings-block vs memory,
            )
            refl,
        get-block vs name names,
        rw (cleared vs) refl,
        elim (Bool-cases (realloc (xenviron_allocsz 0))) [ inl e ↦ rw e refl | inr e ↦ rw e refl ],
      )
