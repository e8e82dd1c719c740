-- ===== src/Xenviron/Assign.antt =====
-- xenviron.c: what the calls do to the variables of a block.
use fb_adb.Prelude.{
  ℕ, suc, ◌+◌, ◌-◌, ◌≡◌, refl, ap, sym, ◌∙◌, arith, Bool, true, false, Option, none, some, List, [],
  ◌∷◌, ◌++◌, Bytes, length, take_all, set, if◌then◌else◌, All, Bool-cases, inl, inr,
}
use fb_adb.Outcome.{ok}
use fb_adb.Xenviron.{
  Xenviron, xenviron_get, resized, xenviron_allocate_entry, xenviron_set, xenviron_allocsz,
}
use fb_adb.Xenviron.Entries.{
  Var, entry, block, NoEquals, Names, is_prefix, lookup_front, has_front, index_front, get_in-block,
  find_slot-block, length-block,
}

abbrev pub of_vars : List Var → Xenviron
of_vars vs = record { env = block vs }

-- The first variable whose name is a front of the given name is replaced; where there is none a new
-- one comes last.
abbrev pub assign_front : List Var → Bytes → Bytes → List Var
assign_front [] name value = (name, value) ∷ []
assign_front (v ∷ vs) name value =
    if is_prefix v.0 name then (name, value) ∷ vs else v ∷ assign_front vs name value

-- No other variable's name is a front of the given name.
abbrev pub Alone : Bytes → List Var → Type 0
Alone name = All (λ v. is_prefix v.0 name ≡ true → v.0 ≡ name)

pub is_prefix_refl : (xs : Bytes) → is_prefix xs xs ≡ true
is_prefix_refl [] = refl
is_prefix_refl (x ∷ xs) = rw (is_prefix_refl xs) (ground arith)

pub is_prefix-append : (xs ys : Bytes) → is_prefix xs (xs ++ ys) ≡ true
is_prefix-append [] ys = refl
is_prefix-append (x ∷ xs) ys = rw (is_prefix-append xs ys) (ground arith)

longer-is_prefix : (xs ys : Bytes) (c : ℕ) → is_prefix (xs ++ c ∷ ys) xs ≡ false
longer-is_prefix [] ys c = refl
longer-is_prefix (x ∷ xs) ys c = rw (longer-is_prefix xs ys c) (ground arith)

set-block :
    (vs : List Var) (name value : Bytes)
    → has_front vs name ≡ true
    → set (block vs) (index_front vs name) (some (entry (name, value)))
      ≡ block (assign_front vs name value)
set-block [] name value h = absurd (ground arith)
set-block (v ∷ vs) name value h = elim (Bool-cases (is_prefix v.0 name)) [
  | inl e ↦ rw e refl
  | inr e ↦ rw e (ap (λ b. some (entry v) ∷ b) (set-block vs name value (rw e at h)))
]

index_none :
    (vs : List Var) (name : Bytes) → has_front vs name ≡ false → index_front vs name ≡ length vs
index_none [] name h = refl
index_none (v ∷ vs) name h = elim (Bool-cases (is_prefix v.0 name)) [
  | inl e ↦ absurd (ground (arith, rw e at h))
  | inr e ↦ rw e (ap suc (index_none vs name (rw e at h)))
]

-- The block with one more slot, whose last two are set.
grown-block :
    (vs : List Var) (name value : Bytes) (fresh : Option Bytes)
    → has_front vs name ≡ false
    → set
        (set (block vs ++ fresh ∷ []) (suc (length vs)) none)
        (length vs)
        (some (entry (name, value)))
      ≡ block (assign_front vs name value)
grown-block [] name value fresh h = refl
grown-block (v ∷ vs) name value fresh h = elim (Bool-cases (is_prefix v.0 name)) [
  | inl e ↦ absurd (ground (arith, rw e at h))
  | inr e ↦ rw e (ap (λ b. some (entry v) ∷ b) (grown-block vs name value fresh (rw e at h)))
]

lookup-assign :
    (vs : List Var) (name value : Bytes)
    → lookup_front (assign_front vs name value) name ≡ some value
lookup-assign [] name value = rw (is_prefix_refl name) refl
lookup-assign (v ∷ vs) name value = elim (Bool-cases (is_prefix v.0 name)) [
  | inl e ↦ rw e (rw (is_prefix_refl name) refl)
  | inr e ↦ rw e (rw e (lookup-assign vs name value))
]

lookup-assign_other :
    (vs : List Var) (name value other : Bytes)
    → Alone name vs
    → is_prefix name other ≡ false
    → lookup_front (assign_front vs name value) other ≡ lookup_front vs other
lookup-assign_other [] name value other alone h = rw h refl
lookup-assign_other (v ∷ vs) name value other alone h = elim (Bool-cases (is_prefix v.0 name)) [
  | inl e ↦ rw e (rw (alone.0 e, h) refl)
  | inr e ↦ rw (e, lookup-assign_other vs name value other alone.1 h) refl
]

Names-assign :
    (vs : List Var) (name value : Bytes)
    → NoEquals name
    → Names vs
    → Names (assign_front vs name value)
Names-assign [] name value h names = (h, names)
Names-assign (v ∷ vs) name value h names = elim (Bool-cases (is_prefix v.0 name)) [
  | inl e ↦ rw e (h, names.1)
  | inr e ↦ rw e (names.0, Names-assign vs name value h names.1)
]

pub get-block :
    (vs : List Var) (name : Bytes)
    → Names vs
    → xenviron_get (of_vars vs) name ≡ ok (lookup_front vs name)
unfolding xenviron_get
get-block vs name names = get_in-block vs name names

module _ (malloc realloc : ℕ → Bool) (fresh : Option Bytes) where
  resized-block :
      (vs : List Var)
      → resized malloc realloc fresh (block vs) (length vs + 1) ≡ block vs ++ fresh ∷ []
  unfolding resized
  resized-block vs =
      let few : length vs + 1 + 1 - length (block vs) ≡ 1 = omega (arith, length-block vs) in
      rw (few, take_all (length vs + 1 + 1) (block vs) (omega (arith, length-block vs))) refl

  set_lem :
      (vs : List Var) (name value : Bytes)
      → Names vs
      → ((sz : ℕ) → malloc sz ≡ true)
      → ((sz : ℕ) → realloc sz ≡ true)
      → xenviron_set malloc realloc fresh (of_vars vs) name value
        ≡ ok (of_vars (assign_front vs name value))
  unfolding xenviron_set xenviron_allocate_entry
  set_lem vs name value names memory more = elim (Bool-cases (has_front vs name)) [
    | inl e ↦
        rw
          (
            memory (length name + 1 + length value + 1),
            find_slot-block vs name names,
            e,
            set-block vs name value e,
          )
          refl
    | inr e ↦
        let slots : length vs + 1 ≡ suc (length vs) = omega arith in
        let one : length vs + 1 - 1 ≡ length vs = omega arith in
        rw
          (
            memory (length name + 1 + length value + 1),
            find_slot-block vs name names,
            e,
            index_none vs name e,
            more (xenviron_allocsz (length vs + 1)),
            resized-block vs,
            one,
            slots,
            grown-block vs name value fresh e,
          )
          refl
  ]

  -- Where memory is left and no name in the environment holds '=', setting a name without '=' returns,
  -- and getting it then gives the value.
  pub set-get :
      (vs : List Var) (name value : Bytes)
      → Names vs
      → NoEquals name
      → ((sz : ℕ) → malloc sz ≡ true)
      → ((sz : ℕ) → realloc sz ≡ true)
      → (xe : Xenviron) × (xenviron_set malloc realloc fresh (of_vars vs) name value ≡ ok xe)
        × (xenviron_get xe name ≡ ok (some value))
  set-get vs name value names plain memory more = (
    of_vars (assign_front vs name value),
    set_lem vs name value names memory more,
    get-block (assign_front vs name value) name (Names-assign vs name value plain names)
        ∙ ap ok (lookup-assign vs name value),
  )

  -- Where memory is left and no name holds '=', setting a name keeps what another name gives that
  -- does not begin with it, if no third variable's name is a front of the name that is set.
  pub set-get_other :
      (vs : List Var) (name value other : Bytes)
      → Names vs
      → NoEquals name
      → Alone name vs
      → is_prefix name other ≡ false
      → ((sz : ℕ) → malloc sz ≡ true)
      → ((sz : ℕ) → realloc sz ≡ true)
      → (xe : Xenviron) × (xenviron_set malloc realloc fresh (of_vars vs) name value ≡ ok xe)
        × (xenviron_get xe other ≡ xenviron_get (of_vars vs) other)
  set-get_other vs name value other names plain alone h memory more = (
    of_vars (assign_front vs name value),
    set_lem vs name value names memory more,
    get-block (assign_front vs name value) other (Names-assign vs name value plain names)
        ∙ ap ok (lookup-assign_other vs name value other alone h)
        ∙ sym (get-block vs other names),
  )

  -- Where memory is left, setting a name that is longer than a variable's name and begins with it
  -- loses that variable, when it comes first and no other variable's name is a front of its name.
  pub set_clobbers :
      (p value : Bytes) (vs : List Var) (c : ℕ) (s new : Bytes)
      → Names ((p, value) ∷ vs)
      → NoEquals (p ++ c ∷ s)
      → lookup_front vs p ≡ none
      → ((sz : ℕ) → malloc sz ≡ true)
      → ((sz : ℕ) → realloc sz ≡ true)
      → (xe : Xenviron) × (xenviron_get (of_vars ((p, value) ∷ vs)) p ≡ ok (some value))
        × (xenviron_set malloc realloc fresh (of_vars ((p, value) ∷ vs)) (p ++ c ∷ s) new ≡ ok xe)
        × (xenviron_get xe p ≡ ok none)
  set_clobbers p value vs c s new names plain missing memory more =
      let same : assign_front ((p, value) ∷ vs) (p ++ c ∷ s) new ≡ (p ++ c ∷ s, new) ∷ vs =
        rw (is_prefix-append p (c ∷ s)) refl in
      (
        of_vars ((p ++ c ∷ s, new) ∷ vs),
        get-block ((p, value) ∷ vs) p names ∙ rw (is_prefix_refl p) refl,
        set_lem ((p, value) ∷ vs) (p ++ c ∷ s) new names memory more
            ∙ ap (λ w. ok (of_vars w)) same,
        get-block ((p ++ c ∷ s, new) ∷ vs) p (plain, names.1)
            ∙ rw (longer-is_prefix p s c, missing) refl,
      )
