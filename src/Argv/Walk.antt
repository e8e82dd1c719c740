-- ===== src/Argv/Walk.antt =====
-- argv.c: walks over a list with its cursor.
use fb_adb.Prelude.{
  ℕ, zero, suc, ◌+◌, ◌*◌, ◌<◌, ◌≡◌, refl, ap, sym, ◌∙◌, arith, Bool, true, false, Option, none,
  some, List, [], ◌∷◌, ◌++◌, append_assoc, append-nil, Bytes, length, length-append, get_elem?, ltb,
  ◌==◌,
}
use fb_adb.Outcome.{ok}
use fb_adb.Argv.{
  Strlist, strlist_new, at_cursor, strlist_rewind, strlist_next, strlist_append,
  strlist_extend_argv, strlist_from_argv, extend_loop, strlist_extend, walk, strlist_to_argv,
}

-- What a walk has when some strings are behind it and the others are yet to come.
abbrev here : List Bytes → List Bytes → Option Bytes × Strlist
here done [] = (none, record { head = done ++ []; cursor = none })
here done (s ∷ rest) = (some s, record { head = done ++ s ∷ rest; cursor = some (length done) })

rewind_lem : (sl : Strlist) → strlist_rewind sl ≡ here [] sl.head
unfolding strlist_rewind at_cursor
rewind_lem sl = go sl.head sl.cursor
  where
    go :
        (head : List Bytes) (cursor : Option ℕ)
        → strlist_rewind (record { head = head; cursor = cursor }) ≡ here [] head
    go [] cursor = refl
    go (s ∷ head) cursor =
        let some_string : (length (s ∷ head) == 0) ≡ false = ground arith in rw some_string refl

get-middle : (xs ys : List Bytes) (y : Bytes) → get_elem? (xs ++ y ∷ ys) (length xs) ≡ some y
get-middle [] ys y = refl
get-middle (x ∷ xs) ys y = get-middle xs ys y

next_lem :
    (done rest : List Bytes) (s : Bytes)
    → strlist_next ((here done (s ∷ rest)).1) ≡ here (done ++ s ∷ []) rest
unfolding strlist_next at_cursor
next_lem done [] s =
    let at_end : ltb (length done + 1) (length (done ++ s ∷ [])) ≡ false =
      ground (arith, length-append done (s ∷ [])) in
    rw (at_end, append-nil (done ++ s ∷ [])) refl
next_lem done (t ∷ rest) s =
    let more : ltb (length done + 1) (length (done ++ s ∷ t ∷ rest)) ≡ true =
      ground (arith, length-append done (s ∷ t ∷ rest)) in
    let size : length done + 1 ≡ length (done ++ s ∷ []) = sym (length-append done (s ∷ [])) in
    let whole : done ++ (s ∷ t ∷ rest) ≡ (done ++ s ∷ []) ++ t ∷ rest =
      sym (append_assoc done (s ∷ []) (t ∷ rest)) in
    rw (more, size, whole, get-middle (done ++ s ∷ []) rest t) refl

walk_lem :
    (fuel : ℕ) (rest done : List Bytes)
    → length rest < fuel
    → walk fuel (here done rest) ≡ some (rest, record { head = done ++ rest; cursor = none })
unfolding walk
walk_lem zero rest done h = absurd (omega arith)
walk_lem (suc fuel) [] done h = refl
walk_lem (suc fuel) (s ∷ rest) done h =
    rw
      (
        next_lem done rest s,
        walk_lem fuel rest (done ++ s ∷ []) (omega arith),
        append_assoc done (s ∷ []) rest,
      )
      refl

module _ (malloc : ℕ → Bool) (memory : (sz : ℕ) → malloc sz ≡ true) where
  append_lem :
      (sl : Strlist) (s : Bytes)
      → strlist_append malloc sl s ≡ ok (record sl { head = sl.head ++ s ∷ [] })
  unfolding strlist_append
  append_lem sl s = rw (memory (8 + (length s + 1))) refl

  extend_argv_lem :
      (src : List Bytes) (sl : Strlist)
      → strlist_extend_argv malloc sl src ≡ ok (record sl { head = sl.head ++ src })
  unfolding strlist_extend_argv
  extend_argv_lem [] sl = rw (append-nil sl.head) refl
  extend_argv_lem (s ∷ src) sl =
      rw (append_lem sl s, ← append_assoc sl.head (s ∷ []) src)
        (extend_argv_lem src (record sl { head = sl.head ++ s ∷ [] }))

  extend_lem :
      (fuel : ℕ) (rest done : List Bytes) (sl : Strlist)
      → length rest < fuel
      → extend_loop malloc fuel sl (here done rest)
        ≡ ok (
            some
              (record sl { head = sl.head ++ rest }, record { head = done ++ rest; cursor = none }))
  unfolding extend_loop
  extend_lem zero rest done sl h = absurd (omega arith)
  extend_lem (suc fuel) [] done sl h = rw (append-nil sl.head) refl
  extend_lem (suc fuel) (s ∷ rest) done sl h =
      rw
        (
          append_lem sl s,
          next_lem done rest s,
          ← append_assoc sl.head (s ∷ []) rest,
          ← append_assoc done (s ∷ []) rest,
        )
        (extend_lem fuel rest (done ++ s ∷ []) (record sl { head = sl.head ++ s ∷ [] })
          (omega arith))

  to_argv_lem :
      (fuel : ℕ) (sl : Strlist) (strings : List Bytes) (sl' : Strlist)
      → walk fuel (strlist_rewind sl) ≡ some (strings, sl')
      → strlist_to_argv malloc fuel sl ≡ ok (walk fuel (strlist_rewind sl'))
  unfolding strlist_to_argv
  to_argv_lem fuel sl strings sl' e =
      rw (strlist_to_argv, e, memory (8 * (1 + length strings))) refl

  -- Where memory is left, with fuel for each string and one more: the list of an array, with those of
  -- another list behind them, gives the array of both, and each walk ends.
  pub from-to_argv :
      (fuel : ℕ) (argv : List Bytes) (src : Strlist)
      → length argv + length src.head < fuel
      → (sl : Strlist) × (sl' : Strlist) × (src' : Strlist) × (sl'' : Strlist) × (strlist_from_argv
            malloc argv
          ≡ ok sl)
        × (strlist_extend malloc fuel sl src ≡ ok (some (sl', src')))
        × (strlist_to_argv malloc fuel sl' ≡ ok (some (argv ++ src.head, sl'')))
        × (src'.head ≡ src.head)
  unfolding strlist_from_argv strlist_new strlist_extend
  from-to_argv fuel argv src h =
      let both = argv ++ src.head in
      let size = length-append argv src.head in
      let sl' : Strlist = record { head = both; cursor = none } in
      let walked = walk_lem fuel both [] (omega (arith, size)) in
      let again : walk fuel (strlist_rewind sl') ≡ some (both, sl') =
        ap (walk fuel) (rewind_lem sl') ∙ walked in
      (
        record { head = argv; cursor = none },
        sl',
        record { head = src.head; cursor = none },
        sl',
        extend_argv_lem argv (record { head = []; cursor = none }),
        rw (rewind_lem src)
            (extend_lem fuel src.head [] (record { head = argv; cursor = none }) (omega arith)),
        to_argv_lem fuel sl' both sl' again ∙ ap ok again,
        refl,
      )
