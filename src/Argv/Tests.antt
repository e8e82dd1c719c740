-- ===== src/Argv/Tests.antt =====
-- Three strings in two arrays, and two lists.
use fb_adb.Prelude.{ℕ, ◌≡◌, refl, arith, Bool, true, none, List, [], ◌∷◌, Bytes, codes}
use fb_adb.Outcome.{ok}
use fb_adb.Argv.{Strlist, argv_concat_internal}
use fb_adb.Argv.Concat.{flatten, terminated, argv_concat_lem}

abbrev enough : ℕ → Bool
enough sz = true

abbrev two : List Bytes
two = codes "ls" ∷ codes "-l" ∷ []

abbrev arrays : List (List Bytes)
arrays = two ∷ [] ∷ (codes "x" ∷ []) ∷ []

argv_concat_lem_example :
    argv_concat_internal enough none true arrays ≡ ok (terminated (flatten arrays))
argv_concat_lem_example = argv_concat_lem enough none (λ _. refl) true arrays (omega arith)

abbrev other : Strlist
other = record { head = codes "x" ∷ []; cursor = none }
