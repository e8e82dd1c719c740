-- ===== src/Argv/Concat.antt =====
-- argv.c: the concatenation of arrays.
use fb_adb.Prelude.{
  ℕ, suc, ◌+◌, ◌*◌, ◌/◌, ◌-◌, ◌%◌, ◌^◌, ◌<◌, ◌≡◌, refl, ap, ◌∙◌, arith, Bool, true, false, ◌||◌,
  Option, none, some, List, [], ◌∷◌, ◌++◌, append_assoc, append-nil, Bytes, length, length-append,
  set, replicate, ltb, ◌==◌, if◌then◌else◌,
}
use fb_adb.Outcome.{ok}
use fb_adb.Util.{size_mod, satadd}
use fb_adb.Argv.{argv_count, total_count, put_string, put_strings, put_arrays, argv_concat_internal}

-- All strings of some arrays, in order.
abbrev pub flatten : List (List Bytes) → List Bytes
flatten [] = []
flatten (argv ∷ args) = argv ++ flatten args

-- An array with its NULL.
abbrev pub terminated : List Bytes → List (Option Bytes)
terminated [] = none ∷ []
terminated (s ∷ argv) = some s ∷ terminated argv

-- Some strings and slots that are not yet written.
abbrev slots : Option Bytes → ℕ → List Bytes → List (Option Bytes)
slots fresh n [] = replicate n fresh
slots fresh n (s ∷ argv) = some s ∷ slots fresh n argv

argv_count_lem : (argv : List Bytes) → argv_count argv ≡ length argv
unfolding argv_count
argv_count_lem [] = refl
argv_count_lem (s ∷ argv) = ap suc (argv_count_lem argv)

total_lem :
    (args : List (List Bytes)) (t : ℕ)
    → t + length (flatten args) < 2 ^ 32
    → total_count t args ≡ ok (t + length (flatten args))
unfolding total_count satadd
total_lem [] t h = ap ok (omega arith)
total_lem (argv ∷ args) t h =
    let size = length-append argv (flatten args) in
    let count = argv_count_lem argv in
    let small : ltb (size_mod - 1 - t) (length argv) ≡ false = ground (arith, size) in
    rw (count, small)
      (total_lem args (t + length argv) (omega (arith, size)) ∙ ap ok (omega (arith, size)))

set-slots :
    (fresh : Option Bytes) (n : ℕ) (argv : List Bytes) (s : Bytes)
    → set (slots fresh (suc n) argv) (length argv) (some s) ≡ slots fresh n (argv ++ s ∷ [])
set-slots fresh n [] s = refl
set-slots fresh n (x ∷ argv) s = ap (λ w. some x ∷ w) (set-slots fresh n argv s)

set-last :
    (fresh : Option Bytes) (argv : List Bytes)
    → set (slots fresh 1 argv) (length argv) none ≡ terminated argv
set-last fresh [] = refl
set-last fresh (x ∷ argv) = ap (λ w. some x ∷ w) (set-last fresh argv)

module _ (malloc : ℕ → Bool) (fresh : Option Bytes) (memory : (sz : ℕ) → malloc sz ≡ true)
    (deepcopy : Bool) where
  put_lem :
      (new_argv : List (Option Bytes)) (pos : ℕ) (s : Bytes)
      → pos + 1 < 2 ^ 32
      → put_string malloc fresh deepcopy new_argv pos s ≡ ok (set new_argv pos (some s), pos + 1)
  unfolding put_string
  put_lem new_argv pos s h =
      let enough : (if deepcopy then malloc (length s + 1) else true) ≡ true =
        ground (arith, memory (length s + 1)) in
      let small : (pos + 1) % 2 ^ 32 ≡ pos + 1 = omega arith in rw (enough, small) refl

  put_strings_lem :
      (argv before : List Bytes) (n : ℕ)
      → length before + length argv < 2 ^ 32
      → put_strings malloc fresh deepcopy
          (slots fresh (length argv + n) before)
          (length before)
          argv
        ≡ ok (slots fresh n (before ++ argv), length (before ++ argv))
  unfolding put_strings
  put_strings_lem [] before n h =
      let same : 0 + n ≡ n = omega arith in rw (same, append-nil before) refl
  put_strings_lem (s ∷ argv) before n h =
      let more : suc (length argv) + n ≡ suc (length argv + n) = omega arith in
      let whole : (before ++ s ∷ []) ++ argv ≡ before ++ (s ∷ argv) =
        append_assoc before (s ∷ []) argv in
      let size : length (before ++ s ∷ []) ≡ length before + 1 = length-append before (s ∷ []) in
      rw
        (
          more,
          put_lem (slots fresh (suc (length argv + n)) before) (length before) s (omega arith),
          set-slots fresh (length argv + n) before s,
          ← size,
          ← whole,
        )
        (put_strings_lem argv (before ++ s ∷ []) n (omega (arith, size)))

  put_arrays_lem :
      (args : List (List Bytes)) (before : List Bytes) (n : ℕ)
      → length before + length (flatten args) < 2 ^ 32
      → put_arrays malloc fresh deepcopy
          (slots fresh (length (flatten args) + n) before)
          (length before)
          args
        ≡ ok (slots fresh n (before ++ flatten args), length (before ++ flatten args))
  unfolding put_arrays
  put_arrays_lem [] before n h =
      let same : 0 + n ≡ n = omega arith in rw (same, append-nil before) refl
  put_arrays_lem (argv ∷ args) before n h =
      let size = length-append argv (flatten args) in
      let more : length (argv ++ flatten args) + n ≡ length argv + (length (flatten args) + n) =
        omega (arith, size) in
      let whole : (before ++ argv) ++ flatten args ≡ before ++ (argv ++ flatten args) =
        append_assoc before argv (flatten args) in
      rw
        (
          more,
          put_strings_lem argv before (length (flatten args) + n) (omega (arith, size)),
          ← whole,
        )
        (put_arrays_lem args (before ++ argv) n (omega (arith, size, length-append before argv)))

  -- Where memory is left and there are fewer than 2^32 strings: the concatenation of some arrays,
  -- copied or not, is an array of all their strings in order and a NULL.
  pub argv_concat_lem :
      (args : List (List Bytes))
      → length (flatten args) < 2 ^ 32
      → argv_concat_internal malloc fresh deepcopy args ≡ ok (terminated (flatten args))
  unfolding argv_concat_internal
  argv_concat_lem args h =
      let n = length (flatten args) in
      let zero_first : 0 + n ≡ n = omega arith in
      let slots_lem : replicate (1 + n) fresh ≡ slots fresh (n + 1) [] =
        ap (λ k. replicate k fresh) (omega arith) in
      let legal : (n == size_mod - 1 || ltb ((size_mod - 1) / 8) (n + 1)) ≡ false = ground arith in
      let all_written : (n == n) ≡ true = ground arith in
      rw
        (
          total_lem args 0 (omega arith),
          zero_first,
          legal,
          memory (8 * (1 + n)),
          slots_lem,
          put_arrays_lem args [] 1 (omega arith),
          all_written,
        )
        (ap ok (set-last fresh (flatten args)))
