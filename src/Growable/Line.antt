-- ===== src/Growable/Line.antt =====
-- fs.c: the reader of lines, against the first line of a text.
use mathlib.Core.Option
use fb_adb.Prelude.{
  ℕ, suc, ◌+◌, ◌^◌, ◌≤◌, ◌≡◌, refl, arith, Bool, true, ◌⊎◌, inl, inr, Bool-cases, Option, none,
  some, [], ◌∷◌, ◌++◌, append_assoc, Bytes, length, length-append, set, ◌==◌, if◌then◌else◌,
}
use fb_adb.Outcome.{ok}
use fb_adb.Growable.{GrowableBuffer, empty_buffer, slurp_loop, slurp_line}
use fb_adb.Growable.Held.{Holds, empty-Holds, close_lem, Holds-set, resize_lem, room_lem}

-- The first line with its line feed, and what follows it.
abbrev pub split_line : Bytes → Option (Bytes × Bytes)
split_line [] = none
split_line (c ∷ cs) =
    if c == b'\n' then some (c ∷ [], cs) else Option.map (λ r. (c ∷ r.0, r.1)) (split_line cs)

-- A line in a buffer of just its size and a NUL, and what is left in the file.
abbrev pub line_read : Option (Bytes × Bytes) → Option (GrowableBuffer × ℕ) × Bytes
line_read none = (none, [])
line_read (some (line, rest)) =
    (some (record { bufsz = length line + 1; buf = line ++ 0 ∷ [] }, length line), rest)

abbrev Looped : (ℕ → Bool) → ℕ → Bytes → Bytes → GrowableBuffer → Type 0
Looped realloc fresh text file gb =
    ((split_line file ≡ none)
      × (slurp_loop realloc fresh none file gb (length text) ≡ ok (none, [])))
    ⊎ ((line : Bytes) × (rest : Bytes) × (gb' : GrowableBuffer) × (split_line file
          ≡ some (line, rest))
        × (slurp_loop realloc fresh none file gb (length text)
            ≡ ok (some (gb', length (text ++ line)), rest))
        × Holds gb' (text ++ line))

module _ (realloc : ℕ → Bool) (fresh : ℕ) (memory : (sz : ℕ) → realloc sz ≡ true) where
  slurp_loop_lem :
      (file text : Bytes) (gb : GrowableBuffer)
      → Holds gb text
      → length text + length file ≤ 2 ^ 60
      → Looped realloc fresh text file gb
  unfolding slurp_loop
  slurp_loop_lem [] text gb h small = inl (refl, refl)
  slurp_loop_lem (c ∷ file) text gb h small =
      let (gb', made, h', room) = room_lem realloc fresh memory gb text h (omega arith) in
      let stored = record gb' { buf = set gb'.buf (length text) c } in
      let held = Holds-set c h' (ground arith) in
      let size : length (text ++ c ∷ []) ≡ suc (length text) =
        omega (arith, length-append text (c ∷ [])) in
      elim (Bool-cases (c == b'\n')) [
        | inl e ↦ inr (c ∷ [], file, stored, rw e refl, rw (made, room, e, size) refl, held)
        | inr e ↦
            let later =
              rw size at (slurp_loop_lem file (text ++ c ∷ []) stored held (omega (arith, size))) in
            elim later [
              | inl (no_line, looped) ↦ inl (rw (e, no_line) refl, rw (made, room, e) looped)
              | inr (line, rest, gb2, found, looped, held2) ↦
                  let whole : (text ++ c ∷ []) ++ line ≡ text ++ (c ∷ line) =
                    append_assoc text (c ∷ []) line in
                  inr (
                    c ∷ line,
                    rest,
                    gb2,
                    rw (e, found) refl,
                    rw (made, room, e) (rw whole at looped),
                    rw whole at held2,
                  )
            ]
      ]

  -- Where memory is left and the file is at most 2^60 bytes long, `slurp_line` gives the first line
  -- with its line feed and a NUL in a buffer of just that size and leaves what follows; a last line
  -- without a line feed is dropped.
  pub slurp_line_lem :
      (file : Bytes)
      → length file ≤ 2 ^ 60
      → slurp_line realloc fresh none file ≡ ok (line_read (split_line file))
  unfolding slurp_line
  slurp_line_lem file small = elim (slurp_loop_lem file [] empty_buffer empty-Holds (omega arith)) [
    | inl (no_line, looped) ↦ rw (no_line, looped) refl
    | inr (line, rest, gb, found, looped, held) ↦
        let n = length line in
        let last = close_lem gb line 0 fresh held in
        rw (found, looped) (rw (resize_lem realloc fresh memory gb (n + 1)) (rw last refl))
  ]
