-- ===== src/Growable/Tests.antt =====
-- A string of three bytes and white space, and a file of two lines.
use fb_adb.Prelude.{ℕ, ◌≡◌, refl, arith, Bool, true, none, codes}
use fb_adb.Outcome.{ok}
use fb_adb.Growable.{slurp_line}
use fb_adb.Growable.Line.{split_line, line_read, slurp_line_lem}

abbrev enough : ℕ → Bool
enough sz = true

slurp_line_lem_example :
    slurp_line enough 0 none (codes "ab\nc") ≡ ok (line_read (split_line (codes "ab\nc")))
slurp_line_lem_example = slurp_line_lem enough 0 (λ _. refl) (codes "ab\nc") (omega arith)
