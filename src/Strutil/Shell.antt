-- ===== src/Strutil/Shell.antt =====
-- How a POSIX shell reads one word: quotes, backslashes, and the characters that end a word or
-- that the shell expands. It stands apart from strutil.c, as what its words are written for.
use mathlib.Core.Option
use fb_adb.Prelude.{
  ℕ, Bool, false, ◌||◌, Option, none, some, [], ◌∷◌, ◌++◌, Bytes, codes, ◌==◌, if◌then◌else◌,
}

pub data ShellMode : Type 0 where
  bare quoted escaped : ShellMode

unfoldable pub one_of : Bytes → ℕ → Bool
one_of [] c = false
one_of (x ∷ xs) c = c == x || one_of xs c

-- What a bare word must not hold, and the shell does not take as it stands.
unfoldable pub special : ℕ → Bool
special = one_of (codes "|&;<>()$`\" \t\n*?[]#~=%!{}^")

-- What one byte adds to the word, and the mode behind it.
unfoldable pub shell_byte : ShellMode → ℕ → Option (Bytes × ShellMode)
shell_byte bare c =
    if c == b'\''
    then some ([], quoted)
    else if c == b'\\'
    then some ([], escaped)
    else if special c
    then none
    else some (c ∷ [], bare)
shell_byte quoted c = if c == b'\'' then some ([], bare) else some (c ∷ [], quoted)
shell_byte escaped c = some (c ∷ [], bare)

unfoldable pub shell_read : ShellMode → Bytes → Option Bytes
shell_read bare [] = some []
shell_read _ [] = none
shell_read m (c ∷ s) = elim (shell_byte m c) [
  | none ↦ none
  | some (out, m') ↦ Option.map (λ w. out ++ w) (shell_read m' s)
]

-- The word that a shell takes the text for; there is none behind an empty text.
unfoldable pub shell_word : Bytes → Option Bytes
shell_word [] = none
shell_word (c ∷ s) = shell_read bare (c ∷ s)
