-- ===== src/Strutil/Quote.antt =====
-- `lim_shellquote` and `xshellquote`: the text that they write, and how a shell reads it.
use mathlib.Core.Option
use fb_adb.Prelude.{
  ℕ, ◌+◌, ◌%◌, ◌^◌, ◌<◌, ◌≡◌, refl, ap, arith, Bool, true, false, [], ◌∷◌, ◌++◌, ◌||◌, append-nil,
  Bytes, codes, length, drop, set, length-drop, leb, ◌&&◌, ◌==◌, if◌then◌else◌, none, some,
  Bool-cases, inl, inr,
}
use fb_adb.Strutil.{
  Lim, lim_outc, lim_strcat, safe_char, all_safe, shell_safe_word_p, control_char, quote_body,
  lim_shellquote, xshellquote, strchr,
}
use fb_adb.Strutil.Buffer.{lim_strcat-append, lim_strcat_past, lim_strcat_within}
use fb_adb.Strutil.Shell.{bare, quoted, one_of, special, shell_byte, shell_read, shell_word}

-- A word as it stands between single quotes.
unfoldable pub quote_text : Bytes → Bytes
quote_text [] = []
quote_text (c ∷ word) = (if c == b'\'' then codes "'\\''" else c ∷ []) ++ quote_text word

-- The text for a word.
unfoldable pub shell_text : Bytes → Bytes
shell_text word =
    if shell_safe_word_p word then word else codes "'" ++ (quote_text word ++ codes "'")

pub any_control : Bool → Bytes → Bool
any_control char_signed [] = false
any_control char_signed (c ∷ word) = control_char char_signed c || any_control char_signed word

-- A byte that ASCII has as a control character.
abbrev pub ascii_control : ℕ → Bool
ascii_control c = leb c 31 || c == 127

-- Whether the word has an ASCII control character, or, where char is signed, a byte behind ASCII.
unfoldable pub refused : Bool → Bytes → Bool
refused char_signed [] = false
refused char_signed (c ∷ word) =
    ascii_control c || (char_signed && leb 128 c) || refused char_signed word

control_byte : (cs : Bool) (c : ℕ) → control_char cs c ≡ (ascii_control c || (cs && leb 128 c))
unfolding control_char
control_byte true c = ground arith
control_byte false c = ground arith

or_assoc : (a b c : Bool) → ((a || b) || c) ≡ (a || b || c)
or_assoc true b c = refl
or_assoc false b c = refl

any_control-refused : (cs : Bool) (word : Bytes) → any_control cs word ≡ refused cs word
unfolding any_control refused
any_control-refused cs [] = refl
any_control-refused cs (c ∷ word) =
    rw (control_byte cs c, any_control-refused cs word)
      (or_assoc (ascii_control c) (cs && leb 128 c) (refused cs word))

outc-strcat : (bufsz c : ℕ) (l : Lim) → lim_strcat bufsz (c ∷ []) l ≡ lim_outc bufsz c l
unfolding lim_strcat
outc-strcat bufsz c l = refl

quote_body_lem :
    (cs : Bool) (bufsz : ℕ) (word : Bytes) (l : Lim)
    → quote_body cs bufsz word l
      ≡ (if any_control cs word then none else some (lim_strcat bufsz (quote_text word) l))
unfolding quote_body any_control quote_text
quote_body_lem cs bufsz [] l = unfold lim_strcat in refl
quote_body_lem cs bufsz (c ∷ word) l = ground (
  arith,
  quote_body_lem cs bufsz word (lim_strcat bufsz (codes "'\\''") l),
  quote_body_lem cs bufsz word (lim_outc bufsz c l),
  lim_strcat-append bufsz (codes "'\\''") (quote_text word) l,
  lim_strcat-append bufsz (c ∷ []) (quote_text word) l,
  outc-strcat bufsz c l,
)

safe_not_control : (cs : Bool) (word : Bytes) → all_safe word ≡ true → any_control cs word ≡ false
unfolding all_safe safe_char strchr any_control control_char
safe_not_control cs [] h = refl
safe_not_control cs (c ∷ word) h = ground (arith, safe_not_control cs word)

safe_word_not_control :
    (cs : Bool) (word : Bytes) → shell_safe_word_p word ≡ true → any_control cs word ≡ false
unfolding shell_safe_word_p
safe_word_not_control cs [] h = cc
safe_word_not_control cs (c ∷ word) h = safe_not_control cs (c ∷ word) h

-- The text goes to the buffer, unless a byte of the word is a control character.
pub lim_shellquote_lem :
    (cs : Bool) (bufsz : ℕ) (word : Bytes) (l : Lim)
    → lim_shellquote cs bufsz word l
      ≡ (if any_control cs word then none else some (lim_strcat bufsz (shell_text word) l))
unfolding lim_shellquote shell_text
lim_shellquote_lem cs bufsz word l = elim (Bool-cases (shell_safe_word_p word)) [
  | inl safe ↦ ground (arith, safe_word_not_control cs word)
  | inr unsafe ↦ ground (
    arith,
    quote_body_lem cs bufsz word (lim_strcat bufsz (codes "'") l),
    lim_strcat-append bufsz (codes "'") (quote_text word ++ codes "'") l,
    lim_strcat-append bufsz (quote_text word) (codes "'") (lim_strcat bufsz (codes "'") l),
  )
]

abbrev fresh : (ℕ → Bytes) → ℕ → Lim
fresh xalloc n = record { pos = 0; buf = xalloc ((n + 1) % 2 ^ 64) }

set_last : (t f : Bytes) → length f ≡ 1 → set (t ++ f) (length t) 0 ≡ t ++ 0 ∷ []
set_last [] (y ∷ []) h = refl
set_last [] [] h = absurd (omega arith)
set_last [] (y ∷ z ∷ f) h = absurd (omega arith)
set_last (x ∷ t) f h = ap (◌∷◌ x) (set_last t f h)

xshellquote_text :
    (cs : Bool) (xalloc : ℕ → Bytes) (word : Bytes)
    → ((n : ℕ) → length (xalloc n) ≡ n)
    → length (shell_text word) + 1 < 2 ^ 64
    → xshellquote cs xalloc word
      ≡ (if any_control cs word then none else some (shell_text word ++ 0 ∷ []))
unfolding xshellquote
xshellquote_text cs xalloc word law w = ground (
  arith,
  lim_shellquote_lem cs 0 word (record { pos = 0; buf = [] }),
  lim_strcat_past 0 (shell_text word) (record { pos = 0; buf = [] }),
  lim_shellquote_lem cs (length (shell_text word)) word (fresh xalloc (length (shell_text word))),
  lim_strcat_within (length (shell_text word)) (shell_text word) []
      (xalloc ((length (shell_text word) + 1) % 2 ^ 64)),
  law ((length (shell_text word) + 1) % 2 ^ 64),
  length-drop (length (shell_text word)) (xalloc ((length (shell_text word) + 1) % 2 ^ 64)),
  set_last (shell_text word)
      (drop (length (shell_text word)) (xalloc ((length (shell_text word) + 1) % 2 ^ 64))),
)

-- `xshellquote` dies exactly if the word has an ASCII control character or, where char is signed, a byte
-- from 128 on, so any character outside ASCII. Else it returns the text for the word, of the size that it
-- counted first, and a NUL. `xalloc` is as documented, and the size does not wrap.
pub xshellquote_lem :
    (cs : Bool) (xalloc : ℕ → Bytes) (word : Bytes)
    → ((n : ℕ) → length (xalloc n) ≡ n)
    → length (shell_text word) + 1 < 2 ^ 64
    → xshellquote cs xalloc word
      ≡ (if refused cs word then none else some (shell_text word ++ 0 ∷ []))
xshellquote_lem cs xalloc word law w =
    rw⁻¹ (any_control-refused cs word) (xshellquote_text cs xalloc word law w)

-- What a shell reads between single quotes is the word, with any `rest` behind the quote.
read_quoted :
    (word rest : Bytes)
    → shell_read quoted (quote_text word ++ b'\'' ∷ rest)
      ≡ Option.map (λ w. word ++ w) (shell_read bare rest)
unfolding shell_read shell_byte quote_text special one_of
read_quoted [] rest = refl
read_quoted (c ∷ word) rest = ground (arith, read_quoted word rest)

safe_bare : (c : ℕ) → safe_char c ≡ true → shell_byte bare c ≡ some (c ∷ [], bare)
unfolding safe_char strchr shell_byte special one_of
safe_bare c h = ground arith

read_safe : (word : Bytes) → all_safe word ≡ true → shell_read bare word ≡ some word
unfolding all_safe shell_read
read_safe [] h = refl
read_safe (c ∷ word) h = ground (arith, safe_bare c, read_safe word)

read_word : (word : Bytes) → shell_word (codes "'" ++ (quote_text word ++ codes "'")) ≡ some word
unfolding shell_word shell_read shell_byte
read_word word = ground (arith, read_quoted word [], append-nil word)

-- A shell takes the text for exactly the word, whatever bytes it holds.
pub shell_word-shell_text : (word : Bytes) → shell_word (shell_text word) ≡ some word
unfolding shell_text shell_safe_word_p
shell_word-shell_text [] = read_word []
shell_word-shell_text (c ∷ word) = elim (Bool-cases (all_safe (c ∷ word))) [
  | inl safe ↦ rw safe (unfold shell_word in read_safe (c ∷ word) safe)
  | inr unsafe ↦ rw unsafe (read_word (c ∷ word))
]
