-- ===== src/Strutil.antt =====
-- strutil.c: output into a buffer of limited size, and quoting of words for a shell. A C string is
-- the list of its bytes before the NUL; `pos` and the buffer that a call updates are a record.
mod Shell
pub mod Buffer
pub mod Quote
mod Tests
use fb_adb.Prelude.{
  ℕ, ◌+◌, ◌%◌, ◌^◌, Bool, true, false, not, ◌&&◌, ◌||◌, Option, none, some, [], ◌∷◌, ◌++◌, Bytes,
  codes, length, set, replicate, ltb, leb, ◌==◌, if◌then◌else◌,
}

-- `*pos` and the bytes behind `buf`.
pub record Lim : Type 0 where
  pub pos : ℕ
  pub buf : Bytes

pub lim_outc : ℕ → ℕ → Lim → Lim
lim_outc bufsz c l = record {
  pos = (l.pos + 1) % 2 ^ 64;
  buf = if ltb l.pos bufsz then set l.buf l.pos c else l.buf;
}

pub lim_strcat : ℕ → Bytes → Lim → Lim
lim_strcat bufsz [] l = l
lim_strcat bufsz (c ∷ s) l = lim_strcat bufsz s (lim_outc bufsz c l)

-- `strchr(set, c) != NULL` for a byte that is not NUL.
pub strchr : Bytes → ℕ → Bool
strchr [] c = false
strchr (x ∷ xs) c = x == c || strchr xs c

-- The test of the loop of `shell_safe_word_p`.
pub safe_char : ℕ → Bool
safe_char c =
    (leb b'a' c && leb c b'z')
    || (leb b'A' c && leb c b'Z')
    || (leb b'0' c && leb c b'9')
    || strchr (codes "-_/.") c

pub all_safe : Bytes → Bool
all_safe [] = true
all_safe (c ∷ word) = safe_char c && all_safe word

pub shell_safe_word_p : Bytes → Bool
shell_safe_word_p [] = false
shell_safe_word_p (c ∷ word) = all_safe (c ∷ word)

-- `c < ' ' || c == (char) 0x7F`. Where `char` is signed a byte from 0x80 on is negative.
pub control_char : Bool → ℕ → Bool
control_char char_signed c = ltb c b' ' || (char_signed && leb 0x80 c) || c == 0x7f

-- The loop of `lim_shellquote` between its two quotes; `none` where it dies.
pub quote_body : Bool → ℕ → Bytes → Lim → Option Lim
quote_body char_signed bufsz [] l = some l
quote_body char_signed bufsz (c ∷ word) l =
    let next = if c == b'\'' then lim_strcat bufsz (codes "'\\''") l else lim_outc bufsz c l in
    let rest = quote_body char_signed bufsz word next in
    if control_char char_signed c then none else rest

pub lim_shellquote : Bool → ℕ → Bytes → Lim → Option Lim
lim_shellquote char_signed bufsz word l =
    if shell_safe_word_p word
    then some (lim_strcat bufsz word l)
    else elim (quote_body char_signed bufsz word (lim_strcat bufsz (codes "'") l)) [
      | none ↦ none
      | some l' ↦ some (lim_strcat bufsz (codes "'") l')
    ]

-- `xshellquote`. What `xalloc` returns is the parameter `xalloc`, a block for each size.
pub xshellquote : Bool → (ℕ → Bytes) → Bytes → Option Bytes
xshellquote char_signed xalloc word =
    elim (lim_shellquote char_signed 0 word (record { pos = 0; buf = [] })) [
      | none ↦ none
      | some counted ↦
          let bufsz = counted.pos in
          elim (lim_shellquote char_signed bufsz word
            (record { pos = 0; buf = xalloc ((bufsz + 1) % 2 ^ 64) })) [
              | none ↦ none
              | some filled ↦ some (set filled.buf bufsz 0)
            ]
    ]
