-- ===== src/Strutil/Tests.antt =====
-- Runs of strutil.c, and the theorems at concrete words.
use fb_adb.Prelude.{
  ◌≡◌, refl, [], ◌∷◌, ◌++◌, codes, true, some, replicate, length-replicate, if◌then◌else◌, none,
  arith,
}
use fb_adb.Strutil.{
  xshellquote, lim_strcat, lim_outc, lim_shellquote, shell_safe_word_p, all_safe, safe_char, strchr,
  quote_body, control_char,
}
use fb_adb.Strutil.Shell.{shell_word}
use fb_adb.Strutil.Quote.{shell_text, quote_text, refused, xshellquote_lem, shell_word-shell_text}

xshellquote_sample :
    xshellquote true (λ n. replicate n 7) (codes "it's") ≡ some (codes "'it'\\''s'" ++ 0 ∷ [])
unfolding xshellquote lim_strcat lim_outc lim_shellquote shell_safe_word_p all_safe safe_char strchr
    quote_body control_char
xshellquote_sample = refl

-- Where `char` is signed, a byte of UTF-8 is taken for a control character.
xshellquote_signed : xshellquote true (λ n. replicate n 7) (0xc3 ∷ 0xa9 ∷ []) ≡ none
unfolding xshellquote lim_strcat lim_outc lim_shellquote shell_safe_word_p all_safe safe_char strchr
    quote_body control_char
xshellquote_signed = refl

xshellquote_lem_example :
    xshellquote true (λ n. replicate n 7) (codes "it's")
    ≡ (if refused true (codes "it's") then none else some (shell_text (codes "it's") ++ 0 ∷ []))
unfolding shell_text quote_text shell_safe_word_p all_safe safe_char strchr
xshellquote_lem_example =
    xshellquote_lem true (λ n. replicate n 7) (codes "it's") (λ n. length-replicate n 7)
      (omega arith)

shell_word-shell_text_example : shell_word (shell_text (codes "a b")) ≡ some (codes "a b")
shell_word-shell_text_example = shell_word-shell_text (codes "a b")
