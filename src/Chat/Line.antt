-- ===== src/Chat/Line.antt =====
-- chat.c: a line that is read from the child.
use fb_adb.Prelude.{
  ℕ, suc, ◌+◌, ◌^◌, ◌≤◌, ◌≡◌, refl, ap, ◌∙◌, arith, Bool, true, none, some, inl, inr, Option-cases,
  ◌⊎◌, [], ◌∷◌, ◌++◌, Bytes, codes, length, length-append, length-take, take, take-append_length,
}
use fb_adb.Outcome.{ok, died, ecomm}
use fb_adb.Growable.{slurp_line, rtrim, trim_end}
use fb_adb.Growable.Held.{take-set}
use fb_adb.Growable.Line.{split_line, line_read, slurp_line_lem}
use fb_adb.Growable.Text.{Trimmed, trim_end-Trimmed, trim_end_le}
use fb_adb.Chat.{Chat, chat_read_line}

-- A buffer begins with the string and a NUL.
abbrev pub Terminated : Bytes → ℕ → Bytes → Type 0
Terminated buf n t = (length t ≡ n) × (take (suc n) buf ≡ t ++ 0 ∷ [])

rtrim-Trimmed :
    (cs line : Bytes)
    → (t : Bytes) × Trimmed cs line t
      × Terminated
          ((rtrim (line ++ 0 ∷ []) (length line) cs).0)
          ((rtrim (line ++ 0 ∷ []) (length line) cs).1)
          t
unfolding rtrim
rtrim-Trimmed cs line =
    let buf = line ++ 0 ∷ [] in
    let n = trim_end cs buf (length line) in
    let few : n ≤ length line = trim_end_le cs buf (length line) in
    let size : length buf ≡ length line + 1 = length-append line (0 ∷ []) in
    (
      take n buf,
      rw (take-append_length line (0 ∷ [])) at
          (trim_end-Trimmed cs buf (length line) (omega (arith, size))),
      (omega (arith, length-take n buf, few, size), take-set buf n 0 (omega (arith, size))),
    )

module _ (realloc : ℕ → Bool) (fresh : ℕ) where
  read_line_of :
      (chat : Chat) (line rest : Bytes)
      → slurp_line realloc fresh none chat.from ≡ ok (line_read (some (line, rest)))
      → chat_read_line realloc fresh none chat
        ≡ ok (rtrim (line ++ 0 ∷ []) (length line) (codes "\r\n"), record chat { from = rest })
  unfolding chat_read_line
  read_line_of chat line rest e = rw e refl

  -- Where memory is left and the child is yet to send at most 2^60 bytes: `chat_read_line` dies with
  -- ECOMM when they hold no whole line. Else it gives the first line, less the carriage returns, line
  -- feeds and NULs at its end, with a NUL behind it, and leaves what follows the line.
  pub read_line_lem :
      (chat : Chat)
      → ((sz : ℕ) → realloc sz ≡ true)
      → length chat.from ≤ 2 ^ 60
      → ((split_line chat.from ≡ none) × (chat_read_line realloc fresh none chat ≡ died ecomm))
        ⊎ ((line : Bytes) × (rest : Bytes) × (t : Bytes) × (buf : Bytes) × (n : ℕ) × (split_line
                chat.from
              ≡ some (line, rest))
            × (chat_read_line realloc fresh none chat ≡ ok ((buf, n), record chat { from = rest }))
            × Trimmed (codes "\r\n") line t
            × Terminated buf n t)
  unfolding chat_read_line
  read_line_lem chat memory small =
      let slurped = slurp_line_lem realloc fresh memory chat.from small in
      elim (Option-cases (split_line chat.from)) [
        | inl e ↦ inl (e, rw (slurped, e) refl)
        | inr (r, e) ↦
            let (t, trimmed, ends) = rtrim-Trimmed (codes "\r\n") r.0 in
            let string = rtrim (r.0 ++ 0 ∷ []) (length r.0) (codes "\r\n") in
            inr (
              r.0,
              r.1,
              t,
              string.0,
              string.1,
              e,
              read_line_of chat r.0 r.1 (slurped ∙ ap (λ o. ok (line_read o)) e),
              trimmed,
              ends,
            )
      ]
