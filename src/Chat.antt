-- ===== src/Chat.antt =====
-- chat.c: a dialogue with a shell behind a terminal. What the child is yet to send is a list of bytes,
-- with the end of the file behind it; what was written is another. The signedness of char is a parameter.
-- The texts of messages are left out.
pub mod Prompt
pub mod Echo
pub mod Line
mod Tests
use fb_adb.Prelude.{
  ℕ, zero, suc, ◌+◌, ◌-◌, ◌*◌, ◌%◌, ◌^◌, Bool, true, false, Option, none, some, [], ◌∷◌, ◌++◌,
  Bytes, codes, ltb, leb, ◌==◌, ◌&&◌, ◌||◌, not, if◌then◌else◌,
}
use fb_adb.Outcome.{Errno, ecomm, Outcome, ok, died, ◌>>=◌, ◌>>◌, die_if}
use fb_adb.Growable.{GrowableBuffer, slurp_line, rtrim}

-- `calls` counts the calls of `fputs`, `putc` and `fflush`.
pub record Chat : Type 0 where
  pub to : Bytes
  pub from : Bytes
  pub calls : ℕ

unfoldable pub chat_getc : Chat → Outcome (ℕ × Chat)
chat_getc chat = elim chat.from [ [] ↦ died ecomm | c ∷ from ↦ ok (c, record chat { from = from }) ]

unfoldable pub chat_expect : Chat → ℕ → Outcome Chat
chat_expect chat expected = chat_getc chat >>= λ r. if r.0 == expected then ok r.1 else died ecomm

-- The byte goes through a char: where that is signed, 0xff is EOF, which `ungetc` does not put back.
unfoldable pub chat_expect_maybe : Bool → Chat → ℕ → Outcome (Bool × Chat)
chat_expect_maybe char_signed chat expected = chat_getc chat >>= λ r.
    if r.0 == expected
    then ok (true, r.1)
    else if char_signed && r.0 == 0xff
    then ok (false, r.1)
    else ok (false, chat)

unfoldable pub chat_expect_all : Chat → Bytes → Outcome Chat
chat_expect_all chat [] = ok chat
chat_expect_all chat (c ∷ what) = chat_expect chat c >>= λ chat'. chat_expect_all chat' what

pub data PromptState : Type 0 where
  s_normal s_after_esc s_after_csi : PromptState

-- The value of the flag.
abbrev pub chat_swallow_prompt_flag : ℕ → Bool
chat_swallow_prompt_flag flags = flags % 2 == 1

-- Whether a call that writes succeeds, by its number.
module _ (writes : ℕ → Bool) where
  -- A call that writes, and `chat_die` where it fails.
  unfoldable pub chat_put : Chat → Bytes → Outcome Chat
  chat_put chat s =
      if writes chat.calls
      then ok (record chat { to = chat.to ++ s; calls = chat.calls + 1 })
      else died ecomm

  unfoldable pub reply : Chat → ℕ → Outcome Chat
  reply chat csi_arg =
      if csi_arg == 5
      then chat_put chat (codes "\u{1b}[0n")
      else if csi_arg == 6
      then chat_put chat (codes "\u{1b}[25;80R")
      else ok chat

  -- What one byte that is no prompt does.
  unfoldable pub swallow_byte : PromptState → ℕ → ℕ → Chat → Outcome (PromptState × ℕ × Chat)
  swallow_byte s_normal csi_arg c chat =
      if c == 0x1b then ok (s_after_esc, csi_arg, chat) else ok (s_normal, csi_arg, chat)
  swallow_byte s_after_esc csi_arg c chat =
      if c == b'[' then ok (s_after_csi, 0, chat) else ok (s_normal, csi_arg, chat)
  swallow_byte s_after_csi csi_arg c chat =
      let answered : Outcome (PromptState × ℕ × Chat) = (do
        chat' ← reply chat csi_arg
        chat'' ← chat_put chat' []
        ok (s_normal, csi_arg, chat'')) in
      if leb b'0' c && leb c b'9'
      then ok (s_after_csi, (10 * csi_arg + (c - b'0')) % 2 ^ 32, chat)
      else if c == b'n'
      then answered
      else ok (s_normal, csi_arg, chat)

  -- The loop over the bytes that the child is yet to send, until the prompt.
  unfoldable pub swallow_loop : PromptState → ℕ → Bytes → Chat → Outcome Chat
  swallow_loop state csi_arg [] chat = died ecomm
  swallow_loop state csi_arg (c ∷ from) chat =
      let rest = swallow_byte state csi_arg c chat >>= λ r. swallow_loop r.0 r.1 from r.2 in
      if c == b'#' || c == b'$' then ok (record chat { from = from }) else rest

  unfoldable pub chat_swallow_prompt : Chat → Outcome Chat
  chat_swallow_prompt chat =
      swallow_loop s_normal 0 chat.from chat >>= λ chat'. chat_expect chat' b' '

  -- A status query of busybox in front of the echo: what is left of the echo to expect.
  unfoldable pub skip_query : Bool → ℕ → Chat → Bytes → Outcome (Bytes × Chat)
  skip_query char_signed flags chat [] = ok ([], chat)
  skip_query char_signed flags chat (w ∷ what) =
      let skipped : Outcome (Bytes × Chat) = (do
        first ← chat_expect_maybe char_signed chat w
        esc ← if first.0 then ok (false, first.1) else chat_expect_maybe char_signed first.1 0x1b
        chat' ←
            if esc.0
            then (do a ← chat_expect esc.1 b'['; b ← chat_expect a b'6'; chat_expect b b'n')
            else ok esc.1
        ok (if first.0 then what else w ∷ what, chat')) in
      if chat_swallow_prompt_flag flags then skipped else ok (w ∷ what, chat)

  -- The line end that comes back for a line feed.
  unfoldable pub expect_line_end : Bool → Chat → Outcome Chat
  expect_line_end char_signed chat = do
    chat1 ← chat_expect chat b'\r'
    maybe ← chat_expect_maybe char_signed chat1 b'\r'
    chat_expect maybe.1 b'\n'

  unfoldable pub chat_talk_at : Bool → Chat → Bytes → ℕ → Outcome Chat
  chat_talk_at char_signed chat what flags = do
    chat1 ← if chat_swallow_prompt_flag flags then chat_swallow_prompt chat else ok chat
    chat2 ← chat_put chat1 what
    chat3 ← chat_put chat2 (codes "\n")
    chat4 ← chat_put chat3 []
    skipped ← skip_query char_signed flags chat4 what
    chat5 ← chat_expect_all skipped.1 skipped.0
    expect_line_end char_signed chat5

-- The string, and what is left. `err` is the error that ends the file, if one does.
unfoldable pub chat_read_line : (ℕ → Bool) → ℕ → Option Errno → Chat → Outcome ((Bytes × ℕ) × Chat)
chat_read_line realloc fresh err chat = do
  r ← slurp_line realloc fresh err chat.from
  elim r.0 [
    | none ↦ died ecomm
    | some (gb, linesz) ↦ ok (rtrim gb.buf linesz (codes "\r\n"), record chat { from = r.1 })
  ]
