-- ===== src/Chat/Prompt.antt =====
-- chat.c: what a shell sends before its prompt, and a whole exchange behind a prompt.
use fb_adb.Prelude.{
  ℕ, ◌+◌, ◌-◌, ◌*◌, ◌%◌, ◌^◌, ◌≡◌, Bool, true, false, ◌&&◌, ◌||◌, List, [], ◌∷◌, ◌++◌, Bytes, codes,
  leb, ◌==◌, if◌then◌else◌, All,
}
use fb_adb.Outcome.{Outcome}
use fb_adb.Chat.{Chat, s_normal, swallow_loop}

-- A byte, an escape sequence of one byte, or one with a number and a final byte.
pub data Item : Type 0 where
  byte : ℕ → Item
  escaped : ℕ → Item
  control : Bytes → ℕ → Item

abbrev pub is_prompt : ℕ → Bool
is_prompt c = c == b'#' || c == b'$'

abbrev pub is_digit : ℕ → Bool
is_digit c = leb b'0' c && leb c b'9'

abbrev pub Proper : Item → Type 0
Proper (byte c) = ((c == 0x1b) ≡ false) × (is_prompt c ≡ false)
Proper (escaped c) = ((c == b'[') ≡ false) × (is_prompt c ≡ false)
Proper (control ds c) =
    All (λ d. is_digit d ≡ true) ds × (is_digit c ≡ false) × (is_prompt c ≡ false)

abbrev pub render : Item → Bytes
render (byte c) = c ∷ []
render (escaped c) = 0x1b ∷ c ∷ []
render (control ds c) = 0x1b ∷ b'[' ∷ (ds ++ c ∷ [])

abbrev pub render_all : List Item → Bytes
render_all [] = []
render_all (i ∷ is) = render i ++ render_all is

-- The number that some digits continue, on 32 bits.
abbrev pub value : ℕ → Bytes → ℕ
value n [] = n
value n (d ∷ ds) = value ((10 * n + (d - b'0')) % 2 ^ 32) ds

-- The answer to the status queries 5 and 6 of a terminal.
abbrev pub answer : Item → Bytes
answer (byte c) = []
answer (escaped c) = []
answer (control ds c) =
    if c == b'n'
    then if value 0 ds == 5
      then codes "\u{1b}[0n"
      else if value 0 ds == 6
      then codes "\u{1b}[25;80R"
      else []
    else []

abbrev pub answer_all : List Item → Bytes
answer_all [] = []
answer_all (i ∷ is) = answer i ++ answer_all is

-- A query for the position of the cursor, or nothing.
abbrev pub cursor_query : Bool → Bytes
cursor_query true = codes "\u{1b}[6n"
cursor_query false = []

module _ (writes : ℕ → Bool) (all : (k : ℕ) → writes k ≡ true) where
  -- The loop goes on behind an item with the answer written.
  abbrev Passed : Item → Bytes → ℕ → Chat → Type 0
  Passed i rest n chat =
      (n' : ℕ) × (calls : ℕ) × (swallow_loop writes s_normal n (render i ++ rest) chat
        ≡ swallow_loop writes s_normal n' rest
            (record chat { to = chat.to ++ answer i; calls = calls }))
