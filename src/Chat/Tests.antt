-- ===== src/Chat/Tests.antt =====
-- A shell that asks for the state of the terminal before its prompt, and for the cursor behind it.
use fb_adb.Prelude.{
  ℕ, ◌≡◌, ◌⊎◌, ◌++◌, ◌∷◌, [], refl, arith, Bool, true, none, some, List, Bytes, codes,
}
use fb_adb.Outcome.{ok, died, ecomm}
use fb_adb.Growable.Line.{split_line}
use fb_adb.Growable.Text.{Trimmed}
use fb_adb.Chat.{Chat, chat_talk_at, chat_read_line}
use fb_adb.Chat.Echo.{read_up_to, after_echo, talk_echo}
use fb_adb.Chat.Prompt.{Item, byte, escaped, control}
use fb_adb.Chat.Line.{Terminated, read_line_lem}

abbrev always : ℕ → Bool
always k = true

abbrev echoing : Chat
echoing = record { to = []; from = codes "ls\r\r\n$ "; calls = 0 }

talk_echo_example :
    chat_talk_at always true echoing (codes "ls") 0
    ≡ read_up_to
        (record { to = ([] ++ codes "ls") ++ codes "\n"; from = echoing.from; calls = 3 })
        (after_echo true (codes "ls") echoing.from)
talk_echo_example = talk_echo always true echoing (codes "ls") 0 (λ _. refl) refl

abbrev items : List Item
items = byte b'x' ∷ control (codes "5") b'n' ∷ escaped b'7' ∷ []

read_line_lem_example :
    ((split_line echoing.from ≡ none) × (chat_read_line always 0 none echoing ≡ died ecomm))
    ⊎ ((line : Bytes) × (rest : Bytes) × (t : Bytes) × (buf : Bytes) × (n : ℕ) × (split_line
            echoing.from
          ≡ some (line, rest))
        × (chat_read_line always 0 none echoing ≡ ok ((buf, n), record echoing { from = rest }))
        × Trimmed (codes "\r\n") line t
        × Terminated buf n t)
read_line_lem_example = read_line_lem always 0 echoing (λ _. refl) (omega arith)
