-- ===== src/Chat/Echo.antt =====
-- chat.c: the echo of a line, against a reader of fronts of a text.
use fb_adb.Prelude.{
  ℕ, ◌+◌, ◌≡◌, refl, arith, Bool, true, false, Option, none, some, inl, inr, Bool-cases, [], ◌∷◌,
  ◌++◌, append-nil, Bytes, codes, ◌==◌, if◌then◌else◌,
}
use fb_adb.Outcome.{Outcome, ok, died, ecomm, ◌>>=◌}
use fb_adb.Chat.{
  Chat, chat_getc, chat_expect, chat_expect_maybe, chat_expect_all, chat_put, skip_query,
  expect_line_end, chat_talk_at, chat_swallow_prompt_flag,
}

-- What follows a text that the input begins with.
abbrev pub strip : Bytes → Bytes → Option Bytes
strip [] from = some from
strip (c ∷ what) [] = none
strip (c ∷ what) (x ∷ from) = if x == c then strip what from else none

abbrev pub either : Option Bytes → Option Bytes → Option Bytes
either (some r) o = some r
either none o = o

-- A line end that lost the byte 0xff.
abbrev pub after_lost : Bool → Bytes → Bytes → Option Bytes
after_lost false what from = none
after_lost true what from = strip (what ++ b'\r' ∷ 0xff ∷ b'\n' ∷ []) from

-- What follows a line and the line end that a terminal sends for it, with one carriage return or two; where
-- char is signed, also with the byte 0xff behind the first.
abbrev pub after_echo : Bool → Bytes → Bytes → Option Bytes
after_echo cs what from =
    either (strip (what ++ codes "\r\n") from)
      (either (strip (what ++ codes "\r\r\n") from) (after_lost cs what from))

abbrev pub read_up_to : Chat → Option Bytes → Outcome Chat
read_up_to chat none = died ecomm
read_up_to chat (some from) = ok (record chat { from = from })

lost_nothing : (cs : Bool) (c : ℕ) (what : Bytes) → after_lost cs (c ∷ what) [] ≡ none
lost_nothing true c what = refl
lost_nothing false c what = refl

lost_same :
    (cs : Bool) (c x : ℕ) (what from : Bytes)
    → (x == c) ≡ true
    → after_lost cs (c ∷ what) (x ∷ from) ≡ after_lost cs what from
lost_same true c x what from e = rw e refl
lost_same false c x what from e = refl

lost_other :
    (cs : Bool) (c x : ℕ) (what from : Bytes)
    → (x == c) ≡ false
    → after_lost cs (c ∷ what) (x ∷ from) ≡ none
lost_other true c x what from e = rw e refl
lost_other false c x what from e = refl

line_end_lem :
    (writes : ℕ → Bool) (cs : Bool) (from to : Bytes) (calls : ℕ)
    → expect_line_end writes cs (record { to = to; from = from; calls = calls })
      ≡ read_up_to (record { to = to; from = from; calls = calls }) (after_echo cs [] from)
unfolding expect_line_end chat_expect chat_expect_maybe chat_getc
line_end_lem writes true [] to calls = refl
line_end_lem writes true (x ∷ []) to calls = ground arith
line_end_lem writes true (x ∷ y ∷ []) to calls = ground arith
line_end_lem writes true (x ∷ y ∷ z ∷ from) to calls = ground arith
line_end_lem writes false [] to calls = refl
line_end_lem writes false (x ∷ []) to calls = ground arith
line_end_lem writes false (x ∷ y ∷ []) to calls = ground arith
line_end_lem writes false (x ∷ y ∷ z ∷ from) to calls = ground arith

module _ (writes : ℕ → Bool) (cs : Bool) where
  pub echo_lem :
      (what from to : Bytes) (calls : ℕ)
      → (chat_expect_all (record { to = to; from = from; calls = calls }) what
          >>= expect_line_end writes cs)
        ≡ read_up_to (record { to = to; from = from; calls = calls }) (after_echo cs what from)
  unfolding chat_expect_all chat_expect chat_getc
  echo_lem [] from to calls = line_end_lem writes cs from to calls
  echo_lem (c ∷ what) [] to calls = rw (lost_nothing cs c what) refl
  echo_lem (c ∷ what) (x ∷ from) to calls = elim (Bool-cases (x == c)) [
    | inl e ↦ rw (lost_same cs c x what from e, e) (echo_lem what from to calls)
    | inr e ↦ rw (lost_other cs c x what from e, e) refl
  ]

  quiet_skip :
      (what : Bytes) (chat : Chat) (flags : ℕ)
      → chat_swallow_prompt_flag flags ≡ false
      → skip_query writes cs flags chat what ≡ ok (what, chat)
  unfolding skip_query
  quiet_skip [] chat flags quiet = refl
  quiet_skip (w ∷ what) chat flags quiet = rw quiet refl

  -- Where writing succeeds, a call that does not wait for a prompt writes the line and a line feed. It
  -- returns exactly when the input begins with the line and a line end of one or two carriage returns
  -- and a line feed, or, where char is signed, of a carriage return, the byte 0xff and a line feed, and
  -- leaves what follows; on any other input it dies with ECOMM.
  pub talk_echo :
      (chat : Chat) (what : Bytes) (flags : ℕ)
      → ((k : ℕ) → writes k ≡ true)
      → chat_swallow_prompt_flag flags ≡ false
      → chat_talk_at writes cs chat what flags
        ≡ read_up_to
            (record {
              to = (chat.to ++ what) ++ codes "\n";
              from = chat.from;
              calls = chat.calls + 3;
            })
            (after_echo cs what chat.from)
  unfolding chat_talk_at chat_put
  talk_echo chat what flags all quiet =
      let wrote = (chat.to ++ what) ++ codes "\n" in
      let calls : chat.calls + 1 + 1 + 1 ≡ chat.calls + 3 = omega arith in
      rw
        (
          quiet,
          all chat.calls,
          all (chat.calls + 1),
          all (chat.calls + 1 + 1),
          append-nil wrote,
          calls,
          quiet_skip what (record { to = wrote; from = chat.from; calls = chat.calls + 3 }) flags
              quiet,
        )
        (echo_lem what chat.from wrote (chat.calls + 3))
