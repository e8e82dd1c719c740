-- ===== src/Json/Strings.antt =====
-- json.c: the parts of a string literal.
use fb_adb.Prelude.{
  ℕ, ◌+◌, ◌/◌, ◌%◌, ◌||◌, [], ◌∷◌, ◌++◌, Bytes, length, ltb, leb, ◌==◌, if◌then◌else◌,
}
use fb_adb.Outcome.{einval}
use fb_adb.Json.{
  string, JsonWriter, BadUtf8Mode, bad_utf8_delete, bad_utf8_replace, bad_utf8_die, World, Emitted,
  done, threw, crashed, Emit, and_then, ◌>=>◌, emit_nothing, json_push_context, json_pop_context,
  json_check_state, json_emitc, json_emits, is_string, json_value_start, json_value_end,
}

abbrev pub utf8_accept : ℕ
utf8_accept = 0

abbrev pub utf8_reject : ℕ
utf8_reject = 12

-- `%04x` of a byte.
abbrev hex_digit : ℕ → ℕ
hex_digit d = if ltb d 10 then 48 + d else 87 + d

unfoldable pub format_04x : ℕ → Bytes
format_04x c = b'0' ∷ b'0' ∷ hex_digit (c / 16) ∷ hex_digit (c % 16) ∷ []

-- What `json_emit_ascii` emits of a byte.
unfoldable pub ascii_text : ℕ → Bytes
ascii_text c =
    if c == b'"' || c == b'\\'
    then b'\\' ∷ c ∷ []
    else if c == 10
    then b'\\' ∷ b'n' ∷ []
    else if c == 13
    then b'\\' ∷ b'r' ∷ []
    else if c == 9
    then b'\\' ∷ b't' ∷ []
    else if c == 12
    then b'\\' ∷ b'f' ∷ []
    else if leb c 31 || c == 127
    then b'\\' ∷ b'u' ∷ format_04x c
    else c ∷ []

unfoldable pub json_emit_ascii : World → ℕ → Emit
json_emit_ascii world c = json_emits world (ascii_text c)

abbrev bad_utf8_by : World → BadUtf8Mode → Emit
bad_utf8_by world bad_utf8_delete w = done w
bad_utf8_by world bad_utf8_die w = threw einval w
bad_utf8_by world bad_utf8_replace w = json_emits world w.config.bad_utf8_replacement w

unfoldable pub json_bad_utf8 : World → Emit
json_bad_utf8 world w = bad_utf8_by world w.config.bad_utf8_mode w

abbrev pub utf8_reset : JsonWriter → JsonWriter
utf8_reset w = record w { utf8_buf = []; utf8_state = utf8_accept }

-- A whole character stands in the buffer: `c` alone, or several bytes.
unfoldable pub accept_char : World → ℕ → Emit
accept_char world c w =
    and_then
      ((if length w.utf8_buf == 1 then json_emit_ascii world c else json_emits world w.utf8_buf) w)
      (λ w'. done (utf8_reset w'))

-- One round of the loop over the bytes of a string. The result says whether `i` moves: a byte that
-- breaks off a character is looked at again.
pub data Round : Type 0 where
  next again : Emitted → Round

unfoldable pub string_round : World → ℕ → JsonWriter → Round
string_round world c w =
    let state = world.utf8_decode w.utf8_state c in
    let w1 = record w { utf8_buf = w.utf8_buf ++ c ∷ []; utf8_state = state } in
    let rejected = json_bad_utf8 world (utf8_reset w1) in
    if leb 5 (length w.utf8_buf)
    then next crashed
    else if state == utf8_accept
    then next (accept_char world c w1)
    else if state == utf8_reject
    then (if ltb 1 (length w1.utf8_buf) then again rejected else next rejected)
    else next (done w1)

-- A byte is looked at twice at most: the buffer is empty the second time, and one byte alone is not
-- looked at again.
unfoldable pub round_twice : World → ℕ → Emit
round_twice world c w = elim (string_round world c w) [
  | next r ↦ r
  | again r ↦
      and_then r (λ w'. (elim (string_round world c w') [ next r' ↦ r' | again r' ↦ crashed ]))
]

unfoldable pub string_loop : World → Bytes → Emit
string_loop world [] = emit_nothing
string_loop world (c ∷ s) = round_twice world c >=> string_loop world s

unfoldable pub json_emit_string_part : World → Bytes → Emit
json_emit_string_part world s = json_check_state is_string >=> string_loop world s

unfoldable pub json_begin_string_no_check : World → Emit
json_begin_string_no_check world =
    json_push_context string >=> json_emitc world b'"' >=> (λ w. done (utf8_reset w))

unfoldable pub json_begin_string : World → Emit
json_begin_string world = json_value_start world >=> json_begin_string_no_check world

unfoldable pub bad_tail : World → Emit
bad_tail world w = if w.utf8_state == utf8_accept then done w else json_bad_utf8 world w

unfoldable pub json_end_string : World → Emit
json_end_string world =
    json_check_state is_string
    >=> bad_tail world
    >=> json_pop_context
    >=> json_emitc world b'"'
    >=> json_value_end
