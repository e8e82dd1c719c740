-- ===== src/Json.antt =====
-- json.c: a writer of JSON that keeps a stack of contexts and refuses calls out of order. utf8.c comes
-- from another project, so its step is a parameter, as is what `putc` does.
pub mod Strings
pub mod Values
pub mod Close
pub mod Docs
pub mod Print
mod Tests
use fb_adb.Prelude.{
  ℕ, zero, suc, ◌+◌, ◌-◌, ◌/◌, ◌%◌, ◌^◌, Bool, true, false, ◌||◌, Option, none, some, List, [], ◌∷◌,
  ◌++◌, Bytes, length, ltb, ◌==◌, if◌then◌else◌,
}
use fb_adb.Outcome.{Errno, einval}

-- `enum json_state`.
pub data JsonState : Type 0 where
  value array_empty array_nonempty object_empty object_nonempty string io_error : JsonState

-- `struct json_context`; the number stands for its address, and no address is given out twice.
pub record JsonContext : Type 0 where
  pub address : ℕ
  pub state : JsonState

pub data BadUtf8Mode : Type 0 where
  bad_utf8_delete bad_utf8_replace bad_utf8_die : BadUtf8Mode

-- `struct json_writer_config`.
pub record JsonWriterConfig : Type 0 where
  pub bad_utf8_mode : BadUtf8Mode
  pub bad_utf8_replacement : Bytes

-- `struct json_writer`. `out` is what was put into the file, and `utf8_buf` as long as `utf8_bufsz`.
pub record JsonWriter : Type 0 where
  pub out : Bytes
  pub config : JsonWriterConfig
  pub context : List JsonContext
  pub utf8_state : ℕ
  pub utf8_buf : Bytes
  pub next_address : ℕ

-- `utf8_decode` from a state and a byte, and the error of `putc` after so many bytes, if there is one.
pub record World : Type 0 where
  pub utf8_decode : ℕ → ℕ → ℕ
  pub putc : ℕ → Option Errno

-- How a call ends: it returns, it dies, or C leaves open what happens.
pub data Emitted : Type 0 where
  done : JsonWriter → Emitted
  threw : Errno → JsonWriter → Emitted
  crashed : Emitted

abbrev pub Emit : Type 0
Emit = JsonWriter → Emitted

abbrev pub and_then : Emitted → Emit → Emitted
and_then (done w) f = f w
and_then (threw e w) f = threw e w
and_then crashed f = crashed

infixl 6 ◌>=>◌
abbrev pub ◌>=>◌ : Emit → Emit → Emit
(f >=> g) w = and_then (f w) g

abbrev pub emit_nothing : Emit
emit_nothing w = done w

unfoldable pub json_push_context : JsonState → Emit
json_push_context state w = done (record w {
  context = record { address = w.next_address; state = state } ∷ w.context;
  next_address = w.next_address + 1;
})

unfoldable pub json_pop_context : Emit
json_pop_context w = elim w.context [
  | [] ↦ crashed
  | context ∷ previous ↦ done (record w { context = previous })
]

-- `json_writer_state`, for the code that goes on with the state.
unfoldable pub with_state : (JsonState → Emit) → Emit
with_state f w = elim w.context [ [] ↦ threw einval w | context ∷ previous ↦ f context.state w ]

-- `writer->context->state = state`.
unfoldable pub set_state : JsonState → Emit
set_state state w = elim w.context [
  | [] ↦ crashed
  | context ∷ previous ↦ done (record w { context = record context { state = state } ∷ previous })
]

abbrev pub throw : Errno → Emit
throw e w = threw e w

-- `json_check_state`; a set of states is a test.
unfoldable pub json_check_state : (JsonState → Bool) → Emit
json_check_state allowed = with_state λ s. if allowed s then emit_nothing else throw einval

unfoldable pub json_emitc : World → ℕ → Emit
json_emitc world c w = elim (world.putc (length w.out)) [
  | none ↦ done (record w { out = w.out ++ c ∷ [] })
  | some e ↦ and_then (set_state io_error w) (throw e)
]

unfoldable pub json_emits : World → Bytes → Emit
json_emits world [] = emit_nothing
json_emits world (c ∷ s) = json_emitc world c >=> json_emits world s

abbrev pub value_allowed : JsonState → Bool
value_allowed value = true
value_allowed array_empty = true
value_allowed array_nonempty = true
value_allowed _ = false

abbrev pub is_array : JsonState → Bool
is_array array_empty = true
is_array array_nonempty = true
is_array _ = false

abbrev pub is_object : JsonState → Bool
is_object object_empty = true
is_object object_nonempty = true
is_object _ = false

abbrev pub is_string : JsonState → Bool
is_string string = true
is_string _ = false

abbrev pub separate_value : World → JsonState → Emit
separate_value world array_nonempty = json_emitc world b','
separate_value world array_empty = set_state array_nonempty
separate_value world _ = emit_nothing

unfoldable pub json_value_start : World → Emit
json_value_start world = json_check_state value_allowed >=> with_state (separate_value world)

abbrev pub end_value : JsonState → Emit
end_value value = json_pop_context
end_value _ = emit_nothing

unfoldable pub json_value_end : Emit
json_value_end = with_state end_value

unfoldable pub json_begin_array : World → Emit
json_begin_array world =
    json_value_start world >=> json_push_context array_empty >=> json_emitc world b'['

unfoldable pub json_end_array : World → Emit
json_end_array world =
    json_check_state is_array >=> json_pop_context >=> json_emitc world b']' >=> json_value_end

unfoldable pub json_begin_object : World → Emit
json_begin_object world =
    json_value_start world >=> json_push_context object_empty >=> json_emitc world b'{'

unfoldable pub json_end_object : World → Emit
json_end_object world =
    json_check_state is_object >=> json_pop_context >=> json_emitc world b'}' >=> json_value_end

unfoldable pub json_writer_create : JsonWriter
json_writer_create = record {
  out = [];
  config = record {
    bad_utf8_mode = bad_utf8_replace;
    bad_utf8_replacement = b'\\' ∷ b'u' ∷ b'F' ∷ b'F' ∷ b'F' ∷ b'D' ∷ [];
  };
  context = record { address = 0; state = value } ∷ [];
  utf8_state = 0;
  utf8_buf = [];
  next_address = 1;
}

-- `sprintf` with `%llu` of a 64-bit number, which has at most twenty digits.
unfoldable pub decimal : ℕ → ℕ → Bytes → Bytes
decimal zero n digits = digits
decimal (suc fuel) n digits =
    let rest = decimal fuel (n / 10) ((48 + n % 10) ∷ digits) in
    if ltb n 10 then (48 + n) ∷ digits else rest

unfoldable pub format_u64 : ℕ → Bytes
format_u64 n = decimal 20 n []

-- `%lld` of an `int64_t` that is given by its 64 bits.
unfoldable pub format_i64 : ℕ → Bytes
format_i64 n = if ltb n (2 ^ 63) then format_u64 n else b'-' ∷ format_u64 (2 ^ 64 - n)
