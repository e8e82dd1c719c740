-- ===== src/Json/Values.antt =====
-- json.c: fields of objects, and the calls that emit a whole value.
use fb_adb.Prelude.{ℕ, Bool, codes, Bytes, if◌then◌else◌}
use fb_adb.Json.{
  JsonState, value, object_empty, object_nonempty, World, Emit, ◌>=>◌, emit_nothing, with_state,
  set_state, json_push_context, json_check_state, json_emitc, json_emits, is_object,
  json_value_start, json_value_end, format_u64, format_i64,
}
use fb_adb.Json.Strings.{
  json_emit_string_part, json_begin_string_no_check, json_begin_string, json_end_string,
}

abbrev separate_field : World → JsonState → Emit
separate_field world object_nonempty = json_emitc world b','
separate_field world object_empty = set_state object_nonempty
separate_field world _ = emit_nothing

-- The name is given without its NUL.
unfoldable pub json_begin_field : World → Bytes → Emit
json_begin_field world name =
    json_check_state is_object
    >=> with_state (separate_field world)
    >=> json_begin_string_no_check world
    >=> json_emit_string_part world name
    >=> json_end_string world
    >=> json_emitc world b':'
    >=> json_push_context value

unfoldable pub json_emit_string_n : World → Bytes → Emit
json_emit_string_n world s =
    json_begin_string world >=> json_emit_string_part world s >=> json_end_string world

abbrev emit_text : World → Bytes → Emit
emit_text world text = json_value_start world >=> json_emits world text >=> json_value_end

unfoldable pub json_emit_i64 : World → ℕ → Emit
json_emit_i64 world number = emit_text world (format_i64 number)

unfoldable pub json_emit_u64 : World → ℕ → Emit
json_emit_u64 world number = emit_text world (format_u64 number)

unfoldable pub json_emit_null : World → Emit
json_emit_null world = emit_text world (codes "null")

unfoldable pub json_emit_bool : World → Bool → Emit
json_emit_bool world b = emit_text world (if b then codes "true" else codes "false")
