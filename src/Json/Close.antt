-- ===== src/Json/Close.antt =====
-- json.c: `json_pop_to_saved_context` closes what was opened since a context was saved.
use fb_adb.Prelude.{
  ℕ, zero, suc, ◌==◌, Bool, false, List, [], ◌∷◌, Option, none, some, if◌then◌else◌,
}
use fb_adb.Outcome.{einval}
use fb_adb.Json.{
  JsonState, value, array_empty, array_nonempty, object_empty, object_nonempty, string, io_error,
  JsonContext, JsonWriter, World, done, threw, crashed, Emit, and_then, throw, json_end_array,
  json_end_object,
}
use fb_adb.Json.Strings.{json_end_string}
use fb_adb.Json.Values.{json_emit_null}

-- The saved address; `none` is NULL.
unfoldable pub json_save_context : JsonWriter → Option ℕ
json_save_context w = elim w.context [ [] ↦ none | context ∷ previous ↦ some context.address ]

unfoldable pub close_one : World → JsonState → Emit
close_one world value = json_emit_null world
close_one world array_empty = json_end_array world
close_one world array_nonempty = json_end_array world
close_one world object_empty = json_end_object world
close_one world object_nonempty = json_end_object world
close_one world string = json_end_string world
close_one world io_error = throw einval

-- Whether a context is the saved one.
abbrev pub is_saved : Option ℕ → ℕ → Bool
is_saved none address = false
is_saved (some saved) address = saved == address

-- Each round closes a context, so the number of contexts is fuel enough; without fuel the call crashes.
unfoldable pub close_rounds : World → ℕ → Option ℕ → Emit
close_rounds world zero saved w = crashed
close_rounds world (suc fuel) saved w = elim w.context [
  | [] ↦ threw einval w
  | context ∷ previous ↦
      let closed = and_then (close_one world context.state w) (close_rounds world fuel saved) in
      if is_saved saved context.address then done w else closed
]

abbrev nr_contexts : List JsonContext → ℕ
nr_contexts [] = 0
nr_contexts (c ∷ cs) = suc (nr_contexts cs)

unfoldable pub json_pop_to_saved_context : World → Option ℕ → Emit
json_pop_to_saved_context world saved w = close_rounds world (suc (nr_contexts w.context)) saved w
