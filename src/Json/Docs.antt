-- ===== src/Json/Docs.antt =====
-- json.c: documents without strings and objects, their printed form, and the calls that emit them.
use fb_adb.Prelude.{ℕ, Bool, [], ◌++◌, Bytes, codes, if◌then◌else◌}
use fb_adb.Json.{
  JsonState, array_empty, array_nonempty, World, Emit, ◌>=>◌, emit_nothing, json_begin_array,
  json_end_array, format_u64,
}
use fb_adb.Json.Values.{json_emit_u64, json_emit_null, json_emit_bool}

-- Documents without strings and objects.
mutual
  pub data Doc : Type 0 where
    null : Doc
    boolean : Bool → Doc
    number : ℕ → Doc
    array : Docs → Doc

  pub data Docs : Type 0 where
    no_docs : Docs
    more_docs : Doc → Docs → Docs

abbrev pub separator : JsonState → Bytes
separator array_nonempty = codes ","
separator _ = []

unfoldable mutual
  pub print : Doc → Bytes
  print null = codes "null"
  print (boolean b) = if b then codes "true" else codes "false"
  print (number n) = format_u64 n
  print (array ds) = codes "[" ++ print_all array_empty ds ++ codes "]"

  pub print_all : JsonState → Docs → Bytes
  print_all s no_docs = []
  print_all s (more_docs d ds) = (separator s ++ print d) ++ print_all array_nonempty ds

unfoldable mutual
  pub emit_doc : World → Doc → Emit
  emit_doc world null = json_emit_null world
  emit_doc world (boolean b) = json_emit_bool world b
  emit_doc world (number n) = json_emit_u64 world n
  emit_doc world (array ds) = json_begin_array world >=> emit_docs world ds >=> json_end_array world

  pub emit_docs : World → Docs → Emit
  emit_docs world no_docs = emit_nothing
  emit_docs world (more_docs d ds) = emit_doc world d >=> emit_docs world ds
