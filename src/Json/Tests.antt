-- ===== src/Json/Tests.antt =====
-- A document in an array that already has an element.
use fb_adb.Prelude.{ℕ, ◌≡◌, refl, [], ◌++◌, true, none, codes}
use fb_adb.Json.{value, World, done, json_writer_create, format_u64, decimal}
use fb_adb.Json.Docs.{
  Doc, null, boolean, number, array, no_docs, more_docs, separator, print, print_all, emit_doc,
}
use fb_adb.Json.Print.{settled, at_out, emit_doc-print}

abbrev quiet_world : World
quiet_world = record { utf8_decode = λ state c. 0; putc = λ n. none }

abbrev nested : Doc
nested = array (
    more_docs (number 205)
      (more_docs (array no_docs) (more_docs (boolean true) (more_docs null no_docs))))

print_sample : print nested ≡ codes "[205,[],true,null]"
unfolding print print_all format_u64 decimal
print_sample = refl

emit_doc-print_example :
    (m : ℕ) × (emit_doc quiet_world nested json_writer_create
      ≡ done (
          at_out json_writer_create
            (json_writer_create.out ++ (separator value ++ print nested))
            (settled 0 value [])
            m))
unfolding json_writer_create
emit_doc-print_example =
    emit_doc-print quiet_world (λ n. refl) json_writer_create nested 0 [] value refl refl
