-- ===== src/Json/Print.antt =====
-- json.c: the calls that emit a document, against its printed form.
use fb_adb.Prelude.{
  ℕ, ◌+◌, ◌≡◌, refl, sym, ap, ap₂, ◌∙◌, arith, true, none, List, [], ◌∷◌, ◌++◌, append-nil,
  append_assoc, Bytes, length, codes, if◌then◌else◌,
}
use fb_adb.Json.{
  JsonState, value, array_empty, array_nonempty, object_empty, object_nonempty, string, io_error,
  JsonContext, JsonWriter, World, done, and_then, ◌>=>◌, json_push_context, json_pop_context,
  with_state, set_state, json_check_state, json_emitc, json_emits, value_allowed, is_array,
  json_value_start, json_value_end, json_begin_array, json_end_array, format_u64,
}
use fb_adb.Json.Values.{json_emit_u64, json_emit_null, json_emit_bool}
use fb_adb.Json.Docs.{
  Doc, Docs, null, boolean, number, array, no_docs, more_docs, separator, print, print_all,
  emit_doc, emit_docs,
}

-- The state of an array after a value.
abbrev pub started : JsonState → JsonState
started array_empty = array_nonempty
started s = s

-- The contexts after a value, above which stood the context of that address and state.
abbrev pub settled : ℕ → JsonState → List JsonContext → List JsonContext
settled a value previous = previous
settled a s previous = record { address = a; state = started s } ∷ previous

abbrev pub in_context : ℕ → JsonState → List JsonContext → List JsonContext
in_context a s previous = record { address = a; state = s } ∷ previous

-- A writer with this output, these contexts and this fresh address.
abbrev pub at_out : JsonWriter → Bytes → List JsonContext → ℕ → JsonWriter
at_out w out contexts n = record w { out = out; context = contexts; next_address = n }

-- The state of an array after some values.
abbrev after_docs : JsonState → Docs → JsonState
after_docs s no_docs = s
after_docs s (more_docs d ds) = array_nonempty

after_docs_lem : (ds : Docs) → is_array (after_docs array_empty ds) ≡ true
after_docs_lem no_docs = refl
after_docs_lem (more_docs d ds) = refl

stays_nonempty : (ds : Docs) → after_docs array_nonempty ds ≡ array_nonempty
stays_nonempty no_docs = refl
stays_nonempty (more_docs d ds) = refl

array_allowed : (s : JsonState) → is_array s ≡ true → value_allowed s ≡ true
array_allowed s h = ground arith

settled_array :
    (a : ℕ) (s : JsonState) (previous : List JsonContext)
    → is_array s ≡ true
    → settled a s previous ≡ in_context a array_nonempty previous
settled_array a s previous h = ground arith

bracketed :
    (out sep inside : Bytes)
    → (((out ++ sep) ++ codes "[") ++ inside) ++ codes "]"
      ≡ out ++ (sep ++ (codes "[" ++ inside ++ codes "]"))
bracketed out sep inside = simp append_assoc

module _ (world : World) (quiet : (n : ℕ) → world.putc n ≡ none) where
  emitc_lem :
      (c : ℕ) (w : JsonWriter) → json_emitc world c w ≡ done (record w { out = w.out ++ c ∷ [] })
  unfolding json_emitc
  emitc_lem c w = rw (json_emitc, quiet (length w.out)) refl

  emits_lem :
      (s : Bytes) (w : JsonWriter) → json_emits world s w ≡ done (record w { out = w.out ++ s })
  unfolding json_emits
  emits_lem [] w = ap (λ o. done (record w { out = o })) (sym (append-nil w.out))
  emits_lem (c ∷ s) w =
      ap (λ r. and_then r (json_emits world s)) (emitc_lem c w)
      ∙ emits_lem s (record w { out = w.out ++ c ∷ [] })
      ∙ ap (λ o. done (record w { out = o })) (append_assoc w.out (c ∷ []) s)

  module _ (w : JsonWriter) (a : ℕ) (previous : List JsonContext) where
    no_separator :
        (out : Bytes) (contexts : List JsonContext) (n : ℕ)
        → done (at_out w out contexts n) ≡ done (at_out w (out ++ []) contexts n)
    no_separator out contexts n = ap (λ o. done (at_out w o contexts n)) (sym (append-nil out))

    start_lem :
        (s : JsonState) (out : Bytes) (n : ℕ)
        → value_allowed s ≡ true
        → json_value_start world (at_out w out (in_context a s previous) n)
          ≡ done (at_out w (out ++ separator s) (in_context a (started s) previous) n)
    unfolding json_value_start json_check_state with_state set_state
    start_lem value out n h = no_separator out _ n
    start_lem array_empty out n h = no_separator out _ n
    start_lem array_nonempty out n h = emitc_lem b',' _
    start_lem object_empty out n h = absurd (ground arith)
    start_lem object_nonempty out n h = absurd (ground arith)
    start_lem string out n h = absurd (ground arith)
    start_lem io_error out n h = absurd (ground arith)

    end_lem :
        (s : JsonState) (out : Bytes) (n : ℕ)
        → value_allowed s ≡ true
        → json_value_end (at_out w out (in_context a (started s) previous) n)
          ≡ done (at_out w out (settled a s previous) n)
    unfolding json_value_end with_state json_pop_context
    end_lem value out n h = refl
    end_lem array_empty out n h = refl
    end_lem array_nonempty out n h = refl
    end_lem object_empty out n h = absurd (ground arith)
    end_lem object_nonempty out n h = absurd (ground arith)
    end_lem string out n h = absurd (ground arith)
    end_lem io_error out n h = absurd (ground arith)

    text_lem :
        (s : JsonState) (out text : Bytes) (n : ℕ)
        → value_allowed s ≡ true
        → (json_value_start world >=> json_emits world text >=> json_value_end)
            (at_out w out (in_context a s previous) n)
          ≡ done (at_out w (out ++ (separator s ++ text)) (settled a s previous) n)
    text_lem s out text n h =
        ap (λ r. and_then (and_then r (json_emits world text)) json_value_end) (start_lem s out n h)
        ∙ ap (λ r. and_then r json_value_end) (emits_lem text _)
        ∙ end_lem s _ n h
        ∙ ap (λ o. done (at_out w o (settled a s previous) n)) (append_assoc out (separator s) text)

    begin_lem :
        (s : JsonState) (out : Bytes) (n : ℕ)
        → value_allowed s ≡ true
        → json_begin_array world (at_out w out (in_context a s previous) n)
          ≡ done (
              at_out w
                ((out ++ separator s) ++ codes "[")
                (in_context n array_empty (in_context a (started s) previous))
                (n + 1))
    unfolding json_begin_array json_push_context
    begin_lem s out n h =
        ap (λ r. and_then (and_then r (json_push_context array_empty)) (json_emitc world b'['))
          (start_lem s out n h)
        ∙ emitc_lem b'[' _

    close_lem :
        (s inner : JsonState) (out : Bytes) (b n : ℕ)
        → value_allowed s ≡ true
        → is_array inner ≡ true
        → json_end_array world
            (at_out w out (in_context b inner (in_context a (started s) previous)) n)
          ≡ done (at_out w (out ++ codes "]") (settled a s previous) n)
    unfolding json_end_array json_check_state with_state json_pop_context
    close_lem s inner out b n h k =
        rw k (ap (λ r. and_then r json_value_end) (emitc_lem b']' _) ∙ end_lem s _ n h)

  mutual
    unfolding emit_doc emit_docs print print_all json_emit_null json_emit_bool json_emit_u64

    emit_doc_lem :
        (w : JsonWriter) (d : Doc) (a : ℕ) (previous : List JsonContext) (s : JsonState)
        (out : Bytes) (n : ℕ)
        → value_allowed s ≡ true
        → (m : ℕ) × (emit_doc world d (at_out w out (in_context a s previous) n)
            ≡ done (at_out w (out ++ (separator s ++ print d)) (settled a s previous) m))
    emit_doc_lem w null a previous s out n h = (n, text_lem w a previous s out (codes "null") n h)
    emit_doc_lem w (boolean b) a previous s out n h =
        (n, text_lem w a previous s out (if b then codes "true" else codes "false") n h)
    emit_doc_lem w (number k) a previous s out n h =
        (n, text_lem w a previous s out (format_u64 k) n h)
    emit_doc_lem w (array ds) a previous s out n h =
        let (m, e) =
          emit_docs_lem w ds n (in_context a (started s) previous) array_empty
            ((out ++ separator s) ++ codes "[") (n + 1) refl in
        (
          m,
          ap (λ r. and_then (and_then r (emit_docs world ds)) (json_end_array world))
                (begin_lem w a previous s out n h)
              ∙ ap (λ r. and_then r (json_end_array world)) e
              ∙ close_lem w a previous s (after_docs array_empty ds) _ n m h (after_docs_lem ds)
              ∙ ap (λ o. done (at_out w o (settled a s previous) m))
                  (bracketed out (separator s) (print_all array_empty ds)),
        )

    emit_docs_lem :
        (w : JsonWriter) (ds : Docs) (a : ℕ) (previous : List JsonContext) (s : JsonState)
        (out : Bytes) (n : ℕ)
        → is_array s ≡ true
        → (m : ℕ) × (emit_docs world ds (at_out w out (in_context a s previous) n)
            ≡ done (at_out w (out ++ print_all s ds) (in_context a (after_docs s ds) previous) m))
    emit_docs_lem w no_docs a previous s out n h = (n, no_separator w a previous out _ n)
    emit_docs_lem w (more_docs d ds) a previous s out n h =
        let (k, e) = emit_doc_lem w d a previous s out n (array_allowed s h) in
        let (m, f) =
          emit_docs_lem w ds a previous array_nonempty (out ++ (separator s ++ print d)) k refl in
        (
          m,
          ap (λ r. and_then r (emit_docs world ds)) e
              ∙ ap (λ cs. emit_docs world ds (at_out w (out ++ (separator s ++ print d)) cs k))
                  (settled_array a s previous h)
              ∙ f
              ∙ ap₂ (λ o t. done (at_out w o (in_context a t previous) m))
                  (append_assoc out (separator s ++ print d) (print_all array_nonempty ds))
                  (stays_nonempty ds),
        )

  -- From a writer whose context waits for a value or is an array, the calls for a document return
  -- when `putc` never fails. They put out the separator that is due and the printed document, and
  -- leave the contexts as one value does: a context that waited for a value is gone, and an array
  -- has begun.
  pub emit_doc-print :
      (w : JsonWriter) (d : Doc) (a : ℕ) (previous : List JsonContext) (s : JsonState)
      → value_allowed s ≡ true
      → w.context ≡ in_context a s previous
      → (m : ℕ) × (emit_doc world d w
          ≡ done (at_out w (w.out ++ (separator s ++ print d)) (settled a s previous) m))
  emit_doc-print w d a previous s h e =
      let (m, f) = emit_doc_lem w d a previous s w.out w.next_address h in
      (m, ap (λ cs. emit_doc world d (at_out w w.out cs w.next_address)) e ∙ f)
