-- ===== src/Handshake/Environ.antt =====
-- cmd_stub.c: the stub's handler of a message, on changes of the environment.
use fb_adb.Prelude.{
  ℕ, suc, ◌+◌, ◌-◌, ◌^◌, ◌<◌, ◌≡◌, refl, ap, ◌∙◌, arith, false, [], ◌∷◌, ◌++◌, append_assoc, Bytes,
  length, length-append, drop, ◌==◌,
}
use fb_adb.Util.{size_mod}
use fb_adb.Proto.{msg_bytes, to_le}
use fb_adb.Xfer.Wire.{length-to_le}
use fb_adb.Xenviron.{xenviron_set, xenviron_unset}
use fb_adb.Fs.{Sys, done, of_outcome}
use fb_adb.Core.Message.{valid_message_type_p}
use fb_adb.Handshake.Child.{
  Args, with_env, xalloc, xstrndup, env_set, env_unset, on_set_jumbo, on_unset_jumbo, on_message,
}
use fb_adb.Handshake.Frame.{CString, c_string-append, plain, read_exactly_lem}
use fb_adb.Handshake.Item.{set_var, unset_var, FitsItem}
use fb_adb.Handshake.Turn.{
  Stub, first_word, second_word, only_word, cast_lem, two_words, plain_turn, Takes,
}

module _ {S : Type 0} {rdr : S → ℕ → Sys S Bytes} (stub : Stub rdr) where
  env_set_lem :
      (name value : Bytes) (a : Args)
      → CString name
      → CString value
      → env_set stub.malloc stub.realloc stub.fresh stub.environ (name ++ 0 ∷ value) a
        ≡ with_env stub.malloc stub.realloc stub.fresh stub.environ a
            λ xe. xenviron_set stub.malloc stub.realloc stub.fresh xe name value
  unfolding env_set xstrndup xalloc
  env_set_lem name value a n v =
      let more : (length name == length (name ++ 0 ∷ value)) ≡ false =
        ground (arith, length-append name (0 ∷ value)) in
      rw
        (
          c_string-append name value n,
          more,
          drop-name name value,
          v,
          stub.memory (length value + 1),
        )
        refl
    where
      drop-name : (name value : Bytes) → drop (length name + 1) (name ++ 0 ∷ value) ≡ value
      drop-name [] value = refl
      drop-name (c ∷ cs) value =
          let next : suc (length cs) + 1 ≡ suc (length cs + 1) = omega arith in
          ap (λ k. drop k (c ∷ cs ++ 0 ∷ value)) next ∙ drop-name cs value

  pub short_set_lem :
      (s : S) (a : Args) (name value rest : Bytes)
      → FitsItem (set_var name value)
      → 4 + length name + 1 + length value < 2 ^ 16
      → stub.reader.left s ≡ plain 51 (name ++ 0 ∷ value) ++ rest
      → Takes stub s a (set_var name value) rest
  unfolding on_message valid_message_type_p msg_bytes to_le
  short_set_lem s a name value rest (n, v, ns, vs) small sent =
      let (s', e, left) =
        plain_turn stub s a 51 (name ++ 0 ∷ value) rest
          (omega (arith, length-append name (0 ∷ value))) (omega arith) refl sent in
      (s', e ∙ ap (λ o. of_outcome o λ a'. done a' s') (env_set_lem name value a n v), left)

  two_strings_lem :
      (s : S) (a : Args) (name value rest : Bytes)
      → FitsItem (set_var name value)
      → stub.reader.left s ≡ name ++ (value ++ rest)
      → (s' : S) × (on_set_jumbo stub.malloc stub.realloc stub.fresh stub.environ rdr
            (plain 53 (to_le 4 (length name) ++ to_le 4 (length value)))
            s
            a
          ≡ of_outcome
              (with_env stub.malloc stub.realloc stub.fresh stub.environ a
                λ xe. xenviron_set stub.malloc stub.realloc stub.fresh xe name value)
              λ a'. done a' s')
        × (stub.reader.left s' ≡ rest)
  unfolding on_set_jumbo xalloc
  two_strings_lem s a name value rest (n, v, ns, vs) sent =
      let (s1, got1, left1) =
        read_exactly_lem stub.reader stub.malloc stub.memory s name (value ++ rest) sent in
      let (s2, got2, left2) =
        read_exactly_lem stub.reader stub.malloc stub.memory s1 value rest left1 in
      let short : (length name == size_mod - 1) ≡ false = ground arith in
      let short' : (length value == size_mod - 1) ≡ false = ground arith in
      (
        s2,
        rw
            (
              first_word 53 (length name) (to_le 4 (length value)) ns,
              second_word 53 (length name) (length value) vs,
              short,
              short',
              stub.memory (length name + 1),
              stub.memory (length value + 1),
              got1,
              got2,
              n,
              v,
            )
            refl,
        left2,
      )

  pub long_set_lem :
      (s : S) (a : Args) (name value rest : Bytes)
      → FitsItem (set_var name value)
      → stub.reader.left s
        ≡ (plain 53 (to_le 4 (length name) ++ to_le 4 (length value)) ++ (name ++ value)) ++ rest
      → Takes stub s a (set_var name value) rest
  unfolding on_message valid_message_type_p
  long_set_lem s a name value rest fits sent =
      let words = to_le 4 (length name) ++ to_le 4 (length value) in
      let size : length words ≡ 8 = two_words (length name) (length value) in
      let (s1, e, left1) =
        plain_turn stub s a 53 words (name ++ (value ++ rest)) (omega arith) (omega arith) refl (
          sent
          ∙ append_assoc (plain 53 words) (name ++ value) rest
          ∙ ap (λ w. plain 53 words ++ w) (append_assoc name value rest)) in
      let (s2, e2, left2) = two_strings_lem s1 a name value rest fits left1 in
      (s2, e ∙ rw (cast_lem 53 words 12 (omega arith) (omega arith) (omega arith)) e2, left2)

  pub short_unset_lem :
      (s : S) (a : Args) (name rest : Bytes)
      → CString name
      → 4 + length name < 2 ^ 16
      → stub.reader.left s ≡ plain 52 name ++ rest
      → Takes stub s a (unset_var name) rest
  unfolding on_message valid_message_type_p msg_bytes to_le env_unset xstrndup xalloc
  short_unset_lem s a name rest n small sent =
      let (s', e, left) = plain_turn stub s a 52 name rest small (omega arith) refl sent in
      (s', e ∙ rw (n, stub.memory (length name + 1)) refl, left)

  one_string_lem :
      (s : S) (a : Args) (name rest : Bytes)
      → FitsItem (unset_var name)
      → stub.reader.left s ≡ name ++ rest
      → (s' : S) × (on_unset_jumbo stub.malloc stub.realloc stub.fresh stub.environ rdr
            (plain 54 (to_le 4 (length name)))
            s
            a
          ≡ of_outcome
              (with_env stub.malloc stub.realloc stub.fresh stub.environ a
                λ xe. xenviron_unset stub.malloc stub.realloc stub.fresh xe name)
              λ a'. done a' s')
        × (stub.reader.left s' ≡ rest)
  unfolding on_unset_jumbo xalloc
  one_string_lem s a name rest (n, ns) sent =
      let (s1, got1, left1) =
        read_exactly_lem stub.reader stub.malloc stub.memory s name rest sent in
      let short : (length name == size_mod - 1) ≡ false = ground arith in
      (
        s1,
        rw (only_word 54 (length name) ns, short, stub.memory (length name + 1), got1, n) refl,
        left1,
      )

  pub long_unset_lem :
      (s : S) (a : Args) (name rest : Bytes)
      → FitsItem (unset_var name)
      → stub.reader.left s ≡ (plain 54 (to_le 4 (length name)) ++ name) ++ rest
      → Takes stub s a (unset_var name) rest
  unfolding on_message valid_message_type_p
  long_unset_lem s a name rest fits sent =
      let size : length (to_le 4 (length name)) ≡ 4 = length-to_le 4 (length name) in
      let (s1, e, left1) =
        plain_turn stub s a 54 (to_le 4 (length name)) (name ++ rest) (omega arith) (omega arith)
          refl (sent ∙ append_assoc (plain 54 (to_le 4 (length name))) name rest) in
      let (s2, e2, left2) = one_string_lem s1 a name rest fits left1 in
      (
        s2,
        e ∙ rw (cast_lem 54 (to_le 4 (length name)) 8 (omega arith) (omega arith) (omega arith)) e2,
        left2,
      )
