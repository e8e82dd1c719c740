-- ===== src/Handshake/Effect.antt =====
-- cmd_stub.c: the stub's handler of a message, on arguments and the directory.
use fb_adb.Prelude.{
  ℕ, ◌+◌, ◌^◌, ◌<◌, ◌≡◌, refl, ◌∙◌, arith, [], ◌∷◌, ◌++◌, append_assoc, Bytes, length,
}
use fb_adb.Proto.{msg_bytes, to_le}
use fb_adb.Xfer.Wire.{length-to_le}
use fb_adb.Fs.{Sys, done}
use fb_adb.Core.Message.{valid_message_type_p}
use fb_adb.Handshake.Host.{text, default_sh, default_sh_login, self_argv0}
use fb_adb.Handshake.Child.{Args, xalloc, xstrndup, put_shell, on_argument_jumbo, on_message}
use fb_adb.Handshake.Frame.{plain, read_exactly_lem}
use fb_adb.Handshake.Item.{arg, clear_vars, chdir, item_wire, FitsItem, more_args, shell_path}
use fb_adb.Handshake.Turn.{Stub, only_word, cast_lem, plain_turn, put_arg_lem, Takes, stored}

module _ {S : Type 0} {rdr : S → ℕ → Sys S Bytes} (stub : Stub rdr) where
  pub clear_lem :
      (s : S) (a : Args) (rest : Bytes)
      → stub.reader.left s ≡ item_wire clear_vars ++ rest
      → Takes stub s a clear_vars rest
  unfolding on_message valid_message_type_p
  clear_lem s a rest sent = plain_turn stub s a 50 [] rest (omega arith) (omega arith) refl sent

  pub default_lem :
      (s : S) (a : Args) (rest : Bytes)
      → length (shell_path stub.shell) < 2 ^ 32
      → stub.reader.left s ≡ item_wire (arg default_sh) ++ rest
      → Takes stub s a (arg default_sh) rest
  unfolding on_message valid_message_type_p put_shell
  default_lem s a rest short sent =
      let (s', e, left) = plain_turn stub s a 55 [] rest (omega arith) (omega arith) refl sent in
      (s', e ∙ stored stub s' (put_arg_lem stub (shell_path stub.shell) a (omega arith)), left)

  pub chdir_lem :
      (s : S) (a : Args) (dir rest : Bytes)
      → FitsItem (chdir dir)
      → stub.reader.left s ≡ item_wire (chdir dir) ++ rest
      → Takes stub s a (chdir dir) rest
  unfolding on_message valid_message_type_p xstrndup xalloc msg_bytes to_le
  chdir_lem s a dir rest (string, small) sent =
      let (s', e, left) = plain_turn stub s a 61 dir rest small (omega arith) refl sent in
      (s', e ∙ rw (string, stub.memory (length dir + 1)) refl, left)

  pub login_lem :
      (s : S) (a : Args) (rest : Bytes)
      → length (shell_path stub.shell) < 2 ^ 32
      → stub.reader.left s ≡ item_wire (arg default_sh_login) ++ rest
      → Takes stub s a (arg default_sh_login) rest
  unfolding on_message valid_message_type_p put_shell xalloc
  login_lem s a rest short sent =
      let (s', e, left) = plain_turn stub s a 56 [] rest (omega arith) (omega arith) refl sent in
      (
        s',
        e
            ∙ rw (stub.memory (length (shell_path stub.shell) + 2))
                (stored stub s' (put_arg_lem stub (b'-' ∷ shell_path stub.shell) a (omega arith))),
        left,
      )

  pub self_lem :
      (s : S) (a : Args) (rest : Bytes)
      → length stub.orig_argv0 < 2 ^ 32
      → stub.reader.left s ≡ item_wire (arg self_argv0) ++ rest
      → Takes stub s a (arg self_argv0) rest
  unfolding on_message valid_message_type_p
  self_lem s a rest short sent =
      let (s', e, left) = plain_turn stub s a 58 [] rest (omega arith) (omega arith) refl sent in
      (s', e ∙ stored stub s' (put_arg_lem stub stub.orig_argv0 a (omega arith)), left)

  pub short_text_lem :
      (s : S) (a : Args) (val rest : Bytes)
      → 4 + length val < 2 ^ 16
      → stub.reader.left s ≡ plain 48 val ++ rest
      → Takes stub s a (arg (text val)) rest
  unfolding on_message valid_message_type_p msg_bytes to_le
  short_text_lem s a val rest small sent =
      let (s', e, left) = plain_turn stub s a 48 val rest small (omega arith) refl sent in
      (s', e ∙ stored stub s' (put_arg_lem stub val a (omega arith)), left)

  argument_lem :
      (s : S) (a : Args) (val rest : Bytes)
      → length val < 2 ^ 32
      → stub.reader.left s ≡ val ++ rest
      → (s' : S) × (on_argument_jumbo stub.malloc stub.realloc stub.fresh stub.environ rdr
            (plain 49 (to_le 4 (length val)))
            s
            a
          ≡ done (more_args a val) s')
        × (stub.reader.left s' ≡ rest)
  unfolding on_argument_jumbo xalloc
  argument_lem s a val rest small sent =
      let (s', got, left) = read_exactly_lem stub.reader stub.malloc stub.memory s val rest sent in
      (
        s',
        rw (only_word 49 (length val) small, stub.memory (length val), got)
            (stored stub s' (put_arg_lem stub val a (omega arith))),
        left,
      )

  pub long_text_lem :
      (s : S) (a : Args) (val rest : Bytes)
      → length val < 2 ^ 32
      → stub.reader.left s ≡ (plain 49 (to_le 4 (length val)) ++ val) ++ rest
      → Takes stub s a (arg (text val)) rest
  unfolding on_message valid_message_type_p
  long_text_lem s a val rest small sent =
      let size : length (to_le 4 (length val)) ≡ 4 = length-to_le 4 (length val) in
      let (s1, e, left1) =
        plain_turn stub s a 49 (to_le 4 (length val)) (val ++ rest) (omega arith) (omega arith) refl
          (sent ∙ append_assoc (plain 49 (to_le 4 (length val))) val rest) in
      let (s2, e2, left2) = argument_lem s1 a val rest small left1 in
      (
        s2,
        e ∙ rw (cast_lem 49 (to_le 4 (length val)) 8 (omega arith) (omega arith) (omega arith)) e2,
        left2,
      )
