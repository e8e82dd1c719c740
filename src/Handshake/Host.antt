-- ===== src/Handshake/Host.antt =====
-- cmd_shex.c: the host's side. `tc_write` is a function on the kernel's state that writes a whole buffer,
-- through the encoding for adb where the connection has it.
use fb_adb.Prelude.{
  ℕ, ◌+◌, ◌-◌, Option, none, some, List, [], ◌∷◌, ◌++◌, Bytes, length, ltb, leb, ◌==◌, ◌||◌,
  if◌then◌else◌,
}
use fb_adb.Outcome.{einval, assert, die_if}
use fb_adb.Util.{size_mod, satadd}
use fb_adb.Proto.{to_le}
use fb_adb.Fs.{Sys, done, then_sys, of_outcome}
use fb_adb.Handshake.{
  msg_cmdline_argument, msg_cmdline_argument_jumbo, msg_clearenv, msg_environment_variable_set,
  msg_environment_variable_unset, msg_environment_variable_set_jumbo,
  msg_environment_variable_unset_jumbo, msg_cmdline_default_sh, msg_cmdline_default_sh_login,
  msg_cmdline_exec_file, msg_cmdline_self_argv0, msg_chdir, msg_max_size, uint32_max, header_of,
}

-- A string of the command line, or one of the pointers that stand for what the stub knows.
pub data ArgValue : Type 0 where
  text : Bytes → ArgValue
  default_sh : ArgValue
  default_sh_login : ArgValue
  exec_file : ArgValue
  self_argv0 : ArgValue

-- `struct environ_op`, `none` for NULL.
pub record EnvironOp : Type 0 where
  pub name : Option Bytes
  pub value : Option Bytes

unfoldable pub reverse_onto : List EnvironOp → List EnvironOp → List EnvironOp
reverse_onto [] new_environ_ops = new_environ_ops
reverse_onto (eop ∷ environ_ops) new_environ_ops = reverse_onto environ_ops (eop ∷ new_environ_ops)

unfoldable pub reverse_environ_ops : List EnvironOp → List EnvironOp
reverse_environ_ops environ_ops = reverse_onto environ_ops []

-- The type and the string of an argument.
abbrev pub arg_type : ArgValue → ℕ
arg_type (text val) = msg_cmdline_argument
arg_type default_sh = msg_cmdline_default_sh
arg_type default_sh_login = msg_cmdline_default_sh_login
arg_type exec_file = msg_cmdline_exec_file
arg_type self_argv0 = msg_cmdline_self_argv0

abbrev pub arg_val : ArgValue → Bytes
arg_val (text val) = val
arg_val default_sh = []
arg_val default_sh_login = []
arg_val exec_file = []
arg_val self_argv0 = []

-- `exename ?: command`.
abbrev pub first_argument : Option ArgValue → ArgValue → ArgValue
first_argument none command = command
first_argument (some exename) command = exename

module _ {S : Type 0} (tc_write : S → Bytes → Sys S (Unit {0})) where
  unfoldable pub send_environ_set : S → Bytes → Bytes → Sys S (Unit {0})
  send_environ_set s name value =
      let msglen = 4 + length name + 1 + length value in
      if leb msglen msg_max_size
      then tc_write s (header_of msglen msg_environment_variable_set ++ (name ++ 0 ∷ value))
      else of_outcome
          (die_if (ltb uint32_max (length name) || ltb uint32_max (length value)) einval)
          (λ _.
            then_sys
              (tc_write s (
                header_of 12 msg_environment_variable_set_jumbo
                ++ (to_le 4 (length name) ++ to_le 4 (length value))))
              λ _ s1. then_sys (tc_write s1 name) λ _ s2. tc_write s2 value)

  unfoldable pub send_environ_unset : S → Bytes → Sys S (Unit {0})
  send_environ_unset s name =
      let msglen = 4 + length name in
      if leb msglen msg_max_size
      then tc_write s (header_of msglen msg_environment_variable_unset ++ name)
      else of_outcome (die_if (ltb uint32_max (length name)) einval) (λ _.
        then_sys
          (tc_write s (header_of 8 msg_environment_variable_unset_jumbo ++ to_le 4 (length name)))
          λ _ s1. tc_write s1 name)

  unfoldable pub send_environ_clearenv : S → Sys S (Unit {0})
  send_environ_clearenv s = tc_write s (header_of 4 msg_clearenv)

  abbrev pub send_environ_op : S → Option Bytes → Option Bytes → Sys S (Unit {0})
  send_environ_op s (some name) (some value) = send_environ_set s name value
  send_environ_op s (some name) none = send_environ_unset s name
  send_environ_op s none value = send_environ_clearenv s

  unfoldable pub send_environ_ops : S → List EnvironOp → Sys S (Unit {0})
  send_environ_ops s [] = done tt s
  send_environ_ops s (eop ∷ environ_ops) =
      then_sys (send_environ_op s eop.name eop.value) λ _ s1. send_environ_ops s1 environ_ops

  unfoldable pub send_cmdline_argument : S → ArgValue → Sys S (Unit {0})
  send_cmdline_argument s v =
      let type = arg_type v in
      let val = arg_val v in
      let totalsz = satadd (size_mod - 1) 4 (length val) in
      of_outcome (die_if (totalsz.0 || ltb uint32_max totalsz.1) einval) λ _.
        if leb totalsz.1 msg_max_size
        then then_sys (tc_write s (header_of totalsz.1 type)) (λ _ s1. tc_write s1 val)
        else of_outcome (assert (type == msg_cmdline_argument)) (λ _.
          then_sys (tc_write s (header_of 8 msg_cmdline_argument_jumbo ++ to_le 4 (length val)))
            λ _ s1. tc_write s1 val)

  unfoldable pub send_arguments : S → List ArgValue → Sys S (Unit {0})
  send_arguments s [] = done tt s
  send_arguments s (v ∷ argv) = then_sys (send_cmdline_argument s v) λ _ s1. send_arguments s1 argv

  unfoldable pub send_cmdline : S → Option ArgValue → ArgValue → List ArgValue → Sys S (Unit {0})
  send_cmdline s exename command argv =
      then_sys (send_cmdline_argument s (first_argument exename command))
        λ _ s1. then_sys (send_cmdline_argument s1 command) λ _ s2. send_arguments s2 argv

  unfoldable pub send_chdir : S → Bytes → Sys S (Unit {0})
  send_chdir s child_chdir =
      let totalsz = satadd (size_mod - 1) (length child_chdir) 4 in
      of_outcome (die_if (totalsz.0 || ltb msg_max_size totalsz.1) einval)
        λ _. then_sys (tc_write s (header_of totalsz.1 msg_chdir)) λ _ s1. tc_write s1 child_chdir

  abbrev pub send_chdir_if : S → Option Bytes → Sys S (Unit {0})
  send_chdir_if s none = done tt s
  send_chdir_if s (some child_chdir) = send_chdir s child_chdir

  -- What follows the hello message, for a command that has no candidates for its file.
  unfoldable pub send_setup :
      S
      → Option Bytes
      → List EnvironOp
      → Option ArgValue
      → ArgValue
      → List ArgValue
      → Sys S (Unit {0})
  send_setup s child_chdir environ_ops exename command argv =
      then_sys (send_chdir_if s child_chdir) λ _ s1.
        then_sys (send_environ_ops s1 environ_ops) λ _ s2. send_cmdline s2 exename command argv
