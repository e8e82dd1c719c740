-- ===== src/Handshake/Item.antt =====
-- cmd_stub.c: what the stub makes of one thing that the host tells it.
use fb_adb.Prelude.{
  ℕ, ◌+◌, ◌^◌, ◌<◌, Bool, Option, none, some, List, [], ◌∷◌, ◌++◌, Bytes, codes, length, leb,
  if◌then◌else◌,
}
use fb_adb.Outcome.{Outcome, ok, died, ecomm}
use fb_adb.Json.{format_u64}
use fb_adb.Proto.{to_le}
use fb_adb.Xenviron.{xenviron_set, xenviron_unset}
use fb_adb.Handshake.{msg_max_size}
use fb_adb.Handshake.Host.{ArgValue, text, default_sh, default_sh_login, exec_file, self_argv0}
use fb_adb.Handshake.Child.{Args, with_env, env_clear}
use fb_adb.Handshake.Frame.{CString, plain}

-- An argument, a change of the environment, or the directory.
pub data Item : Type 0 where
  arg : ArgValue → Item
  set_var : Bytes → Bytes → Item
  unset_var : Bytes → Item
  clear_vars : Item
  chdir : Bytes → Item

-- Where a text is too long for one message, it comes behind it.
abbrev pub arg_wire : ArgValue → Bytes
arg_wire (text val) =
    if leb (4 + length val) msg_max_size
    then plain 48 val
    else plain 49 (to_le 4 (length val)) ++ val
arg_wire default_sh = plain 55 []
arg_wire default_sh_login = plain 56 []
arg_wire exec_file = plain 57 []
arg_wire self_argv0 = plain 58 []

abbrev pub item_wire : Item → Bytes
item_wire (arg v) = arg_wire v
item_wire (set_var name value) =
    if leb (4 + length name + 1 + length value) msg_max_size
    then plain 51 (name ++ 0 ∷ value)
    else plain 53 (to_le 4 (length name) ++ to_le 4 (length value)) ++ (name ++ value)
item_wire (unset_var name) =
    if leb (4 + length name) msg_max_size
    then plain 52 name
    else plain 54 (to_le 4 (length name)) ++ name
item_wire clear_vars = plain 50 []
item_wire (chdir dir) = plain 61 dir

-- The strings have lengths that the messages can say, and no NUL. The executable file is left out.
abbrev pub FitsItem : Item → Type 0
FitsItem (arg (text val)) = 4 + length val < 2 ^ 32
FitsItem (arg default_sh) = Unit {0}
FitsItem (arg default_sh_login) = Unit {0}
FitsItem (arg exec_file) = ⊥
FitsItem (arg self_argv0) = Unit {0}
FitsItem (set_var name value) =
    CString name × CString value × (length name < 2 ^ 32) × (length value < 2 ^ 32)
FitsItem (unset_var name) = CString name × (length name < 2 ^ 32)
FitsItem clear_vars = Unit {0}
FitsItem (chdir dir) = CString dir × (4 + length dir < 2 ^ 16)

abbrev pub more_args : Args → Bytes → Args
more_args a val = record a { argv = a.argv ++ val ∷ [] }

abbrev pub shell_path : Option Bytes → Bytes
shell_path none = codes "/system/bin/sh"
shell_path (some path) = path

abbrev pub exec_arg : Option ℕ → Args → Outcome Args
exec_arg none a = died ecomm
exec_arg (some fd) a = ok (more_args a (codes "/proc/self/fd/" ++ format_u64 fd))

module _ (malloc realloc : ℕ → Bool) (fresh : Option Bytes) (environ : List Bytes)
    (shell : Option Bytes) (orig_argv0 : Bytes) where
  -- What an item does to the child's arguments and environment.
  abbrev pub apply : Item → Args → Outcome Args
  apply (arg (text val)) a = ok (more_args a val)
  apply (arg default_sh) a = ok (more_args a (shell_path shell))
  apply (arg default_sh_login) a = ok (more_args a (b'-' ∷ shell_path shell))
  apply (arg exec_file) a = exec_arg a.exec_file a
  apply (arg self_argv0) a = ok (more_args a orig_argv0)
  apply (set_var name value) a =
      with_env malloc realloc fresh environ a λ xe. xenviron_set malloc realloc fresh xe name value
  apply (unset_var name) a =
      with_env malloc realloc fresh environ a λ xe. xenviron_unset malloc realloc fresh xe name
  apply clear_vars a = env_clear malloc realloc fresh environ a
  apply (chdir dir) a = ok (record a { cwd = some dir })
