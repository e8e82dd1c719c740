-- ===== src/Handshake/Child.antt =====
-- cmd_stub.c: the stub's side. The reader is a function on the kernel's state; what malloc and realloc
-- answer, the environment of the stub, and what it finds of the executable file are parameters.
use fb_adb.Prelude.{
  ℕ, zero, suc, ◌+◌, ◌-◌, ◌*◌, ◌/◌, Bool, true, false, not, Option, none, some, List, [], ◌∷◌, ◌++◌,
  map, ◌⊎◌, inl, inr, Bytes, codes, length, take, drop, ltb, leb, ◌==◌, ◌||◌, if◌then◌else◌,
}
use fb_adb.Outcome.{Errno, Outcome, ok, died, ◌>>=◌, ◌>>◌, ecomm, enomem, die_if}
use fb_adb.Util.{size_mod, satadd}
use fb_adb.Strutil.{strchr}
use fb_adb.Json.{format_u64}
use fb_adb.Proto.{as_msg, of_le}
use fb_adb.Xenviron.{Xenviron, xenviron_create, xenviron_set, xenviron_unset, xenviron_clear}
use fb_adb.Core.Message.{read_msg, check_msg_cast}
use fb_adb.Fs.{Sys, done, left_by, spinning, then_sys, of_outcome}
use fb_adb.Xfer.Calls.{same_string}
use fb_adb.Handshake.{
  msg_cmdline_argument, msg_cmdline_argument_jumbo, msg_clearenv, msg_environment_variable_set,
  msg_environment_variable_unset, msg_environment_variable_set_jumbo,
  msg_environment_variable_unset_jumbo, msg_cmdline_default_sh, msg_cmdline_default_sh_login,
  msg_cmdline_exec_file, msg_cmdline_self_argv0, msg_chdir, msg_open_exec_file, msg_exec_file_ok,
  msg_exec_file_mismatch, header_of,
}

abbrev pub efbig : Errno
efbig = 27

abbrev pub enoent : Errno
enoent = 2

-- The bytes before the first NUL, as strnlen counts them.
unfoldable pub c_string : Bytes → Bytes
c_string [] = []
c_string (c ∷ cs) = let rest = c_string cs in if c == 0 then [] else c ∷ rest

-- What the loop of `read_child_arglist` has: the strings of argv so far, `cwd`, `xe` and `exec_file`.
pub record Args : Type 0 where
  pub argv : List Bytes
  pub cwd : Option Bytes
  pub xe : Option Xenviron
  pub exec_file : Option ℕ

abbrev pub no_args : Args
no_args = record { argv = []; cwd = none; xe = none; exec_file = none }

-- `rdr (STDIN_FILENO, buf, n)`, where fewer bytes are an error.
unfoldable pub read_exactly : {S : Type 0} → (S → ℕ → Sys S Bytes) → S → ℕ → Sys S Bytes
read_exactly rdr s n =
    then_sys (rdr s n) λ bs s1. of_outcome (die_if (ltb (length bs) n) ecomm) λ _. done bs s1

module _ (malloc realloc : ℕ → Bool) (fresh : Option Bytes) (environ : List Bytes) where
  -- `xe`, or a copy of the stub's environment.
  unfoldable pub own_env : Option Xenviron → Outcome Xenviron
  own_env none = xenviron_create malloc realloc fresh (some environ)
  own_env (some xe) = ok xe

  unfoldable pub cleared_env : Option Xenviron → Outcome Xenviron
  cleared_env none = xenviron_create malloc realloc fresh none
  cleared_env (some xe) = xenviron_clear malloc realloc fresh xe

  abbrev pub with_env : Args → (Xenviron → Outcome Xenviron) → Outcome Args
  with_env a f = own_env a.xe >>= λ xe. f xe >>= λ xe'. ok (record a { xe = some xe' })

  unfoldable pub xalloc : ℕ → Outcome (Unit {0})
  xalloc sz = die_if (not (malloc sz)) enomem

  unfoldable pub xstrndup : Bytes → Outcome Bytes
  xstrndup bs = let s = c_string bs in xalloc (length s + 1) >> ok s

  -- `argv[argno++]` is the value and a NUL.
  unfoldable pub put_arg : Bytes → Args → Outcome Args
  put_arg argval a =
      let allocsz = satadd (size_mod - 1) (length argval) 1 in
      die_if (allocsz.0) ecomm
      >> xalloc (length argval + 1)
      >> ok (record a { argv = a.argv ++ argval ∷ [] })

  -- `payload` is the name, a NUL, and the value without one.
  unfoldable pub env_set : Bytes → Args → Outcome Args
  env_set payload a =
      let name = c_string payload in
      die_if (length name == length payload) ecomm
      >> (xstrndup (drop (length name + 1) payload) >>= λ value.
          with_env a λ xe. xenviron_set malloc realloc fresh xe name value)

  unfoldable pub env_unset : Bytes → Args → Outcome Args
  env_unset payload a =
      xstrndup payload >>= λ name. with_env a λ xe. xenviron_unset malloc realloc fresh xe name

  unfoldable pub env_clear : Args → Outcome Args
  env_clear a = cleared_env a.xe >>= λ xe. ok (record a { xe = some xe })

  unfoldable pub put_shell : Option Bytes → Bool → Args → Outcome Args
  put_shell shell login a =
      let argval : Bytes = elim shell [ none ↦ codes "/system/bin/sh" | some path ↦ path ] in
      if login then xalloc (length argval + 2) >> put_arg (b'-' ∷ argval) a else put_arg argval a

  unfoldable pub put_exec_file : Args → Outcome Args
  put_exec_file a = elim a.exec_file [
    | none ↦ died ecomm
    | some fd ↦
        let argval = codes "/proc/self/fd/" ++ format_u64 fd in
        xalloc (length argval + 1) >> put_arg argval a
  ]

  module _ {S : Type 0} (rdr : S → ℕ → Sys S Bytes) where
    unfoldable pub on_argument_jumbo : Bytes → S → Args → Sys S Args
    on_argument_jumbo msg s a =
        let arglen = of_le (take 4 (drop 4 msg)) in
        of_outcome (xalloc arglen) λ _.
          then_sys (read_exactly rdr s arglen) λ buf s1. of_outcome (put_arg buf a) λ a'. done a' s1

    unfoldable pub on_set_jumbo : Bytes → S → Args → Sys S Args
    on_set_jumbo msg s a =
        let name_length = of_le (take 4 (drop 4 msg)) in
        let value_length = of_le (take 4 (drop 8 msg)) in
        of_outcome
          (die_if (name_length == size_mod - 1 || value_length == size_mod - 1) ecomm
            >> xalloc (name_length + 1)
            >> xalloc (value_length + 1))
          λ _. then_sys (read_exactly rdr s name_length) λ name s1.
            then_sys (read_exactly rdr s1 value_length) λ value s2.
              of_outcome
                (with_env a
                  λ xe. xenviron_set malloc realloc fresh xe (c_string name) (c_string value))
                λ a'. done a' s2

    unfoldable pub on_unset_jumbo : Bytes → S → Args → Sys S Args
    on_unset_jumbo msg s a =
        let name_length = of_le (take 4 (drop 4 msg)) in
        of_outcome (die_if (name_length == size_mod - 1) ecomm >> xalloc (name_length + 1)) λ _.
          then_sys (read_exactly rdr s name_length) λ name s1.
            of_outcome (with_env a λ xe. xenviron_unset malloc realloc fresh xe (c_string name))
              λ a'. done a' s1

    module _ (shell : Option Bytes) (orig_argv0 mydir : Bytes)
        (try_xopen : S → Bytes → (Errno ⊎ ℕ) × S) (sha256_fd : S → ℕ → Bytes × S)
        (wtr : S → Bytes → Sys S (Unit {0})) where
      unfoldable pub tell_mismatch : Bytes → S → Sys S (Option ℕ)
      tell_mismatch exec_filename s =
          then_sys (wtr s (header_of (4 + length exec_filename) msg_exec_file_mismatch))
            λ _ s1. then_sys (wtr s1 exec_filename) λ _ s2. done none s2

      abbrev pub on_exec_open : Bytes → Bytes → Errno ⊎ ℕ → S → Sys S (Option ℕ)
      on_exec_open expected exec_filename (inl e) s =
          if e == enoent then tell_mismatch exec_filename s else left_by (died e)
      on_exec_open expected exec_filename (inr fd) s =
          let r = sha256_fd s fd in
          if same_string expected (take 16 (r.0))
          then then_sys (wtr (r.1) (header_of 4 msg_exec_file_ok)) (λ _ s1. done (some fd) s1)
          else tell_mismatch exec_filename (r.1)

      -- The descriptor of the file, when it has the hash that the host expects.
      unfoldable pub handle_open_exec_file : Bytes → S → Sys S (Option ℕ)
      handle_open_exec_file msg s = of_outcome (xstrndup (drop 20 msg)) λ xcmd_basename.
          of_outcome (die_if (strchr xcmd_basename b'/') ecomm) λ _.
            let exec_filename = mydir ++ codes "/" ++ xcmd_basename in
            of_outcome (xalloc (length exec_filename + 1)) λ _.
              let r = try_xopen s exec_filename in
              on_exec_open (take 16 (drop 4 msg)) exec_filename (r.0) (r.1)

      unfoldable pub on_open_exec_file : Bytes → S → Args → Sys S Args
      on_open_exec_file msg s a = elim a.exec_file [
        | some fd ↦ left_by (died ecomm)
        | none ↦ of_outcome (check_msg_cast (as_msg msg) 20) λ _.
            then_sys (handle_open_exec_file msg s) λ fd s1. done (record a { exec_file = fd }) s1
      ]

      -- The rest of a change that reads nothing.
      abbrev pub changed : S → Outcome Args → Sys S Args
      changed s o = of_outcome o λ a. done a s

      unfoldable pub on_message : ℕ → Bytes → S → Args → Sys S Args
      on_message type msg s a =
          if type == msg_cmdline_argument
          then changed s (put_arg (drop 4 msg) a)
          else if type == msg_cmdline_default_sh
          then changed s (put_shell shell false a)
          else if type == msg_cmdline_default_sh_login
          then changed s (put_shell shell true a)
          else if type == msg_cmdline_exec_file
          then changed s (put_exec_file a)
          else if type == msg_cmdline_self_argv0
          then changed s (put_arg orig_argv0 a)
          else if type == msg_cmdline_argument_jumbo
          then of_outcome (check_msg_cast (as_msg msg) 8) (λ _. on_argument_jumbo msg s a)
          else if type == msg_clearenv
          then changed s (env_clear a)
          else if type == msg_environment_variable_set
          then changed s (env_set (drop 4 msg) a)
          else if type == msg_environment_variable_set_jumbo
          then of_outcome (check_msg_cast (as_msg msg) 12) (λ _. on_set_jumbo msg s a)
          else if type == msg_environment_variable_unset
          then changed s (env_unset (drop 4 msg) a)
          else if type == msg_environment_variable_unset_jumbo
          then of_outcome (check_msg_cast (as_msg msg) 8) (λ _. on_unset_jumbo msg s a)
          else if type == msg_chdir
          then changed s (xstrndup (drop 4 msg) >>= λ dir. ok (record a { cwd = some dir }))
          else if type == msg_open_exec_file
          then on_open_exec_file msg s a
          else left_by (died ecomm)

      -- The loop, with fuel for each message.
      unfoldable pub read_args : ℕ → ℕ → S → Args → Sys S Args
      read_args zero expected s a = spinning
      read_args (suc fuel) expected s a =
          let rest = then_sys (read_msg rdr malloc true s) λ msg s1.
            then_sys (on_message (as_msg msg).type msg s1 a)
              λ a' s2. read_args fuel expected s2 a' in
          if ltb (length a.argv) expected then rest else done a s

      -- The array, the directory and the environment.
      unfoldable pub read_child_arglist :
          ℕ → ℕ → S → Sys S (List (Option Bytes) × Option Bytes × Option Xenviron)
      read_child_arglist fuel expected s =
          of_outcome
            (die_if (leb ((size_mod - 1) / 8) expected) efbig >> xalloc (8 * (1 + expected)))
            λ _.
              then_sys (read_args fuel expected s no_args)
                λ a s1. done (map some a.argv ++ none ∷ [], a.cwd, a.xe) s1
