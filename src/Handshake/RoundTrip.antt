-- ===== src/Handshake/RoundTrip.antt =====
-- cmd_shex.c and cmd_stub.c: what the host asks for is what the stub gets.
use fb_adb.Prelude.{
  ℕ, ◌+◌, ◌-◌, ◌*◌, ◌/◌, ◌^◌, ◌<◌, ◌≡◌, refl, ap, ◌∙◌, arith, Bool, true, false, ◌⊎◌, Option, none,
  some, List, [], ◌∷◌, ◌++◌, map, Bytes, length, leb, All,
}
use fb_adb.Outcome.{Errno, ok}
use fb_adb.Util.{size_mod}
use fb_adb.Fs.{Sys, done}
use fb_adb.Fs.Ends.{Ends}
use fb_adb.Core.Message.Read.{Reader}
use fb_adb.Handshake.Host.{ArgValue, EnvironOp, first_argument, send_setup}
use fb_adb.Handshake.Child.{Args, no_args, xalloc, read_child_arglist}
use fb_adb.Handshake.Item.{Item, FitsItem, shell_path}
use fb_adb.Handshake.Items.{
  items_wire, is_arg, count_args, Pending, run_items, run_argv, arg_string, strings_of, all_strings,
}
use fb_adb.Handshake.Turn.{Stub}
use fb_adb.Handshake.Loop.{read_args_lem}
use fb_adb.Handshake.Setup.{op_item, dir_items, op_items, arg_items, setup_items}
use fb_adb.Handshake.Send.{send_setup-Sends}

-- The loop does not stop before the last argument.
arg_items-Pending : (argv : List ArgValue) → Pending (arg_items argv)
arg_items-Pending [] = tt
arg_items-Pending (v ∷ argv) = (omega arith, arg_items-Pending argv)

op_is_no_arg : (name value : Option Bytes) → is_arg (op_item name value) ≡ 0
op_is_no_arg (some name) (some value) = refl
op_is_no_arg (some name) none = refl
op_is_no_arg none value = refl

count_ops :
    (ops : List EnvironOp) (items : List Item)
    → count_args (op_items ops ++ items) ≡ count_args items
count_ops [] items = refl
count_ops (eop ∷ ops) items = omega (arith, op_is_no_arg eop.name eop.value, count_ops ops items)

op_items-Pending :
    (ops : List EnvironOp) (items : List Item)
    → 0 < count_args items
    → Pending items
    → Pending (op_items ops ++ items)
op_items-Pending [] items some_arg pending = pending
op_items-Pending (eop ∷ ops) items some_arg pending =
    (omega (arith, count_ops ops items), op_items-Pending ops items some_arg pending)

dir_items-Pending :
    (dir : Option Bytes) (items : List Item)
    → 0 < count_args items
    → Pending items
    → Pending (dir_items dir ++ items)
dir_items-Pending none items some_arg pending = pending
dir_items-Pending (some dir) items some_arg pending = (omega arith, pending)

count_dir :
    (dir : Option Bytes) (items : List Item)
    → count_args (dir_items dir ++ items) ≡ count_args items
count_dir none items = refl
count_dir (some dir) items = omega arith

count_arg_items : (argv : List ArgValue) → count_args (arg_items argv) ≡ length argv
count_arg_items [] = refl
count_arg_items (v ∷ argv) = omega (arith, count_arg_items argv)

-- All arguments, as the host gives them.
abbrev all_args : Option ArgValue → ArgValue → List ArgValue → List ArgValue
all_args exename command argv = first_argument exename command ∷ command ∷ argv

module _ (dir : Option Bytes) (ops : List EnvironOp) (exename : Option ArgValue)
    (command : ArgValue) (argv : List ArgValue) where
  setup_count : count_args (setup_items dir ops exename command argv) ≡ 2 + length argv
  setup_count =
      let args = arg_items (all_args exename command argv) in
      count_dir dir (op_items ops ++ args)
      ∙ count_ops ops args
      ∙ count_arg_items (all_args exename command argv)
      ∙ omega arith

  setup_items-Pending : Pending (setup_items dir ops exename command argv)
  setup_items-Pending =
      let args = arg_items (all_args exename command argv) in
      let some_arg : 0 < count_args args = omega arith in
      dir_items-Pending dir (op_items ops ++ args) (omega (arith, count_ops ops args))
        (op_items-Pending ops args some_arg (arg_items-Pending (all_args exename command argv)))

module _ (shell : Option Bytes) (orig_argv0 : Bytes) where
  strings_args :
      (argv : List ArgValue)
      → all_strings shell orig_argv0 (arg_items argv) ≡ map (arg_string shell orig_argv0) argv
  strings_args [] = refl
  strings_args (v ∷ argv) = ap (λ w. arg_string shell orig_argv0 v ∷ w) (strings_args argv)

  op_has_none : (name value : Option Bytes) → strings_of shell orig_argv0 (op_item name value) ≡ []
  op_has_none (some name) (some value) = refl
  op_has_none (some name) none = refl
  op_has_none none value = refl

  strings_ops :
      (ops : List EnvironOp) (items : List Item)
      → all_strings shell orig_argv0 (op_items ops ++ items) ≡ all_strings shell orig_argv0 items
  strings_ops [] items = refl
  strings_ops (eop ∷ ops) items =
      ap (λ w. w ++ all_strings shell orig_argv0 (op_items ops ++ items))
        (op_has_none eop.name eop.value)
      ∙ strings_ops ops items

  strings_setup :
      (dir : Option Bytes) (ops : List EnvironOp) (exename : Option ArgValue) (command : ArgValue)
      (argv : List ArgValue)
      → all_strings shell orig_argv0 (setup_items dir ops exename command argv)
        ≡ map (arg_string shell orig_argv0) (all_args exename command argv)
  strings_setup none ops exename command argv =
      strings_ops ops _ ∙ strings_args (all_args exename command argv)
  strings_setup (some dir) ops exename command argv =
      strings_ops ops _ ∙ strings_args (all_args exename command argv)

module _ {S T : Type 0} {rdr : S → ℕ → Sys S Bytes} {wtr : S → Bytes → Sys S (Unit {0})}
    {rdr' : T → ℕ → Sys T Bytes} (ends : Ends rdr wtr) (reader : Reader rdr')
    (malloc realloc : ℕ → Bool) (memory : (sz : ℕ) → malloc sz ≡ true) (fresh : Option Bytes)
    (environ : List Bytes) (shell : Option Bytes) (orig_argv0 mydir : Bytes)
    (try_xopen : T → Bytes → (Errno ⊎ ℕ) × T) (sha256_fd : T → ℕ → Bytes × T)
    (wtr' : T → Bytes → Sys T (Unit {0})) where
  -- Where memory is left, the strings fit their messages and no argument stands for the executable file,
  -- the host sends the directory, the changes of the environment and the arguments and returns. Where those
  -- changes do not fail, and with fuel for each message, a stub that has the sent bytes next gets just the
  -- strings of the arguments with a NULL behind them, and the directory and environment that the changes
  -- give one after the other, and leaves what follows.
  pub arglist-setup :
      (dir : Option Bytes) (ops : List EnvironOp) (exename : Option ArgValue) (command : ArgValue)
      (argv : List ArgValue) (fuel : ℕ) (s : S) (t : T) (a : Args) (rest : Bytes)
      → length (shell_path shell) < 2 ^ 32
      → length orig_argv0 < 2 ^ 32
      → length argv < 2 ^ 32
      → All FitsItem (setup_items dir ops exename command argv)
      → run_items malloc realloc fresh environ shell orig_argv0
          (setup_items dir ops exename command argv)
          no_args
        ≡ ok a
      → length (setup_items dir ops exename command argv) < fuel
      → ends.got s ≡ []
      → ((s' : S)
          → send_setup wtr s dir ops exename command argv ≡ done tt s'
          → reader.left t ≡ ends.got s' ++ rest)
      → (s' : S) × (t' : T) × (send_setup wtr s dir ops exename command argv ≡ done tt s')
        × (read_child_arglist malloc realloc fresh environ rdr' shell orig_argv0 mydir try_xopen
              sha256_fd wtr' fuel
              (2 + length argv)
              t
            ≡ done
                (
                  map some (map (arg_string shell orig_argv0) (all_args exename command argv))
                      ++ none ∷ [],
                  a.cwd,
                  a.xe,
                )
                t')
        × (reader.left t' ≡ rest)
  unfolding read_child_arglist xalloc
  arglist-setup dir ops exename command argv fuel s t a rest short short' few fits run enough new
        piped =
      let items = setup_items dir ops exename command argv in
      let (s', sent, got) = send_setup-Sends ends s dir ops exename command argv fits in
      let stub : Stub rdr' = record {
        reader = reader;
        malloc = malloc;
        realloc = realloc;
        memory = memory;
        fresh = fresh;
        environ = environ;
        shell = shell;
        orig_argv0 = orig_argv0;
        mydir = mydir;
        try_xopen = try_xopen;
        sha256_fd = sha256_fd;
        wtr = wtr';
      } in
      let (t', read, left) =
        read_args_lem stub short short' fuel (2 + length argv) items t no_args a rest enough
          (setup_items-Pending dir ops exename command argv)
          (omega (arith, setup_count dir ops exename command argv)) fits
          (piped s' sent ∙ ap (λ w. w ++ rest) (got ∙ ap (λ w. w ++ items_wire items) new)) run in
      let small : leb ((size_mod - 1) / 8) (2 + length argv) ≡ false = ground (arith, few) in
      let strings =
        run_argv malloc realloc fresh environ shell orig_argv0 items no_args a fits run
        ∙ strings_setup shell orig_argv0 dir ops exename command argv in
      (
        s',
        t',
        sent,
        rw (small, memory (8 * (1 + (2 + length argv))), read)
            (ap (λ w. done (map some w ++ none ∷ [], a.cwd, a.xe) t') strings),
        left,
      )
