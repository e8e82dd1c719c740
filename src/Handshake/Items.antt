-- ===== src/Handshake/Items.antt =====
-- cmd_shex.c and cmd_stub.c: a list of things that the host tells the stub.
use fb_adb.Prelude.{
  ℕ, ◌+◌, ◌<◌, ◌≡◌, refl, ap, sym, ◌∙◌, arith, Bool, Option, List, [], ◌∷◌, ◌++◌, append_assoc,
  append-nil, Bytes, length, length-append, All,
}
use fb_adb.Outcome.{Outcome, ok, died, aborted, fault, ◌>>=◌}
use fb_adb.Xenviron.{Xenviron}
use fb_adb.Handshake.Host.{ArgValue, text, default_sh, default_sh_login, exec_file, self_argv0}
use fb_adb.Handshake.Child.{Args, with_env, own_env, cleared_env, env_clear}
use fb_adb.Handshake.Item.{
  Item, arg, set_var, unset_var, clear_vars, chdir, item_wire, FitsItem, shell_path, apply,
}

abbrev pub items_wire : List Item → Bytes
items_wire [] = []
items_wire (i ∷ items) = item_wire i ++ items_wire items

-- How many arguments are among them.
abbrev pub is_arg : Item → ℕ
is_arg (arg v) = 1
is_arg (set_var name value) = 0
is_arg (unset_var name) = 0
is_arg clear_vars = 0
is_arg (chdir dir) = 0

abbrev pub count_args : List Item → ℕ
count_args [] = 0
count_args (i ∷ items) = is_arg i + count_args items

-- The last of them is an argument.
abbrev pub Pending : List Item → Type 0
Pending [] = Unit {0}
Pending (i ∷ items) = (0 < count_args (i ∷ items)) × Pending items

abbrev rank : {A : Type 0} → Outcome A → ℕ
rank (ok a) = 1
rank (died e) = 0
rank aborted = 0
rank fault = 0

pub ok_split :
    {A B : Type 0} (o : Outcome A) (f : A → Outcome B) (b : B)
    → (o >>= f) ≡ ok b
    → (a : A) × (o ≡ ok a) × (f a ≡ ok b)
ok_split (ok a) f b e = (a, refl, e)
ok_split (died x) f b e = absurd (omega (arith, ap rank e))
ok_split aborted f b e = absurd (omega (arith, ap rank e))
ok_split fault f b e = absurd (omega (arith, ap rank e))

unfoldable pub argv_of : Outcome Args → List Bytes
argv_of (ok a) = a.argv
argv_of (died e) = []
argv_of aborted = []
argv_of fault = []

one :
    {ys : List Bytes} (xs : List Bytes) (x : Bytes) → xs ++ x ∷ [] ≡ ys → length ys ≡ length xs + 1
one xs x e = sym (ap length e) ∙ length-append xs (x ∷ [])

module _ (shell : Option Bytes) (orig_argv0 : Bytes) where
  -- The string that the child gets for an argument.
  abbrev pub arg_string : ArgValue → Bytes
  arg_string (text val) = val
  arg_string default_sh = shell_path shell
  arg_string default_sh_login = b'-' ∷ shell_path shell
  arg_string exec_file = []
  arg_string self_argv0 = orig_argv0

  abbrev pub strings_of : Item → List Bytes
  strings_of (arg v) = arg_string v ∷ []
  strings_of (set_var name value) = []
  strings_of (unset_var name) = []
  strings_of clear_vars = []
  strings_of (chdir dir) = []

  abbrev pub all_strings : List Item → List Bytes
  all_strings [] = []
  all_strings (i ∷ items) = strings_of i ++ all_strings items

module _ (malloc realloc : ℕ → Bool) (fresh : Option Bytes) (environ : List Bytes)
    (shell : Option Bytes) (orig_argv0 : Bytes) where
  -- What the items do, one after the other.
  abbrev pub run_items : List Item → Args → Outcome Args
  run_items [] a = ok a
  run_items (i ∷ items) a =
      apply malloc realloc fresh environ shell orig_argv0 i a >>= λ a'. run_items items a'

  pub kept_argv :
      (a a' : Args) (f : Xenviron → Outcome Xenviron)
      → with_env malloc realloc fresh environ a f ≡ ok a'
      → a'.argv ≡ a.argv
  unfolding argv_of
  kept_argv a a' f e =
      let (xe, own, e1) = ok_split (own_env malloc realloc fresh environ a.xe) _ a' e in
      let (xe', changed, e2) = ok_split (f xe) _ a' e1 in sym (ap argv_of e2)

  pub count_lem :
      (i : Item) (a a' : Args)
      → FitsItem i
      → apply malloc realloc fresh environ shell orig_argv0 i a ≡ ok a'
      → length a'.argv ≡ length a.argv + is_arg i
  unfolding argv_of env_clear
  count_lem (arg (text val)) a a' fits e = one a.argv _ (ap argv_of e)
  count_lem (arg default_sh) a a' fits e = one a.argv _ (ap argv_of e)
  count_lem (arg default_sh_login) a a' fits e = one a.argv _ (ap argv_of e)
  count_lem (arg exec_file) a a' fits e = absurd fits
  count_lem (arg self_argv0) a a' fits e = one a.argv _ (ap argv_of e)
  count_lem (set_var name value) a a' fits e = ap length (kept_argv a a' _ e) ∙ omega arith
  count_lem (unset_var name) a a' fits e = ap length (kept_argv a a' _ e) ∙ omega arith
  count_lem clear_vars a a' fits e =
      let (xe, cleared, e1) = ok_split (cleared_env malloc realloc fresh environ a.xe) _ a' e in
      ap length (sym (ap argv_of e1)) ∙ omega arith
  count_lem (chdir dir) a a' fits e = ap length (sym (ap argv_of e)) ∙ omega arith

  argv_lem :
      (i : Item) (a a' : Args)
      → FitsItem i
      → apply malloc realloc fresh environ shell orig_argv0 i a ≡ ok a'
      → a'.argv ≡ a.argv ++ strings_of shell orig_argv0 i
  unfolding argv_of env_clear
  argv_lem (arg (text val)) a a' fits e = sym (ap argv_of e)
  argv_lem (arg default_sh) a a' fits e = sym (ap argv_of e)
  argv_lem (arg default_sh_login) a a' fits e = sym (ap argv_of e)
  argv_lem (arg exec_file) a a' fits e = absurd fits
  argv_lem (arg self_argv0) a a' fits e = sym (ap argv_of e)
  argv_lem (set_var name value) a a' fits e = kept_argv a a' _ e ∙ sym (append-nil a.argv)
  argv_lem (unset_var name) a a' fits e = kept_argv a a' _ e ∙ sym (append-nil a.argv)
  argv_lem clear_vars a a' fits e =
      let (xe, cleared, e1) = ok_split (cleared_env malloc realloc fresh environ a.xe) _ a' e in
      sym (ap argv_of e1) ∙ sym (append-nil a.argv)
  argv_lem (chdir dir) a a' fits e = sym (ap argv_of e) ∙ sym (append-nil a.argv)

  pub run_argv :
      (items : List Item) (a a' : Args)
      → All FitsItem items
      → run_items items a ≡ ok a'
      → a'.argv ≡ a.argv ++ all_strings shell orig_argv0 items
  unfolding argv_of
  run_argv [] a a' fits e = sym (ap argv_of e) ∙ sym (append-nil a.argv)
  run_argv (i ∷ items) a a' (fit, fits) e =
      let (a1, one, more) =
        ok_split (apply malloc realloc fresh environ shell orig_argv0 i a) _ a' e in
      run_argv items a1 a' fits more
      ∙ ap (λ w. w ++ all_strings shell orig_argv0 items) (argv_lem i a a1 fit one)
      ∙ append_assoc a.argv (strings_of shell orig_argv0 i) (all_strings shell orig_argv0 items)
