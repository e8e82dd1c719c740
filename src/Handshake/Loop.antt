-- ===== src/Handshake/Loop.antt =====
-- cmd_stub.c: the stub's loop over all that the host sends.
use fb_adb.Prelude.{
  ℕ, zero, suc, ◌+◌, ◌^◌, ◌<◌, ◌≡◌, refl, ap, ◌∙◌, arith, true, false, inl, inr, Bool-cases, List,
  [], ◌∷◌, ◌++◌, append_assoc, Bytes, length, ltb, lt→ltb, leb, All,
}
use fb_adb.Outcome.{Outcome, ok}
use fb_adb.Fs.{Sys, done, left_by, spinning, then_sys, of_outcome}
use fb_adb.Core.Message.{read_msg}
use fb_adb.Handshake.{msg_max_size}
use fb_adb.Handshake.Host.{text, default_sh, default_sh_login, exec_file, self_argv0}
use fb_adb.Handshake.Child.{Args, read_args}
use fb_adb.Handshake.Item.{
  Item, arg, set_var, unset_var, clear_vars, chdir, item_wire, FitsItem, shell_path, apply,
}
use fb_adb.Handshake.Turn.{Stub, turn, Takes}
use fb_adb.Handshake.Effect.{
  clear_lem, default_lem, chdir_lem, login_lem, self_lem, short_text_lem, long_text_lem,
}
use fb_adb.Handshake.Environ.{short_set_lem, long_set_lem, short_unset_lem, long_unset_lem}
use fb_adb.Handshake.Items.{items_wire, count_args, Pending, ok_split, run_items, count_lem}

assoc :
    {S A B C : Type 0} (m : Sys S A) (f : A → S → Sys S B) (g : B → S → Sys S C)
    → then_sys m (λ a s. then_sys (f a s) g) ≡ then_sys (then_sys m f) g
assoc (done a s) f g = refl
assoc (left_by o) f g = refl
assoc spinning f g = refl

module _ {S : Type 0} {rdr : S → ℕ → Sys S Bytes} (stub : Stub rdr) where
  module _ (short : length (shell_path stub.shell) < 2 ^ 32)
      (short' : length stub.orig_argv0 < 2 ^ 32) where
    item_lem :
        (i : Item) (s : S) (a : Args) (rest : Bytes)
        → FitsItem i
        → stub.reader.left s ≡ item_wire i ++ rest
        → Takes stub s a i rest
    item_lem (arg (text val)) s a rest fits sent =
        elim (Bool-cases (leb (4 + length val) msg_max_size)) [
          | inl e ↦ short_text_lem stub s a val rest (ground (arith, e)) (rw e at sent)
          | inr e ↦ long_text_lem stub s a val rest (omega (arith, fits)) (rw e at sent)
        ]
    item_lem (arg default_sh) s a rest fits sent = default_lem stub s a rest short sent
    item_lem (arg default_sh_login) s a rest fits sent = login_lem stub s a rest short sent
    item_lem (arg exec_file) s a rest fits sent = absurd fits
    item_lem (arg self_argv0) s a rest fits sent = self_lem stub s a rest short' sent
    item_lem (set_var name value) s a rest fits sent =
        elim (Bool-cases (leb (4 + length name + 1 + length value) msg_max_size)) [
          | inl e ↦ short_set_lem stub s a name value rest fits (ground (arith, e)) (rw e at sent)
          | inr e ↦ long_set_lem stub s a name value rest fits (rw e at sent)
        ]
    item_lem (unset_var name) s a rest fits sent =
        elim (Bool-cases (leb (4 + length name) msg_max_size)) [
          | inl e ↦ short_unset_lem stub s a name rest fits.0 (ground (arith, e)) (rw e at sent)
          | inr e ↦ long_unset_lem stub s a name rest fits (rw e at sent)
        ]
    item_lem clear_vars s a rest fits sent = clear_lem stub s a rest sent
    item_lem (chdir dir) s a rest fits sent = chdir_lem stub s a dir rest fits sent

    abbrev loop : ℕ → ℕ → S → Args → Sys S Args
    loop =
        read_args stub.malloc stub.realloc stub.fresh stub.environ rdr stub.shell stub.orig_argv0
          stub.mydir stub.try_xopen stub.sha256_fd stub.wtr

    turn_steps :
        (fuel expected : ℕ) (s s1 : S) (a a1 : Args) (o : Outcome Args)
        → length a.argv < expected
        → turn stub s a ≡ of_outcome o (λ a'. done a' s1)
        → o ≡ ok a1
        → loop (suc fuel) expected s a ≡ loop fuel expected s1 a1
    unfolding read_args
    turn_steps fuel expected s s1 a a1 o less e same = rw (lt→ltb (length a.argv) expected less) (
        assoc (read_msg rdr stub.malloc true s) _ _
        ∙ ap (λ m. then_sys m λ a' s2. loop fuel expected s2 a')
            (e ∙ ap (λ o. of_outcome o λ a'. done a' s1) same))

    -- With fuel for each item, the loop returns when it has all arguments.
    pub read_args_lem :
        (fuel expected : ℕ) (items : List Item) (s : S) (a a' : Args) (rest : Bytes)
        → length items < fuel
        → Pending items
        → length a.argv + count_args items ≡ expected
        → All FitsItem items
        → stub.reader.left s ≡ items_wire items ++ rest
        → run_items stub.malloc stub.realloc stub.fresh stub.environ stub.shell stub.orig_argv0
            items a
          ≡ ok a'
        → (s' : S) × (loop fuel expected s a ≡ done a' s') × (stub.reader.left s' ≡ rest)
    unfolding read_args
    read_args_lem zero expected items s a a' rest h pending total fits sent run =
        absurd (omega arith)
    read_args_lem (suc fuel) expected [] s a a' rest h pending total fits sent run =
        let full : ltb (length a.argv) expected ≡ false = ground arith in
        (s, rw full (ap (λ o. of_outcome o λ a. done a s) run), sent)
    read_args_lem (suc fuel) expected (i ∷ items) s a a' rest h (some_arg, pending) total
          (fit, fits) sent run =
        let (a1, one_run, more_run) =
          ok_split
            (apply stub.malloc stub.realloc stub.fresh stub.environ stub.shell stub.orig_argv0 i a)
            _ a' run in
        let (s1, e, left) =
          item_lem i s a (items_wire items ++ rest) fit
            (sent ∙ append_assoc (item_wire i) (items_wire items) rest) in
        let (s', later, left') =
          read_args_lem fuel expected items s1 a1 a' rest (omega arith) pending
            (omega (
              arith,
              count_lem stub.malloc stub.realloc stub.fresh stub.environ stub.shell stub.orig_argv0
                  i a a1 fit one_run,
              total,
            ))
            fits left more_run in
        (
          s',
          turn_steps fuel expected s s1 a a1 _ (omega (arith, total, some_arg)) e one_run ∙ later,
          left',
        )
