-- ===== src/Handshake/Send.antt =====
-- cmd_shex.c: the bytes that the host writes.
use fb_adb.Prelude.{
  ℕ, ◌+◌, ◌-◌, ◌^◌, ◌<◌, ◌≡◌, refl, ap, sym, ◌∙◌, arith, false, inl, inr, Bool-cases, Option, none,
  some, List, [], ◌∷◌, ◌++◌, append_assoc, append-nil, Bytes, length, length-append, ltb, leb, ◌||◌,
  All,
}
use fb_adb.Util.{size_mod, satadd}
use fb_adb.Proto.{to_le, msg_bytes}
use fb_adb.Xfer.Wire.{length-to_le}
use fb_adb.Fs.{Sys, done, then_sys}
use fb_adb.Fs.Ends.{Ends}
use fb_adb.Handshake.{msg_max_size, uint32_max, header_of}
use fb_adb.Handshake.Host.{
  ArgValue, text, default_sh, default_sh_login, exec_file, self_argv0, EnvironOp, send_environ_set,
  send_environ_unset, send_environ_clearenv, send_environ_op, send_environ_ops,
  send_cmdline_argument, send_arguments, first_argument, send_cmdline, send_chdir, send_chdir_if,
  send_setup,
}
use fb_adb.Handshake.Frame.{plain}
use fb_adb.Handshake.Item.{
  arg, set_var, unset_var, clear_vars, chdir, item_wire, arg_wire, FitsItem,
}
use fb_adb.Handshake.Turn.{two_words}
use fb_adb.Handshake.Items.{items_wire}
use fb_adb.Handshake.Setup.{
  op_item, op_items, arg_items, dir_items, setup_items, items_wire-append, FitsItem-left,
  FitsItem-right,
}

module _ {S : Type 0} {rdr : S → ℕ → Sys S Bytes} {wtr : S → Bytes → Sys S (Unit {0})}
    (ends : Ends rdr wtr) where
  -- A call that returns when it has put these bytes behind what was sent.
  abbrev pub Sends : S → Sys S (Unit {0}) → Bytes → Type 0
  Sends s m bs = (s' : S) × (m ≡ done tt s') × (ends.got s' ≡ ends.got s ++ bs)

  wtr-Sends : (s : S) (bs : Bytes) → Sends s (wtr s bs) bs
  wtr-Sends s bs = let (s', e, got, left) = ends.writes s bs in (s', e, got)

  then_sys-Sends :
      (s : S) (m : Sys S (Unit {0})) (f : S → Sys S (Unit {0})) (bs cs : Bytes)
      → Sends s m bs
      → ((s1 : S) → Sends s1 (f s1) cs)
      → Sends s (then_sys m λ _ s1. f s1) (bs ++ cs)
  then_sys-Sends s m f bs cs (s1, e, got) rest =
      let (s2, e2, got2) = rest s1 in
      (
        s2,
        ap (λ m. then_sys m λ _ s1. f s1) e ∙ e2,
        got2 ∙ ap (λ w. w ++ cs) got ∙ append_assoc (ends.got s) bs cs,
      )

  send_environ_set-Sends :
      (s : S) (name value : Bytes)
      → FitsItem (set_var name value)
      → Sends s (send_environ_set wtr s name value) (item_wire (set_var name value))
  unfolding send_environ_set
  send_environ_set-Sends s name value (n, v, ns, vs) =
      elim (Bool-cases (leb (4 + length name + 1 + length value) msg_max_size)) [
        | inl e ↦
            let size : 4 + length name + 1 + length value ≡ 4 + length (name ++ 0 ∷ value) =
              omega (arith, length-append name (0 ∷ value)) in
            rw e (rw size (wtr-Sends s (plain 51 (name ++ 0 ∷ value))))
        | inr e ↦
            let words = to_le 4 (length name) ++ to_le 4 (length value) in
            let fits : (ltb uint32_max (length name) || ltb uint32_max (length value)) ≡ false =
              ground (arith, ns, vs) in
            rw (e, fits, two_words (length name) (length value))
              (then_sys-Sends s _ _ (header_of 12 53 ++ words) (name ++ value) (wtr-Sends s _)
                λ s1. then_sys-Sends s1 _ _ name value (wtr-Sends s1 name) λ s2. wtr-Sends s2 value)
      ]

  send_environ_unset-Sends :
      (s : S) (name : Bytes)
      → FitsItem (unset_var name)
      → Sends s (send_environ_unset wtr s name) (item_wire (unset_var name))
  unfolding send_environ_unset
  send_environ_unset-Sends s name (n, ns) = elim (Bool-cases (leb (4 + length name) msg_max_size)) [
    | inl e ↦ rw e (wtr-Sends s (plain 52 name))
    | inr e ↦
        let fits : ltb uint32_max (length name) ≡ false = ground (arith, ns) in
        rw (e, fits, length-to_le 4 (length name))
          (then_sys-Sends s _ _ (header_of 8 54 ++ to_le 4 (length name)) name (wtr-Sends s _)
            λ s1. wtr-Sends s1 name)
  ]

  send_chdir-Sends :
      (s : S) (dir : Bytes)
      → FitsItem (chdir dir)
      → Sends s (send_chdir wtr s dir) (item_wire (chdir dir))
  unfolding send_chdir satadd
  send_chdir-Sends s dir (n, small) =
      let fits : ltb (size_mod - 1 - length dir) 4 ≡ false = ground arith in
      let size : length dir + 4 ≡ 4 + length dir = omega arith in
      let short : ltb msg_max_size (4 + length dir) ≡ false = ground arith in
      rw (fits, size, short)
        (then_sys-Sends s _ _ (header_of (4 + length dir) 61) dir (wtr-Sends s _)
          λ s1. wtr-Sends s1 dir)

  text-Sends :
      (s : S) (val : Bytes)
      → 4 + length val < 2 ^ 32
      → Sends s (send_cmdline_argument wtr s (text val)) (arg_wire (text val))
  unfolding send_cmdline_argument satadd
  text-Sends s val small =
      let fits : ltb (size_mod - 1 - 4) (length val) ≡ false = ground arith in
      let short : ltb uint32_max (4 + length val) ≡ false = ground arith in
      elim (Bool-cases (leb (4 + length val) msg_max_size)) [
        | inl e ↦
            rw (fits, short, e)
              (then_sys-Sends s _ _ (header_of (4 + length val) 48) val (wtr-Sends s _)
                λ s1. wtr-Sends s1 val)
        | inr e ↦
            rw (fits, short, e, length-to_le 4 (length val))
              (then_sys-Sends s _ _ (header_of 8 49 ++ to_le 4 (length val)) val (wtr-Sends s _)
                λ s1. wtr-Sends s1 val)
      ]

  send_cmdline_argument-Sends :
      (s : S) (v : ArgValue)
      → FitsItem (arg v)
      → Sends s (send_cmdline_argument wtr s v) (arg_wire v)
  unfolding send_cmdline_argument satadd
  send_cmdline_argument-Sends s (text val) fits = text-Sends s val fits
  send_cmdline_argument-Sends s default_sh fits =
      then_sys-Sends s _ _ (header_of 4 55) [] (wtr-Sends s _) λ s1. wtr-Sends s1 []
  send_cmdline_argument-Sends s default_sh_login fits =
      then_sys-Sends s _ _ (header_of 4 56) [] (wtr-Sends s _) λ s1. wtr-Sends s1 []
  send_cmdline_argument-Sends s exec_file fits = absurd fits
  send_cmdline_argument-Sends s self_argv0 fits =
      then_sys-Sends s _ _ (header_of 4 58) [] (wtr-Sends s _) λ s1. wtr-Sends s1 []

  send_environ_clearenv-Sends :
      (s : S) → Sends s (send_environ_clearenv wtr s) (item_wire clear_vars)
  unfolding send_environ_clearenv msg_bytes to_le
  send_environ_clearenv-Sends s = wtr-Sends s (plain 50 [])

  send_environ_op-Sends :
      (s : S) (name value : Option Bytes)
      → FitsItem (op_item name value)
      → Sends s (send_environ_op wtr s name value) (item_wire (op_item name value))
  send_environ_op-Sends s (some name) (some value) fits = send_environ_set-Sends s name value fits
  send_environ_op-Sends s (some name) none fits = send_environ_unset-Sends s name fits
  send_environ_op-Sends s none value fits = send_environ_clearenv-Sends s

  done-Sends : (s : S) → Sends s (done tt s) []
  done-Sends s = (s, refl, sym (append-nil (ends.got s)))

  send_environ_ops-Sends :
      (s : S) (ops : List EnvironOp)
      → All FitsItem (op_items ops)
      → Sends s (send_environ_ops wtr s ops) (items_wire (op_items ops))
  unfolding send_environ_ops
  send_environ_ops-Sends s [] fits = done-Sends s
  send_environ_ops-Sends s (eop ∷ ops) (fit, fits) =
      then_sys-Sends s _ _ (item_wire (op_item eop.name eop.value)) (items_wire (op_items ops))
        (send_environ_op-Sends s eop.name eop.value fit) λ s1. send_environ_ops-Sends s1 ops fits

  send_arguments-Sends :
      (s : S) (argv : List ArgValue)
      → All FitsItem (arg_items argv)
      → Sends s (send_arguments wtr s argv) (items_wire (arg_items argv))
  unfolding send_arguments
  send_arguments-Sends s [] fits = done-Sends s
  send_arguments-Sends s (v ∷ argv) (fit, fits) =
      then_sys-Sends s _ _ (arg_wire v) (items_wire (arg_items argv))
        (send_cmdline_argument-Sends s v fit) λ s1. send_arguments-Sends s1 argv fits

  send_chdir_if-Sends :
      (s : S) (dir : Option Bytes)
      → All FitsItem (dir_items dir)
      → Sends s (send_chdir_if wtr s dir) (items_wire (dir_items dir))
  send_chdir_if-Sends s none fits = done-Sends s
  send_chdir_if-Sends s (some dir) (fit, fits) =
      let (s', e, got) = send_chdir-Sends s dir fit in
      (s', e, got ∙ ap (λ w. ends.got s ++ w) (sym (append-nil (item_wire (chdir dir)))))

  pub send_setup-Sends :
      (s : S) (dir : Option Bytes) (ops : List EnvironOp) (exename : Option ArgValue)
      (command : ArgValue) (argv : List ArgValue)
      → All FitsItem (setup_items dir ops exename command argv)
      → Sends s
          (send_setup wtr s dir ops exename command argv)
          (items_wire (setup_items dir ops exename command argv))
  unfolding send_setup send_cmdline
  send_setup-Sends s dir ops exename command argv fits =
      let first = first_argument exename command in
      let args = arg first ∷ arg command ∷ arg_items argv in
      let fits' = FitsItem-right (dir_items dir) (op_items ops ++ args) fits in
      let (f1, (f2, f3)) = FitsItem-right (op_items ops) args fits' in
      let (s', e, got) =
        then_sys-Sends s _ _ (items_wire (dir_items dir))
          (items_wire (op_items ops) ++ items_wire args)
          (send_chdir_if-Sends s dir (FitsItem-left (dir_items dir) (op_items ops ++ args) fits))
          λ s1.
            then_sys-Sends s1 _ _ (items_wire (op_items ops)) (items_wire args)
              (send_environ_ops-Sends s1 ops (FitsItem-left (op_items ops) args fits'))
              λ s2.
                then_sys-Sends s2 _ _ (arg_wire first)
                  (arg_wire command ++ items_wire (arg_items argv))
                  (send_cmdline_argument-Sends s2 first f1)
                  λ s3.
                    then_sys-Sends s3 _ _ (arg_wire command) (items_wire (arg_items argv))
                      (send_cmdline_argument-Sends s3 command f2)
                      λ s4. send_arguments-Sends s4 argv f3 in
      (
        s',
        e,
        got
            ∙ ap (λ w. ends.got s ++ w)
                (ap (λ w. items_wire (dir_items dir) ++ w)
                    (sym (items_wire-append (op_items ops) args))
                  ∙ sym (items_wire-append (dir_items dir) (op_items ops ++ args))),
      )
