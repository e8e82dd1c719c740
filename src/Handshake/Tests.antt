-- ===== src/Handshake/Tests.antt =====
-- A command with two arguments, a directory and one variable.
use fb_adb.Prelude.{
  ◌≡◌, refl, ap, arith, Option, none, some, List, [], ◌∷◌, ◌++◌, Bytes, codes, inl, All,
}
use fb_adb.Outcome.{ok}
use fb_adb.Proto.{msg_bytes, to_le}
use fb_adb.Util.{satadd}
use fb_adb.Fs.{done, write_all}
use fb_adb.Fs.Ends.{write_second}
use fb_adb.Core.Message.Read.{whole_reader, read_all_reader}
use fb_adb.Xenviron.{
  xenviron_create, xenviron_set, xenviron_allocate_entry, find_slot, resized, xenviron_allocsz,
}
use fb_adb.Fs.Memory.{file, sink, enough, two, second_of}
use fb_adb.Handshake.Host.{
  ArgValue, text, default_sh, EnvironOp, send_environ_set, send_environ_clearenv, send_environ_ops,
  send_cmdline_argument, send_arguments, send_cmdline, send_chdir, send_setup,
}
use fb_adb.Handshake.Child.{
  Args, no_args, c_string, own_env, cleared_env, env_clear, read_child_arglist,
}
use fb_adb.Handshake.Item.{FitsItem}
use fb_adb.Handshake.Items.{items_wire, run_items}
use fb_adb.Handshake.Setup.{setup_items}
use fb_adb.Handshake.RoundTrip.{arglist-setup}

abbrev ops : List EnvironOp
ops =
    record { name = none; value = none }
    ∷ record { name = some (codes "A"); value = some (codes "1") }
    ∷ []

abbrev argv : List ArgValue
argv = text (codes "-c") ∷ text (codes "ls") ∷ []

abbrev dir : Option Bytes
dir = some (codes "/data")

abbrev wire : Bytes
wire = items_wire (setup_items dir ops none default_sh argv)

abbrev args : Args
args = record {
  argv = codes "/bin/sh" ∷ codes "/bin/sh" ∷ codes "-c" ∷ codes "ls" ∷ [];
  cwd = dir;
  xe = some (record { env = some (codes "A=1") ∷ none ∷ [] });
  exec_file = none;
}

sent_wire :
    (s' : Bytes × Bytes)
    → send_setup (write_second sink) ([], []) dir ops none default_sh argv ≡ done tt s'
    → wire ++ codes "x" ≡ s'.1 ++ codes "x"
unfolding send_setup send_chdir send_environ_ops send_environ_set send_environ_clearenv send_cmdline
    send_cmdline_argument send_arguments satadd write_all msg_bytes to_le
sent_wire s' e = ap (λ r. second_of r ++ codes "x") e

fits_lem : All FitsItem (setup_items dir ops none default_sh argv)
unfolding c_string
fits_lem = (
  (refl, omega arith),
  (tt, ((refl, refl, omega arith, omega arith), (tt, (tt, (omega arith, (omega arith, tt)))))),
)

runs :
    run_items enough enough none []
      (some (codes "/bin/sh"))
      []
      (setup_items dir ops none default_sh argv)
      no_args
    ≡ ok args
unfolding own_env cleared_env env_clear xenviron_create xenviron_set xenviron_allocate_entry
    find_slot resized xenviron_allocsz
runs = refl

arglist-setup_example :
    (s' : Bytes × Bytes) × (t' : Bytes) × (send_setup
        (write_second sink)
        ([], [])
        dir
        ops
        none
        default_sh
        argv
      ≡ done tt s')
    × (read_child_arglist enough enough none []
          (whole_reader file)
          (some (codes "/bin/sh"))
          []
          []
          (λ s name. (inl 2, s))
          (λ s fd. ([], s))
          (λ s bs. done tt s)
          9
          4
          (wire ++ codes "x")
        ≡ done
            (
              some (codes "/bin/sh")
                  ∷ some (codes "/bin/sh")
                  ∷ some (codes "-c")
                  ∷ some (codes "ls")
                  ∷ none
                  ∷ [],
              dir,
              args.xe,
            )
            t')
    × (t' ≡ codes "x")
arglist-setup_example =
    arglist-setup two (read_all_reader file) enough enough (λ _. refl) none []
      (some (codes "/bin/sh")) [] [] (λ s name. (inl 2, s)) (λ s fd. ([], s)) (λ s bs. done tt s)
      dir ops none default_sh argv 9 ([], []) (wire ++ codes "x") args (codes "x") (omega arith)
      (omega arith) (omega arith) fits_lem runs (omega arith) refl sent_wire
