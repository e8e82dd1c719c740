-- ===== src/Core/Message/Tests.antt =====
-- A message of six bytes in a file.
use fb_adb.Prelude.{
  ℕ, ◌≡◌, refl, arith, inl, Bool, true, ◌++◌, Bytes, codes, take, drop, ltb, if◌then◌else◌,
}
use fb_adb.Outcome.{died, ecomm}
use fb_adb.Ringbuf.{Readv, read_bytes}
use fb_adb.Proto.{Msg, msg_bytes}
use fb_adb.Fs.{done, left_by}
use fb_adb.Fs.Kernel.{Source}
use fb_adb.Core.Message.{valid_message_type_p, read_msg}
use fb_adb.Core.Message.Read.{Legal, whole_reader, read_all_reader, read_msg_lem}

abbrev read : Bytes → ℕ → Readv × Bytes
read s n = (read_bytes (take n s), drop n s)

abbrev file : Source read
file = record {
  left = λ s. s;
  patience = λ s. 0;
  reads = λ s n pos. inl (n, refl, omega arith, (λ z. absurd (omega arith)), refl, omega arith);
}

abbrev enough : ℕ → Bool
enough sz = true

abbrev hello : Msg
hello = record { size = 6; type = 47 }

hello-Legal : Legal true hello
unfolding valid_message_type_p
hello-Legal = record {
  fits = record { size_fits = omega arith; type_fits = omega arith };
  long = omega arith;
  known = refl;
  no_error = refl;
}

read_msg_lem_example :
    (s' : Bytes) × (read_msg (whole_reader file) enough true (msg_bytes hello ++ codes "abc")
      ≡ (if ltb 3 2 then left_by (died ecomm) else done (msg_bytes hello ++ codes "ab") s'))
    × (s' ≡ codes "c")
read_msg_lem_example =
    read_msg_lem (read_all_reader file) enough true (λ _. refl) (msg_bytes hello ++ codes "abc")
      hello (codes "abc") hello-Legal refl
