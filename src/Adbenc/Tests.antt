-- ===== src/Adbenc/Tests.antt =====
-- Runs of adbenc.c on small inputs, and the theorems at concrete inputs.
use fb_adb.Prelude.{◌≡◌, ◌↔◌, ◌+◌, ◌*◌, ◌≤◌, refl, codes, arith, Bytes, some, length}
use fb_adb.Adbenc.{
  adb_encode, adb_decode, encode_byte, decode_byte, state0, encbuf_size, write_all_adb_encoded,
}
use fb_adb.Adbenc.Stream.{encode_take}
use fb_adb.Adbenc.RoundTrip.{Decodes, decode-encode}
use fb_adb.Adbenc.WriteAll.{rounds, specials, write_all_complete_iff}

encode_sample : (adb_encode 20 state0 (codes "a~b!")).out ≡ codes "a!@b!!"
unfolding adb_encode encode_byte
encode_sample = refl

decode_sample : (adb_decode 20 state0 (codes "a!@b!!")).out ≡ codes "a~b!"
unfolding adb_decode decode_byte
decode_sample = refl

-- Room for two bytes ends between the two bytes for `~`.
decode-encode_example :
    Decodes
      (adb_encode 2 state0 (codes "a~b")).state
      (codes "a~b")
      (adb_encode 2 state0 (codes "a~b")).rest
      (adb_decode 3 state0 (adb_encode 2 state0 (codes "a~b")).out)
decode-encode_example = decode-encode 2 3 state0 (codes "a~b") tt (omega arith)

encode_take_example : (adb_encode 3 state0 (codes "~!~")).out ≡ codes "!@!"
unfolding adb_encode encode_byte
encode_take_example = encode_take 3 6 state0 (codes "~!~") (omega arith)

write_all_complete_iff_example :
    (sent : Bytes) × (write_all_adb_encoded (codes "a~") ≡ some sent)
    × (((adb_decode (length (codes "a~")) state0 sent).out ≡ codes "a~") ↔ (
        length (codes "a~") + specials (codes "a~") ≤ encbuf_size * rounds (length (codes "a~"))))
write_all_complete_iff_example = write_all_complete_iff (codes "a~")
