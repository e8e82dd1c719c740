-- ===== src/Channel/Hack.antt =====
-- The reads and writes of a channel behind an adb pty, in buffers of 4096 bytes.
use fb_adb.Prelude.{
  ℕ, zero, suc, ◌+◌, ◌-◌, true, false, [], ◌∷◌, ◌++◌, Bytes, length, take, ltb, leb, ◌==◌,
  if◌then◌else◌,
}
use fb_adb.Outcome.{Outcome, ok, ◌>>=◌, ◌>>◌, assert}
use fb_adb.Util.{xmin}
use fb_adb.Adbenc.{AdbState, adb_encode, adb_decode, encbuf_size}
use fb_adb.Ringbuf.{
  RingbufIo, ringbuf_note_added, ringbuf_note_removed, ringbuf_readable_iov, ringbuf_writable_iov,
  to_iovec, of_iovec, read_failed, read_bytes, write_failed, wrote,
}
use fb_adb.Channel.{
  Channel, Io, returned, failed, stopped, spinning, of_outcome, sent_first, Reads, Writes,
  half_sent,
}

-- What the two rounds of the decoding loop leave: the ring's memory, the state, and `np`.
pub record Decoded : Type 0 where
  pub mem : Bytes
  pub state : AdbState
  pub np : ℕ

unfoldable pub decode_regions : Bytes → RingbufIo → AdbState → Bytes → Decoded
decode_regions mem rio s bs =
    let d0 = adb_decode rio.v0.len s bs in
    let d1 = adb_decode rio.v1.len d0.state d0.rest in
    record {
      mem = to_iovec (to_iovec mem rio.v0 d0.out) rio.v1 d1.out;
      state = d1.state;
      np = length d0.out + length d1.out;
    }

-- A chunk that was read, decoded into the ring.
unfoldable pub take_chunk : Channel → Bytes → Outcome (ℕ × Channel)
take_chunk c bs = do
  rio ← ringbuf_writable_iov c.rb (length bs)
  let d = decode_regions c.rb.mem rio c.adb_hack_state bs
  noted ← ringbuf_note_added (record c.rb { mem = d.mem }) d.np
  ok (d.np, record c { rb = noted.1; adb_hack_state = d.state })

unfoldable pub hack_read_rounds : ℕ → Reads → ℕ → ℕ → ℕ → Channel → Io ℕ
hack_read_rounds zero reads k sz nr_added c = spinning
hack_read_rounds (suc fuel) reads k sz nr_added c =
    let more = λ (n : ℕ) (c' : Channel). hack_read_rounds fuel reads (k + 1) sz (nr_added + n) c' in
    let round : Io ℕ = (elim (reads k (xmin (sz - nr_added) encbuf_size)) [
      | read_failed e ↦ if nr_added == 0 then failed e c [] else returned nr_added c []
      | read_bytes [] ↦ returned nr_added c []
      | read_bytes (b ∷ bs) ↦ of_outcome c (take_chunk c (b ∷ bs)) (λ r. more r.0 r.1)
    ]) in
    if ltb nr_added sz then round else returned nr_added c []

-- A round that stores nothing leaves the decoder in the middle of an escape, so the next one stores
-- something: two rounds to a byte.
unfoldable pub channel_read_adb_hack : Reads → Channel → ℕ → Io ℕ
channel_read_adb_hack reads c sz = hack_read_rounds (suc (sz + sz)) reads 0 sz 0 c

-- The two rounds of an encoding loop: the bytes stored, the state, and the plain bytes consumed.
pub record Encoded : Type 0 where
  pub out : Bytes
  pub state : AdbState
  pub consumed : ℕ

unfoldable pub encode_regions : ℕ → AdbState → Bytes → Bytes → Encoded
encode_regions room s in0 in1 =
    let e0 = adb_encode room s in0 in
    let e1 = adb_encode (room - length e0.out) e0.state in1 in
    record {
      out = e0.out ++ e1.out;
      state = e1.state;
      consumed = (length in0 - length e0.rest) + (length in1 - length e1.rest);
    }

-- What follows a `write` of `n` of the encoded bytes: the encoder is run again with room for `n`.
unfoldable pub give_chunk : Channel → Bytes → Bytes → ℕ → Outcome (ℕ × Channel)
give_chunk c in0 in1 n = do
  assert (leb n encbuf_size)
  let e = encode_regions n c.adb_hack_state in0 in1
  noted ← ringbuf_note_removed c.rb e.consumed
  ok (e.consumed, record c { rb = noted.1; adb_hack_state = e.state })

unfoldable pub hack_write_rounds : ℕ → Writes → ℕ → ℕ → ℕ → Channel → Io ℕ
hack_write_rounds zero writes k sz nr_removed c = spinning
hack_write_rounds (suc fuel) writes k sz nr_removed c =
    let again = λ (n : ℕ) (c' : Channel). hack_write_rounds fuel writes (k + 1) sz n c' in
    of_outcome c (ringbuf_readable_iov c.rb (sz - nr_removed)) λ rio.
      let in0 = of_iovec c.rb.mem rio.v0 in
      let in1 = of_iovec c.rb.mem rio.v1 in
      let pass1 = (encode_regions encbuf_size c.adb_hack_state in0 in1).out in
      elim (writes k pass1) [
        | write_failed e ↦ if nr_removed == 0 then failed e c [] else returned nr_removed c []
        | wrote n ↦ of_outcome c (give_chunk c in0 in1 n) λ r.
            let next = again (nr_removed + r.0) r.1 in
            sent_first (take n pass1)
              (if ltb (nr_removed + r.0) sz then next else returned (nr_removed + r.0) r.1 [])
      ]

-- A channel whose `write` takes nothing goes round for ever; the fuel is a parameter.
unfoldable pub channel_write_adb_hack : ℕ → Writes → Channel → ℕ → Io ℕ
channel_write_adb_hack fuel writes c sz = elim (ltb 0 sz) [
  | true ↦ hack_write_rounds fuel writes 0 (if half_sent c.adb_hack_state then sz - 1 else sz) 0 c
  | false ↦ stopped
]
