-- ===== src/Xfer/Wire.antt =====
-- xfer.c: one message of a file transfer, as it is on the wire and as it is received.
use fb_adb.Prelude.{
  ℕ, zero, suc, ◌+◌, ◌-◌, ◌/◌, ◌%◌, ◌^◌, ◌≤◌, ◌<◌, ◌≡◌, refl, ap, ◌∙◌, arith, [], ◌∷◌, ◌++◌, Bytes,
  length, take_all, append_assoc, take, drop, replicate,
}
use fb_adb.Outcome.{ok}
use fb_adb.Proto.{to_le, of_le}
use fb_adb.Fs.{Sys, done, stored}
use fb_adb.Fs.Ends.{Ends}
use fb_adb.Xfer.{
  xfer_msg_stat, xfer_msg_data, XferMsg, StatBody, offsetof_u, sizeof_stat, sizeof_data, stat_union,
  data_union, as_stat, payload_size, xfer_msg_bytes, xfer_msg_size, Stat, send_xfer_msg,
  send_stat_packet, send_data_header, recv_xfer_msg, recv_data_header,
}

-- The eight bytes in front of the union.
unfoldable pub header : ℕ → Bytes
header type = type ∷ replicate 7 0

-- A number is read back from as many bytes as it fits.
pub of-to_le : (width x : ℕ) → x < 256 ^ width → of_le (to_le width x) ≡ x
unfolding of_le to_le
of-to_le zero x h = omega arith
of-to_le (suc width) x h =
    let low : x / 256 < 256 ^ width = omega arith in rw (of-to_le width (x / 256) low) (omega arith)

pub length-to_le : (width x : ℕ) → length (to_le width x) ≡ width
unfolding to_le
length-to_le zero x = refl
length-to_le (suc width) x = ap suc (length-to_le width (x / 256))

module _ {S : Type 0} {rdr : S → ℕ → Sys S Bytes} {wtr : S → Bytes → Sys S (Unit {0})}
    (ends : Ends rdr wtr) where
  behind_header :
      (garbage : Bytes) (s s1 s2 : S) (type n : ℕ) (bs : Bytes)
      → rdr s offsetof_u ≡ done (header type) s1
      → xfer_msg_size type ≡ ok (offsetof_u + n)
      → rdr s1 n ≡ done bs s2
      → recv_xfer_msg rdr garbage s ≡ done (record { type = type; u = stored garbage 0 bs }) s2
  unfolding recv_xfer_msg header
  behind_header garbage s s1 s2 type n bs one known two =
      let less : offsetof_u + n - offsetof_u ≡ n = omega arith in rw (one, known, less, two) refl

  -- A message behind its header, whatever part of its union is there.
  pub recv_lem :
      (garbage : Bytes) (s : S) (type n : ℕ) (rest : Bytes)
      → xfer_msg_size type ≡ ok (offsetof_u + n)
      → ends.left s ≡ header type ++ rest
      → (s' : S) × (recv_xfer_msg rdr garbage s
          ≡ done (record { type = type; u = stored garbage 0 (take n rest) }) s')
        × (ends.left s' ≡ drop n rest)
        × (ends.got s' ≡ ends.got s)
  unfolding header
  recv_lem garbage s type n rest known sent =
      let (s1, one, left1, got1) = ends.reads s offsetof_u in
      let (s2, two, left2, got2) = ends.reads s1 n in
      let behind : ends.left s1 ≡ rest = left1 ∙ ap (drop offsetof_u) sent in
      (
        s2,
        behind_header garbage s s1 s2 type n (take n rest)
            (one ∙ ap (λ w. done (take offsetof_u w) s1) sent) known
            (two ∙ ap (λ w. done (take n w) s2) behind),
        left2 ∙ ap (drop n) behind,
        got2 ∙ got1,
      )

  -- A message that is written whole.
  send_lem :
      (s : S) (type n : ℕ) (u part : Bytes)
      → xfer_msg_size type ≡ ok n
      → take n (xfer_msg_bytes (record { type = type; u = u })) ≡ header type ++ part
      → (s' : S) × (send_xfer_msg wtr s (record { type = type; u = u }) ≡ done tt s')
        × (ends.got s' ≡ ends.got s ++ (header type ++ part))
        × (ends.left s' ≡ ends.left s)
  unfolding send_xfer_msg
  send_lem s type n u part known same =
      let (s', written, got, left) = ends.writes s (header type ++ part) in
      (s', rw (known, same) written, got, left)

  -- The header of a chunk.
  pub send_data_header_lem :
      (s : S) (size : ℕ)
      → (s' : S) × (send_data_header wtr s size ≡ done tt s')
        × (ends.got s' ≡ ends.got s ++ (header xfer_msg_data ++ to_le 4 size))
        × (ends.left s' ≡ ends.left s)
  unfolding send_data_header xfer_msg_size data_union xfer_msg_bytes header to_le
  send_data_header_lem s size =
      send_lem s xfer_msg_data 12 (data_union size) (to_le 4 size) refl refl

  pub recv_data_header_lem :
      (garbage : Bytes) (s : S) (size : ℕ) (rest : Bytes)
      → size < 2 ^ 32
      → ends.left s ≡ header xfer_msg_data ++ (to_le 4 size ++ rest)
      → (s' : S) × (recv_data_header rdr garbage s ≡ done size s')
        × (ends.left s' ≡ rest)
        × (ends.got s' ≡ ends.got s)
  unfolding recv_data_header xfer_msg_size payload_size stored to_le
  recv_data_header_lem garbage s size rest small sent =
      let (s', got_msg, left', got') =
        recv_lem garbage s xfer_msg_data sizeof_data (to_le 4 size ++ rest) refl sent in
      (s', rw (got_msg) (ap (λ k. done k s') (of-to_le 4 size small)), left', got')

  pub send_stat_packet_lem :
      (s : S) (st : Stat)
      → (s' : S) × (send_stat_packet wtr (ok st) s ≡ done tt s')
        × (ends.got s'
            ≡ ends.got s
              ++ (header xfer_msg_stat
                  ++ stat_union (record st.times { ugo_bits = st.st_mode % 2 ^ 9 })))
        × (ends.left s' ≡ ends.left s)
  unfolding send_stat_packet xfer_msg_size stat_union xfer_msg_bytes header to_le
  send_stat_packet_lem s st =
      let body = record st.times { ugo_bits = st.st_mode % 2 ^ 9 } in
      send_lem s xfer_msg_stat 42 (stat_union body) (stat_union body) refl refl

  -- A stat message that is cut anywhere behind its header is received without an error; the
  -- bytes that were not sent are what the receiver's stack held.
  pub recv_accepts_cut :
      (garbage part : Bytes) (s : S)
      → length part ≤ sizeof_stat
      → ends.left s ≡ header xfer_msg_stat ++ part
      → (s' : S) × (recv_xfer_msg rdr garbage s
          ≡ done (record { type = xfer_msg_stat; u = stored garbage 0 part }) s')
  unfolding xfer_msg_size
  recv_accepts_cut garbage part s short cut =
      let (s', received, _, _) = recv_lem garbage s xfer_msg_stat sizeof_stat part refl cut in
      (
        s',
        received
            ∙ ap (λ w. done (record { type = xfer_msg_stat; u = stored garbage 0 w }) s')
                (take_all sizeof_stat part short),
      )

-- Each field has the bits it is sent with.
pub record FitsStat (st : StatBody) : Type 0 where
  pub atime_fits : st.atime < 2 ^ 64
  pub mtime_fits : st.mtime < 2 ^ 64
  pub size_fits : st.size < 2 ^ 64
  pub atime_ns_fits : st.atime_ns < 2 ^ 32
  pub mtime_ns_fits : st.mtime_ns < 2 ^ 32
  pub ugo_bits_fits : st.ugo_bits < 2 ^ 16

as_stat-stat_union :
    (st : StatBody) (rest : Bytes) → FitsStat st → as_stat (stat_union st ++ rest) ≡ st
unfolding as_stat stat_union to_le
as_stat-stat_union st rest f =
    rw
      (
        of-to_le 8 st.atime f.atime_fits,
        of-to_le 8 st.mtime f.mtime_fits,
        of-to_le 8 st.size f.size_fits,
        of-to_le 4 st.atime_ns f.atime_ns_fits,
        of-to_le 4 st.mtime_ns f.mtime_ns_fits,
        of-to_le 2 st.ugo_bits f.ugo_bits_fits,
      )
      refl

abbrev pub sent_stat : Stat → StatBody
sent_stat st = record st.times { ugo_bits = st.st_mode % 2 ^ 9 }

module _ {S T : Type 0} {rdr : S → ℕ → Sys S Bytes} {wtr : S → Bytes → Sys S (Unit {0})}
    {rdr' : T → ℕ → Sys T Bytes} {wtr' : T → Bytes → Sys T (Unit {0})} (ends : Ends rdr wtr)
    (ends' : Ends rdr' wtr') where
  stat_back :
      (garbage : Bytes) (st : StatBody) (rest : Bytes)
      → FitsStat st
      → as_stat (stored garbage 0 (take sizeof_stat (stat_union st ++ rest))) ≡ st
  unfolding stored stat_union to_le
  stat_back garbage st rest f = as_stat-stat_union st (drop (0 + sizeof_stat) garbage) f

  rest_back : (st : StatBody) (rest : Bytes) → drop sizeof_stat (stat_union st ++ rest) ≡ rest
  unfolding stat_union to_le
  rest_back st rest = refl

  -- The stat message of a file whose times and size have 64 bits is sent whole; a receiver that has it
  -- next gets the file's fields, with nine bits of its mode, and what follows the message is left.
  pub stat_received :
      (garbage : Bytes) (s : S) (t : T) (st : Stat) (rest : Bytes)
      → FitsStat (sent_stat st)
      → ends.got s ≡ []
      → ((s' : S)
          → send_stat_packet wtr (ok st) s ≡ done tt s'
          → ends'.left t ≡ ends.got s' ++ rest)
      → (s' : S) × (send_stat_packet wtr (ok st) s ≡ done tt s')
        × ((t' : T) × (m : XferMsg) × (recv_xfer_msg rdr' garbage t ≡ done m t')
            × (m.type ≡ xfer_msg_stat)
            × (as_stat m.u ≡ sent_stat st)
            × (ends'.left t' ≡ rest))
  unfolding xfer_msg_size
  stat_received garbage s t st rest f fresh piped =
      let (s', sent, got, _) = send_stat_packet_lem ends s st in
      let wire : ends'.left t ≡ header xfer_msg_stat ++ (stat_union (sent_stat st) ++ rest) =
        piped s' sent
        ∙ ap (λ w. w ++ rest)
            (got ∙ ap (λ w. w ++ (header xfer_msg_stat ++ stat_union (sent_stat st))) fresh)
        ∙ append_assoc (header xfer_msg_stat) (stat_union (sent_stat st)) rest in
      let (t', received, left, _) =
        recv_lem ends' garbage t xfer_msg_stat sizeof_stat (stat_union (sent_stat st) ++ rest) refl
          wire in
      (
        s',
        sent,
        (
          t',
          _,
          received,
          refl,
          stat_back garbage (sent_stat st) rest f,
          left ∙ rest_back (sent_stat st) rest,
        ),
      )
