-- ===== src/Xfer/Copy.antt =====
-- xfer.c: the loop that sends a file in chunks.
use fb_adb.Prelude.{
  ℕ, zero, suc, ◌+◌, ◌*◌, ◌-◌, ◌^◌, ◌≤◌, ◌<◌, ◌≡◌, refl, ap, sym, ◌∙◌, arith, true, false, inl, inr,
  Bool-cases, List, [], ◌∷◌, ◌++◌, append_assoc, Bytes, length, length-take, length-drop, take,
  drop, take-append-drop, ltb, ltb→lt, if◌then◌else◌, All,
}
use fb_adb.Proto.{to_le}
use fb_adb.Channel.Poll.{concat}
use fb_adb.Fs.{Sys, done}
use fb_adb.Fs.Ends.{Ends}
use fb_adb.Xfer.{xfer_msg_data, send_data_header, bufsz, copy_loop_posix_send}
use fb_adb.Xfer.Wire.{header, send_data_header_lem}

-- A chunk on the wire: its header and its bytes.
unfoldable pub framed : Bytes → Bytes
framed bs = header xfer_msg_data ++ (to_le 4 (length bs) ++ bs)

-- A file on the wire, in some chunks and an empty one.
unfoldable pub wire : List Bytes → Bytes
wire [] = framed []
wire (bs ∷ chunks) = framed bs ++ wire chunks

-- A chunk that does not end the file.
pub record Chunk (bs : Bytes) : Type 0 where
  pub some_bytes : 0 < length bs
  pub size_fits : length bs < 2 ^ 32

length-zero : (xs : Bytes) → length xs ≡ 0 → xs ≡ []
length-zero [] h = refl
length-zero (x ∷ xs) h = absurd (omega arith)

fuel_left : (fuel n : ℕ) → 0 < n → n + bufsz ≤ bufsz * suc fuel → n - bufsz + bufsz ≤ bufsz * fuel
fuel_left fuel n pos h = omega arith

last_round : (xs : Bytes) → ltb 0 (length (take bufsz xs)) ≡ false → xs ≡ []
last_round [] h = refl
last_round (x ∷ xs) h = absurd (ground (arith, h))

short_take : (n : ℕ) (xs : Bytes) → length (take n xs) ≤ n
short_take n xs = omega (arith, length-take n xs)

full_round :
    (xs : Bytes) → ltb 0 (length (take bufsz xs)) ≡ true → (0 < length xs) × Chunk (take bufsz xs)
full_round [] h = absurd (ground (arith, h))
full_round (x ∷ xs) h = (
  omega arith,
  record { some_bytes = ltb→lt 0 _ h; size_fits = omega (arith, short_take bufsz (x ∷ xs)) },
)

pub reassoc : (a b c d : Bytes) → (a ++ (b ++ c)) ++ d ≡ a ++ (b ++ (c ++ d))
reassoc a b c d = append_assoc a (b ++ c) d ∙ ap (λ w. a ++ w) (append_assoc b c d)

joined :
    {g1 g2 g3 : Bytes} (g a b c : Bytes)
    → g1 ≡ g
    → g2 ≡ g1 ++ (a ++ b)
    → g3 ≡ g2 ++ c
    → g3 ≡ g ++ (a ++ (b ++ c))
joined g a b c e1 e2 e3 =
    e3
    ∙ ap (λ w. w ++ c) (e2 ∙ ap (λ w. w ++ (a ++ b)) e1)
    ∙ append_assoc g (a ++ b) c
    ∙ ap (λ w. g ++ w) (append_assoc a b c)

module _ {S : Type 0} {rdr : S → ℕ → Sys S Bytes} {wtr : S → Bytes → Sys S (Unit {0})}
    (ends : Ends rdr wtr) where
  send_round :
      (fuel : ℕ) (s s1 s2 s3 : S) (buf : Bytes)
      → rdr s bufsz ≡ done buf s1
      → send_data_header wtr s1 (length buf) ≡ done tt s2
      → wtr s2 buf ≡ done tt s3
      → copy_loop_posix_send rdr wtr (suc fuel) s
        ≡ (if ltb 0 (length buf) then copy_loop_posix_send rdr wtr fuel s3 else done tt s3)
  unfolding copy_loop_posix_send
  send_round fuel s s1 s2 s3 buf one two three = rw (one, two, three) refl

  -- The chunk of one round is on the wire behind what was there.
  send_chunk :
      (fuel : ℕ) (s : S)
      → (s3 : S) × (copy_loop_posix_send rdr wtr (suc fuel) s ≡ (
          if ltb 0 (length (take bufsz (ends.left s)))
          then copy_loop_posix_send rdr wtr fuel s3
          else done tt s3))
        × (ends.got s3 ≡ ends.got s ++ framed (take bufsz (ends.left s)))
        × (ends.left s3 ≡ drop bufsz (ends.left s))
  unfolding framed
  send_chunk fuel s =
      let buf = take bufsz (ends.left s) in
      let (s1, one, left1, got1) = ends.reads s bufsz in
      let (s2, two, got2, left2) = send_data_header_lem ends s1 (length buf) in
      let (s3, three, got3, left3) = ends.writes s2 buf in
      (
        s3,
        send_round fuel s s1 s2 s3 buf one two three,
        joined (ends.got s) (header xfer_msg_data) (to_le 4 (length buf)) buf got1 got2 got3,
        left3 ∙ left2 ∙ left1,
      )

  -- With fuel for each chunk and the empty one, the sender ends; the file is on the wire in chunks.
  pub copy_loop_posix_send_lem :
      (fuel : ℕ) (s : S)
      → length (ends.left s) + bufsz ≤ bufsz * fuel
      → (s' : S) × (chunks : List Bytes) × (copy_loop_posix_send rdr wtr fuel s ≡ done tt s')
        × (ends.got s' ≡ ends.got s ++ wire chunks)
        × (concat chunks ≡ ends.left s)
        × All Chunk chunks
        × (length chunks < fuel)
  unfolding wire concat
  copy_loop_posix_send_lem zero s h = absurd (omega arith)
  copy_loop_posix_send_lem (suc fuel) s h =
      let buf = take bufsz (ends.left s) in
      let (s3, round, got, left) = send_chunk fuel s in
      elim (Bool-cases (ltb 0 (length buf))) [
        | inr last ↦
            let empty = last_round (ends.left s) last in
            (
              s3,
              [],
              round ∙ ap (λ b. if b then copy_loop_posix_send rdr wtr fuel s3 else done tt s3) last,
              got ∙ ap (λ w. ends.got s ++ framed (take bufsz w)) empty,
              sym empty,
              tt,
              omega (arith, h),
            )
        | inl more ↦
            let (some_left, chunk) = full_round (ends.left s) more in
            let (s', chunks, later, got', same, good, few) = copy_loop_posix_send_lem fuel s3 (
              rw (ap length left ∙ length-drop bufsz (ends.left s))
                (fuel_left fuel (length (ends.left s)) some_left h)) in
            (
              s',
              buf ∷ chunks,
              round
                  ∙ ap (λ b. if b then copy_loop_posix_send rdr wtr fuel s3 else done tt s3) more
                  ∙ later,
              got'
                  ∙ ap (λ w. w ++ wire chunks) got
                  ∙ append_assoc (ends.got s) (framed buf) (wire chunks),
              ap (λ w. buf ++ w) (same ∙ left) ∙ take-append-drop bufsz (ends.left s),
              (chunk, good),
              omega arith,
            )
      ]
