-- ===== src/Xfer/Receive.antt =====
-- xfer.c: the loop that receives a file in chunks.
use fb_adb.Prelude.{
  ℕ, zero, suc, ◌+◌, ◌*◌, ◌-◌, ◌^◌, ◌≤◌, ◌<◌, ◌≡◌, refl, ap, ◌∙◌, arith, Bool, true, false, List,
  [], ◌∷◌, ◌++◌, append_assoc, Bytes, length, length-append, take, drop, take-append_length,
  drop-append_length, replicate, ltb, lt→ltb, ◌==◌, if◌then◌else◌, All,
}
use fb_adb.Outcome.{ok}
use fb_adb.Proto.{to_le}
use fb_adb.Util.{satadd}
use fb_adb.Growable.{GrowableBuffer, resize_buffer, empty_buffer}
use fb_adb.Channel.Poll.{concat}
use fb_adb.Fs.{Sys, done, stored}
use fb_adb.Fs.Ends.{Ends}
use fb_adb.Xfer.{
  xfer_msg_data, bufsz, copy_loop_posix_send, recv_data_header, recv_chunk, recv_chunks,
  copy_loop_posix_recv,
}
use fb_adb.Xfer.Wire.{header, recv_data_header_lem}
use fb_adb.Xfer.Copy.{framed, wire, Chunk, reassoc, copy_loop_posix_send_lem}

module _ {S : Type 0} {rdr : S → ℕ → Sys S Bytes} {wtr : S → Bytes → Sys S (Unit {0})}
    (ends : Ends rdr wtr) where
  module _ (realloc : ℕ → Bool) (fresh : ℕ) (garbage : Bytes)
      (memory : (sz : ℕ) → realloc sz ≡ true) where
    chunk_steps :
        (s s1 s2 s3 : S) (buf gb : GrowableBuffer) (total chunksz : ℕ) (bs : Bytes)
        → recv_data_header rdr garbage s ≡ done chunksz s1
        → resize_buffer realloc fresh buf chunksz ≡ ok gb
        → rdr s1 chunksz ≡ done bs s2
        → (length bs == chunksz) ≡ true
        → wtr s2 (take chunksz (stored gb.buf 0 bs)) ≡ done tt s3
        → satadd (2 ^ 64 - 1) total chunksz ≡ (false, total + chunksz)
        → recv_chunk rdr wtr realloc fresh garbage s buf total
          ≡ done (record gb { buf = stored gb.buf 0 bs }, total + chunksz, chunksz) s3
    unfolding recv_chunk
    chunk_steps s s1 s2 s3 buf gb total chunksz bs one room two whole three sum =
        rw (one, room, two, whole, three, sum) refl

    room_lem :
        (buf : GrowableBuffer) (n : ℕ)
        → (gb : GrowableBuffer) × (resize_buffer realloc fresh buf n ≡ ok gb)
    unfolding resize_buffer
    room_lem buf n = (
      record { bufsz = n; buf = take n buf.buf ++ replicate (n - length buf.buf) fresh },
      rw (memory (if n == 0 then 1 else n)) refl,
    )

    sum_lem : (a b : ℕ) → a + b < 2 ^ 64 → satadd (2 ^ 64 - 1) a b ≡ (false, a + b)
    unfolding satadd
    sum_lem a b h = let fits : ltb (2 ^ 64 - 1 - a) b ≡ false = ground arith in rw fits refl

    front : (buf bs : Bytes) → take (length bs) (stored buf 0 bs) ≡ bs
    unfolding stored
    front buf bs = take-append_length bs (drop (0 + length bs) buf)

    same_length : (bs : Bytes) → (length bs == length bs) ≡ true
    same_length bs = ground arith

    recv_chunk_lem :
        (s : S) (buf : GrowableBuffer) (total : ℕ) (bs rest : Bytes)
        → length bs < 2 ^ 32
        → total + length bs < 2 ^ 64
        → ends.left s ≡ framed bs ++ rest
        → (s3 : S) × (gb : GrowableBuffer) × (recv_chunk rdr wtr realloc fresh garbage s buf total
            ≡ done (gb, total + length bs, length bs) s3)
          × (ends.left s3 ≡ rest)
          × (ends.got s3 ≡ ends.got s ++ bs)
    unfolding framed
    recv_chunk_lem s buf total bs rest small fits sent =
        let (s1, one, left1, got1) =
          recv_data_header_lem ends garbage s (length bs) (bs ++ rest) small
            (sent ∙ reassoc (header xfer_msg_data) (to_le 4 (length bs)) bs rest) in
        let (gb, room) = room_lem buf (length bs) in
        let (s2, two, left2, got2) = ends.reads s1 (length bs) in
        let (s3, three, got3, left3) = ends.writes s2 bs in
        (
          s3,
          _,
          chunk_steps s s1 s2 s3 buf gb total (length bs) bs one room
              (two ∙ ap (λ w. done w s2) (ap (take (length bs)) left1 ∙ take-append_length bs rest))
              (same_length bs) (ap (wtr s2) (front gb.buf bs) ∙ three)
              (sum_lem total (length bs) fits),
          left3 ∙ left2 ∙ ap (drop (length bs)) left1 ∙ drop-append_length bs rest,
          got3 ∙ ap (λ w. w ++ bs) (got2 ∙ got1),
        )

    round_steps :
        (fuel : ℕ) (s s1 : S) (buf gb : GrowableBuffer) (total total' n : ℕ)
        → recv_chunk rdr wtr realloc fresh garbage s buf total ≡ done (gb, total', n) s1
        → recv_chunks rdr wtr realloc fresh garbage (suc fuel) s buf total ≡ (
            if ltb 0 n
            then recv_chunks rdr wtr realloc fresh garbage fuel s1 gb total'
            else done total' s1)
    unfolding recv_chunks
    round_steps fuel s s1 buf gb total total' n one = rw one refl

    recv_chunks_lem :
        (fuel : ℕ) (s : S) (buf : GrowableBuffer) (total : ℕ) (chunks : List Bytes) (rest : Bytes)
        → length chunks < fuel
        → All Chunk chunks
        → total + length (concat chunks) < 2 ^ 64
        → ends.left s ≡ wire chunks ++ rest
        → (s' : S) × (recv_chunks rdr wtr realloc fresh garbage fuel s buf total
            ≡ done (total + length (concat chunks)) s')
          × (ends.left s' ≡ rest)
          × (ends.got s' ≡ ends.got s ++ concat chunks)
    unfolding wire concat
    recv_chunks_lem zero s buf total chunks rest h good fits sent = absurd (omega arith)
    recv_chunks_lem (suc fuel) s buf total [] rest h good fits sent =
        let (s1, gb, one, left, got) = recv_chunk_lem s buf total [] rest (omega arith) fits sent in
        (s1, round_steps fuel s s1 buf gb total (total + 0) 0 one, left, got)
    recv_chunks_lem (suc fuel) s buf total (bs ∷ chunks) rest h (chunk, good) fits sent =
        let joint = length-append bs (concat chunks) in
        let (s1, gb, one, left, got) =
          recv_chunk_lem s buf total bs (wire chunks ++ rest) chunk.size_fits (omega arith)
            (sent ∙ append_assoc (framed bs) (wire chunks) rest) in
        let (s', later, left', got') =
          recv_chunks_lem fuel s1 gb (total + length bs) chunks rest (omega arith) good
            (omega arith) left in
        (
          s',
          round_steps fuel s s1 buf gb total (total + length bs) (length bs) one
              ∙ more fuel s1 gb total bs chunk.some_bytes
              ∙ later
              ∙ ap (λ k. done k s') (omega arith),
          left',
          got' ∙ ap (λ w. w ++ concat chunks) got ∙ append_assoc (ends.got s) bs (concat chunks),
        )
      where
        more :
            (fuel : ℕ) (s1 : S) (gb : GrowableBuffer) (total : ℕ) (bs : Bytes)
            → 0 < length bs
            → (if ltb 0 (length bs)
                then recv_chunks rdr wtr realloc fresh garbage fuel s1 gb (total + length bs)
                else done (total + length bs) s1)
              ≡ recv_chunks rdr wtr realloc fresh garbage fuel s1 gb (total + length bs)
        more fuel s1 gb total bs pos = rw (lt→ltb 0 (length bs) pos) refl

    -- The receiver accepts a file in any chunks.
    pub copy_loop_posix_recv_lem :
        (fuel : ℕ) (s : S) (chunks : List Bytes) (rest : Bytes)
        → length chunks < fuel
        → All Chunk chunks
        → length (concat chunks) < 2 ^ 64
        → ends.left s ≡ wire chunks ++ rest
        → (s' : S) × (copy_loop_posix_recv rdr wtr realloc fresh garbage fuel s
            ≡ done (length (concat chunks)) s')
          × (ends.left s' ≡ rest)
          × (ends.got s' ≡ ends.got s ++ concat chunks)
    unfolding copy_loop_posix_recv
    copy_loop_posix_recv_lem fuel s chunks rest h good fits sent =
        let (s', received, left, got) =
          recv_chunks_lem fuel s empty_buffer 0 chunks rest h good (omega arith) sent in
        (s', received ∙ ap (λ k. done k s') (omega arith), left, got)

module _ {S T : Type 0} {rdr : S → ℕ → Sys S Bytes} {wtr : S → Bytes → Sys S (Unit {0})}
    {rdr' : T → ℕ → Sys T Bytes} {wtr' : T → Bytes → Sys T (Unit {0})} (ends : Ends rdr wtr)
    (ends' : Ends rdr' wtr') where
  -- For a file of fewer than 2^64 bytes, with fuel for each chunk, and where memory is left, the sending
  -- loop ends; the receiving loop at a machine that has the sent bytes next writes exactly the file, gives
  -- its length, and leaves what follows.
  pub recv-send :
      (realloc : ℕ → Bool) (fresh : ℕ) (garbage : Bytes)
      → ((sz : ℕ) → realloc sz ≡ true)
      → (fuel : ℕ) (s : S) (t : T) (rest : Bytes) → length (ends.left s) + bufsz ≤ bufsz * fuel
      → length (ends.left s) < 2 ^ 64
      → ends.got s ≡ []
      → ((s' : S)
          → copy_loop_posix_send rdr wtr fuel s ≡ done tt s'
          → ends'.left t ≡ ends.got s' ++ rest)
      → (s' : S) × (t' : T) × (copy_loop_posix_send rdr wtr fuel s ≡ done tt s')
        × (copy_loop_posix_recv rdr' wtr' realloc fresh garbage fuel t
            ≡ done (length (ends.left s)) t')
        × (ends'.got t' ≡ ends'.got t ++ ends.left s)
        × (ends'.left t' ≡ rest)
  recv-send realloc fresh garbage memory fuel s t rest h fits new piped =
      let (s', chunks, sent, got, same, good, few) = copy_loop_posix_send_lem ends fuel s h in
      let (t', received, left', got') =
        copy_loop_posix_recv_lem ends' realloc fresh garbage memory fuel t chunks rest few good
          (rw (ap length same) fits)
          (piped s' sent ∙ ap (λ w. w ++ rest) (got ∙ ap (λ w. w ++ wire chunks) new)) in
      (
        s',
        t',
        sent,
        received ∙ ap (λ w. done (length w) t') same,
        got' ∙ ap (λ w. ends'.got t ++ w) same,
        left',
      )
