-- ===== src/Fs.antt =====
-- fs.c: reading and writing whole buffers over descriptors. What the kernel does to its state `S` at a
-- call of read, write or writev is a parameter. The loops take fuel, since a descriptor that is
-- interrupted for ever, or takes no byte, keeps them going.
pub mod Kernel
pub mod Read
pub mod Write
pub mod Slurp
pub mod Encoded
pub mod Ends
pub mod Memory
mod Tests
use fb_adb.Prelude.{
  ℕ, zero, suc, ◌+◌, ◌-◌, Bool, true, false, Option, none, some, List, [], ◌∷◌, ◌++◌, Bytes, length,
  take, drop, set, ltb, leb, ◌==◌, if◌then◌else◌,
}
use fb_adb.Outcome.{Errno, eintr, Outcome, ok, died, aborted, fault}
use fb_adb.Ringbuf.{Readv, read_failed, read_bytes, Writev, write_failed, wrote}
use fb_adb.Channel.Poll.{concat}
use fb_adb.Growable.{GrowableBuffer, empty_buffer, resize_buffer, grow_buffer_dwim}

-- A call with a result, one that leaves otherwise, and one that ran out of fuel.
pub data Sys {ℓ} (S A : Type ℓ) : Type ℓ where
  done : A → S → Sys S A
  left_by : Outcome (Unit {0}) → Sys S A
  spinning : Sys S A

abbrev pub then_sys : {S A B : Type 0} → Sys S A → (A → S → Sys S B) → Sys S B
then_sys (done a s) f = f a s
then_sys (left_by o) f = left_by o
then_sys spinning f = spinning

-- A call that leaves the kernel alone.
abbrev pub of_outcome : {S A B : Type 0} → Outcome A → (A → Sys S B) → Sys S B
of_outcome (ok a) f = f a
of_outcome (died e) f = left_by (died e)
of_outcome aborted f = left_by aborted
of_outcome fault f = left_by fault

abbrev pub prepend : {S : Type 0} → Bytes → Sys S Bytes → Sys S Bytes
prepend bs (done a s) = done (bs ++ a) s
prepend bs (left_by o) = left_by o
prepend bs spinning = spinning

-- `&gb.buf[at]` after a call that stored some bytes there.
unfoldable pub stored : Bytes → ℕ → Bytes → Bytes
stored buf at_ bs = take at_ buf ++ bs ++ drop (at_ + length bs) buf

module _ {S : Type 0} (read : S → ℕ → Readv × S) where
  -- One answer of `read`: `again` is the loop after EINTR, `more` the loop after some bytes.
  abbrev pub on_read : Readv → S → Sys S Bytes → (Bytes → Sys S Bytes) → Sys S Bytes
  on_read (read_failed e) s again more = if e == eintr then again else left_by (died e)
  on_read (read_bytes []) s again more = done [] s
  on_read (read_bytes (b ∷ bs)) s again more = prepend (b ∷ bs) (more (b ∷ bs))

  -- The bytes that `read_all` stores.
  unfoldable pub read_all : ℕ → S → ℕ → Sys S Bytes
  read_all zero s sz = spinning
  read_all (suc fuel) s sz =
      let r = read s sz in
      let rest = on_read r.0 r.1 (read_all fuel r.1 sz) λ bs. read_all fuel r.1 (sz - length bs) in
      if ltb 0 sz then rest else done [] s

  module _ (realloc : ℕ → Bool) (fresh : ℕ) where
    -- A buffer with space behind the bytes that were read.
    unfoldable pub with_space : GrowableBuffer → ℕ → Outcome GrowableBuffer
    with_space gb nr_bytes_read =
        if gb.bufsz - nr_bytes_read == 0 then grow_buffer_dwim realloc fresh gb else ok gb

    -- The `do` loop of `slurp_fd_buf_1`, with a fuel for each of its calls of `read_all`.
    unfoldable pub slurp_rounds : ℕ → ℕ → S → GrowableBuffer → ℕ → Sys S (GrowableBuffer × ℕ)
    slurp_rounds zero calls s gb nr_bytes_read = spinning
    slurp_rounds (suc fuel) calls s gb nr_bytes_read =
        of_outcome (with_space gb nr_bytes_read) λ gb'.
          then_sys (read_all calls s (gb'.bufsz - nr_bytes_read)) λ bs s'.
            let gb'' = record gb' { buf = stored gb'.buf nr_bytes_read bs } in
            let rest = slurp_rounds fuel calls s' gb'' (nr_bytes_read + length bs) in
            if ltb 0 (length bs) then rest else done (gb'', nr_bytes_read + length bs) s'

    -- `st_size` is the size of a regular file that is not empty.
    unfoldable pub slurp_fd_buf_1 : ℕ → ℕ → S → Option ℕ → Bool → Sys S GrowableBuffer
    slurp_fd_buf_1 fuel calls s st_size nul_terminate =
        of_outcome
          (elim st_size [
            | none ↦ ok empty_buffer
            | some n ↦ resize_buffer realloc fresh empty_buffer (n + 1)
          ])
          λ gb. then_sys (slurp_rounds fuel calls s gb 0) λ r s'.
            let n = r.1 in
            of_outcome (resize_buffer realloc fresh r.0 (if nul_terminate then n + 1 else n))
              λ gb'. done (if nul_terminate then record gb' { buf = set gb'.buf n 0 } else gb') s'

    unfoldable pub slurp_fd_buf : ℕ → ℕ → S → Option ℕ → Sys S GrowableBuffer
    slurp_fd_buf fuel calls s st_size = slurp_fd_buf_1 fuel calls s st_size false

    -- The buffer and the size that the caller can ask for.
    unfoldable pub slurp_fd : ℕ → ℕ → S → Option ℕ → Sys S (GrowableBuffer × ℕ)
    slurp_fd fuel calls s st_size =
        then_sys (slurp_fd_buf_1 fuel calls s st_size true) λ gb s'. done (gb, gb.bufsz - 1) s'

-- The entries that are left when some bytes of an array of buffers are taken; `fault` where the array
-- holds fewer.
unfoldable pub advance_iov : ℕ → List Bytes → Outcome (List Bytes)
advance_iov ret [] = if ret == 0 then ok [] else fault
advance_iov ret (b ∷ iov) =
    let rest = advance_iov (ret - length b) iov in
    if ret == 0 then ok (b ∷ iov) else if leb (length b) ret then rest else ok (drop ret b ∷ iov)

-- Without the empty entries in front.
unfoldable pub skip_empty : List Bytes → List Bytes
skip_empty [] = []
skip_empty ([] ∷ iov) = skip_empty iov
skip_empty ((b ∷ bs) ∷ iov) = (b ∷ bs) ∷ iov

module _ {S : Type 0} (write : S → Bytes → Writev × S) where
  abbrev pub on_write : Writev → Sys S (Unit {0}) → (ℕ → Sys S (Unit {0})) → Sys S (Unit {0})
  on_write (write_failed e) again more = if e == eintr then again else left_by (died e)
  on_write (wrote n) again more = more n

  unfoldable pub write_all : ℕ → S → Bytes → Sys S (Unit {0})
  write_all zero s rest = spinning
  write_all (suc fuel) s [] = done tt s
  write_all (suc fuel) s (b ∷ rest) =
      let r = write s (b ∷ rest) in
      on_write r.0 (write_all fuel r.1 (b ∷ rest)) λ n. write_all fuel r.1 (drop n (b ∷ rest))

  unfoldable pub write_all_v : ℕ → S → List Bytes → Sys S (Unit {0})
  write_all_v zero s iov = spinning
  write_all_v (suc fuel) s [] = done tt s
  write_all_v (suc fuel) s (b ∷ iov) =
      let r = write s (concat (b ∷ iov)) in
      on_write r.0 (write_all_v fuel r.1 (b ∷ iov))
        λ ret. of_outcome (advance_iov ret (b ∷ iov)) λ iov'. write_all_v fuel r.1 (skip_empty iov')
