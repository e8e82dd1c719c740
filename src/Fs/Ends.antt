-- ===== src/Fs/Ends.antt =====
-- fs.c: a descriptor to read whole buffers from and one to write whole buffers to, as a client of
-- read_all and write_all sees them.
use fb_adb.Prelude.{ℕ, ◌+◌, ◌≡◌, refl, ap, ◌++◌, arith, Bytes, length, take, drop}
use fb_adb.Ringbuf.{Readv, Writev}
use fb_adb.Fs.{Sys, done, left_by, spinning, write_all}
use fb_adb.Fs.Kernel.{Source, Sink}
use fb_adb.Fs.Read.{read_all_lem}
use fb_adb.Fs.Write.{write_all_lem}
use fb_adb.Core.Message.Read.{whole_reader}

-- A reader gets as many of the bytes that are left as it is asked for, or all of them; a writer puts
-- all its bytes behind those that the other side got. Neither disturbs the other's descriptor.
pub record Ends {S : Type 0} (rdr : S → ℕ → Sys S Bytes) (wtr : S → Bytes → Sys S (Unit {0}))
    : Type 0 where
  pub left : S → Bytes
  pub got : S → Bytes
  pub reads :
      (s : S) (n : ℕ)
      → (s' : S) × (rdr s n ≡ done (take n (left s)) s')
        × (left s' ≡ drop n (left s))
        × (got s' ≡ got s)
  pub writes :
      (s : S) (bs : Bytes)
      → (s' : S) × (wtr s bs ≡ done tt s') × (got s' ≡ got s ++ bs) × (left s' ≡ left s)

-- `write_all` with fuel enough for what it is given.
abbrev pub whole_writer :
    {S : Type 0} {write : S → Bytes → Writev × S} → Sink write → S → Bytes → Sys S (Unit {0})
whole_writer {write = write} sink s bs = write_all write (sink.patience s + length bs + 1) s bs

-- A call on one of two descriptors, each with a state of its own.
abbrev pub beside : {R W A : Type 0} → W → Sys R A → Sys (R × W) A
beside w (done a r) = done a (r, w)
beside w (left_by o) = left_by o
beside w spinning = spinning

abbrev pub behind : {R W A : Type 0} → R → Sys W A → Sys (R × W) A
behind r (done a w) = done a (r, w)
behind r (left_by o) = left_by o
behind r spinning = spinning

abbrev pub read_first :
    {R W : Type 0} {read : R → ℕ → Readv × R} → Source read → R × W → ℕ → Sys (R × W) Bytes
read_first source s n = beside (s.1) (whole_reader source (s.0) n)

abbrev pub write_second :
    {R W : Type 0} {write : W → Bytes → Writev × W}
    → Sink write
    → R × W
    → Bytes
    → Sys (R × W) (Unit {0})
write_second sink s bs = behind (s.0) (whole_writer sink (s.1) bs)

abbrev pub ends_of :
    {R W : Type 0} {read : R → ℕ → Readv × R} {write : W → Bytes → Writev × W}
    (source : Source read) (sink : Sink write)
    → Ends {S = R × W} (read_first source) (write_second sink)
ends_of source sink = record {
  left = λ s. source.left (s.0);
  got = λ s. sink.got (s.1);
  reads = λ s n.
      let (r, got, rest, calm) =
        read_all_lem source (source.patience (s.0) + length (source.left (s.0)) + 2) (s.0) n
          (omega arith) in
      ((r, s.1), ap (beside (s.1)) got, rest, refl);
  writes = λ s bs.
      let (w, written, got) =
        write_all_lem sink (sink.patience (s.1) + length bs + 1) (s.1) bs (omega arith) in
      ((s.0, w), ap (behind (s.0)) written, got, refl);
}
