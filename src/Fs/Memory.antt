-- ===== src/Fs/Memory.antt =====
-- fs.c: descriptors that are lists of bytes in memory, for the examples.
use fb_adb.Prelude.{
  ℕ, ◌≡◌, refl, ap, sym, arith, inl, Bool, true, [], ◌∷◌, ◌++◌, Bytes, length, take, take_all, drop,
}
use fb_adb.Ringbuf.{Readv, read_bytes, Writev, wrote}
use fb_adb.Fs.{Sys, done, left_by, spinning}
use fb_adb.Fs.Kernel.{Source, Sink}
use fb_adb.Fs.Ends.{Ends, read_first, write_second, ends_of}

abbrev pub read : Bytes → ℕ → Readv × Bytes
read s n = (read_bytes (take n s), drop n s)

abbrev pub file : Source read
file = record {
  left = λ s. s;
  patience = λ s. 0;
  reads = λ s n pos. inl (n, refl, omega arith, (λ z. absurd (omega arith)), refl, omega arith);
}

abbrev pub write : Bytes → Bytes → Writev × Bytes
write s bs = (wrote (length bs), s ++ bs)

pub empty_lem : (bs : Bytes) → length bs ≡ 0 → bs ≡ []
empty_lem [] h = refl
empty_lem (b ∷ bs) h = absurd (omega arith)

abbrev pub sink : Sink write
sink = record {
  got = λ s. s;
  patience = λ s. 0;
  writes = λ s bs. inl (
    length bs,
    refl,
    omega arith,
    empty_lem bs,
    ap (λ w. s ++ w) (sym (take_all (length bs) bs (omega arith))),
    omega arith,
  );
}

abbrev pub two : Ends (read_first {W = Bytes} file) (write_second {R = Bytes} sink)
two = ends_of file sink

abbrev pub enough : ℕ → Bool
enough sz = true

abbrev pub second_of : {A : Type 0} → Sys (Bytes × Bytes) A → Bytes
second_of (done a s) = s.1
second_of (left_by o) = []
second_of spinning = []
