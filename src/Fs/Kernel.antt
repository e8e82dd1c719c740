-- ===== src/Fs/Kernel.antt =====
-- fs.c: what the loops rely on of a descriptor, as read(2) and write(2) document it.
use fb_adb.Prelude.{ℕ, ◌≤◌, ◌<◌, ◌≡◌, ◌⊎◌, ◌++◌, [], Bytes, length, take, drop}
use fb_adb.Outcome.{eintr}
use fb_adb.Ringbuf.{Readv, read_failed, read_bytes, Writev, write_failed, wrote}

-- A descriptor to read: some bytes are left in it, and a call gives a front of them, at most as many
-- as it is asked for and none only at the end, or is interrupted, which happens finitely often.
pub record Source {S : Type 0} (read : S → ℕ → Readv × S) : Type 0 where
  pub left : S → Bytes
  pub patience : S → ℕ
  pub reads :
      (s : S) (n : ℕ)
      → 0 < n
      → ((m : ℕ) × ((read s n).0 ≡ read_bytes (take m (left s)))
          × (m ≤ n)
          × ((m ≡ 0) → left s ≡ [])
          × (left ((read s n).1) ≡ drop m (left s))
          × (patience ((read s n).1) ≤ patience s))
        ⊎ (((read s n).0 ≡ read_failed eintr)
            × (left ((read s n).1) ≡ left s)
            × (patience ((read s n).1) < patience s))

-- A descriptor to write: a call takes a front of what it is given, none only where it is given none,
-- or is interrupted, which happens finitely often.
pub record Sink {S : Type 0} (write : S → Bytes → Writev × S) : Type 0 where
  pub got : S → Bytes
  pub patience : S → ℕ
  pub writes :
      (s : S) (bs : Bytes)
      → ((m : ℕ) × ((write s bs).0 ≡ wrote m)
          × (m ≤ length bs)
          × ((m ≡ 0) → bs ≡ [])
          × (got ((write s bs).1) ≡ got s ++ take m bs)
          × (patience ((write s bs).1) ≤ patience s))
        ⊎ (((write s bs).0 ≡ write_failed eintr)
            × (got ((write s bs).1) ≡ got s)
            × (patience ((write s bs).1) < patience s))
