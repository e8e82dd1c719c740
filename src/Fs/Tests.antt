-- ===== src/Fs/Tests.antt =====
-- A file that gives two bytes at a time and is interrupted once, and a pipe that takes one byte.
use fb_adb.Prelude.{
  ℕ, suc, zero, ◌≤◌, ◌<◌, ◌≡◌, ◌⊎◌, refl, sym, arith, inl, inr, Bool, true, none, [], ◌∷◌, ◌++◌,
  append-nil, Bytes, codes, length, take, drop, min,
}
use fb_adb.Outcome.{eintr}
use fb_adb.Ringbuf.{Readv, read_failed, read_bytes, Writev, write_failed, wrote}
use fb_adb.Channel.Poll.{concat}
use fb_adb.Fs.{done, write_all_v, slurp_fd}
use fb_adb.Fs.Kernel.{Source, Sink}
use fb_adb.Fs.Write.{write_all_v_lem}
use fb_adb.Adbenc.{state0, adb_decode}
use fb_adb.Fs.Encoded.{read_all_adb_encoded, read_all_adb_encoded_lem}
use fb_adb.Fs.Slurp.{slurp_fd_lem}

-- How often it is yet interrupted, and what is left.
abbrev read : ℕ × Bytes → ℕ → Readv × (ℕ × Bytes)
read (suc k, bs) n = (read_failed eintr, (k, bs))
read (zero, bs) n = (read_bytes (take (min n 2) bs), (zero, drop (min n 2) bs))

read_lem :
    (s : ℕ × Bytes) (n : ℕ)
    → 0 < n
    → ((m : ℕ) × ((read s n).0 ≡ read_bytes (take m s.1))
        × (m ≤ n)
        × ((m ≡ 0) → s.1 ≡ [])
        × ((read s n).1.1 ≡ drop m s.1)
        × ((read s n).1.0 ≤ s.0))
      ⊎ (((read s n).0 ≡ read_failed eintr) × ((read s n).1.1 ≡ s.1) × ((read s n).1.0 < s.0))
read_lem (suc k, bs) n pos = inr (refl, refl, omega arith)
read_lem (zero, bs) n pos =
    inl (min n 2, refl, omega arith, (λ z. absurd (omega arith)), refl, omega arith)

abbrev source : Source read
source = record { left = λ s. s.1; patience = λ s. s.0; reads = read_lem }

abbrev write : Bytes → Bytes → Writev × Bytes
write s [] = (wrote 0, s)
write s (b ∷ bs) = (wrote 1, s ++ b ∷ [])

write_lem :
    (s bs : Bytes)
    → ((m : ℕ) × ((write s bs).0 ≡ wrote m)
        × (m ≤ length bs)
        × ((m ≡ 0) → bs ≡ [])
        × ((write s bs).1 ≡ s ++ take m bs)
        × (0 ≤ 0))
      ⊎ (((write s bs).0 ≡ write_failed eintr) × ((write s bs).1 ≡ s) × (0 < 0))
write_lem s [] = inl (0, refl, omega arith, (λ _. refl), sym (append-nil s), omega arith)
write_lem s (b ∷ bs) = inl (1, refl, omega arith, (λ z. absurd (omega arith)), refl, omega arith)

abbrev sink : Sink write
sink = record { got = λ s. s; patience = λ s. 0; writes = write_lem }

write_all_v_lem_example :
    (s' : Bytes) × (write_all_v write 9 [] (codes "ab" ∷ [] ∷ codes "c" ∷ []) ≡ done tt s')
    × (s' ≡ [] ++ concat (codes "ab" ∷ [] ∷ codes "c" ∷ []))
unfolding concat
write_all_v_lem_example = write_all_v_lem sink 9 [] (codes "ab" ∷ [] ∷ codes "c" ∷ []) (omega arith)

abbrev enough : ℕ → Bool
enough sz = true

slurp_fd_lem_example :
    (s' : ℕ × Bytes) × (slurp_fd read enough 0 6 9 (1, codes "abcde") none
      ≡ done (record { bufsz = 6; buf = codes "abcde" ++ 0 ∷ [] }, 5) s')
    × (s'.1 ≡ [])
slurp_fd_lem_example =
    slurp_fd_lem source enough 0 (λ _. refl) 6 9 (1, codes "abcde") none (omega arith) (omega arith)
      (omega arith)

read_all_adb_encoded_lem_example :
    (s' : ℕ × Bytes) × (consumed : Bytes) × (read_all_adb_encoded read 9 (1, codes "abcde") 3
      ≡ done ((adb_decode 3 state0 consumed).out) s')
    × (codes "abcde" ≡ consumed ++ s'.1)
    × ((length ((adb_decode 3 state0 consumed).out) ≡ 3) ⊎ (s'.1 ≡ []))
read_all_adb_encoded_lem_example =
    read_all_adb_encoded_lem source 9 (1, codes "abcde") 3 (omega arith)
