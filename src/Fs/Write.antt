-- ===== src/Fs/Write.antt =====
-- fs.c: the writing loops, against the bytes that they are given.
use fb_adb.Prelude.{
  drop_nil, ℕ, zero, suc, ◌+◌, ◌-◌, ◌≤◌, ◌<◌, ◌≡◌, refl, ap, ap₂, sym, ◌∙◌, arith, inl, inr,
  Bool-cases, List, [], ◌∷◌, ◌++◌, append_assoc, append-nil, Bytes, length, length-append,
  length-drop, take, drop, take-append-drop, leb, ◌==◌,
}
use fb_adb.Outcome.{ok}
use fb_adb.Ringbuf.{Writev, wrote}
use fb_adb.Channel.Poll.{concat}
use fb_adb.Fs.{done, write_all, advance_iov, skip_empty, write_all_v}
use fb_adb.Fs.Kernel.{Sink}

-- What is left of an array of buffers is what the buffers hold behind the bytes that were taken.
advance_lem :
    (ret : ℕ) (iov : List Bytes)
    → ret ≤ length (concat iov)
    → (iov' : List Bytes) × (advance_iov ret iov ≡ ok iov')
      × (concat iov' ≡ drop ret (concat iov))
      × (length iov' ≤ length iov)
unfolding advance_iov concat
advance_lem ret [] h = ([], ground arith, sym (drop_nil ret), omega arith)
advance_lem ret (b ∷ iov) h = elim (Bool-cases (ret == 0)) [
  | inl z ↦
      let nought : 0 ≡ ret = ground arith in
      (b ∷ iov, rw z refl, ap (λ k. drop k (b ++ concat iov)) nought, omega arith)
  | inr more ↦ elim (Bool-cases (leb (length b) ret)) [
    | inl whole ↦
        let (iov', e, same, few) =
          advance_lem (ret - length b) iov (ground (arith, length-append b (concat iov))) in
        (iov', rw (more, whole) e, same ∙ drop-over b (concat iov) ret (ground arith), omega arith)
    | inr part ↦ (
      drop ret b ∷ iov,
      rw (more, part) refl,
      drop-under b (concat iov) ret (ground arith),
      omega arith,
    )
  ]
]
  where
    drop-over :
        (xs ys : Bytes) (n : ℕ) → length xs ≤ n → drop (n - length xs) ys ≡ drop n (xs ++ ys)
    drop-over [] ys n h = ap (λ k. drop k ys) (omega arith)
    drop-over (x ∷ xs) ys zero h = absurd (omega arith)
    drop-over (x ∷ xs) ys (suc n) h =
        ap (λ k. drop k ys) (omega arith) ∙ drop-over xs ys n (omega arith)

    drop-under : (xs ys : Bytes) (n : ℕ) → n < length xs → drop n xs ++ ys ≡ drop n (xs ++ ys)
    drop-under xs ys zero h = refl
    drop-under [] ys (suc n) h = absurd (omega arith)
    drop-under (x ∷ xs) ys (suc n) h = drop-under xs ys n (omega arith)

skip_lem :
    (iov : List Bytes)
    → (concat (skip_empty iov) ≡ concat iov)
      × (length (skip_empty iov) ≤ length iov)
      × ((concat iov ≡ []) → skip_empty iov ≡ [])
unfolding skip_empty concat
skip_lem [] = (refl, omega arith, λ _. refl)
skip_lem ([] ∷ iov) = let (a, b, c) = skip_lem iov in (a, omega arith, c)
skip_lem ((b ∷ bs) ∷ iov) = (refl, omega arith, λ e. absurd (omega (arith, ap length e)))

-- The array that is left is shorter, or its buffers hold less.
smaller_lem :
    (m size : ℕ) (bs : Bytes) (iov1 : List Bytes)
    → (m ≡ 0 → bs ≡ [])
    → concat iov1 ≡ drop m bs
    → length iov1 ≤ size
    → 0 < size
    → m ≤ length bs
    → length (concat (skip_empty iov1)) + length (skip_empty iov1) < length bs + size
smaller_lem m size bs iov1 ends rest short some_size few =
    let (kept, shorter, skipped) = skip_lem iov1 in
    let left : length (concat (skip_empty iov1)) ≡ length bs - m =
      ap length (kept ∙ rest) ∙ length-drop m bs in
    elim (Bool-cases (m == 0)) [
      | inr some_taken ↦ ground arith
      | inl z ↦
          let nought : m ≡ 0 = ground arith in
          let empty : bs ≡ [] = ends nought in
          let gone : length (skip_empty iov1) ≡ 0 =
            ap length (skipped (rest ∙ ap (drop m) empty ∙ drop_nil m)) in
          omega (arith, left, gone)
    ]

module _ {S : Type 0} {write : S → Bytes → Writev × S} (sink : Sink write) where
  one_round :
      (fuel : ℕ) (s : S) (b : Bytes) (iov iov1 : List Bytes) (m : ℕ) (s' : S)
      → (write s (concat (b ∷ iov))).0 ≡ wrote m
      → advance_iov m (b ∷ iov) ≡ ok iov1
      → write_all_v write fuel ((write s (concat (b ∷ iov))).1) (skip_empty iov1) ≡ done tt s'
      → write_all_v write (suc fuel) s (b ∷ iov) ≡ done tt s'
  unfolding write_all_v
  one_round fuel s b iov iov1 m s' e advanced later = rw (e, advanced) later

  -- With fuel for each byte, each buffer and each interruption, `write_all_v` returns when the
  -- descriptor got all bytes of the array, in their order.
  pub write_all_v_lem :
      (fuel : ℕ) (s : S) (iov : List Bytes)
      → sink.patience s + length (concat iov) + length iov < fuel
      → (s' : S) × (write_all_v write fuel s iov ≡ done tt s')
        × (sink.got s' ≡ sink.got s ++ concat iov)
  unfolding write_all_v concat
  write_all_v_lem zero s iov h = absurd (omega arith)
  write_all_v_lem (suc fuel) s [] h = (s, refl, sym (append-nil (sink.got s)))
  write_all_v_lem (suc fuel) s (b ∷ iov) h = elim (sink.writes s (concat (b ∷ iov))) [
    | inr (e, same, fewer) ↦
        let (s', later, got') =
          write_all_v_lem fuel ((write s (concat (b ∷ iov))).1) (b ∷ iov) (omega arith) in
        (s', rw e later, got' ∙ ap (λ w. w ++ concat (b ∷ iov)) same)
    | inl (m, e, few, ends, got, pat) ↦
        let (iov1, advanced, rest, short) = advance_lem m (b ∷ iov) few in
        let (s', later, got') =
          write_all_v_lem fuel ((write s (concat (b ∷ iov))).1) (skip_empty iov1) (
            omega (
              arith,
              smaller_lem m (length (b ∷ iov)) (concat (b ∷ iov)) iov1 ends rest short (omega arith)
                  few,
            )) in
        (
          s',
          one_round fuel s b iov iov1 m s' e advanced later,
          got'
              ∙ ap₂ (λ v w. v ++ w) got ((skip_lem iov1).0 ∙ rest)
              ∙ append_assoc (sink.got s) (take m (concat (b ∷ iov))) (drop m (concat (b ∷ iov)))
              ∙ ap (λ w. sink.got s ++ w) (take-append-drop m (concat (b ∷ iov))),
        )
  ]

  -- With fuel for each byte and each interruption, `write_all` returns when the descriptor got all
  -- bytes of the buffer, in their order.
  pub write_all_lem :
      (fuel : ℕ) (s : S) (bs : Bytes)
      → sink.patience s + length bs < fuel
      → (s' : S) × (write_all write fuel s bs ≡ done tt s') × (sink.got s' ≡ sink.got s ++ bs)
  unfolding write_all
  write_all_lem zero s bs h = absurd (omega arith)
  write_all_lem (suc fuel) s [] h = (s, refl, sym (append-nil (sink.got s)))
  write_all_lem (suc fuel) s (b ∷ bs) h = elim (sink.writes s (b ∷ bs)) [
    | inr (e, same, fewer) ↦
        let (s', later, got') = write_all_lem fuel ((write s (b ∷ bs)).1) (b ∷ bs) (omega arith) in
        (s', rw e later, got' ∙ ap (λ w. w ++ b ∷ bs) same)
    | inl (m, e, few, ends, got, pat) ↦ elim (Bool-cases (m == 0)) [
      | inl z ↦ let nought : m ≡ 0 = ground arith in absurd (omega (arith, ap length (ends nought)))
      | inr some_taken ↦
          let (s', later, got') =
            write_all_lem fuel ((write s (b ∷ bs)).1) (drop m (b ∷ bs))
              (ground (arith, length-drop m (b ∷ bs))) in
          (
            s',
            rw e later,
            got'
                ∙ ap (λ w. w ++ drop m (b ∷ bs)) got
                ∙ append_assoc (sink.got s) (take m (b ∷ bs)) (drop m (b ∷ bs))
                ∙ ap (λ w. sink.got s ++ w) (take-append-drop m (b ∷ bs)),
          )
    ]
  ]
