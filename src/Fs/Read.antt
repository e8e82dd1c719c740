-- ===== src/Fs/Read.antt =====
-- fs.c: `read_all`, against the bytes that are left in the descriptor.
use fb_adb.Prelude.{
  take_nil, drop_nil, ℕ, zero, suc, ◌+◌, ◌-◌, ◌≤◌, ◌≡◌, refl, ap, sym, ◌∙◌, arith, Bool, true,
  false, inl, inr, Bool-cases, [], ◌∷◌, ◌++◌, Bytes, length, length-take, length-drop, take, drop,
  ltb, ◌==◌, if◌then◌else◌,
}
use fb_adb.Ringbuf.{Readv, read_bytes}
use fb_adb.Fs.{Sys, done, prepend, on_read, read_all}
use fb_adb.Fs.Kernel.{Source}

pub nothing_left : (m : ℕ) (xs : Bytes) → length (take m xs) ≡ 0 → (m ≡ 0 → xs ≡ []) → xs ≡ []
nothing_left zero xs h f = f refl
nothing_left (suc m) [] h f = refl
nothing_left (suc m) (x ∷ xs) h f = absurd (omega arith)

take-split :
    (m n : ℕ) (xs : Bytes)
    → m ≤ n
    → take m xs ++ take (n - length (take m xs)) (drop m xs) ≡ take n xs
take-split zero n xs h = ap (λ k. take k xs) (omega arith)
take-split (suc m) zero xs h = absurd (omega arith)
take-split (suc m) (suc n) [] h = take_nil (suc n - 0)
take-split (suc m) (suc n) (x ∷ xs) h =
    let less : suc n - suc (length (take m xs)) ≡ n - length (take m xs) = omega arith in
    rw less (ap (λ w. x ∷ w) (take-split m n xs (omega arith)))

drop-split : (m n : ℕ) (xs : Bytes) → m ≤ n → drop (n - length (take m xs)) (drop m xs) ≡ drop n xs
drop-split zero n xs h = ap (λ k. drop k xs) (omega arith)
drop-split (suc m) zero xs h = absurd (omega arith)
drop-split (suc m) (suc n) [] h = drop_nil (suc n - 0)
drop-split (suc m) (suc n) (x ∷ xs) h =
    let less : suc n - suc (length (take m xs)) ≡ n - length (take m xs) = omega arith in
    rw less (drop-split m n xs (omega arith))

module _ {S : Type 0} {read : S → ℕ → Readv × S} (source : Source read) where
  -- `read_all` got the front of what was left.
  abbrev pub ReadAll : ℕ → S → ℕ → Type 0
  ReadAll fuel s n =
      (s' : S) × (read_all read fuel s n ≡ done (take n (source.left s)) s')
      × (source.left s' ≡ drop n (source.left s))
      × (source.patience s' ≤ source.patience s)

  on_bytes :
      (bs : Bytes) (s : S) (again : Sys S Bytes) (more : Bytes → Sys S Bytes) (k : Bool)
      → (length bs == 0) ≡ k
      → on_read read (read_bytes bs) s again more ≡ (if k then done [] s else prepend bs (more bs))
  on_bytes [] s again more k h = rw (← h) refl
  on_bytes (b ∷ bs) s again more k h = elim (Bool-cases k) [
    | inl e ↦ absurd (ground (arith, h, e))
    | inr e ↦ rw e refl
  ]

  got_none :
      (fuel : ℕ) (s : S) (n : ℕ) (bs : Bytes)
      → ltb 0 n ≡ true
      → (read s n).0 ≡ read_bytes bs
      → (length bs == 0) ≡ true
      → read_all read (suc fuel) s n ≡ done [] ((read s n).1)
  unfolding read_all
  got_none fuel s n bs pos e none_got =
      rw (pos, e)
        (on_bytes bs ((read s n).1) (read_all read fuel ((read s n).1) n)
          (λ bs. read_all read fuel ((read s n).1) (n - length bs)) true none_got)

  got_some :
      (fuel : ℕ) (s : S) (n : ℕ) (bs more : Bytes) (s' : S)
      → ltb 0 n ≡ true
      → (read s n).0 ≡ read_bytes bs
      → (length bs == 0) ≡ false
      → read_all read fuel ((read s n).1) (n - length bs) ≡ done more s'
      → read_all read (suc fuel) s n ≡ done (bs ++ more) s'
  unfolding read_all
  got_some fuel s n bs more s' pos e some_got later =
      rw (pos, e)
        (on_bytes bs ((read s n).1) (read_all read fuel ((read s n).1) n)
            (λ bs. read_all read fuel ((read s n).1) (n - length bs)) false some_got
          ∙ rw later refl)

  -- With fuel for each byte that is left and each interruption, `read_all` returns the first `n` bytes
  -- that are left, or all of them where there are fewer, and leaves the rest.
  pub read_all_lem :
      (fuel : ℕ) (s : S) (n : ℕ)
      → source.patience s + length (source.left s) + 2 ≤ fuel
      → ReadAll fuel s n
  unfolding read_all
  read_all_lem zero s n h = absurd (omega arith)
  read_all_lem (suc fuel) s n h = elim (Bool-cases (ltb 0 n)) [
    | inr z ↦
        let nought : n ≡ 0 = ground arith in
        (
          s,
          rw z (ap (λ k. done (take k (source.left s)) s) (sym nought)),
          ap (λ k. drop k (source.left s)) (sym nought),
          omega arith,
        )
    | inl pos ↦ elim (source.reads s n (ground arith)) [
      | inr (e, same, fewer) ↦
          let (s', later, left', pat') =
            read_all_lem fuel ((read s n).1) n (omega (arith, ap length same)) in
          (s', rw (pos, e) (rw same at later), rw same at left', omega arith)
      | inl (m, e, few, ends, rest, pat) ↦
          let bs = take m (source.left s) in
          elim (Bool-cases (length bs == 0)) [
            | inl none_got ↦
                let empty = nothing_left m (source.left s) (ground arith) ends in
                (
                  (read s n).1,
                  got_none fuel s n bs pos e none_got
                      ∙ ap (λ w. done w ((read s n).1)) (sym (ap (take n) empty ∙ take_nil n)),
                  rest ∙ ap (drop m) empty ∙ drop_nil m ∙ sym (ap (drop n) empty ∙ drop_nil n),
                  pat,
                )
            | inr some_got ↦
                let (s', later, left', pat') = read_all_lem fuel ((read s n).1) (n - length bs) (
                  ground (
                    arith,
                    ap length rest,
                    length-drop m (source.left s),
                    length-take m (source.left s),
                  )) in
                (
                  s',
                  got_some fuel s n bs (take (n - length bs) (source.left ((read s n).1))) s' pos e
                        some_got later
                      ∙ ap (λ w. done w s')
                          (ap (λ w. bs ++ take (n - length bs) w) rest
                            ∙ take-split m n (source.left s) few),
                  left' ∙ ap (drop (n - length bs)) rest ∙ drop-split m n (source.left s) few,
                  omega arith,
                )
          ]
    ]
  ]
