-- ===== src/Fs/Encoded.antt =====
-- adbenc.c: reading a buffer from behind an adb pty.
use fb_adb.Prelude.{
  drop_nil, ℕ, zero, suc, ◌+◌, ◌-◌, ◌≤◌, ◌≡◌, ◌⊎◌, refl, ap, sym, ◌∙◌, arith, Bool, true, false,
  inl, inr, Bool-cases, [], ◌∷◌, ◌++◌, append_assoc, Bytes, length, length-take, length-append,
  length-drop, take, drop, take-append-drop, ltb, ◌==◌, if◌then◌else◌,
}
use fb_adb.Outcome.{eintr, died}
use fb_adb.Util.{xmin}
use fb_adb.Adbenc.{AdbState, state0, adb_decode, encbuf_size}
use fb_adb.Adbenc.Decode.{decode_nil, length-decode, decode-append}
use fb_adb.Ringbuf.{Readv, read_failed, read_bytes}
use fb_adb.Fs.{Sys, done, left_by, spinning, prepend}
use fb_adb.Fs.Kernel.{Source}
use fb_adb.Fs.Read.{nothing_left}

-- One answer of `read`: `again` is the loop after EINTR, `more` the loop after some bytes.
abbrev on_encoded :
    {S : Type 0} → Readv → Sys S Bytes → Sys S Bytes → (Bytes → Sys S Bytes) → Sys S Bytes
on_encoded (read_failed e) again ended more = if e == eintr then again else left_by (died e)
on_encoded (read_bytes []) again ended more = ended
on_encoded (read_bytes (b ∷ bs)) again ended more = more (b ∷ bs)

module _ {S : Type 0} (read : S → ℕ → Readv × S) where
  -- The loop, with the decoder's state and what is left of the size.
  unfoldable pub read_encoded : ℕ → S → AdbState → ℕ → Sys S Bytes
  read_encoded zero s state sz = spinning
  read_encoded (suc fuel) s state sz =
      let r = read s (xmin sz encbuf_size) in
      let rest = on_encoded r.0 (read_encoded fuel r.1 state sz) (done [] r.1) λ bs.
        let e = adb_decode sz state bs in
        prepend e.out (read_encoded fuel r.1 e.state (sz - length e.out)) in
      if ltb 0 sz then rest else done [] s

  unfoldable pub read_all_adb_encoded : ℕ → S → ℕ → Sys S Bytes
  read_all_adb_encoded fuel s sz = read_encoded fuel s state0 sz

module _ {S : Type 0} {read : S → ℕ → Readv × S} (source : Source read) where
  -- A front of what was left is decoded; the size or what was left is used up.
  pub record Decoded (fuel : ℕ) (s : S) (st : AdbState) (sz : ℕ) : Type 0 where
    pub behind : S
    pub consumed : Bytes
    pub returned : read_encoded read fuel s st sz ≡ done ((adb_decode sz st consumed).out) behind
    pub front : source.left s ≡ consumed ++ source.left behind
    pub finished : (length ((adb_decode sz st consumed).out) ≡ sz) ⊎ (source.left behind ≡ [])

  on_encoded_lem :
      (bs : Bytes) (again ended : Sys S Bytes) (more : Bytes → Sys S Bytes) (k : Bool)
      → (length bs == 0) ≡ k
      → on_encoded (read_bytes bs) again ended more ≡ (if k then ended else more bs)
  on_encoded_lem [] again ended more k h = rw (← h) refl
  on_encoded_lem (b ∷ bs) again ended more k h = elim (Bool-cases k) [
    | inl e ↦ absurd (ground (arith, h, e))
    | inr e ↦ rw e refl
  ]

  -- The step after `read` gave some bytes.
  step_lem :
      (fuel : ℕ) (s : S) (st : AdbState) (sz : ℕ) (bs : Bytes) (k : Bool)
      → ltb 0 sz ≡ true
      → (read s (xmin sz encbuf_size)).0 ≡ read_bytes bs
      → (length bs == 0) ≡ k
      → read_encoded read (suc fuel) s st sz ≡ (
          if k
          then done [] ((read s (xmin sz encbuf_size)).1)
          else prepend ((adb_decode sz st bs).out) (
              read_encoded read fuel
                ((read s (xmin sz encbuf_size)).1)
                ((adb_decode sz st bs).state)
                (sz - length ((adb_decode sz st bs).out))))
  unfolding read_encoded
  step_lem fuel s st sz bs k pos e h =
      let s1 = (read s (xmin sz encbuf_size)).1 in
      let again = read_encoded read fuel s1 st sz in
      let more : Bytes → Sys S Bytes = λ bs. prepend ((adb_decode sz st bs).out) (
        read_encoded read fuel s1 ((adb_decode sz st bs).state)
          (sz - length ((adb_decode sz st bs).out))) in
      rw (pos, e) (on_encoded_lem bs again (done [] s1) more k h)

  retry_lem :
      (fuel : ℕ) (s : S) (st : AdbState) (sz : ℕ)
      → ltb 0 sz ≡ true
      → (read s (xmin sz encbuf_size)).0 ≡ read_failed eintr
      → read_encoded read (suc fuel) s st sz
        ≡ read_encoded read fuel ((read s (xmin sz encbuf_size)).1) st sz
  unfolding read_encoded
  retry_lem fuel s st sz pos e = rw (pos, e) refl

  end_lem :
      (fuel : ℕ) (s : S) (st : AdbState) (sz : ℕ)
      → ltb 0 sz ≡ false
      → read_encoded read (suc fuel) s st sz ≡ done [] s
  unfolding read_encoded
  end_lem fuel s st sz nought = rw nought refl

  -- A round that got some bytes, and what those behind it did.
  went_on :
      (fuel : ℕ) (s : S) (st : AdbState) (sz m : ℕ)
      → ltb 0 sz ≡ true
      → (read s (xmin sz encbuf_size)).0 ≡ read_bytes (take m (source.left s))
      → (length (take m (source.left s)) == 0) ≡ false
      → length (take m (source.left s)) ≤ sz
      → source.left ((read s (xmin sz encbuf_size)).1) ≡ drop m (source.left s)
      → Decoded fuel
          ((read s (xmin sz encbuf_size)).1)
          ((adb_decode sz st (take m (source.left s))).state)
          (sz - length ((adb_decode sz st (take m (source.left s))).out))
      → Decoded (suc fuel) s st sz
  went_on fuel s st sz m pos e some_got size rest d =
      let bs = take m (source.left s) in
      let first = adb_decode sz st bs in
      let later = adb_decode (sz - length first.out) first.state d.consumed in
      let whole = decode-append bs d.consumed sz st size in
      record {
        behind = d.behind;
        consumed = bs ++ d.consumed;
        returned =
            step_lem fuel s st sz bs false pos e some_got
            ∙ ap (prepend first.out) d.returned
            ∙ ap (λ w. done w d.behind) (sym whole);
        front =
            sym (take-append-drop m (source.left s))
            ∙ ap (λ w. bs ++ w) (sym rest ∙ d.front)
            ∙ sym (append_assoc bs d.consumed (source.left d.behind));
        finished = elim d.finished [
          | inl full ↦ inl (
              ap length whole
              ∙ omega
                  (arith, length-append first.out later.out, full, size, length-decode bs sz st))
          | inr gone ↦ inr gone
        ];
      }

  encoded_lem :
      (fuel : ℕ) (s : S) (st : AdbState) (sz : ℕ)
      → source.patience s + length (source.left s) + 2 ≤ fuel
      → Decoded fuel s st sz
  encoded_lem zero s st sz h = absurd (omega arith)
  encoded_lem (suc fuel) s st sz h = elim (Bool-cases (ltb 0 sz)) [
    | inr nought ↦ record {
      behind = s;
      consumed = [];
      returned = end_lem fuel s st sz nought ∙ ap (λ w. done w s) (sym (decode_nil sz st));
      front = refl;
      finished = inl (ap length (decode_nil sz st) ∙ ground arith);
    }
    | inl pos ↦
        let want = xmin sz encbuf_size in
        let s1 = (read s want).1 in
        elim (source.reads s want (ground arith)) [
          | inr (e, same, fewer) ↦
              let d = encoded_lem fuel s1 st sz (omega (arith, ap length same)) in
              record {
                behind = d.behind;
                consumed = d.consumed;
                returned = retry_lem fuel s st sz pos e ∙ d.returned;
                front = sym same ∙ d.front;
                finished = d.finished;
              }
          | inl (m, e, few, ends, rest, pat) ↦
              let bs = take m (source.left s) in
              elim (Bool-cases (length bs == 0)) [
                | inl none_got ↦
                    let empty = nothing_left m (source.left s) (ground arith) ends in
                    let none_left : source.left s1 ≡ [] = rest ∙ ap (drop m) empty ∙ drop_nil m in
                    record {
                      behind = s1;
                      consumed = [];
                      returned =
                          step_lem fuel s st sz bs true pos e none_got
                          ∙ ap (λ w. done w s1) (sym (decode_nil sz st));
                      front = empty ∙ sym none_left;
                      finished = inr none_left;
                    }
                | inr some_got ↦
                    let first = adb_decode sz st bs in
                    let size : length bs ≤ sz = ground (arith, length-take m (source.left s)) in
                    went_on fuel s st sz m pos e some_got size rest (
                      encoded_lem fuel s1 first.state (sz - length first.out) (
                        ground (
                          arith,
                          ap length rest,
                          length-drop m (source.left s),
                          length-take m (source.left s),
                        )))
              ]
        ]
  ]

  -- With fuel for each byte that is left and each interruption, `read_all_adb_encoded` returns what a
  -- front of the bytes that are left decodes to, and leaves the rest: as much as it is asked for, or
  -- all that there is.
  pub read_all_adb_encoded_lem :
      (fuel : ℕ) (s : S) (sz : ℕ)
      → source.patience s + length (source.left s) + 2 ≤ fuel
      → (s' : S) × (consumed : Bytes) × (read_all_adb_encoded read fuel s sz
          ≡ done ((adb_decode sz state0 consumed).out) s')
        × (source.left s ≡ consumed ++ source.left s')
        × ((length ((adb_decode sz state0 consumed).out) ≡ sz) ⊎ (source.left s' ≡ []))
  unfolding read_all_adb_encoded
  read_all_adb_encoded_lem fuel s sz h =
      let d = encoded_lem fuel s state0 sz h in
      (d.behind, d.consumed, d.returned, d.front, d.finished)
