-- ===== src/Handshake/Frame.antt =====
-- cmd_stub.c: messages and the bytes behind them, as the stub reads them.
use fb_adb.Prelude.{
  ℕ, ◌+◌, ◌-◌, ◌^◌, ◌<◌, ◌≡◌, refl, ap, ◌∙◌, arith, Bool, true, false, inl, inr, Bool-cases, [],
  ◌∷◌, ◌++◌, append_assoc, Bytes, length, length-append, take, drop, take-append_length,
  drop-append_length, ltb, ◌==◌, if◌then◌else◌,
}
use fb_adb.Outcome.{died, ecomm}
use fb_adb.Proto.{Msg, as_msg, msg_bytes, to_le, sizeof_msg}
use fb_adb.Proto.Frames.{as_msg-msg_bytes}
use fb_adb.Fs.{Sys, done, left_by}
use fb_adb.Core.Message.{valid_message_type_p, read_msg}
use fb_adb.Core.Message.Read.{Reader, Legal, read_msg_lem}
use fb_adb.Handshake.{header_of}
use fb_adb.Handshake.Child.{c_string, read_exactly}

-- A C string, without its NUL.
abbrev pub CString : Bytes → Type 0
CString s = c_string s ≡ s

pub c_string-append : (name value : Bytes) → CString name → c_string (name ++ 0 ∷ value) ≡ name
unfolding c_string
c_string-append [] value h = refl
c_string-append (c ∷ cs) value h = elim (Bool-cases (c == 0)) [
  | inl e ↦ absurd (omega (arith, ap length (rw e at h)))
  | inr e ↦
      let tail : c_string cs ≡ cs = ap (drop 1) (rw e at h) in
      rw (e, c_string-append cs value tail) refl
]

-- A message with a payload.
abbrev pub plain : ℕ → Bytes → Bytes
plain type payload = header_of (4 + length payload) type ++ payload

drop-plain : (type : ℕ) (payload : Bytes) → drop 4 (plain type payload) ≡ payload
unfolding msg_bytes to_le
drop-plain type payload = refl

pub as_msg-plain :
    (type : ℕ) (payload : Bytes)
    → 4 + length payload < 2 ^ 16
    → type < 2 ^ 16
    → as_msg (plain type payload) ≡ record { size = 4 + length payload; type = type }
as_msg-plain type payload small few =
    as_msg-msg_bytes (record { size = 4 + length payload; type = type }) payload
      (record { size_fits = small; type_fits = few })

-- All of a payload is there.
whole :
    {S : Type 0} (hdr payload rest : Bytes) (s' : S) (n : ℕ)
    → n ≡ length payload
    → (if ltb (length (payload ++ rest)) n
        then left_by (died ecomm)
        else done (hdr ++ take n (payload ++ rest)) s')
      ≡ done (hdr ++ payload) s'
whole hdr payload rest s' n e =
    let enough : ltb (length (payload ++ rest)) (length payload) ≡ false =
      ground (arith, length-append payload rest) in
    rw (e, enough, take-append_length payload rest) refl

module _ {S : Type 0} {rdr : S → ℕ → Sys S Bytes} (reader : Reader rdr) (malloc : ℕ → Bool)
    (memory : (sz : ℕ) → malloc sz ≡ true) where
  pub plain_read :
      (s : S) (type : ℕ) (payload rest : Bytes)
      → 4 + length payload < 2 ^ 16
      → type < 2 ^ 16
      → valid_message_type_p type ≡ true
      → reader.left s ≡ plain type payload ++ rest
      → (s' : S) × (read_msg rdr malloc true s ≡ done (plain type payload) s')
        × (reader.left s' ≡ rest)
  plain_read s type payload rest small few known sent =
      let m : Msg = record { size = 4 + length payload; type = type } in
      let legal : Legal true m = record {
        fits = record { size_fits = small; type_fits = few };
        long = omega arith;
        known = known;
        no_error = refl;
      } in
      let (s', got, left) =
        read_msg_lem reader malloc true memory s m (payload ++ rest) legal
          (sent ∙ append_assoc (msg_bytes m) payload rest) in
      (
        s',
        got ∙ whole (msg_bytes m) payload rest s' (m.size - sizeof_msg) (omega arith),
        left ∙ ap (λ n. drop n (payload ++ rest)) (omega arith) ∙ drop-append_length payload rest,
      )

  pub read_exactly_lem :
      (s : S) (bs rest : Bytes)
      → reader.left s ≡ bs ++ rest
      → (s' : S) × (read_exactly rdr s (length bs) ≡ done bs s') × (reader.left s' ≡ rest)
  unfolding read_exactly
  read_exactly_lem s bs rest sent =
      let (s', got, left) = reader.law s (length bs) in
      let all : rdr s (length bs) ≡ done bs s' =
        got ∙ ap (λ w. done w s') (ap (take (length bs)) sent ∙ take-append_length bs rest) in
      let enough : ltb (length bs) (length bs) ≡ false = ground arith in
      (s', rw (all, enough) refl, left ∙ ap (drop (length bs)) sent ∙ drop-append_length bs rest)
