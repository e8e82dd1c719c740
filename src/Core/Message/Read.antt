-- ===== src/Core/Message/Read.antt =====
-- core.c: a message is read back from the bytes that the peer sent.
use fb_adb.Prelude.{
  ℕ, ◌+◌, ◌-◌, ◌≤◌, ◌<◌, ◌≡◌, refl, ap, ◌∙◌, arith, Bool, true, false, not, ◌||◌, ◌==◌, inl, inr,
  Bool-cases, [], ◌++◌, append-nil, Bytes, length, length-take, take, drop, ltb, if◌then◌else◌,
}
use fb_adb.Outcome.{ok, died, ecomm}
use fb_adb.Ringbuf.{Readv}
use fb_adb.Proto.{Msg, as_msg, msg_bytes, to_le, sizeof_msg, msg_error}
use fb_adb.Proto.Frames.{FitsMsg, as_msg-msg_bytes}
use fb_adb.Fs.{Sys, done, left_by, read_all}
use fb_adb.Fs.Kernel.{Source}
use fb_adb.Fs.Read.{read_all_lem}
use fb_adb.Core.Receive.{look_for_stub_error}
use fb_adb.Core.Message.{valid_message_type_p, accept_header, accept_rest, read_msg}

-- A reader gets as many of the bytes that are left as it is asked for, or all of them.
pub record Reader {S : Type 0} (rdr : S → ℕ → Sys S Bytes) : Type 0 where
  pub left : S → Bytes
  pub law :
      (s : S) (n : ℕ)
      → (s' : S) × (rdr s n ≡ done (take n (left s)) s') × (left s' ≡ drop n (left s))

-- `read_all` with fuel enough for what is left.
abbrev pub whole_reader :
    {S : Type 0} {read : S → ℕ → Readv × S} → Source read → S → ℕ → Sys S Bytes
whole_reader {read = read} source s n =
    read_all read (source.patience s + length (source.left s) + 2) s n

abbrev pub read_all_reader :
    {S : Type 0} {read : S → ℕ → Readv × S} (source : Source read) → Reader (whole_reader source)
read_all_reader source = record {
  left = source.left;
  law = λ s n.
      let (s', got, rest, calm) =
        read_all_lem source (source.patience s + length (source.left s) + 2) s n (omega arith) in
      (s', got, rest);
}

-- A header that the reader of messages accepts.
pub record Legal (stub : Bool) (m : Msg) : Type 0 where
  pub fits : FitsMsg m
  pub long : sizeof_msg ≤ m.size
  pub known : valid_message_type_p m.type ≡ true
  pub no_error : (stub || not (m.type == msg_error)) ≡ true

header_back :
    (m : Msg) (rest : Bytes) → FitsMsg m → as_msg (take sizeof_msg (msg_bytes m ++ rest)) ≡ m
unfolding msg_bytes to_le
header_back m rest f = as_msg-msg_bytes m [] f

take-header : (m : Msg) (rest : Bytes) → take sizeof_msg (msg_bytes m ++ rest) ≡ msg_bytes m
unfolding msg_bytes to_le
take-header m rest = refl

drop-header : (m : Msg) (rest : Bytes) → drop sizeof_msg (msg_bytes m ++ rest) ≡ rest
unfolding msg_bytes to_le
drop-header m rest = refl

length-header : (m : Msg) → length (msg_bytes m) ≡ sizeof_msg
unfolding msg_bytes to_le
length-header m = refl

module _ {S : Type 0} {rdr : S → ℕ → Sys S Bytes} (reader : Reader rdr) (malloc : ℕ → Bool)
    (stub : Bool) (memory : (sz : ℕ) → malloc sz ≡ true) where
  header_lem : (m : Msg) → Legal stub m → accept_header malloc (msg_bytes m) ≡ ok tt
  unfolding accept_header
  header_lem m legal =
      let same : as_msg (msg_bytes m) ≡ m =
        rw (append-nil (msg_bytes m)) at (as_msg-msg_bytes m [] legal.fits) in
      let long : ltb m.size sizeof_msg ≡ false = ground (arith, legal.long) in
      rw (same, length-header m, long, legal.known, memory m.size) refl

  rest_lem :
      (m : Msg) (payload : Bytes)
      → Legal stub m
      → accept_rest stub m payload
        ≡ (if ltb (length payload) (m.size - sizeof_msg) then died ecomm else ok tt)
  unfolding accept_rest look_for_stub_error
  rest_lem m payload legal = ground (arith, legal.no_error)

  -- The steps of a call behind a header that is accepted.
  behind_header :
      (s s1 s2 : S) (m : Msg) (rest : Bytes)
      → Legal stub m
      → rdr s sizeof_msg ≡ done (msg_bytes m) s1
      → rdr s1 (m.size - sizeof_msg) ≡ done rest s2
      → read_msg rdr malloc stub s ≡ (
          if ltb (length rest) (m.size - sizeof_msg)
          then left_by (died ecomm)
          else done (msg_bytes m ++ rest) s2)
  unfolding read_msg
  behind_header s s1 s2 m rest legal one two =
      let same : as_msg (msg_bytes m) ≡ m =
        rw (append-nil (msg_bytes m)) at (as_msg-msg_bytes m [] legal.fits) in
      rw (one, header_lem m legal, same, two, rest_lem m rest legal)
        (elim (Bool-cases (ltb (length rest) (m.size - sizeof_msg))) [
          | inl e ↦ rw e refl
          | inr e ↦ rw e refl
        ])

  -- Where memory is left: behind a legal header, the message is returned as it was sent when all its
  -- bytes are there, and what follows them is left; the call dies with ECOMM when the payload is cut.
  pub read_msg_lem :
      (s : S) (m : Msg) (rest : Bytes)
      → Legal stub m
      → reader.left s ≡ msg_bytes m ++ rest
      → (s' : S) × (read_msg rdr malloc stub s ≡ (
          if ltb (length rest) (m.size - sizeof_msg)
          then left_by (died ecomm)
          else done (msg_bytes m ++ take (m.size - sizeof_msg) rest) s'))
        × (reader.left s' ≡ drop (m.size - sizeof_msg) rest)
  read_msg_lem s m rest legal sent =
      let n = m.size - sizeof_msg in
      let (s1, one, left1) = reader.law s sizeof_msg in
      let (s2, two, left2) = reader.law s1 n in
      let behind : reader.left s1 ≡ rest = left1 ∙ ap (drop sizeof_msg) sent ∙ drop-header m rest in
      let header : rdr s sizeof_msg ≡ done (msg_bytes m) s1 =
        one ∙ ap (λ w. done w s1) (ap (take sizeof_msg) sent ∙ take-header m rest) in
      let payload : rdr s1 n ≡ done (take n rest) s2 = two ∙ ap (λ w. done (take n w) s2) behind in
      let cut : ltb (length (take n rest)) n ≡ ltb (length rest) n =
        ground (arith, length-take n rest) in
      (
        s2,
        behind_header s s1 s2 m (take n rest) legal header payload
            ∙ ap (λ b. if b then left_by (died ecomm) else done (msg_bytes m ++ take n rest) s2)
                cut,
        left2 ∙ ap (drop n) behind,
      )

  -- A peer that sends fewer bytes than a header has makes the call die with ECOMM.
  read_msg_disconnected :
      (s : S)
      → length (reader.left s) < sizeof_msg
      → read_msg rdr malloc stub s ≡ left_by (died ecomm)
  unfolding read_msg accept_header
  read_msg_disconnected s h =
      let (s1, one, left1) = reader.law s sizeof_msg in
      let short : ltb (length (take sizeof_msg (reader.left s))) sizeof_msg ≡ true =
        ground (arith, length-take sizeof_msg (reader.left s)) in
      rw (one, short) refl
