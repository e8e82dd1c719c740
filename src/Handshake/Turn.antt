-- ===== src/Handshake/Turn.antt =====
-- cmd_stub.c: one turn of the stub's loop.
use fb_adb.Prelude.{
  ℕ, ◌+◌, ◌-◌, ◌^◌, ◌≤◌, ◌<◌, ◌≡◌, refl, arith, Bool, true, false, ◌⊎◌, Option, List, ◌++◌, Bytes,
  length, take, drop, ltb,
}
use fb_adb.Outcome.{Errno, Outcome, ok}
use fb_adb.Util.{size_mod, satadd}
use fb_adb.Proto.{as_msg, msg_bytes, to_le, of_le}
use fb_adb.Xfer.Wire.{of-to_le}
use fb_adb.Fs.{Sys, done, then_sys, of_outcome}
use fb_adb.Core.Message.{valid_message_type_p, read_msg, check_msg_cast}
use fb_adb.Core.Message.Read.{Reader}
use fb_adb.Handshake.Child.{Args, xalloc, put_arg, on_message}
use fb_adb.Handshake.Frame.{plain, as_msg-plain, plain_read}
use fb_adb.Handshake.Item.{Item, more_args, apply}

-- The numbers of a message with jumbo strings behind it.
pub first_word :
    (type x : ℕ) (more : Bytes)
    → x < 2 ^ 32
    → of_le (take 4 (drop 4 (plain type (to_le 4 x ++ more)))) ≡ x
unfolding to_le msg_bytes
first_word type x more small = of-to_le 4 x small

pub only_word : (type x : ℕ) → x < 2 ^ 32 → of_le (take 4 (drop 4 (plain type (to_le 4 x)))) ≡ x
unfolding to_le msg_bytes
only_word type x small = of-to_le 4 x small

pub second_word :
    (type x y : ℕ) → y < 2 ^ 32 → of_le (take 4 (drop 8 (plain type (to_le 4 x ++ to_le 4 y)))) ≡ y
unfolding to_le msg_bytes
second_word type x y small = of-to_le 4 y small

pub two_words : (x y : ℕ) → length (to_le 4 x ++ to_le 4 y) ≡ 8
unfolding to_le
two_words x y = refl

pub cast_lem :
    (type : ℕ) (payload : Bytes) (least : ℕ)
    → 4 + length payload < 2 ^ 16
    → type < 2 ^ 16
    → least ≤ 4 + length payload
    → check_msg_cast (as_msg (plain type payload)) least
      ≡ ok (record { size = 4 + length payload; type = type })
unfolding check_msg_cast
cast_lem type payload least small few long =
    let enough : ltb (4 + length payload) least ≡ false = ground arith in
    rw (as_msg-plain type payload small few, enough) refl

-- What the stub's loop stands on: a reader, memory that is left, and what the stub finds on the device.
pub record Stub {S : Type 0} (rdr : S → ℕ → Sys S Bytes) : Type 0 where
  pub reader : Reader rdr
  pub malloc : ℕ → Bool
  pub realloc : ℕ → Bool
  pub memory : (sz : ℕ) → malloc sz ≡ true
  pub fresh : Option Bytes
  pub environ : List Bytes
  pub shell : Option Bytes
  pub orig_argv0 : Bytes
  pub mydir : Bytes
  pub try_xopen : S → Bytes → (Errno ⊎ ℕ) × S
  pub sha256_fd : S → ℕ → Bytes × S
  pub wtr : S → Bytes → Sys S (Unit {0})

module _ {S : Type 0} {rdr : S → ℕ → Sys S Bytes} (stub : Stub rdr) where
  abbrev pub handler : ℕ → Bytes → S → Args → Sys S Args
  handler =
      on_message stub.malloc stub.realloc stub.fresh stub.environ rdr stub.shell stub.orig_argv0
        stub.mydir stub.try_xopen stub.sha256_fd stub.wtr

  -- One turn of the loop.
  abbrev pub turn : S → Args → Sys S Args
  turn s a = then_sys (read_msg rdr stub.malloc true s) λ msg s1. handler (as_msg msg).type msg s1 a

  pub plain_turn :
      (s : S) (a : Args) (type : ℕ) (payload rest : Bytes)
      → 4 + length payload < 2 ^ 16
      → type < 2 ^ 16
      → valid_message_type_p type ≡ true
      → stub.reader.left s ≡ plain type payload ++ rest
      → (s' : S) × (turn s a ≡ handler type (plain type payload) s' a)
        × (stub.reader.left s' ≡ rest)
  plain_turn s a type payload rest small few known sent =
      let (s', got, left) =
        plain_read stub.reader stub.malloc stub.memory s type payload rest small few known sent in
      (s', rw (got, as_msg-plain type payload small few) refl, left)

  pub put_arg_lem :
      (val : Bytes) (a : Args)
      → length val < 2 ^ 33
      → put_arg stub.malloc stub.realloc stub.fresh stub.environ val a ≡ ok (more_args a val)
  unfolding put_arg xalloc satadd
  put_arg_lem val a small =
      let fits : ltb (size_mod - 1 - length val) 1 ≡ false = ground arith in
      rw (fits, stub.memory (length val + 1)) refl

  -- The item's effect, and the bytes behind it.
  abbrev pub Takes : S → Args → Item → Bytes → Type 0
  Takes s a i rest =
      (s' : S) × (turn s a
        ≡ of_outcome
            (apply stub.malloc stub.realloc stub.fresh stub.environ stub.shell stub.orig_argv0 i a)
            λ a'. done a' s')
      × (stub.reader.left s' ≡ rest)

  pub stored :
      {a : Args} {o : Outcome Args} (s : S) → o ≡ ok a → of_outcome o (λ a. done a s) ≡ done a s
  stored s e = rw e refl
