-- ===== src/Core/Message.antt =====
-- core.c: the messages of the handshake, which are read from a descriptor before the event loop runs.
pub mod Read
mod Tests
use fb_adb.Prelude.{
  ℕ, ◌+◌, ◌-◌, Bool, true, false, not, ◌++◌, ◌&&◌, Bytes, length, ltb, leb, if◌then◌else◌,
}
use fb_adb.Outcome.{Outcome, ok, died, aborted, ecomm, enomem, ◌>>=◌, ◌>>◌, assert, die_if}
use fb_adb.Proto.{Msg, as_msg, sizeof_msg, msg_channel_data, msg_type_last}
use fb_adb.Fs.{Sys, done, then_sys, of_outcome}
use fb_adb.Core.Receive.{look_for_stub_error}

-- The types have consecutive numbers from that of MSG_CHANNEL_DATA.
unfoldable pub valid_message_type_p : ℕ → Bool
valid_message_type_p type = leb msg_channel_data type && leb type msg_type_last

-- The tests on a header, and the memory for the message.
unfoldable pub accept_header : (ℕ → Bool) → Bytes → Outcome (Unit {0})
accept_header malloc hdr =
    let mhdr = as_msg hdr in
    do
      die_if (ltb (length hdr) sizeof_msg) ecomm
      die_if (ltb mhdr.size sizeof_msg) ecomm
      assert (valid_message_type_p mhdr.type)
      die_if (not (malloc mhdr.size)) enomem

-- The tests behind the rest of the message. The host looks for an error of the stub.
unfoldable pub accept_rest : Bool → Msg → Bytes → Outcome (Unit {0})
accept_rest stub mhdr rest = do
  die_if (ltb (length rest) (mhdr.size - sizeof_msg)) ecomm
  if stub then ok tt else look_for_stub_error mhdr

-- `rdr` reads at most some bytes, as `read_all` does. The result is the message in memory.
unfoldable pub read_msg : {S : Type 0} → (S → ℕ → Sys S Bytes) → (ℕ → Bool) → Bool → S → Sys S Bytes
read_msg rdr malloc stub s = then_sys (rdr s sizeof_msg) λ hdr s1.
    of_outcome (accept_header malloc hdr) λ _.
      then_sys (rdr s1 ((as_msg hdr).size - sizeof_msg))
        λ rest s2. of_outcome (accept_rest stub (as_msg hdr) rest) λ _. done (hdr ++ rest) s2

-- The message itself where it is long enough.
unfoldable pub check_msg_cast : Msg → ℕ → Outcome Msg
check_msg_cast h minimum_size = if ltb h.size minimum_size then died ecomm else ok h
