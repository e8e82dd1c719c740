-- ===== src/Proto.antt =====
-- proto.h: the frames of the protocol. Structures are packed and the world is little-endian.
pub mod Frames
use fb_adb.Prelude.{ℕ, zero, suc, ◌+◌, ◌*◌, ◌/◌, ◌%◌, ◌^◌, [], ◌∷◌, ◌++◌, Bytes, get_or}

-- An unsigned integer of the given number of bytes, and back.
unfoldable pub to_le : ℕ → ℕ → Bytes
to_le zero x = []
to_le (suc width) x = x % 256 ∷ to_le width (x / 256)

unfoldable pub of_le : Bytes → ℕ
of_le [] = 0
of_le (b ∷ bs) = b + 256 * of_le bs

-- `enum msg_type` begins after `MSG_TYPE_PRE = 39`.
abbrev pub msg_channel_data : ℕ
msg_channel_data = 40

abbrev pub msg_channel_data_lz4 : ℕ
msg_channel_data_lz4 = 41

abbrev pub msg_channel_window : ℕ
msg_channel_window = 42

abbrev pub msg_channel_close : ℕ
msg_channel_close = 43

abbrev pub msg_error : ℕ
msg_error = 45

-- The last is `MSG_EXEC_FILE_MISMATCH`.
abbrev pub msg_type_last : ℕ
msg_type_last = 68

-- `struct msg`, and `sizeof` of it and of the four frames of the event loop.
pub record Msg : Type 0 where
  pub size : ℕ
  pub type : ℕ

abbrev pub sizeof_msg : ℕ
sizeof_msg = 4

pub record MsgChannelData : Type 0 where
  pub msg : Msg
  pub channel : ℕ

abbrev pub sizeof_data : ℕ
sizeof_data = 5

pub record MsgChannelDataLz4 : Type 0 where
  pub msg : Msg
  pub uncompressed_size : ℕ
  pub channel : ℕ

abbrev pub sizeof_data_lz4 : ℕ
sizeof_data_lz4 = 7

pub record MsgChannelWindow : Type 0 where
  pub msg : Msg
  pub window_delta : ℕ
  pub channel : ℕ

abbrev pub sizeof_window : ℕ
sizeof_window = 9

pub record MsgChannelClose : Type 0 where
  pub msg : Msg
  pub channel : ℕ

abbrev pub sizeof_close : ℕ
sizeof_close = 5

-- The bytes of a structure in memory; a field keeps as many bits as it has.
unfoldable pub msg_bytes : Msg → Bytes
msg_bytes m = to_le 2 m.size ++ to_le 2 m.type

unfoldable pub data_bytes : MsgChannelData → Bytes
data_bytes m = msg_bytes m.msg ++ to_le 1 m.channel

unfoldable pub data_lz4_bytes : MsgChannelDataLz4 → Bytes
data_lz4_bytes m = msg_bytes m.msg ++ to_le 2 m.uncompressed_size ++ to_le 1 m.channel

unfoldable pub window_bytes : MsgChannelWindow → Bytes
window_bytes m = msg_bytes m.msg ++ to_le 4 m.window_delta ++ to_le 1 m.channel

unfoldable pub close_bytes : MsgChannelClose → Bytes
close_bytes m = msg_bytes m.msg ++ to_le 1 m.channel

-- The structure that lies at the head of some bytes.
abbrev byte : Bytes → ℕ → ℕ
byte bs i = get_or bs i 0

unfoldable pub as_msg : Bytes → Msg
as_msg bs = record {
  size = of_le (byte bs 0 ∷ byte bs 1 ∷ []);
  type = of_le (byte bs 2 ∷ byte bs 3 ∷ []);
}

unfoldable pub as_data : Bytes → MsgChannelData
as_data bs = record { msg = as_msg bs; channel = byte bs 4 }

unfoldable pub as_data_lz4 : Bytes → MsgChannelDataLz4
as_data_lz4 bs = record {
  msg = as_msg bs;
  uncompressed_size = of_le (byte bs 4 ∷ byte bs 5 ∷ []);
  channel = byte bs 6;
}

unfoldable pub as_window : Bytes → MsgChannelWindow
as_window bs = record {
  msg = as_msg bs;
  window_delta = of_le (byte bs 4 ∷ byte bs 5 ∷ byte bs 6 ∷ byte bs 7 ∷ []);
  channel = byte bs 8;
}

unfoldable pub as_close : Bytes → MsgChannelClose
as_close bs = record { msg = as_msg bs; channel = byte bs 4 }
