-- ===== src/Proto/Frames.antt =====
-- A frame is read back from the bytes of its header, whatever follows them.

use fb_adb.Prelude.{ℕ, ◌+◌, ◌*◌, ◌/◌, ◌%◌, ◌^◌, ◌<◌, ◌≡◌, ap₂, arith, ◌++◌, Bytes}
use fb_adb.Proto.{
  Msg, MsgChannelData, MsgChannelDataLz4, MsgChannelWindow, MsgChannelClose, to_le, of_le,
  msg_bytes, data_bytes, data_lz4_bytes, window_bytes, close_bytes, as_msg, as_data, as_data_lz4,
  as_window, as_close,
}

-- The header has sixteen bits for each of its fields.
pub record FitsMsg (m : Msg) : Type 0 where
  pub size_fits : m.size < 2 ^ 16
  pub type_fits : m.type < 2 ^ 16

-- The value that `of_le` reads from one, two or four bytes.
split1 : (x : ℕ) → x < 2 ^ 8 → x % 256 ≡ x
split1 x h = omega arith

split2 : (x : ℕ) → x < 2 ^ 16 → x % 256 + 256 * (x / 256 % 256 + 256 * 0) ≡ x
split2 x h = omega arith

split4 :
    (x : ℕ)
    → x < 2 ^ 32
    → x % 256
        + 256
          * (x / 256 % 256
              + 256 * (x / 256 / 256 % 256 + 256 * (x / 256 / 256 / 256 % 256 + 256 * 0)))
      ≡ x
split4 x h = omega arith

pub as_msg-msg_bytes : (m : Msg) (rest : Bytes) → FitsMsg m → as_msg (msg_bytes m ++ rest) ≡ m
unfolding as_msg msg_bytes to_le of_le
as_msg-msg_bytes m rest f =
    ap₂ (λ s t. record { size = s; type = t }) (split2 m.size f.size_fits)
      (split2 m.type f.type_fits)

pub as_data-data_bytes :
    (m : MsgChannelData) (rest : Bytes)
    → FitsMsg m.msg
    → m.channel < 2 ^ 8
    → as_data (data_bytes m ++ rest) ≡ m
unfolding as_data data_bytes to_le msg_bytes as_msg of_le
as_data-data_bytes m rest f h =
    ap₂ (λ g c. record { msg = g; channel = c }) (as_msg-msg_bytes m.msg rest f)
      (split1 m.channel h)

pub as_data_lz4-data_lz4_bytes :
    (m : MsgChannelDataLz4) (rest : Bytes)
    → FitsMsg m.msg
    → m.uncompressed_size < 2 ^ 16
    → m.channel < 2 ^ 8
    → as_data_lz4 (data_lz4_bytes m ++ rest) ≡ m
unfolding as_data_lz4 data_lz4_bytes to_le msg_bytes as_msg of_le
as_data_lz4-data_lz4_bytes m rest f h k =
    ap₂ (λ (g : Msg) (p : ℕ × ℕ). record { msg = g; uncompressed_size = p.0; channel = p.1 })
      (as_msg-msg_bytes m.msg rest f)
      (ap₂ (λ (u c : ℕ). (u, c)) (split2 m.uncompressed_size h) (split1 m.channel k))

pub as_window-window_bytes :
    (m : MsgChannelWindow) (rest : Bytes)
    → FitsMsg m.msg
    → m.window_delta < 2 ^ 32
    → m.channel < 2 ^ 8
    → as_window (window_bytes m ++ rest) ≡ m
unfolding as_window window_bytes to_le msg_bytes as_msg of_le
as_window-window_bytes m rest f h k =
    ap₂ (λ (g : Msg) (p : ℕ × ℕ). record { msg = g; window_delta = p.0; channel = p.1 })
      (as_msg-msg_bytes m.msg rest f)
      (ap₂ (λ (u c : ℕ). (u, c)) (split4 m.window_delta h) (split1 m.channel k))

pub as_close-close_bytes :
    (m : MsgChannelClose) (rest : Bytes)
    → FitsMsg m.msg
    → m.channel < 2 ^ 8
    → as_close (close_bytes m ++ rest) ≡ m
unfolding as_close close_bytes to_le msg_bytes as_msg of_le
as_close-close_bytes m rest f h =
    ap₂ (λ g c. record { msg = g; channel = c }) (as_msg-msg_bytes m.msg rest f)
      (split1 m.channel h)
