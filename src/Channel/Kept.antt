-- ===== src/Channel/Kept.antt =====
-- channel.c: a channel behind a write, in order or failed.
use fb_adb.Prelude.{ℕ, ◌+◌, ◌≤◌, ◌≡◌, refl, arith, true, false, ◌⊎◌, [], ◌++◌, Bytes, length, ltb}
use fb_adb.Outcome.{Errno}
use fb_adb.Ringbuf.{ringbuf_size, Writev, write_failed}
use fb_adb.Ringbuf.Inv.{IsValid}
use fb_adb.Ringbuf.Refine.{contents}
use fb_adb.Channel.{Channel, is_open, uint32_max}
use fb_adb.Channel.Poll.{channel_close, error_temporary_p}

-- What a channel does with a write: the bytes that went out and those still in the ring are those that
-- were in the ring, or something was offered to `write`, which failed with an error that is not
-- temporary, and the channel has that error, is closed and has dropped its bytes.
abbrev pub Flushed : Bytes → Writev → Channel → Channel → Bytes → Type 0
Flushed offered answer c c' sent =
    (sent ++ contents c'.rb ≡ contents c.rb)
    ⊎ ((e : Errno) × (answer ≡ write_failed e)
        × (error_temporary_p e ≡ false)
        × (ltb 0 (length offered) ≡ true)
        × (c'.err ≡ e)
        × (is_open c' ≡ false)
        × (contents c'.rb ≡ []))

-- A channel after an I/O call that left it in order.
pub record Kept (c c' : Channel) (sent : Bytes) : Type 0 where
  pub valid : IsValid c'.rb
  pub flow : sent ++ contents c'.rb ≡ contents c.rb
  pub same_capacity : c'.rb.capacity ≡ c.rb.capacity
  pub same_dir : c'.dir ≡ c.dir
  pub same_hack : c'.adb_encoding_hack ≡ c.adb_encoding_hack
  pub same_state : c'.adb_hack_state ≡ c.adb_hack_state
  pub same_track : c'.track_bytes_written ≡ c.track_bytes_written
  pub counted :
      c.track_bytes_written ≡ true
      → c.bytes_written ≤ uint32_max
      → (c'.bytes_written ≡ c.bytes_written + length sent) × (c'.bytes_written ≤ uint32_max)

-- A channel after `after_write` of `n` bytes.
pub record After (c c' : Channel) (n : ℕ) : Type 0 where
  pub same_rb : c'.rb ≡ c.rb
  pub same_dir : c'.dir ≡ c.dir
  pub same_hack : c'.adb_encoding_hack ≡ c.adb_encoding_hack
  pub same_state : c'.adb_hack_state ≡ c.adb_hack_state
  pub same_track : c'.track_bytes_written ≡ c.track_bytes_written
  pub counted : c.track_bytes_written ≡ true → c'.bytes_written ≡ c.bytes_written + n

-- A channel whose `write` failed with an error that is not temporary.
pub record Failed (c c' : Channel) : Type 0 where
  pub valid : IsValid c'.rb
  pub empty : contents c'.rb ≡ []
  pub closed : is_open c' ≡ false
  pub hard : error_temporary_p c'.err ≡ false
  pub same_capacity : c'.rb.capacity ≡ c.rb.capacity
  pub same_dir : c'.dir ≡ c.dir
  pub same_hack : c'.adb_encoding_hack ≡ c.adb_encoding_hack
  pub same_state : c'.adb_hack_state ≡ c.adb_hack_state
  pub same_track : c'.track_bytes_written ≡ c.track_bytes_written
  pub same_count : c'.bytes_written ≡ c.bytes_written

pub unchanged : {c : Channel} → IsValid c.rb → Kept c c []
unchanged v = record {
  valid = v;
  flow = refl;
  same_capacity = refl;
  same_dir = refl;
  same_hack = refl;
  same_state = refl;
  same_track = refl;
  counted = λ t fits. omega arith;
}

pub rb-close : (c : Channel) → (channel_close c).rb ≡ c.rb
unfolding channel_close
rb-close c = ground arith

pub close_empty : (c : Channel) → ringbuf_size c.rb ≡ 0 → is_open (channel_close c) ≡ false
unfolding channel_close
close_empty c h = ground arith
