-- ===== src/Ringbuf.antt =====
-- ringbuf.c: a ring of bytes whose two counters run free and wrap as `size_t`. The memory is a list;
-- a pointer into it is an index. A failed `assert` is the outcome `aborted`.
pub mod Window
pub mod Inv
mod Region
pub mod Refine
pub mod Queue
pub mod New
mod Tests
use Prim.Native.Nat.{bit_and}
use fb_adb.Prelude.{
  ℕ, zero, suc, ◌+◌, ◌-◌, ◌%◌, ◌^◌, Bool, true, false, Option, none, some, List, [], ◌∷◌, ◌++◌,
  Bytes, length, set, get_or, take, drop, ltb, leb, ◌==◌, if◌then◌else◌,
}
use fb_adb.Outcome.{Errno, erange, Outcome, ok, died, aborted, ◌>>=◌, ◌>>◌, assert, die_if}
use fb_adb.Util.{size_mod, add_size, sub_size, xmin, xpow2p, nextpow2sz}

pub record Ringbuf : Type 0 where
  pub nr_removed : ℕ
  pub nr_added : ℕ
  pub capacity : ℕ
  pub mem : Bytes

-- `struct iovec` with its base as an index into the ring; `none` is NULL.
pub record Iovec : Type 0 where
  pub base : Option ℕ
  pub len : ℕ

-- `struct ringbuf_io`.
pub record RingbufIo : Type 0 where
  pub v0 : Iovec
  pub v1 : Iovec

unfoldable pub ringbuf_new : (ℕ → Outcome Bytes) → ℕ → Outcome Ringbuf
ringbuf_new xalloc requested = do
  die_if (requested == 0) erange
  let capacity = nextpow2sz requested
  die_if (capacity == 0) erange
  block ← xalloc capacity
  ok (record { nr_removed = 0; nr_added = 0; capacity = capacity; mem = block })

unfoldable pub ringbuf_clip : Ringbuf → ℕ → Outcome ℕ
ringbuf_clip rb pos = do assert (xpow2p rb.capacity); ok (bit_and pos (rb.capacity - 1))

unfoldable pub ringbuf_capacity : Ringbuf → ℕ
ringbuf_capacity rb = rb.capacity

unfoldable pub ringbuf_size : Ringbuf → ℕ
ringbuf_size rb = sub_size rb.nr_added rb.nr_removed

unfoldable pub ringbuf_room : Ringbuf → ℕ
ringbuf_room rb = sub_size (ringbuf_capacity rb) (ringbuf_size rb)

unfoldable pub ringbuf_consume : Ringbuf → ℕ → Outcome Ringbuf
ringbuf_consume rb nr = do
  assert (leb nr (ringbuf_size rb))
  ok (record rb { nr_removed = add_size rb.nr_removed nr })

unfoldable pub ringbuf_io_region : Ringbuf → ℕ → ℕ → Outcome RingbufIo
ringbuf_io_region rb pos len = do
  assert (leb len rb.capacity)
  idx ← ringbuf_clip rb pos
  let rio : RingbufIo =
      (if ltb rb.capacity (add_size idx len)
        then record {
          v0 = record { base = some idx; len = rb.capacity - idx };
          v1 = record { base = some 0; len = len - (rb.capacity - idx) };
        }
        else record {
          v0 = record { base = some idx; len = len };
          v1 = record { base = none; len = 0 };
        })
  assert (add_size rio.v0.len rio.v1.len == len)
  ok rio

unfoldable pub ringbuf_note_added : Ringbuf → ℕ → Outcome (ℕ × Ringbuf)
ringbuf_note_added rb nr = do
  assert (leb nr (ringbuf_room rb))
  ok (nr, record rb { nr_added = add_size rb.nr_added nr })

unfoldable pub ringbuf_note_removed : Ringbuf → ℕ → Outcome (ℕ × Ringbuf)
ringbuf_note_removed rb nr = do
  assert (leb nr (ringbuf_size rb))
  let rb' = record rb { nr_removed = add_size rb.nr_removed nr }
  ok (nr, if ringbuf_size rb' == 0 then record rb' { nr_added = 0; nr_removed = 0 } else rb')

-- `memcpy` into the ring's memory from index `i` on, and out of it. NULL comes with no bytes.
unfoldable pub memcpy_in : Bytes → ℕ → Bytes → Bytes
memcpy_in mem i [] = mem
memcpy_in mem i (b ∷ bs) = memcpy_in (set mem i b) (i + 1) bs

unfoldable pub memcpy_out : Bytes → ℕ → ℕ → Bytes
memcpy_out mem i zero = []
memcpy_out mem i (suc n) = get_or mem i 0 ∷ memcpy_out mem (i + 1) n

unfoldable pub to_iovec : Bytes → Iovec → Bytes → Bytes
to_iovec mem v bs = elim v.base [ none ↦ mem | some i ↦ memcpy_in mem i bs ]

unfoldable pub of_iovec : Bytes → Iovec → Bytes
of_iovec mem v = elim v.base [ none ↦ [] | some i ↦ memcpy_out mem i v.len ]

-- The bytes of two regions, the first one first, as `readv` stores them and `writev` takes them.
unfoldable pub scatter : Bytes → RingbufIo → Bytes → Bytes
scatter mem rio bs = to_iovec (to_iovec mem rio.v0 (take rio.v0.len bs)) rio.v1 (drop rio.v0.len bs)

unfoldable pub gather : Bytes → RingbufIo → Bytes
gather mem rio = of_iovec mem rio.v0 ++ of_iovec mem rio.v1

-- The bytes behind `buf` are all of the list, so `sz` is its length.
unfoldable pub ringbuf_copy_in : Ringbuf → Bytes → Outcome Ringbuf
ringbuf_copy_in rb buf = do
  assert (leb (length buf) (ringbuf_room rb))
  rio ← ringbuf_io_region rb rb.nr_added (length buf)
  ok (record rb { mem = scatter rb.mem rio buf })

unfoldable pub ringbuf_copy_out : Ringbuf → ℕ → Outcome Bytes
ringbuf_copy_out rb sz = do
  assert (leb sz (ringbuf_size rb))
  rio ← ringbuf_io_region rb rb.nr_removed sz
  ok (gather rb.mem rio)

unfoldable pub ringbuf_readable_iov : Ringbuf → ℕ → Outcome RingbufIo
ringbuf_readable_iov rb sz = do
  assert (leb sz (ringbuf_size rb))
  ringbuf_io_region rb rb.nr_removed sz

unfoldable pub ringbuf_writable_iov : Ringbuf → ℕ → Outcome RingbufIo
ringbuf_writable_iov rb sz = do
  assert (leb sz (ringbuf_room rb))
  ringbuf_io_region rb rb.nr_added sz

abbrev pub ssize_max : ℕ
ssize_max = 2 ^ 63 - 1

-- What `readv` does: it fails with an errno, or stores these bytes.
pub data Readv : Type 0 where
  read_failed : Errno → Readv
  read_bytes : Bytes → Readv

-- What `writev` does: it fails with an errno, or takes this many of the bytes.
pub data Writev : Type 0 where
  write_failed : Errno → Writev
  wrote : ℕ → Writev

unfoldable pub finish_read : Ringbuf → RingbufIo → Readv → Outcome (ℕ × Ringbuf)
finish_read rb rio (read_failed e) = died e
finish_read rb rio (read_bytes bs) = ok (length bs, record rb { mem = scatter rb.mem rio bs })

-- `readv` is told how many bytes there is room for.
unfoldable pub ringbuf_read_in : (ℕ → Readv) → Ringbuf → ℕ → Outcome (ℕ × Ringbuf)
ringbuf_read_in readv rb requested = do
  let sz = xmin requested ssize_max
  assert (leb sz (ringbuf_room rb))
  rio ← ringbuf_io_region rb rb.nr_added sz
  finish_read rb rio (readv sz)

unfoldable pub finish_write : Writev → Outcome ℕ
finish_write (write_failed e) = died e
finish_write (wrote n) = ok n

-- `writev` is given the bytes.
unfoldable pub ringbuf_write_out : (Bytes → Writev) → Ringbuf → ℕ → Outcome ℕ
ringbuf_write_out writev rb requested = do
  let sz = xmin requested ssize_max
  assert (leb sz (ringbuf_size rb))
  rio ← ringbuf_io_region rb rb.nr_removed sz
  finish_write (writev (gather rb.mem rio))
