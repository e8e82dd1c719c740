-- ===== src/Growable.antt =====
-- util.c and fs.c: buffers that grow, strings in them, and the reader of lines that is built on them. A
-- buffer is the list of the bytes in its allocation. What `realloc` answers by the size, and what it
-- leaves in memory that it adds, are parameters.
pub mod Held
pub mod Line
pub mod Text
mod Tests
use fb_adb.Prelude.{
  ℕ, zero, suc, ◌+◌, ◌-◌, ◌*◌, Bool, true, false, Option, none, some, [], ◌∷◌, ◌++◌, Bytes, codes,
  length, take, set, get_or, replicate, ltb, leb, ◌==◌, ◌||◌, if◌then◌else◌,
}
use fb_adb.Outcome.{Errno, enomem, Outcome, ok, died, ◌>>=◌, ◌>>◌, assert}
use fb_adb.Util.{size_mod, satadd}
use fb_adb.Strutil.{strchr}

pub record GrowableBuffer : Type 0 where
  pub bufsz : ℕ
  pub buf : Bytes

pub record GrowableString : Type 0 where
  pub strlen : ℕ
  pub gb : GrowableBuffer

abbrev pub empty_buffer : GrowableBuffer
empty_buffer = record { bufsz = 0; buf = [] }

-- `strchr (set, c) != NULL`, which holds for the NUL that ends the set.
unfoldable pub in_set : Bytes → ℕ → Bool
in_set cs c = c == 0 || strchr cs c

-- How much of the first bytes is left when those of a set are taken from the end.
unfoldable pub trim_end : Bytes → Bytes → ℕ → ℕ
trim_end cs buf zero = 0
trim_end cs buf (suc n) =
    let rest = trim_end cs buf n in if in_set cs (get_or buf n 0) then rest else suc n

-- The string and its size, which the caller gives.
unfoldable pub rtrim : Bytes → ℕ → Bytes → Bytes × ℕ
rtrim string stringsz cs = let sz = trim_end cs string stringsz in (set string sz 0, sz)

unfoldable pub growable_string_trim_trailing_whitespace : GrowableString → GrowableString
growable_string_trim_trailing_whitespace gs = record gs {
  strlen = trim_end (codes " \t\r\n\u{b}") gs.gb.buf gs.strlen;
}

module _ (realloc : ℕ → Bool) (fresh : ℕ) where
  unfoldable pub resize_buffer : GrowableBuffer → ℕ → Outcome GrowableBuffer
  resize_buffer gb new_size =
      if realloc (if new_size == 0 then 1 else new_size)
      then ok (record {
        bufsz = new_size;
        buf = take new_size gb.buf ++ replicate (new_size - length gb.buf) fresh;
      })
      else died enomem

  unfoldable pub grow_buffer : GrowableBuffer → ℕ → Outcome GrowableBuffer
  grow_buffer gb least = if ltb gb.bufsz least then resize_buffer gb least else ok gb

  unfoldable pub grow_buffer_dwim : GrowableBuffer → Outcome GrowableBuffer
  grow_buffer_dwim gb =
      let maximum_enlargement = 1024 * 1024 in
      let bufsz = if gb.bufsz == 0 then 128 else gb.bufsz in
      let enlargement = if ltb maximum_enlargement bufsz then maximum_enlargement else bufsz in
      let added = satadd (size_mod - 1) bufsz enlargement in
      if added.0 then died enomem else resize_buffer gb added.1

  unfoldable pub growable_string_append_c : GrowableString → ℕ → Outcome GrowableString
  growable_string_append_c gs c = do
    assert (leb gs.strlen gs.gb.bufsz)
    gb ← if gs.strlen == gs.gb.bufsz then grow_buffer_dwim gs.gb else ok gs.gb
    assert (ltb gs.strlen gb.bufsz)
    ok (record { strlen = gs.strlen + 1; gb = record gb { buf = set gb.buf gs.strlen c } })

  unfoldable pub growable_string_c_str : GrowableString → Outcome GrowableString
  growable_string_c_str gs = do
    assert (leb gs.strlen gs.gb.bufsz)
    gb ← if gs.strlen == gs.gb.bufsz then grow_buffer_dwim gs.gb else ok gs.gb
    assert (ltb gs.strlen gb.bufsz)
    ok (record gs { gb = record gb { buf = set gb.buf gs.strlen 0 } })

  -- The loop of `slurp_line` over the bytes that are left in the file. Behind them `getc` answers EOF,
  -- for an error or the end of the file.
  unfoldable pub slurp_loop :
      Option Errno → Bytes → GrowableBuffer → ℕ → Outcome (Option (GrowableBuffer × ℕ) × Bytes)
  slurp_loop (some e) [] gb nr_bytes_read = died e
  slurp_loop none [] gb nr_bytes_read = ok (none, [])
  slurp_loop err (c ∷ file) gb nr_bytes_read = do
    gb' ← if nr_bytes_read == gb.bufsz then grow_buffer_dwim gb else ok gb
    assert (ltb nr_bytes_read gb'.bufsz)
    let stored = record gb' { buf = set gb'.buf nr_bytes_read c }
    let rest = slurp_loop err file stored (suc nr_bytes_read)
    if c == b'\n' then ok (some (stored, suc nr_bytes_read), file) else rest

  -- The buffer and the size of the line, and what is left in the file.
  unfoldable pub slurp_line : Option Errno → Bytes → Outcome (Option (GrowableBuffer × ℕ) × Bytes)
  slurp_line err file = do
    r ← slurp_loop err file empty_buffer 0
    elim r.0 [
      | none ↦ ok (none, r.1)
      | some (gb, nr_bytes_read) ↦ do
        gb' ← resize_buffer gb (nr_bytes_read + 1)
        ok (some (record gb' { buf = set gb'.buf nr_bytes_read 0 }, nr_bytes_read), r.1)
    ]
