-- ===== src/Ringbuf/Tests.antt =====
-- A ring whose counters are about to wrap, and the theorems at it.
use fb_adb.Prelude.{
  ℕ, ◌≡◌, refl, [], ◌∷◌, ◌*◌, ◌^◌, ◌≤◌, ◌<◌, ◌-◌, List, Bytes, codes, arith, replicate,
}
use fb_adb.Outcome.{Outcome, ok}
use fb_adb.Util.{nextpow2sz}
use fb_adb.Util.Pow2.{nextpow2sz_lem}
use fb_adb.Ringbuf.{Ringbuf, ringbuf_size}
use fb_adb.Ringbuf.Inv.{IsValid}
use fb_adb.Ringbuf.Refine.{contents}
use fb_adb.Ringbuf.Queue.{Op, put, get, ring_run, queue_run, queue_step, run_refines}

-- Two bytes held, at indices 3 and 0.
abbrev wrapping : Ringbuf
wrapping = record { nr_removed = 2 ^ 64 - 1; nr_added = 1; capacity = 4; mem = codes "bxya" }

wrapping-IsValid : IsValid wrapping
unfolding ringbuf_size
wrapping-IsValid = record {
  exponent = 2;
  pow = refl;
  small = omega arith;
  storage = refl;
  added_fits = omega arith;
  removed_fits = omega arith;
  held = omega arith;
}

abbrev script : List Op
script = put (codes "cd") ∷ get 3 ∷ put (codes "e") ∷ get 2 ∷ []

queue_sample : queue_run 4 (codes "ab") script ≡ ok ([] ∷ codes "abc" ∷ [] ∷ codes "de" ∷ [])
unfolding queue_run queue_step
queue_sample = refl

run_refines_example : ring_run wrapping script ≡ queue_run 4 (contents wrapping) script
run_refines_example = run_refines script wrapping wrapping-IsValid

abbrev malloc : ℕ → Outcome Bytes
malloc n = ok (replicate n 0)

nextpow2sz_lem_example :
    (k : ℕ) × (nextpow2sz 100 ≡ 2 ^ k) × (k ≤ 63) × (100 ≤ 2 ^ k) × (2 ^ k < 2 * 100)
nextpow2sz_lem_example = nextpow2sz_lem 100 (omega arith) (omega arith)
