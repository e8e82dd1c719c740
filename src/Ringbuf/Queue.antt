-- ===== src/Ringbuf/Queue.antt =====
-- Any sequence of the ring's operations against a bounded queue of bytes, its misuse included.
use fb_adb.Prelude.{
  ℕ, ◌+◌, ◌≤◌, ◌<◌, ◌≡◌, refl, arith, List, [], ◌∷◌, ◌++◌, Bytes, length, take, drop, leb,
  if◌then◌else◌, Bool-cases, inl, inr, leb→le, not_leb→lt,
}
use fb_adb.Outcome.{fault, ok, died, aborted, Outcome, ◌>>=◌}
use fb_adb.Ringbuf.{
  Ringbuf, ringbuf_size, ringbuf_room, ringbuf_note_added, ringbuf_note_removed, ringbuf_copy_in,
  ringbuf_copy_out,
}
use fb_adb.Ringbuf.Inv.{IsValid, room-add-size}
use fb_adb.Ringbuf.Refine.{
  contents, length-contents, extended, extended-IsValid, contents-extended, copy_in_added, shrunk,
  shrunk-IsValid, contents-shrunk, note_removed_lem, copy_out_lem, copy_in_aborts, copy_out_aborts,
  capacity-shrunk,
}

-- What a user of a ring does: the pairs of calls that move bytes and then the counter.
pub data Op : Type 0 where
  put : Bytes → Op
  get : ℕ → Op

pub ring_step : Ringbuf → Op → Outcome (Bytes × Ringbuf)
ring_step rb (put bs) = do
  rb' ← ringbuf_copy_in rb bs
  (_, rb'') ← ringbuf_note_added rb' (length bs)
  ok ([], rb'')
ring_step rb (get n) = do
  bs ← ringbuf_copy_out rb n
  (_, rb') ← ringbuf_note_removed rb n
  ok (bs, rb')

pub ring_run : Ringbuf → List Op → Outcome (List Bytes)
ring_run rb [] = ok []
ring_run rb (op ∷ ops) = do
  (bs, rb') ← ring_step rb op
  replies ← ring_run rb' ops
  ok (bs ∷ replies)

-- The queue that is promised: too many bytes in or out stop the program.
unfoldable pub queue_step : ℕ → Bytes → Op → Outcome (Bytes × Bytes)
queue_step cap q (put bs) = if leb (length q + length bs) cap then ok ([], q ++ bs) else aborted
queue_step cap q (get n) = if leb n (length q) then ok (take n q, drop n q) else aborted

unfoldable pub queue_run : ℕ → Bytes → List Op → Outcome (List Bytes)
queue_run cap q [] = ok []
queue_run cap q (op ∷ ops) = do
  (bs, q') ← queue_step cap q op
  replies ← queue_run cap q' ops
  ok (bs ∷ replies)

-- A step of the ring is that step of the queue, and leaves a valid ring of the same capacity.
abbrev Matches : ℕ → Outcome (Bytes × Ringbuf) → Outcome (Bytes × Bytes) → Type 0
Matches cap (ok (bs, rb)) (ok (cs, q)) =
    (bs ≡ cs) × IsValid rb × (contents rb ≡ q) × (rb.capacity ≡ cap)
Matches cap aborted aborted = Unit
Matches cap _ _ = ⊥

step_put :
    {rb : Ringbuf} (bs : Bytes)
    → IsValid rb
    → length bs ≤ ringbuf_room rb
    → ring_step rb (put bs) ≡ ok ([], extended rb bs)
unfolding ring_step
step_put bs v h = ground (arith, copy_in_added bs v h)

step_get :
    {rb : Ringbuf} (n : ℕ)
    → IsValid rb
    → n ≤ ringbuf_size rb
    → ring_step rb (get n) ≡ ok (take n (contents rb), shrunk rb n)
unfolding ring_step
step_get n v h = ground (arith, copy_out_lem n v h, note_removed_lem n v h)

step_put_over :
    (rb : Ringbuf) (bs : Bytes) → ringbuf_room rb < length bs → ring_step rb (put bs) ≡ aborted
unfolding ring_step
step_put_over rb bs h = rw (copy_in_aborts rb bs h)

step_get_under : (rb : Ringbuf) (n : ℕ) → ringbuf_size rb < n → ring_step rb (get n) ≡ aborted
unfolding ring_step
step_get_under rb n h = rw (copy_out_aborts rb n h)

-- What a step gives, held against what the queue gives, by cases on how both end.
abbrev Agrees : Ringbuf → Op → Type 0
Agrees rb op = Matches rb.capacity (ring_step rb op) (queue_step rb.capacity (contents rb) op)

ring_step-Agrees : {rb : Ringbuf} (op : Op) → IsValid rb → Agrees rb op
unfolding queue_step
ring_step-Agrees {rb} (put bs) v =
    elim (Bool-cases (leb (length (contents rb) + length bs) rb.capacity)) [
      | inl fits ↦
          let room : length bs ≤ ringbuf_room rb =
            omega (arith, leb→le _ _ fits, length-contents rb, room-add-size v) in
          rw (fits, step_put bs v room)
            (refl, extended-IsValid bs v room, contents-extended bs v room, refl)
      | inr over ↦
          rw
            (
              over,
              step_put_over rb bs
                  (omega (arith, not_leb→lt _ _ over, length-contents rb, room-add-size v)),
            )
            tt
    ]
ring_step-Agrees {rb} (get n) v = elim (Bool-cases (leb n (length (contents rb)))) [
  | inl held ↦
      let size : n ≤ ringbuf_size rb = omega (arith, leb→le _ _ held, length-contents rb) in
      rw (held, step_get n v size)
        (refl, shrunk-IsValid n v size, contents-shrunk n v size, capacity-shrunk rb n)
  | inr under ↦
      rw (under, step_get_under rb n (omega (arith, not_leb→lt _ _ under, length-contents rb))) tt
]

run_cons :
    (cap : ℕ) (q : Bytes) (ops : List Op) (s : Outcome (Bytes × Ringbuf))
    (t : Outcome (Bytes × Bytes))
    → Matches cap s t
    → ((rb : Ringbuf) → IsValid rb → ring_run rb ops ≡ queue_run rb.capacity (contents rb) ops)
    → (s >>= λ r. ring_run r.1 ops >>= λ rs. ok (r.0 ∷ rs))
      ≡ (t >>= λ r. queue_run cap r.1 ops >>= λ rs. ok (r.0 ∷ rs))
run_cons cap q ops (ok (bs, rb)) (ok (cs, q')) m ih = rw (ih rb m.1, m.2, m.3, m.0)
run_cons cap q ops aborted aborted m ih = refl
run_cons cap q ops (ok _) aborted m ih = absurd m
run_cons cap q ops (ok _) (died _) m ih = absurd m
run_cons cap q ops (ok _) fault m ih = absurd m
run_cons cap q ops (died _) t m ih = absurd m
run_cons cap q ops fault t m ih = absurd m
run_cons cap q ops aborted (ok _) m ih = absurd m
run_cons cap q ops aborted (died _) m ih = absurd m
run_cons cap q ops aborted fault m ih = absurd m

-- No sequence of calls tells a valid ring from the bounded queue of the bytes that it holds: the
-- same replies, or both stop at the same call.
pub run_refines :
    (ops : List Op) (rb : Ringbuf)
    → IsValid rb
    → ring_run rb ops ≡ queue_run rb.capacity (contents rb) ops
unfolding ring_run queue_run
run_refines [] rb v = refl
run_refines (op ∷ ops) rb v =
    run_cons rb.capacity (contents rb) ops (ring_step rb op)
      (queue_step rb.capacity (contents rb) op) (ring_step-Agrees op v) (run_refines ops)
