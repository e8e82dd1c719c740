-- ===== src/Resource/Empty.antt =====
-- util.c: the loop of empty_reslist on the lists in a list.
use fb_adb.Prelude.{
  ℕ, zero, suc, ◌+◌, ◌-◌, ◌<◌, ◌≡◌, subst, refl, ap, ◌∙◌, arith, Bool, true, inl, inr, Option,
  Option-cases, none, some, List, [], ◌∷◌, length, ltb, not, All,
}
use fb_adb.Outcome.{ok}
use fb_adb.Fs.{Sys, done}
use fb_adb.Resource.{
  Kind, cleanup, reslist, Resource, Process, first_in, at_address, unlink, reslist_remove,
  cleanup_destroy, destroy, empty_loop, empty_reslist, reslist_first,
}
use fb_adb.Resource.Shrinks.{
  WellFormed, Shrinks, same_Shrinks, then_Shrinks, Shrinks-WellFormed, removed, removed-Shrinks,
}
use fb_adb.Resource.Order.{
  Placed, PlacedIn, Inner, InnerOf, All-first_in, length-unlink, first_in-at,
}

pub record Emptied (rl : ℕ) (p : Process) (result : Sys Process (Unit {0})) : Type 1 where
  pub after : Process
  pub returned : result ≡ done tt after
  pub empty : first_in rl after.resources ≡ none
  pub shrinks : Shrinks rl p after

pub reslist_remove-unlink :
    (a : ℕ) (p : Process) (r : Resource)
    → at_address a p.resources ≡ some r
    → reslist_remove a p ≡ ok (record p { resources = unlink a p.resources })
unfolding reslist_remove
reslist_remove-unlink a p r here = rw here refl

pub cleanup_destroy-removed :
    (a : ℕ) (fn : Option ℕ) (p : Process) (r : Resource)
    → at_address a p.resources ≡ some r
    → cleanup_destroy a fn p ≡ ok (removed (cleanup fn) a p)
unfolding cleanup_destroy removed
cleanup_destroy-removed a none p r here = rw (reslist_remove-unlink a p r here) refl
cleanup_destroy-removed a (some fn) p r here = rw (reslist_remove-unlink a p r here) refl

-- What the rounds of a loop on less fuel do.
abbrev Loops : ℕ → Type 1
Loops fuel =
    (rl : ℕ) (p : Process)
    → WellFormed p
    → rl < p.next
    → length p.resources + (p.next - rl) < fuel
    → Emptied rl p (empty_loop fuel rl p)

unfoldable pub behind : ℕ → ℕ → Bool
behind a x = not (ltb x a)

Placed-Inner : (bound a : ℕ) (k : Kind) (x o : ℕ) → Placed bound k x o → Inner (behind a) k x o
unfolding behind
Placed-Inner bound a (cleanup fn) x o h = tt
Placed-Inner bound a (reslist onheap parent) x o (after, below) = λ e. ground (arith, e, after)

pub Placed-All-Inner :
    (bound a : ℕ) (rs : List Resource) → All (PlacedIn bound) rs → All (InnerOf (behind a)) rs
Placed-All-Inner bound a [] h = tt
Placed-All-Inner bound a (r ∷ rs) (p, h) =
    (Placed-Inner bound a r.kind r.address r.owner p, Placed-All-Inner bound a rs h)

Emptied-then :
    (rl : ℕ) (p p' : Process) (result : Sys Process (Unit {0}))
    → Shrinks rl p p'
    → Emptied rl p' result
    → Emptied rl p result
Emptied-then rl p p' result s e = record {
  after = e.after;
  returned = e.returned;
  empty = e.empty;
  shrinks = then_Shrinks rl p p' e.after s e.shrinks;
}

-- A list in a list is emptied before it is removed itself, so that it is still there.
inner-Shrinks :
    (rl : ℕ) (p p' : Process) (r : Resource) (onheap : Bool) (parent : ℕ)
    → WellFormed p
    → first_in rl p.resources ≡ some r
    → r.kind ≡ reslist onheap parent
    → Shrinks r.address p p'
    → Shrinks rl p p' × (at_address r.address p'.resources ≡ some r)
unfolding behind
inner-Shrinks rl p p' r onheap parent wf e k s =
    let (inner, owns) = All-first_in (PlacedIn p.next) rl p.resources r e wf.placed in
    let places : (r.owner < r.address) × (r.address < p.next) =
      subst (λ k. Placed p.next k r.address r.owner) k inner in
    let here = first_in-at rl p.resources r wf.unique e in
    (
      record {
        few = s.few;
        next = s.next;
        current = s.current;
        errh = s.errh;
        still = s.still;
        unique = s.unique;
        kept = λ q at_rl h.
            let (closed, _) = All-first_in (InnerOf q) rl p.resources r e h in
            let lower : (q r.owner ≡ true → q r.address ≡ true) =
              subst (λ k. Inner q k r.address r.owner) k closed in
            s.kept q (lower (ap q owns ∙ at_rl)) h;
        conserved = s.conserved;
      },
      s.kept (behind r.address) (ground arith)
          (Placed-All-Inner p.next r.address p.resources wf.placed) r.address r here
          (ground (arith, places.0)),
    )

removed_at :
    (rl : ℕ) (p : Process) (r : Resource) (k : Kind)
    → r.owner ≡ rl
    → at_address r.address p.resources ≡ some r
    → r.kind ≡ k
    → Shrinks rl p (removed k r.address p)
removed_at rl p r k owns here e =
    subst (λ k. Shrinks rl p (removed k r.address p)) e (removed-Shrinks rl p r owns here)

rest_Emptied :
    (fuel rl : ℕ) (p p' : Process)
    → Loops fuel
    → WellFormed p
    → rl < p.next
    → length p.resources + (p.next - rl) < suc fuel
    → Shrinks rl p p'
    → length p'.resources < length p.resources
    → Emptied rl p (empty_loop fuel rl p')
rest_Emptied fuel rl p p' loops wf below enough s fewer =
    let e = s.next in
    Emptied-then rl p p' (empty_loop fuel rl p') s (
      loops rl p' (Shrinks-WellFormed rl p p' s wf) (omega (arith, below, e))
        (omega (arith, enough, fewer, e)))

cleanup-Emptied :
    (fuel rl : ℕ) (p : Process) (r : Resource) (fn : Option ℕ)
    → Loops fuel
    → WellFormed p
    → rl < p.next
    → length p.resources + (p.next - rl) < suc fuel
    → first_in rl p.resources ≡ some r
    → r.kind ≡ cleanup fn
    → Emptied rl p (
        destroy (cleanup fn) r.address p (λ p'. empty_loop fuel rl p') λ a p'. empty_loop fuel a p')
unfolding removed
cleanup-Emptied fuel rl p r fn loops wf below enough e at_k =
    let here = first_in-at rl p.resources r wf.unique e in
    let owns = (All-first_in (PlacedIn p.next) rl p.resources r e wf.placed).1 in
    let shorter = length-unlink r.address p.resources r here in
    rw (cleanup_destroy-removed r.address fn p r here) (
      rest_Emptied fuel rl p (removed (cleanup fn) r.address p) loops wf below enough
        (removed_at rl p r (cleanup fn) owns here at_k) (omega (arith, shorter)))

reslist-Emptied :
    (fuel rl : ℕ) (p : Process) (r : Resource) (onheap : Bool) (parent : ℕ)
    → Loops fuel
    → WellFormed p
    → rl < p.next
    → length p.resources + (p.next - rl) < suc fuel
    → first_in rl p.resources ≡ some r
    → r.kind ≡ reslist onheap parent
    → Emptied rl p (
        destroy
          (reslist onheap parent)
          r.address
          p
          (λ p'. empty_loop fuel rl p')
          λ a p'. empty_loop fuel a p')
unfolding removed
reslist-Emptied fuel rl p r onheap parent loops wf below enough e at_k =
    let (placed, owns) = All-first_in (PlacedIn p.next) rl p.resources r e wf.placed in
    let places : (r.owner < r.address) × (r.address < p.next) =
      subst (λ k. Placed p.next k r.address r.owner) at_k placed in
    let later : rl < r.address = omega (arith, places.0, owns) in
    let inner = loops r.address p wf places.1 (omega (arith, enough, later, below, places.1)) in
    let p' = inner.after in
    let (s, self) = inner-Shrinks rl p p' r onheap parent wf e at_k inner.shrinks in
    let shorter = length-unlink r.address p'.resources r self in
    let t = removed_at rl p' r (reslist onheap parent) owns self at_k in
    let p'' = removed (reslist onheap parent) r.address p' in
    rw (inner.returned, reslist_remove-unlink r.address p' r self)
      (rest_Emptied fuel rl p p'' loops wf below enough (then_Shrinks rl p p' p'' s t)
        (omega (arith, shorter, s.few)))

round-Emptied :
    (fuel rl : ℕ) (p : Process) (r : Resource) (k : Kind)
    → Loops fuel
    → WellFormed p
    → rl < p.next
    → length p.resources + (p.next - rl) < suc fuel
    → first_in rl p.resources ≡ some r
    → r.kind ≡ k
    → Emptied rl p
        (destroy k r.address p (λ p'. empty_loop fuel rl p') λ a p'. empty_loop fuel a p')
round-Emptied fuel rl p r (cleanup fn) loops wf below enough e at_k =
    cleanup-Emptied fuel rl p r fn loops wf below enough e at_k
round-Emptied fuel rl p r (reslist onheap parent) loops wf below enough e at_k =
    reslist-Emptied fuel rl p r onheap parent loops wf below enough e at_k

empty_loop-Emptied : (fuel : ℕ) → Loops fuel
unfolding empty_loop reslist_first
empty_loop-Emptied zero rl p wf below enough = absurd (omega (arith, enough))
empty_loop-Emptied (suc fuel) rl p wf below enough = elim (Option-cases (first_in rl p.resources)) [
  | inl e ↦ rw e (record { after = p; returned = refl; empty = e; shrinks = same_Shrinks rl p })
  | inr (r, e) ↦
      rw e (round-Emptied fuel rl p r r.kind (empty_loop-Emptied fuel) wf below enough e refl)
]

-- In a well-formed process, emptying a resource list whose address was given out ends, however deep the lists in lists go. The
-- list is empty then; the resources that neither it nor a list in it owned, directly or not, are where they
-- were; and every cleanup function was either run as often as it is missing, or it is still waiting.
pub empty_reslist-Emptied :
    (rl : ℕ) (p : Process) → WellFormed p → rl < p.next → Emptied rl p (empty_reslist rl p)
unfolding empty_reslist
empty_reslist-Emptied rl p wf below =
    empty_loop-Emptied (length p.resources + p.next + 1) rl p wf below (omega (arith, below))

pub empty_loop-none :
    (fuel rl : ℕ) (p : Process)
    → 0 < fuel
    → first_in rl p.resources ≡ none
    → empty_loop fuel rl p ≡ done tt p
unfolding empty_loop reslist_first
empty_loop-none zero rl p more e = absurd (omega (arith, more))
empty_loop-none (suc fuel) rl p more e = rw e refl
