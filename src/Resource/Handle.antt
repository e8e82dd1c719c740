-- ===== src/Resource/Handle.antt =====
-- util.c: what a handler does with an error, and how `catch_error` goes on.
use fb_adb.Prelude.{
  ℕ, ◌+◌, ◌<◌, ◌≡◌, subst, refl, ap, ◌∙◌, arith, Bool, true, false, Option, none, some, length,
  ◌==◌, All,
}
use fb_adb.Fs.{Sys, done, then_sys}
use fb_adb.Resource.{
  reslist, Resource, Handler, Process, first_in, at_address, unlink, empty_reslist, reslist_destroy,
  parent_of, scoped_pop,
}
use fb_adb.Resource.Order.{
  InnerOf, waiting, pending, count, unlink-other, unlink-gone, first_in-unlink, pending-unlink,
}
use fb_adb.Resource.Shrinks.{WellFormed}
use fb_adb.Resource.Empty.{
  behind, Placed-All-Inner, reslist_remove-unlink, empty_reslist-Emptied, empty_loop-none,
}
use fb_adb.Resource.Catch.{unwind, leave_catch}

-- An empty list is popped without a run of anything.
pub scoped_pop-empty :
    (rl : ℕ) (p : Process) (r : Resource) (onheap : Bool) (parent : ℕ)
    → at_address rl p.resources ≡ some r
    → r.kind ≡ reslist onheap parent
    → first_in rl p.resources ≡ none
    → scoped_pop rl p ≡ done tt (record p { resources = unlink rl p.resources; current = parent })
unfolding scoped_pop parent_of reslist_destroy empty_reslist
scoped_pop-empty rl p r onheap parent here at_k e =
    let p' = record p { current = parent } in
    rw
      (
        here,
        at_k,
        empty_loop-none (length p.resources + p.next + 1) rl p' (omega arith) e,
        reslist_remove-unlink rl p' r here,
      )
      refl

-- A process in the body of a `catch_error` whose list is `rl`, in a function whose list is `outer`.
pub record Handling (rl outer : ℕ) (p : Process) : Type 0 where
  pub entry : Resource
  pub there : at_address rl p.resources ≡ some entry
  pub kind : entry.kind ≡ reslist false outer
  pub owner : entry.owner ≡ outer
  pub inside : outer < rl
  pub given : rl < p.next
  pub well_formed : WellFormed p

-- The error is reported, the caller's list and handler are current again, the body's list is gone and
-- nothing is in it, what no list in it owned is where it was, and no cleanup is lost or run twice.
pub record Caught (rl outer err : ℕ) (old_errh : Option Handler) (p : Process)
    (result : Sys Process (Bool × ℕ)) : Type 1 where
  pub after : Process
  pub returned : result ≡ done (true, err) after
  pub current : after.current ≡ outer
  pub errh : after.errh ≡ old_errh
  pub gone : at_address rl after.resources ≡ none
  pub empty : first_in rl after.resources ≡ none
  pub kept :
      (q : ℕ → Bool)
      → q rl ≡ true
      → All (InnerOf q) p.resources
      → (a : ℕ) (r : Resource) → (a == rl) ≡ false
      → at_address a p.resources ≡ some r
      → q r.owner ≡ false
      → at_address a after.resources ≡ some r
  pub conserved :
      (n : ℕ)
      → count n after.ran + pending n after.resources ≡ count n p.ran + pending n p.resources

unwind-Caught :
    (calloc malloc : ℕ → Bool) (free : ℕ → ℕ) (outer : ℕ) (old_errh : Option Handler) (h : Handler)
    (p : Process)
    → Handling h.rl outer p
    → (rest : Process → Sys Process (Bool × ℕ))
    → Caught h.rl outer h.err old_errh p (
        then_sys (unwind {A = Unit {0}} h p) λ r p'. elim r [
          | none ↦ leave_catch calloc malloc free old_errh h.rl true p'
          | some _ ↦ rest p'
        ])
unfolding behind
unwind-Caught calloc malloc free outer old_errh h p w rest =
    let rl = h.rl in
    let wf : WellFormed (record p { errh = some h }) = record {
      placed = w.well_formed.placed;
      unique = w.well_formed.unique;
      below = w.well_formed.below;
    } in
    let e = empty_reslist-Emptied rl (record p { errh = some h }) wf w.given in
    let s = e.shrinks in
    let p' = e.after in
    let here : at_address rl p'.resources ≡ some w.entry =
      s.kept (behind rl) (ground arith) (Placed-All-Inner p.next rl p.resources wf.placed) rl
        w.entry w.there (ground (arith, w.owner, w.inside)) in
    rw
      (
        e.returned,
        scoped_pop-empty rl (record p' { errh = old_errh }) w.entry false outer here w.kind e.empty,
      )
      (record {
        after = record p' { errh = old_errh; resources = unlink rl p'.resources; current = outer };
        returned = rw s.errh refl;
        current = refl;
        errh = refl;
        gone = unlink-gone rl p'.resources (s.unique wf.unique);
        empty = first_in-unlink rl rl p'.resources e.empty;
        kept = λ q at_rl closed a r other at_a out.
            unlink-other rl a p'.resources other ∙ s.kept q at_rl closed a r at_a out;
        conserved = λ n.
            let none_waits : waiting n w.entry.kind ≡ 0 = ap (waiting n) w.kind in
            omega (arith, none_waits, pending-unlink n rl p'.resources w.entry here, s.conserved n);
      })

abbrev pub handler : Bool → Bool → ℕ → ℕ → Handler
handler has_info want_msg err rl = record {
  rl = rl;
  has_info = has_info;
  want_msg = want_msg;
  err = err;
  deferred_error = 0;
}

pub Caught-at :
    (calloc malloc : ℕ → Bool) (free : ℕ → ℕ) (rl outer : ℕ) (old_errh : Option Handler)
    (h : Handler) (p : Process)
    → h.rl ≡ rl
    → Handling rl outer p
    → (rest : Process → Sys Process (Bool × ℕ))
    → Caught rl outer h.err old_errh p (
        then_sys (unwind {A = Unit {0}} h p) λ r p'. elim r [
          | none ↦ leave_catch calloc malloc free old_errh rl true p'
          | some _ ↦ rest p'
        ])
Caught-at calloc malloc free rl outer old_errh h p its w rest =
    subst
      (λ rl.
        Handling rl outer p
        → Caught rl outer h.err old_errh p (
            then_sys (unwind {A = Unit {0}} h p) λ r p'. elim r [
              | none ↦ leave_catch calloc malloc free old_errh rl true p'
              | some _ ↦ rest p'
            ]))
      its (λ w. unwind-Caught calloc malloc free outer old_errh h p w rest) w
