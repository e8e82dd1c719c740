-- ===== src/Resource/Keep.antt =====
-- util.c: what an allocation does to a well-formed process, whatever calloc and malloc answer.
use fb_adb.Prelude.{
  ℕ, suc, ◌<◌, ◌≡◌, subst, refl, sym, arith, Bool, true, false, inl, inr, Bool-cases, Option, none,
  some, List, [], ◌∷◌, ◌==◌, ◌&&◌, ◌⊎◌, All,
}
use fb_adb.Outcome.{ok, aborted, enomem}
use fb_adb.Fs.{Sys, done, left_by}
use fb_adb.Resource.{
  Kind, cleanup, reslist, Resource, Handler, Process, first_in, at_address, unlink,
}
use fb_adb.Resource.Order.{Placed, PlacedIn}
use fb_adb.Resource.Shrinks.{WellFormed, Shrinks-WellFormed}
use fb_adb.Resource.Empty.{empty_reslist-Emptied, reslist_remove-unlink}
use fb_adb.Resource.Die.{with_err_rl}
use fb_adb.Resource.Catch.{
  with_err, unwind, die_oom_under, die_oom, unless_jumped, cleanup_commit, cleanup_allocate, xalloc,
}

abbrev HandlerIn : ℕ → Option Handler → Type 0
HandlerIn bound none = Unit {0}
HandlerIn bound (some h) = h.rl < bound

-- A well-formed process whose handler has a list whose address was given out.
pub record Sound (p : Process) : Type 0 where
  pub well_formed : WellFormed p
  pub handled : HandlerIn p.next p.errh

-- How a call ends that finds no memory, by the handler: it stops with abort, or it jumps, with ENOMEM
-- where the handler has an `errinfo`, and with the handler's list emptied.
abbrev pub NoMemory : {A : Type 0} → Option Handler → Sys Process (Option A) → Type 0
NoMemory none s = s ≡ left_by aborted
NoMemory (some h) s =
    (p' : Process) × (s ≡ done none p')
    × Sound p'
    × (p'.errh ≡ some (with_err enomem h))
    × (first_in h.rl p'.resources ≡ none)

-- Where a jump to a handler arrives.
unwind-Sound :
    (A : Type 0) (h : Handler) (p : Process)
    → WellFormed p
    → h.rl < p.next
    → (p' : Process) × (unwind {A = A} h p ≡ done none p')
      × Sound p'
      × (p'.errh ≡ some h)
      × (first_in h.rl p'.resources ≡ none)
unwind-Sound A h p wf below =
    let p' = record p { errh = some h } in
    let wf' : WellFormed p' = record { placed = wf.placed; unique = wf.unique; below = wf.below } in
    let e = empty_reslist-Emptied h.rl p' wf' below in
    let handled : HandlerIn e.after.next e.after.errh =
      subst (λ n. HandlerIn n e.after.errh) (sym e.shrinks.next)
        (subst (λ o. HandlerIn p.next o) (sym e.shrinks.errh) below) in
    (
      e.after,
      rw e.returned refl,
      record { well_formed = Shrinks-WellFormed h.rl p' e.after e.shrinks wf'; handled = handled },
      e.shrinks.errh,
      e.empty,
    )

die_oom-NoMemory :
    (A : Type 0) (o : Option Handler) (p : Process)
    → WellFormed p
    → HandlerIn p.next o
    → NoMemory o (die_oom_under {A = A} o p)
die_oom-NoMemory A none p wf below = refl
die_oom-NoMemory A (some h) p wf below =
    let same = with_err_rl enomem h in
    let (p', jumped, sound, handler, empty) =
      unwind-Sound A (with_err enomem h) p wf (subst (λ rl. rl < p.next) (sym same) below) in
    (p', jumped, sound, handler, subst (λ rl. first_in rl p'.resources ≡ none) same empty)

unless_jumped-NoMemory :
    (A B : Type 0) (o : Option Handler) (s : Sys Process (Option A))
    (f : A → Process → Sys Process (Option B))
    → NoMemory o s
    → NoMemory o (unless_jumped s f)
unless_jumped-NoMemory A B none s f e = rw e refl
unless_jumped-NoMemory A B (some h) s f (p', jumped, sound, handler, empty) =
    (p', rw jumped refl, sound, handler, empty)

Placed-suc : (bound : ℕ) (k : Kind) (a o : ℕ) → Placed bound k a o → Placed (suc bound) k a o
Placed-suc bound (cleanup fn) a o h = omega (arith, h)
Placed-suc bound (reslist onheap parent) a o (after, below) = (after, omega (arith, below))

All-Placed-suc :
    (bound : ℕ) (rs : List Resource) → All (PlacedIn bound) rs → All (PlacedIn (suc bound)) rs
All-Placed-suc bound [] h = tt
All-Placed-suc bound (r ∷ rs) (p, h) =
    (Placed-suc bound r.kind r.address r.owner p, All-Placed-suc bound rs h)

Placed-below : (bound : ℕ) (k : Kind) (a o : ℕ) → Placed bound k a o → a < bound
Placed-below bound (cleanup fn) a o h = h
Placed-below bound (reslist onheap parent) a o (after, below) = below

-- No resource lies at an address that was not given out.
fresh : (bound : ℕ) (rs : List Resource) → All (PlacedIn bound) rs → at_address bound rs ≡ none
unfolding at_address
fresh bound [] h = refl
fresh bound (r ∷ rs) (p, h) =
    let below = Placed-below bound r.kind r.address r.owner p in
    let other : (r.address == bound) ≡ false = ground (arith, below) in rw other (fresh bound rs h)

HandlerIn-suc : (bound : ℕ) (o : Option Handler) → HandlerIn bound o → HandlerIn (suc bound) o
HandlerIn-suc bound none h = tt
HandlerIn-suc bound (some x) h = omega (arith, h)

-- A resource at the next address, in the current list.
pub insert-Sound :
    (p : Process) (k : Kind)
    → Placed (suc p.next) k p.next p.current
    → Sound p
    → Sound (record p {
      resources = record { address = p.next; owner = p.current; kind = k } ∷ p.resources;
      next = suc p.next;
    })
insert-Sound p k placed s = record {
  well_formed = record {
    placed = (placed, All-Placed-suc p.next p.resources s.well_formed.placed);
    unique = (fresh p.next p.resources s.well_formed.placed, s.well_formed.unique);
    below = omega (arith, s.well_formed.below);
  };
  handled = HandlerIn-suc p.next p.errh s.handled;
}

next-Sound : (p : Process) → Sound p → Sound (record p { next = suc p.next })
next-Sound p s = record {
  well_formed = record {
    placed = All-Placed-suc p.next p.resources s.well_formed.placed;
    unique = s.well_formed.unique;
    below = omega (arith, s.well_formed.below);
  };
  handled = HandlerIn-suc p.next p.errh s.handled;
}

at_address-top : (r : Resource) (rs : List Resource) → at_address r.address (r ∷ rs) ≡ some r
unfolding at_address
at_address-top r rs = let own : (r.address == r.address) ≡ true = ground arith in rw own refl

unlink-top : (r : Resource) (rs : List Resource) → unlink r.address (r ∷ rs) ≡ rs
unfolding unlink
unlink-top r rs = let own : (r.address == r.address) ≡ true = ground arith in rw own refl

cleanup_commit-top :
    (a o : ℕ) (fn : Option ℕ) (rs : List Resource) (p : Process)
    → cleanup_commit a fn
        (record p { resources = record { address = a; owner = o; kind = cleanup none } ∷ rs })
      ≡ ok (record p {
        resources = record { address = a; owner = p.current; kind = cleanup fn } ∷ rs;
      })
unfolding cleanup_commit
cleanup_commit-top a o fn rs p =
    let r : Resource = record { address = a; owner = o; kind = cleanup none } in
    let top = at_address-top r rs in
    rw
      (
        cleanup_commit,
        top,
        reslist_remove-unlink a (record p { resources = r ∷ rs }) r top,
        unlink-top r rs,
      )
      refl

-- The memory with a cleanup that frees it, in front of the current list.
abbrev pub with_memory : (ℕ → ℕ) → Process → Process
with_memory free p = record p {
  resources =
      record { address = p.next; owner = p.current; kind = cleanup (some (free (suc p.next))) }
      ∷ p.resources;
  next = suc (suc p.next);
}

-- From a sound process, where calloc gives a cleanup and malloc the memory, xalloc returns the memory
-- with a cleanup that frees it in front of the current list, and the process is sound. Where either fails,
-- it stops with abort if there is no handler, and else it jumps, with ENOMEM where the handler has an
-- `errinfo`, with the handler's list emptied and the process sound.
pub xalloc_lem :
    (calloc malloc : ℕ → Bool) (free : ℕ → ℕ) (p : Process)
    → Sound p
    → (((calloc p.next && malloc (suc p.next)) ≡ true)
        × (xalloc calloc malloc free p ≡ done (some (suc p.next)) (with_memory free p))
        × Sound (with_memory free p))
      ⊎ (((calloc p.next && malloc (suc p.next)) ≡ false)
          × NoMemory p.errh (xalloc calloc malloc free p))
unfolding xalloc cleanup_allocate die_oom
xalloc_lem calloc malloc free p s = elim (Bool-cases (calloc p.next)) [
  | inl b ↦
      let free_it = some (free (suc p.next)) in
      elim (Bool-cases (malloc (suc p.next))) [
        | inl c ↦ inl (
          rw (b, c) refl,
          rw
              (
                b,
                c,
                cleanup_commit-top p.next p.current free_it p.resources
                    (record p { next = suc (suc p.next) }),
              )
              refl,
          next-Sound _ (insert-Sound p (cleanup free_it) (omega arith) s),
        )
        | inr c ↦
            let s' = insert-Sound p (cleanup none) (omega arith) s in
            inr (rw (b, c) refl, rw (b, c) (die_oom-NoMemory ℕ p.errh _ s'.well_formed s'.handled))
      ]
  | inr b ↦ inr (
    rw b refl,
    rw b (
        unless_jumped-NoMemory ℕ ℕ p.errh _ _
          (die_oom-NoMemory ℕ p.errh p s.well_formed s.handled)),
  )
]
