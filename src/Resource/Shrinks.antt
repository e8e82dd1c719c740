-- ===== src/Resource/Shrinks.antt =====
-- util.c: what is left of the resources when some are unlinked, and what unlinking one of a list leaves.
use fb_adb.Prelude.{
  ℕ, ◌+◌, ◌≤◌, ◌<◌, ◌≡◌, subst, refl, ap, sym, ◌∙◌, arith, Bool, true, false, inl, inr, Bool-cases,
  none, some, List, ◌∷◌, length, ◌==◌, All,
}
use fb_adb.Resource.{Kind, cleanup, reslist, Resource, Process, at_address, unlink}
use fb_adb.Resource.Order.{
  PlacedIn, InnerOf, Unique, waiting, pending, count, some_same, All-unlink, unlink-other,
  unlink-Unique, length-unlink, pending-unlink,
}

-- Every resource in its place, no two at one address, and a current list whose address was given out.
pub record WellFormed (p : Process) : Type 0 where
  pub placed : All (PlacedIn p.next) p.resources
  pub unique : Unique p.resources
  pub below : p.current < p.next

-- Some resources are gone, none of them outside a set that has `rl` and the lists in its lists.
pub record Shrinks (rl : ℕ) (p p' : Process) : Type 1 where
  pub few : length p'.resources ≤ length p.resources
  pub next : p'.next ≡ p.next
  pub current : p'.current ≡ p.current
  pub errh : p'.errh ≡ p.errh
  pub still : (P : Resource → Type 0) → All P p.resources → All P p'.resources
  pub unique : Unique p.resources → Unique p'.resources
  pub kept :
      (q : ℕ → Bool)
      → q rl ≡ true
      → All (InnerOf q) p.resources
      → (a : ℕ) (r : Resource) → at_address a p.resources ≡ some r
      → q r.owner ≡ false
      → at_address a p'.resources ≡ some r
  pub conserved :
      (n : ℕ) → count n p'.ran + pending n p'.resources ≡ count n p.ran + pending n p.resources

pub same_Shrinks : (rl : ℕ) (p : Process) → Shrinks rl p p
same_Shrinks rl p = record {
  few = omega arith;
  next = refl;
  current = refl;
  errh = refl;
  still = λ P h. h;
  unique = λ u. u;
  kept = λ q e h a r at_a out. at_a;
  conserved = λ n. refl;
}

pub then_Shrinks :
    (rl : ℕ) (p p' p'' : Process) → Shrinks rl p p' → Shrinks rl p' p'' → Shrinks rl p p''
then_Shrinks rl p p' p'' s t = record {
  few = omega (arith, s.few, t.few);
  next = t.next ∙ s.next;
  current = t.current ∙ s.current;
  errh = t.errh ∙ s.errh;
  still = λ P h. t.still P (s.still P h);
  unique = λ u. t.unique (s.unique u);
  kept =
      λ q e h a r at_a out. t.kept q e (s.still (InnerOf q) h) a r (s.kept q e h a r at_a out) out;
  conserved = λ n. t.conserved n ∙ s.conserved n;
}

pub Shrinks-WellFormed : (rl : ℕ) (p p' : Process) → Shrinks rl p p' → WellFormed p → WellFormed p'
Shrinks-WellFormed rl p p' s wf = record {
  placed =
      subst (λ bound. All (PlacedIn bound) p'.resources) (sym s.next)
        (s.still (PlacedIn p.next) wf.placed);
  unique = s.unique wf.unique;
  below = omega (arith, wf.below, s.current, s.next);
}

true_not_false : (b : Bool) → b ≡ true → b ≡ false → ⊥
true_not_false b e f = ground (arith, e, f)

unlink_outside :
    (rl : ℕ) (rs : List Resource) (r : Resource) (q : ℕ → Bool)
    → q rl ≡ true
    → r.owner ≡ rl
    → at_address r.address rs ≡ some r
    → (a : ℕ) (s : Resource) → at_address a rs ≡ some s
    → q s.owner ≡ false
    → at_address a (unlink r.address rs) ≡ some s
unlink_outside rl rs r q e owns here a s at_a out = elim (Bool-cases (a == r.address)) [
  | inl same ↦
      let met : a ≡ r.address = ground (arith, same) in
      let one : s ≡ r = some_same s r (sym at_a ∙ ap (λ b. at_address b rs) met ∙ here) in
      absurd (true_not_false (q s.owner) (ap (λ x. q x.owner) one ∙ ap q owns ∙ e) out)
  | inr other ↦ unlink-other r.address a rs other ∙ at_a
]

abbrev pub logged : Kind → List ℕ → List ℕ
logged (cleanup none) ran = ran
logged (cleanup (some fn)) ran = fn ∷ ran
logged (reslist onheap parent) ran = ran

unfoldable pub removed : Kind → ℕ → Process → Process
removed k a p = record p { resources = unlink a p.resources; ran = logged k p.ran }

count-logged :
    (n : ℕ) (k : Kind) (ran : List ℕ) → count n (logged k ran) ≡ waiting n k + count n ran
count-logged n (cleanup none) ran = omega arith
count-logged n (cleanup (some fn)) ran = refl
count-logged n (reslist onheap parent) ran = omega arith

pub removed-Shrinks :
    (rl : ℕ) (p : Process) (r : Resource)
    → r.owner ≡ rl
    → at_address r.address p.resources ≡ some r
    → Shrinks rl p (removed r.kind r.address p)
unfolding removed
removed-Shrinks rl p r owns here = record {
  few = omega (arith, length-unlink r.address p.resources r here);
  next = refl;
  current = refl;
  errh = refl;
  still = λ P h. All-unlink P r.address p.resources h;
  unique = λ u. unlink-Unique r.address p.resources u;
  kept = λ q e h a s at_a out. unlink_outside rl p.resources r q e owns here a s at_a out;
  conserved = λ n.
      omega (arith, count-logged n r.kind p.ran, pending-unlink n r.address p.resources r here);
}
