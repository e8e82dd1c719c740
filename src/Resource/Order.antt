-- ===== src/Resource/Order.antt =====
-- util.c: resources by their addresses, and what unlinking one does to the others.
use fb_adb.Prelude.{
  ℕ, suc, ◌+◌, ◌<◌, ◌≡◌, subst, refl, ap, sym, ◌∙◌, arith, Bool, true, false, inl, inr, Bool-cases,
  Option, none, some, List, [], ◌∷◌, length, ◌==◌, if◌then◌else◌, All,
}
use fb_adb.Resource.{Kind, cleanup, reslist, Resource, owned, first_in, at_address, unlink}

-- All resources lie before the next address, and a list behind its owner.
abbrev pub Placed : ℕ → Kind → ℕ → ℕ → Type 0
Placed bound (cleanup fn) a o = a < bound
Placed bound (reslist onheap parent) a o = (o < a) × (a < bound)

abbrev pub PlacedIn : ℕ → Resource → Type 0
PlacedIn bound r = Placed bound r.kind r.address r.owner

-- A set of lists that has the lists in its lists.
abbrev pub Inner : (ℕ → Bool) → Kind → ℕ → ℕ → Type 0
Inner q (cleanup fn) a o = Unit {0}
Inner q (reslist onheap parent) a o = q o ≡ true → q a ≡ true

abbrev pub InnerOf : (ℕ → Bool) → Resource → Type 0
InnerOf q r = Inner q r.kind r.address r.owner

abbrev pub Unique : List Resource → Type 0
Unique [] = Unit {0}
Unique (r ∷ rs) = (at_address r.address rs ≡ none) × Unique rs

-- How often a function is waiting, and how often it was run.
abbrev pub once : ℕ → ℕ → ℕ
once n fn = if fn == n then 1 else 0

abbrev pub waiting : ℕ → Kind → ℕ
waiting n (cleanup none) = 0
waiting n (cleanup (some fn)) = once n fn
waiting n (reslist onheap parent) = 0

abbrev pub pending : ℕ → List Resource → ℕ
pending n [] = 0
pending n (r ∷ rs) = waiting n r.kind + pending n rs

abbrev pub count : ℕ → List ℕ → ℕ
count n [] = 0
count n (fn ∷ fns) = once n fn + count n fns

abbrev size : {A : Type 0} → Option A → ℕ
size none = 0
size (some x) = 1

pub none_not_some : {A B : Type 0} (a : A) → none ≡ some a → B
none_not_some a e = absurd (omega (arith, ap size e))

abbrev value_or : {A : Type 0} → A → Option A → A
value_or a none = a
value_or a (some x) = x

pub some_same : {A : Type 0} (x y : A) → some x ≡ some y → x ≡ y
some_same x y e = ap (value_or x) e

pub All-unlink :
    (P : Resource → Type 0) (a : ℕ) (rs : List Resource) → All P rs → All P (unlink a rs)
unfolding unlink
All-unlink P a [] h = tt
All-unlink P a (r ∷ rs) (p, h) = elim (Bool-cases (r.address == a)) [
  | inl e ↦ rw e h
  | inr e ↦ rw e (p, All-unlink P a rs h)
]

-- The first member of a list is among the resources, and the list owns it.
pub All-first_in :
    (P : Resource → Type 0) (rl : ℕ) (rs : List Resource) (r : Resource)
    → first_in rl rs ≡ some r
    → All P rs
    → P r × (r.owner ≡ rl)
unfolding first_in
All-first_in P rl [] r e h = none_not_some r e
All-first_in P rl (x ∷ rs) r e (p, h) = elim (Bool-cases (owned rl x)) [
  | inl o ↦
      let owns : x.owner ≡ rl = ground (arith, o) in
      subst (λ y. P y × (y.owner ≡ rl)) (some_same x r (rw o at e)) (p, owns)
  | inr o ↦ All-first_in P rl rs r (rw o at e) h
]

pub unlink-absent :
    (a b : ℕ) (rs : List Resource) → at_address b rs ≡ none → at_address b (unlink a rs) ≡ none
unfolding unlink at_address
unlink-absent a b [] h = refl
unlink-absent a b (r ∷ rs) h = elim (Bool-cases (r.address == b)) [
  | inl e ↦ none_not_some r (sym (rw e at h))
  | inr e ↦ elim (Bool-cases (r.address == a)) [
    | inl f ↦ rw f (rw e at h)
    | inr f ↦ rw (f, e) (unlink-absent a b rs (rw e at h))
  ]
]

pub unlink-other :
    (a b : ℕ) (rs : List Resource) → (b == a) ≡ false → at_address b (unlink a rs) ≡ at_address b rs
unfolding unlink at_address
unlink-other a b [] h = refl
unlink-other a b (r ∷ rs) h = elim (Bool-cases (r.address == a)) [
  | inl f ↦ let other : (r.address == b) ≡ false = ground (arith, f, h) in rw (f, other) refl
  | inr f ↦ rw (f, unlink-other a b rs h) refl
]

pub unlink-Unique : (a : ℕ) (rs : List Resource) → Unique rs → Unique (unlink a rs)
unfolding unlink
unlink-Unique a [] h = tt
unlink-Unique a (r ∷ rs) (f, h) = elim (Bool-cases (r.address == a)) [
  | inl e ↦ rw e h
  | inr e ↦ rw e (unlink-absent a r.address rs f, unlink-Unique a rs h)
]

pub length-unlink :
    (a : ℕ) (rs : List Resource) (r : Resource)
    → at_address a rs ≡ some r
    → suc (length (unlink a rs)) ≡ length rs
unfolding unlink at_address
length-unlink a [] r h = none_not_some r h
length-unlink a (x ∷ rs) r h = elim (Bool-cases (x.address == a)) [
  | inl e ↦ rw e refl
  | inr e ↦ rw e (ap suc (length-unlink a rs r (rw e at h)))
]

pub pending-unlink :
    (n a : ℕ) (rs : List Resource) (r : Resource)
    → at_address a rs ≡ some r
    → waiting n r.kind + pending n (unlink a rs) ≡ pending n rs
unfolding unlink at_address
pending-unlink n a [] r h = none_not_some r h
pending-unlink n a (x ∷ rs) r h = elim (Bool-cases (x.address == a)) [
  | inl e ↦ rw e (ap (λ y. waiting n y.kind + pending n rs) (sym (some_same x r (rw e at h))))
  | inr e ↦ let later = pending-unlink n a rs r (rw e at h) in rw e (omega (arith, later))
]

met_twice :
    (a : ℕ) (rs : List Resource) (r : Resource)
    → at_address a rs ≡ none
    → a ≡ r.address
    → at_address r.address rs ≡ some r
    → ⊥
met_twice a rs r f e there = none_not_some r (sym f ∙ ap (λ b. at_address b rs) e ∙ there)

-- The first member of a list is what lies at its address.
pub first_in-at :
    (rl : ℕ) (rs : List Resource) (r : Resource)
    → Unique rs
    → first_in rl rs ≡ some r
    → at_address r.address rs ≡ some r
unfolding first_in at_address
first_in-at rl [] r u e = none_not_some r e
first_in-at rl (x ∷ rs) r (f, u) e = elim (Bool-cases (owned rl x)) [
  | inl o ↦
      let same : x ≡ r = some_same x r (rw o at e) in
      let met : (x.address == r.address) ≡ true = ground (arith, ap (λ y. y.address) same) in
      rw met (ap some same)
  | inr o ↦
      let there = first_in-at rl rs r u (rw o at e) in
      elim (Bool-cases (x.address == r.address)) [
        | inl e ↦ absurd (met_twice x.address rs r f (ground (arith, e)) there)
        | inr other ↦ rw other there
      ]
]

-- Once is enough.
pub unlink-gone : (a : ℕ) (rs : List Resource) → Unique rs → at_address a (unlink a rs) ≡ none
unfolding unlink at_address
unlink-gone a [] u = refl
unlink-gone a (r ∷ rs) (f, u) = elim (Bool-cases (r.address == a)) [
  | inl e ↦
      let met : r.address ≡ a = ground (arith, e) in
      rw e (subst (λ b. at_address b rs ≡ none) met f)
  | inr e ↦ rw (e, e) (unlink-gone a rs u)
]

pub first_in-unlink :
    (rl a : ℕ) (rs : List Resource) → first_in rl rs ≡ none → first_in rl (unlink a rs) ≡ none
unfolding unlink first_in
first_in-unlink rl a [] e = refl
first_in-unlink rl a (r ∷ rs) e = elim (Bool-cases (owned rl r)) [
  | inl o ↦ none_not_some r (sym (rw o at e))
  | inr o ↦ elim (Bool-cases (r.address == a)) [
    | inl met ↦ rw met (rw o at e)
    | inr met ↦ rw (met, o) (first_in-unlink rl a rs (rw o at e))
  ]
]
