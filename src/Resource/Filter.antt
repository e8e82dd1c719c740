-- ===== src/Resource/Filter.antt =====
-- util.c: the members of a list among the resources, and resources that change their owner.
use fb_adb.Prelude.{
  ℕ, ◌≡◌, subst, refl, ap, sym, ◌∙◌, arith, Bool, true, false, not, inl, inr, Bool-cases, none,
  some, List, [], ◌∷◌, ◌++◌, length, ◌==◌,
}
use fb_adb.Resource.{Resource, owned, first_in, at_address, unlink, filter, given_to}
use fb_adb.Resource.Order.{Unique, none_not_some, some_same}

pub filter-absent :
    (f : Resource → Bool) (a : ℕ) (rs : List Resource)
    → at_address a rs ≡ none
    → at_address a (filter f rs) ≡ none
unfolding at_address filter
filter-absent f a [] e = refl
filter-absent f a (r ∷ rs) e = elim (Bool-cases (r.address == a)) [
  | inl met ↦ none_not_some r (sym (rw met at e))
  | inr met ↦ elim (Bool-cases (f r)) [
    | inl b ↦ rw (b, met) (filter-absent f a rs (rw met at e))
    | inr b ↦ rw b (filter-absent f a rs (rw met at e))
  ]
]

pub filter-Unique : (f : Resource → Bool) (rs : List Resource) → Unique rs → Unique (filter f rs)
unfolding filter
filter-Unique f [] u = tt
filter-Unique f (r ∷ rs) (e, u) = elim (Bool-cases (f r)) [
  | inl b ↦ rw b (filter-absent f r.address rs e, filter-Unique f rs u)
  | inr b ↦ rw b (filter-Unique f rs u)
]

pub filter-left :
    (f : Resource → Bool) (a : ℕ) (rs : List Resource) (r : Resource)
    → Unique rs
    → at_address a rs ≡ some r
    → f r ≡ false
    → at_address a (filter f rs) ≡ none
unfolding at_address filter
filter-left f a [] r u e out = refl
filter-left f a (x ∷ rs) r (g, u) e out = elim (Bool-cases (x.address == a)) [
  | inl met ↦
      let same : x ≡ r = some_same x r (rw met at e) in
      let at_a : x.address ≡ a = ground (arith, met) in
      let left : f x ≡ false = ap f same ∙ out in
      rw left (filter-absent f a rs (subst (λ b. at_address b rs ≡ none) at_a g))
  | inr met ↦ elim (Bool-cases (f x)) [
    | inl b ↦ rw (b, met) (filter-left f a rs r u (rw met at e) out)
    | inr b ↦ rw b (filter-left f a rs r u (rw met at e) out)
  ]
]

pub filter-kept :
    (f : Resource → Bool) (a : ℕ) (rs : List Resource) (r : Resource)
    → at_address a rs ≡ some r
    → f r ≡ true
    → at_address a (filter f rs) ≡ some r
unfolding at_address filter
filter-kept f a [] r e kept = none_not_some r e
filter-kept f a (x ∷ rs) r e kept = elim (Bool-cases (x.address == a)) [
  | inl met ↦
      let same : x ≡ r = some_same x r (rw met at e) in
      let stays : f x ≡ true = ap f same ∙ kept in rw (stays, met) (ap some same)
  | inr met ↦ elim (Bool-cases (f x)) [
    | inl b ↦ rw (b, met) (filter-kept f a rs r (rw met at e) kept)
    | inr b ↦ rw b (filter-kept f a rs r (rw met at e) kept)
  ]
]

pub unlink-nothing : (a : ℕ) (rs : List Resource) → at_address a rs ≡ none → unlink a rs ≡ rs
unfolding at_address unlink
unlink-nothing a [] e = refl
unlink-nothing a (r ∷ rs) e = elim (Bool-cases (r.address == a)) [
  | inl met ↦ none_not_some r (sym (rw met at e))
  | inr met ↦ rw met (ap (λ xs. r ∷ xs) (unlink-nothing a rs (rw met at e)))
]

pub filter-unlink :
    (f : Resource → Bool) (a : ℕ) (rs : List Resource)
    → Unique rs
    → filter f (unlink a rs) ≡ unlink a (filter f rs)
unfolding filter unlink
filter-unlink f a [] u = refl
filter-unlink f a (r ∷ rs) (g, u) = elim (Bool-cases (r.address == a)) [
  | inl met ↦
      let at_a : r.address ≡ a = ground (arith, met) in
      let gone = subst (λ b. at_address b rs ≡ none) at_a g in
      elim (Bool-cases (f r)) [
        | inl b ↦ rw (b, met) refl
        | inr b ↦ rw (met, b) (sym (unlink-nothing a (filter f rs) (filter-absent f a rs gone)))
      ]
  | inr met ↦ elim (Bool-cases (f r)) [
    | inl b ↦ rw (met, b, met) (ap (λ xs. r ∷ xs) (filter-unlink f a rs u))
    | inr b ↦ rw (met, b) (filter-unlink f a rs u)
  ]
]

pub filter-append :
    (f : Resource → Bool) (xs ys : List Resource) → filter f (xs ++ ys) ≡ filter f xs ++ filter f ys
unfolding filter
filter-append f [] ys = refl
filter-append f (x ∷ xs) ys = elim (Bool-cases (f x)) [
  | inl b ↦ rw b (ap (λ rest. x ∷ rest) (filter-append f xs ys))
  | inr b ↦ rw b (filter-append f xs ys)
]

pub at_address-append :
    (a : ℕ) (xs ys : List Resource)
    → at_address a xs ≡ none
    → at_address a (xs ++ ys) ≡ at_address a ys
unfolding at_address
at_address-append a [] ys e = refl
at_address-append a (x ∷ xs) ys e = elim (Bool-cases (x.address == a)) [
  | inl met ↦ none_not_some x (sym (rw met at e))
  | inr met ↦ rw met (at_address-append a xs ys (rw met at e))
]

pub unlink-append :
    (a : ℕ) (xs ys : List Resource)
    → at_address a xs ≡ none
    → unlink a (xs ++ ys) ≡ xs ++ unlink a ys
unfolding at_address unlink
unlink-append a [] ys e = refl
unlink-append a (x ∷ xs) ys e = elim (Bool-cases (x.address == a)) [
  | inl met ↦ none_not_some x (sym (rw met at e))
  | inr met ↦ rw met (ap (λ rest. x ∷ rest) (unlink-append a xs ys (rw met at e)))
]

pub given_to-absent :
    (a recipient : ℕ) (rs : List Resource)
    → at_address a rs ≡ none
    → at_address a (given_to recipient rs) ≡ none
unfolding at_address
given_to-absent a recipient [] e = refl
given_to-absent a recipient (r ∷ rs) e = elim (Bool-cases (r.address == a)) [
  | inl met ↦ none_not_some r (sym (rw met at e))
  | inr met ↦ rw met (given_to-absent a recipient rs (rw met at e))
]

pub filter-given_to :
    (rl : ℕ) (rs : List Resource) → filter (owned rl) (given_to rl rs) ≡ given_to rl rs
unfolding filter
filter-given_to rl [] = refl
filter-given_to rl (r ∷ rs) =
    let own : (rl == rl) ≡ true = ground arith in
    rw own (ap (λ xs. record r { owner = rl } ∷ xs) (filter-given_to rl rs))

pub filter-given_to-other :
    (rl recipient : ℕ) (rs : List Resource)
    → (recipient == rl) ≡ false
    → filter (owned rl) (given_to recipient rs) ≡ []
unfolding filter
filter-given_to-other rl recipient [] e = refl
filter-given_to-other rl recipient (r ∷ rs) e = rw e (filter-given_to-other rl recipient rs e)

pub filter-filter :
    (rl donor : ℕ) (rs : List Resource)
    → (rl == donor) ≡ false
    → filter (owned rl) (filter (λ r. not (owned donor r)) rs) ≡ filter (owned rl) rs
unfolding filter
filter-filter rl donor [] e = refl
filter-filter rl donor (r ∷ rs) e = elim (Bool-cases (owned donor r)) [
  | inl b ↦
      let other : owned rl r ≡ false = ground (arith, b, e) in
      rw (b, other) (filter-filter rl donor rs e)
  | inr b ↦ elim (Bool-cases (owned rl r)) [
    | inl c ↦ rw (b, c) (ap (λ xs. r ∷ xs) (filter-filter rl donor rs e))
    | inr c ↦ rw (b, c) (filter-filter rl donor rs e)
  ]
]

-- A list has no first member where it has none at all.
pub first_in-filter :
    (rl : ℕ) (rs : List Resource) → filter (owned rl) rs ≡ [] → first_in rl rs ≡ none
unfolding filter first_in
first_in-filter rl [] e = refl
first_in-filter rl (r ∷ rs) e = elim (Bool-cases (owned rl r)) [
  | inl b ↦ absurd (omega (arith, ap length (rw b at e)))
  | inr b ↦ rw b (first_in-filter rl rs (rw b at e))
]

pub filter-none :
    (rl : ℕ) (rs : List Resource) → filter (owned rl) (filter (λ r. not (owned rl r)) rs) ≡ []
unfolding filter
filter-none rl [] = refl
filter-none rl (r ∷ rs) = elim (Bool-cases (owned rl r)) [
  | inl b ↦ rw b (filter-none rl rs)
  | inr b ↦ rw (b, b) (filter-none rl rs)
]
