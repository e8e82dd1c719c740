-- ===== src/Resource/Lifo.antt =====
-- util.c: the order in which a resource list without inner lists is cleaned up. The log has the last run first.
use fb_adb.Prelude.{
  ℕ, zero, suc, ◌+◌, ◌<◌, ◌≡◌, subst, refl, ap, ap₂, sym, ◌∙◌, arith, true, false, not, inl, inr,
  Bool-cases, Option-cases, none, some, List, [], ◌∷◌, length, ◌==◌, if◌then◌else◌, All,
}
use fb_adb.Fs.{done}
use fb_adb.Resource.{
  Kind, cleanup, reslist, Resource, Process, owned, first_in, at_address, unlink, filter, destroy,
  empty_loop, empty_reslist, reslist_first,
}
use fb_adb.Resource.Order.{
  Unique, none_not_some, some_same, All-first_in, All-unlink, first_in-at, unlink-Unique,
  length-unlink,
}
use fb_adb.Resource.Shrinks.{logged, removed}
use fb_adb.Resource.Filter.{filter-left, filter-unlink, unlink-nothing}
use fb_adb.Resource.Empty.{cleanup_destroy-removed}

abbrev FlatAt : ℕ → Kind → ℕ → Type 0
FlatAt rl (cleanup fn) o = Unit {0}
FlatAt rl (reslist onheap parent) o = (o == rl) ≡ false

-- None of the list's members is a list.
abbrev pub Flat : ℕ → Resource → Type 0
Flat rl r = FlatAt rl r.kind r.owner

-- The members' functions, from the latest insertion to the oldest, on top of a log.
unfoldable pub spill : ℕ → List Resource → List ℕ → List ℕ
spill rl [] ran = ran
spill rl (r ∷ rs) ran =
    let run = spill rl rs (logged r.kind ran) in
    let skip = spill rl rs ran in if owned rl r then run else skip

spill-nothing :
    (rl : ℕ) (rs : List Resource) (ran : List ℕ) → first_in rl rs ≡ none → spill rl rs ran ≡ ran
unfolding spill first_in
spill-nothing rl [] ran e = refl
spill-nothing rl (r ∷ rs) ran e = elim (Bool-cases (owned rl r)) [
  | inl b ↦ none_not_some r (sym (rw b at e))
  | inr b ↦ rw b (spill-nothing rl rs ran (rw b at e))
]

filter-nothing :
    (rl : ℕ) (rs : List Resource) → first_in rl rs ≡ none → filter (λ r. not (owned rl r)) rs ≡ rs
unfolding filter first_in
filter-nothing rl [] e = refl
filter-nothing rl (r ∷ rs) e = elim (Bool-cases (owned rl r)) [
  | inl b ↦ none_not_some r (sym (rw b at e))
  | inr b ↦ rw b (ap (λ xs. r ∷ xs) (filter-nothing rl rs (rw b at e)))
]

-- The first member's function comes first.
spill-unlink :
    (rl : ℕ) (rs : List Resource) (r : Resource) (ran : List ℕ)
    → first_in rl rs ≡ some r
    → at_address r.address rs ≡ some r
    → r.owner ≡ rl
    → spill rl (unlink r.address rs) (logged r.kind ran) ≡ spill rl rs ran
unfolding spill first_in at_address unlink
spill-unlink rl [] r ran e here owns = none_not_some r e
spill-unlink rl (x ∷ rs) r ran e here owns = elim (Bool-cases (owned rl x)) [
  | inl b ↦
      let same : x ≡ r = some_same x r (rw b at e) in
      let met : (x.address == r.address) ≡ true = ground (arith, ap (λ y. y.address) same) in
      rw (met, b) (ap (λ y. spill rl rs (logged y.kind ran)) (sym same))
  | inr b ↦ elim (Bool-cases (x.address == r.address)) [
    | inl met ↦
        let same : x.owner ≡ r.owner = ap (λ y. y.owner) (some_same x r (rw met at here)) in
        absurd (ground (arith, same, owns, b))
    | inr other ↦ rw (other, b) (spill-unlink rl rs r ran (rw b at e) (rw other at here) owns)
  ]
]

others-unlink :
    (rl : ℕ) (rs : List Resource) (r : Resource)
    → Unique rs
    → at_address r.address rs ≡ some r
    → r.owner ≡ rl
    → filter (λ s. not (owned rl s)) (unlink r.address rs) ≡ filter (λ s. not (owned rl s)) rs
others-unlink rl rs r u here owns =
    filter-unlink (λ s. not (owned rl s)) r.address rs u
    ∙ unlink-nothing r.address (filter (λ s. not (owned rl s)) rs)
        (filter-left (λ s. not (owned rl s)) r.address rs r u here (ground (arith, owns)))

spilled : ℕ → Process → Process
spilled rl p = record p {
  resources = filter (λ r. not (owned rl r)) p.resources;
  ran = spill rl p.resources p.ran;
}

abbrev Spills : ℕ → Type 0
Spills fuel =
    (rl : ℕ) (p : Process)
    → Unique p.resources
    → All (Flat rl) p.resources
    → length p.resources < fuel
    → empty_loop fuel rl p ≡ done tt (spilled rl p)

round-Spills :
    (fuel rl : ℕ) (p : Process) (r : Resource) (k : Kind)
    → Spills fuel
    → Unique p.resources
    → All (Flat rl) p.resources
    → length p.resources < suc fuel
    → first_in rl p.resources ≡ some r
    → r.kind ≡ k
    → destroy k r.address p (λ p'. empty_loop fuel rl p') (λ a p'. empty_loop fuel a p')
      ≡ done tt (spilled rl p)
unfolding removed spilled
round-Spills fuel rl p r (cleanup fn) again u flat enough e at_k =
    let here = first_in-at rl p.resources r u e in
    let owns = (All-first_in (Flat rl) rl p.resources r e flat).1 in
    let shorter = length-unlink r.address p.resources r here in
    let p' = removed (cleanup fn) r.address p in
    rw
      (
        cleanup_destroy-removed r.address fn p r here,
        again rl p' (unlink-Unique r.address p.resources u)
            (All-unlink (Flat rl) r.address p.resources flat) (omega (arith, enough, shorter)),
      )
      (ap₂ (λ rs ran. done tt (record p { resources = rs; ran = ran }))
        (others-unlink rl p.resources r u here owns)
        (ap (λ k. spill rl (unlink r.address p.resources) (logged k p.ran)) (sym at_k)
          ∙ spill-unlink rl p.resources r p.ran e here owns))
round-Spills fuel rl p r (reslist onheap parent) again u flat enough e at_k =
    let (plain, owns) = All-first_in (Flat rl) rl p.resources r e flat in
    let elsewhere : (r.owner == rl) ≡ false = subst (λ k. FlatAt rl k r.owner) at_k plain in
    absurd (ground (arith, elsewhere, owns))

empty_loop-Spills : (fuel : ℕ) → Spills fuel
unfolding empty_loop reslist_first spilled
empty_loop-Spills zero rl p u flat enough = absurd (omega (arith, enough))
empty_loop-Spills (suc fuel) rl p u flat enough = elim (Option-cases (first_in rl p.resources)) [
  | inl e ↦ rw e (
      ap₂ (λ rs ran. done tt (record p { resources = rs; ran = ran }))
        (sym (filter-nothing rl p.resources e)) (sym (spill-nothing rl p.resources p.ran e)))
  | inr (r, e) ↦
      rw e (round-Spills fuel rl p r r.kind (empty_loop-Spills fuel) u flat enough e refl)
]

-- Where no two resources have one address, and no member of a list is a list, emptying it returns. The
-- members' functions were run, each once, in the reverse order of insertion; the members are gone, and the
-- other resources are where they were.
pub empty_reslist_spills :
    (rl : ℕ) (p : Process)
    → Unique p.resources
    → All (Flat rl) p.resources
    → empty_reslist rl p
      ≡ done tt (record p {
        resources = filter (λ r. not (owned rl r)) p.resources;
        ran = spill rl p.resources p.ran;
      })
unfolding empty_reslist spilled
empty_reslist_spills rl p u flat =
    empty_loop-Spills (length p.resources + p.next + 1) rl p u flat (omega arith)
