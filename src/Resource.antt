-- ===== src/Resource.antt =====
-- util.c: resource lists, cleanups and the errors that empty them. All resources that are linked into some
-- list are one list, the latest insertion first; the members of a resource list are those that it owns, in
-- that order. Addresses are numbers that are never reused; the top list has address 0. A cleanup function
-- and its data are one number, and a run of it goes to a log. The functions that they stand for do not call
-- into this file. What calloc and malloc answer is a parameter, by the next address.
pub mod Catch
pub mod Order
pub mod Shrinks
pub mod Filter
pub mod Empty
pub mod Handle
pub mod Return
pub mod Die
pub mod Keep
pub mod Lifo
mod Tests
use fb_adb.Prelude.{
  ℕ, zero, suc, ◌+◌, Bool, true, false, not, ◌&&◌, Option, none, some, List, [], ◌∷◌, ◌++◌, map,
  length, ltb, ◌==◌, if◌then◌else◌,
}
use fb_adb.Outcome.{Outcome, ok, aborted, fault, ◌>>=◌, ◌>>◌, assert}
use fb_adb.Fs.{Sys, done, left_by, spinning, then_sys, of_outcome}

-- The type of a resource: a cleanup with its function, none for NULL, or a list, on the heap or on the
-- stack, with its parent.
pub data Kind : Type 0 where
  cleanup : Option ℕ → Kind
  reslist : Bool → ℕ → Kind

-- The list that a resource is linked into is its owner.
pub record Resource : Type 0 where
  pub address : ℕ
  pub owner : ℕ
  pub kind : Kind

-- `struct errhandler`: its list, whether it has an `errinfo` and wants a message, the error that the
-- `errinfo` holds, and the deferred one.
pub record Handler : Type 0 where
  pub rl : ℕ
  pub has_info : Bool
  pub want_msg : Bool
  pub err : ℕ
  pub deferred_error : ℕ

-- `_reslist_current`, `current_errh`, the next address and the functions that were run, the last one first.
pub record Process : Type 0 where
  pub resources : List Resource
  pub current : ℕ
  pub errh : Option Handler
  pub next : ℕ
  pub ran : List ℕ

unfoldable pub filter : (Resource → Bool) → List Resource → List Resource
filter f [] = []
filter f (r ∷ rs) = let rest = filter f rs in if f r then r ∷ rest else rest

abbrev pub owned : ℕ → Resource → Bool
owned rl r = r.owner == rl

unfoldable pub first_in : ℕ → List Resource → Option Resource
first_in rl [] = none
first_in rl (r ∷ rs) = let rest = first_in rl rs in if owned rl r then some r else rest

-- The resource at an address, where it is linked into a list.
unfoldable pub at_address : ℕ → List Resource → Option Resource
at_address a [] = none
at_address a (r ∷ rs) = let rest = at_address a rs in if r.address == a then some r else rest

unfoldable pub unlink : ℕ → List Resource → List Resource
unlink a [] = []
unlink a (r ∷ rs) = let rest = unlink a rs in if r.address == a then rs else r ∷ rest

unfoldable pub reslist_empty_p : ℕ → Process → Bool
reslist_empty_p rl p = elim (first_in rl p.resources) [ none ↦ true | some r ↦ false ]

unfoldable pub reslist_first : ℕ → Process → Option Resource
reslist_first rl p = first_in rl p.resources

abbrev pub linked : Option Resource → Bool
linked none = false
linked (some r) = true

unfoldable pub reslist_remove : ℕ → Process → Outcome Process
reslist_remove a p =
    assert (linked (at_address a p.resources)) >> ok (record p { resources = unlink a p.resources })

abbrev pub insert_head : Resource → Process → Process
insert_head r p = record p { resources = r ∷ p.resources }

unfoldable pub reslist_init : ℕ → ℕ → Bool → Process → Process
reslist_init rl parent onheap p =
    insert_head (record { address = rl; owner = parent; kind = reslist onheap parent }) p

abbrev pub run_fn : Option ℕ → Process → Process
run_fn none p = p
run_fn (some fn) p = record p { ran = fn ∷ p.ran }

unfoldable pub cleanup_destroy : ℕ → Option ℕ → Process → Outcome Process
cleanup_destroy a fn p = reslist_remove a p >>= λ p'. ok (run_fn fn p')

abbrev pub destroy :
    Kind
    → ℕ
    → Process
    → (Process → Sys Process (Unit {0}))
    → (ℕ → Process → Sys Process (Unit {0}))
    → Sys Process (Unit {0})
destroy (cleanup fn) a p again empty_inner = of_outcome (cleanup_destroy a fn p) again
destroy (reslist onheap parent) a p again empty_inner =
    then_sys (empty_inner a p) λ _ p'. of_outcome (reslist_remove a p') again

abbrev pub destroy_first :
    Option Resource
    → Process
    → (Process → Sys Process (Unit {0}))
    → (ℕ → Process → Sys Process (Unit {0}))
    → Sys Process (Unit {0})
destroy_first none p again empty_inner = done tt p
destroy_first (some r) p again empty_inner = destroy r.kind r.address p again empty_inner

-- The loop over the first resource, with fuel for its rounds and the lists in lists. Since no cleanup dies,
-- the handler that is NULL meanwhile is left as it is.
unfoldable pub empty_loop : ℕ → ℕ → Process → Sys Process (Unit {0})
empty_loop zero rl p = spinning
empty_loop (suc fuel) rl p =
    destroy_first (reslist_first rl p) p (λ p'. empty_loop fuel rl p') λ a p'. empty_loop fuel a p'

unfoldable pub empty_reslist : ℕ → Process → Sys Process (Unit {0})
empty_reslist rl p = empty_loop (length p.resources + p.next + 1) rl p

unfoldable pub reslist_destroy : ℕ → Process → Sys Process (Unit {0})
reslist_destroy rl p =
    then_sys (empty_reslist rl p) λ _ p'. of_outcome (reslist_remove rl p') λ p''. done tt p''

-- `rl->parent`; a list that is gone has none.
abbrev pub parent_in : Option Resource → Outcome ℕ
parent_in none = fault
parent_in (some r) = elim r.kind [ cleanup fn ↦ fault | reslist onheap parent ↦ ok parent ]

unfoldable pub parent_of : ℕ → Process → Outcome ℕ
parent_of rl p = parent_in (at_address rl p.resources)

unfoldable pub scoped_push : Process → Process
scoped_push p = record (reslist_init p.next p.current false p) {
  current = p.next;
  next = suc p.next;
}

unfoldable pub scoped_pop : ℕ → Process → Sys Process (Unit {0})
scoped_pop rl p =
    of_outcome (parent_of rl p) λ parent. reslist_destroy rl (record p { current = parent })

-- The members come in front of the recipient's, in their order. Their own parents stay what they were.
abbrev pub given_to : ℕ → List Resource → List Resource
given_to recipient [] = []
given_to recipient (r ∷ rs) = record r { owner = recipient } ∷ given_to recipient rs

unfoldable pub reslist_xfer : ℕ → ℕ → Process → Process
reslist_xfer recipient donor p = record p {
  resources =
      given_to recipient (filter (owned donor) p.resources)
      ++ filter (λ r. not (owned donor r)) p.resources;
}

abbrev pub on_heap : Kind → Bool
on_heap (cleanup fn) = false
on_heap (reslist onheap parent) = onheap

unfoldable pub reslist_reparent : ℕ → Process → Outcome Process
reslist_reparent rl p = elim (at_address rl p.resources) [
  | none ↦ fault
  | some r ↦
      assert (on_heap r.kind)
      >> (reslist_remove rl p >>= λ p'. ok (insert_head (record r { owner = p.current }) p'))
]
