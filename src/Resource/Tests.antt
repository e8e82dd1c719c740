-- ===== src/Resource/Tests.antt =====
-- util.c: nested lists that are emptied, and bodies of `catch_error` that die, run out of memory, or return.
use fb_adb.Prelude.{◌&&◌, ◌⊎◌, ℕ, ◌≡◌, refl, arith, Bool, true, false, Option, none, some, [], ◌∷◌}
use fb_adb.Fs.{Sys, done}
use fb_adb.Resource.{
  cleanup, reslist, Resource, Process, filter, first_in, at_address, unlink, reslist_first,
  reslist_remove, reslist_init, cleanup_destroy, empty_loop, empty_reslist, scoped_push,
}
use fb_adb.Resource.Shrinks.{WellFormed}
use fb_adb.Resource.Empty.{Emptied, empty_reslist-Emptied}
use fb_adb.Resource.Catch.{
  cleanup_commit, cleanup_allocate, xalloc, diev, catch_error, unless_jumped,
}
use fb_adb.Resource.Handle.{Handling, Caught, handler}
use fb_adb.Resource.Keep.{Sound, NoMemory, with_memory, xalloc_lem}
use fb_adb.Resource.Lifo.{spill, empty_reslist_spills}
use fb_adb.Resource.Die.{catch_error-die}
use fb_adb.Resource.Return.{Returned, catch_error-return}

abbrev held_cleanup : ℕ → ℕ → ℕ → Resource
held_cleanup a rl fn = record { address = a; owner = rl; kind = cleanup (some fn) }

abbrev list_at : ℕ → ℕ → Bool → Resource
list_at a rl onheap = record { address = a; owner = rl; kind = reslist onheap rl }

-- The list 1 has the cleanup 2 and the list 3, which has the cleanup 4.
abbrev nested : Process
nested = record {
  resources =
      held_cleanup 5 0 9
      ∷ held_cleanup 4 3 8
      ∷ list_at 3 1 true
      ∷ held_cleanup 2 1 7
      ∷ list_at 1 0 false
      ∷ [];
  current = 1;
  errh = none;
  next = 6;
  ran = [];
}

nested-WellFormed : WellFormed nested
unfolding at_address
nested-WellFormed = record {
  placed = (
    omega arith,
    (omega arith, ((omega arith, omega arith), (omega arith, ((omega arith, omega arith), tt)))),
  );
  unique = (refl, (refl, (refl, (refl, (refl, tt)))));
  below = omega arith;
}

empty_reslist_example : Emptied 1 nested (empty_reslist 1 nested)
empty_reslist_example = empty_reslist-Emptied 1 nested nested-WellFormed (omega arith)

test_empty_reslist :
    empty_reslist 1 nested
    ≡ done tt (record nested {
      resources = held_cleanup 5 0 9 ∷ list_at 1 0 false ∷ [];
      ran = 7 ∷ 8 ∷ [];
    })
unfolding empty_reslist empty_loop reslist_first first_in cleanup_destroy reslist_remove at_address
    unlink
test_empty_reslist = refl

abbrev start : Process
start = record { resources = []; current = 0; errh = none; next = 1; ran = [] }

abbrev has_memory : ℕ → Bool
has_memory a = true

abbrev out_of_memory : ℕ → Bool
out_of_memory a = false

abbrev no_free : ℕ → ℕ
no_free mem = mem

-- In the body, after an allocation.
abbrev inside_body : Process
inside_body = record {
  resources = held_cleanup 2 1 3 ∷ list_at 1 0 false ∷ [];
  current = 1;
  errh = some (handler true false 0 1);
  next = 4;
  ran = [];
}

inside_body-Handling : Handling 1 0 inside_body
unfolding at_address
inside_body-Handling = record {
  entry = list_at 1 0 false;
  there = refl;
  kind = refl;
  owner = refl;
  inside = omega arith;
  given = omega arith;
  well_formed = record {
    placed = (omega arith, ((omega arith, omega arith), tt));
    unique = (refl, (refl, tt));
    below = omega arith;
  };
}

abbrev allocates : Process → Sys Process (Option (Unit {0}))
allocates p = unless_jumped (xalloc has_memory has_memory no_free p) λ mem p'. done (some tt) p'

abbrev dies : Process → Sys Process (Option (Unit {0}))
dies p =
    unless_jumped (xalloc has_memory has_memory no_free p)
      λ mem p'. diev has_memory has_memory no_free 5 p'

catch_error-die_example :
    Caught 1 0 5 none inside_body
      (catch_error has_memory has_memory no_free dies true false 0 start)
unfolding xalloc cleanup_allocate cleanup_commit at_address reslist_remove unlink scoped_push
    reslist_init
catch_error-die_example =
    catch_error-die has_memory has_memory no_free dies true false 0 5 start inside_body
      (handler true false 0 1) refl refl refl refl inside_body-Handling

catch_error-return_example :
    Returned 1 0 0 none inside_body
      (catch_error has_memory has_memory no_free allocates true false 0 start)
unfolding xalloc cleanup_allocate cleanup_commit at_address reslist_remove unlink scoped_push
    reslist_init
catch_error-return_example =
    catch_error-return has_memory has_memory no_free allocates true false 0 start inside_body
      (handler true false 0 1) refl refl refl inside_body-Handling

-- The list 1 has two cleanups, with one of the list 0 between them.
abbrev plain : Process
plain = record {
  resources = held_cleanup 4 1 8 ∷ held_cleanup 3 0 9 ∷ held_cleanup 2 1 7 ∷ list_at 1 0 false ∷ [];
  current = 1;
  errh = none;
  next = 5;
  ran = [];
}

empty_reslist_spills_example :
    empty_reslist 1 plain
    ≡ done tt
        (record plain { resources = held_cleanup 3 0 9 ∷ list_at 1 0 false ∷ []; ran = 7 ∷ 8 ∷ [] })
unfolding at_address filter spill
empty_reslist_spills_example =
    empty_reslist_spills 1 plain (refl, (refl, (refl, (refl, tt)))) (tt, (tt, (tt, (refl, tt))))

-- The memory is missing once the cleanup is there, so that the body's list is emptied.
xalloc_lem_example :
    (((has_memory 4 && out_of_memory 5) ≡ true)
      × (xalloc has_memory out_of_memory no_free inside_body
          ≡ done (some 5) (with_memory no_free inside_body))
      × Sound (with_memory no_free inside_body))
    ⊎ (((has_memory 4 && out_of_memory 5) ≡ false)
        × NoMemory inside_body.errh (xalloc has_memory out_of_memory no_free inside_body))
xalloc_lem_example =
    xalloc_lem has_memory out_of_memory no_free inside_body
      (record { well_formed = inside_body-Handling.well_formed; handled = omega arith })
