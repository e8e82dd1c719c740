-- ===== src/Resource/Return.antt =====
-- util.c: `catch_error` with a body that returns.
use fb_adb.Prelude.{
  ℕ, ◌≡◌, refl, ap, ap₂, ◌∙◌, arith, Bool, true, false, not, Option, none, some, List, ◌++◌, ◌==◌,
}
use fb_adb.Outcome.{ok}
use fb_adb.Fs.{Sys, done}
use fb_adb.Resource.{
  Resource, Handler, Process, owned, first_in, at_address, unlink, filter, given_to, parent_of,
  scoped_push, reslist_xfer,
}
use fb_adb.Resource.Order.{unlink-gone}
use fb_adb.Resource.Filter.{
  filter-Unique, filter-left, filter-kept, unlink-nothing, filter-unlink, filter-append,
  at_address-append, unlink-append, given_to-absent, filter-given_to, filter-given_to-other,
  filter-filter, first_in-filter, filter-none,
}
use fb_adb.Resource.Catch.{err_of, check_deferred, check_deferred_errors, leave_catch, catch_error}
use fb_adb.Resource.Handle.{Handling, handler, scoped_pop-empty}

abbrev others : ℕ → List Resource → List Resource
others rl rs = filter (λ r. not (owned rl r)) rs

moved : ℕ → ℕ → List Resource → List Resource
moved outer rl rs = given_to outer (filter (owned rl) rs) ++ others rl rs

apart : (rl outer : ℕ) (p : Process) → Handling rl outer p → (outer == rl) ≡ false
apart rl outer p w = ground (arith, w.inside)

-- The list's own entry is not among what it gives away.
entry-absent :
    (rl outer : ℕ) (p : Process)
    → Handling rl outer p
    → at_address rl (given_to outer (filter (owned rl) p.resources)) ≡ none
entry-absent rl outer p w = given_to-absent rl outer (filter (owned rl) p.resources) (
    filter-left (owned rl) rl p.resources w.entry w.well_formed.unique w.there
      (ground (arith, w.inside, w.owner)))

entry-there :
    (rl outer : ℕ) (p : Process) (w : Handling rl outer p)
    → at_address rl (moved outer rl p.resources) ≡ some w.entry
unfolding moved
entry-there rl outer p w =
    at_address-append rl (given_to outer (filter (owned rl) p.resources)) (others rl p.resources)
      (entry-absent rl outer p w)
    ∙ filter-kept (λ r. not (owned rl r)) rl p.resources w.entry w.there
        (ground (arith, w.inside, w.owner))

moved-empty :
    (rl outer : ℕ) (rs : List Resource)
    → (outer == rl) ≡ false
    → first_in rl (moved outer rl rs) ≡ none
unfolding moved
moved-empty rl outer rs e = first_in-filter rl (moved outer rl rs) (
    filter-append (owned rl) (given_to outer (filter (owned rl) rs)) (others rl rs)
    ∙ ap₂ (λ xs ys. xs ++ ys) (filter-given_to-other rl outer (filter (owned rl) rs) e)
        (filter-none rl rs))

-- What a list owns once the members have moved and the list is unlinked.
members :
    (x rl outer : ℕ) (p : Process)
    → Handling rl outer p
    → (x == rl) ≡ false
    → filter (owned x) (unlink rl (moved outer rl p.resources))
      ≡ filter (owned x) (given_to outer (filter (owned rl) p.resources))
        ++ unlink rl (filter (owned x) p.resources)
unfolding moved
members x rl outer p w e =
    let given = given_to outer (filter (owned rl) p.resources) in
    let rest = others rl p.resources in
    ap (filter (owned x)) (unlink-append rl given rest (entry-absent rl outer p w))
    ∙ filter-append (owned x) given (unlink rl rest)
    ∙ ap (λ ys. filter (owned x) given ++ ys)
        (filter-unlink (owned x) rl rest
            (filter-Unique (λ r. not (owned rl r)) p.resources w.well_formed.unique)
          ∙ ap (unlink rl) (filter-filter x rl p.resources e))

-- No error is reported, the caller's list and handler are current again, nothing was run, the caller's list
-- has the members of the body's list in their order, in front of what it had, without the body's list, which is
-- gone, and every other list has what it had.
pub record Returned (rl outer err : ℕ) (old_errh : Option Handler) (p : Process)
    (result : Sys Process (Bool × ℕ)) : Type 0 where
  pub after : Process
  pub returned : result ≡ done (false, err) after
  pub current : after.current ≡ outer
  pub errh : after.errh ≡ old_errh
  pub next : after.next ≡ p.next
  pub ran : after.ran ≡ p.ran
  pub gone : at_address rl after.resources ≡ none
  pub given :
      filter (owned outer) after.resources
      ≡ given_to outer (filter (owned rl) p.resources)
        ++ unlink rl (filter (owned outer) p.resources)
  pub elsewhere :
      (x : ℕ)
      → (x == rl) ≡ false
      → (x == outer) ≡ false
      → filter (owned x) after.resources ≡ filter (owned x) p.resources

moved-gone :
    (rl outer : ℕ) (p : Process)
    → Handling rl outer p
    → at_address rl (unlink rl (moved outer rl p.resources)) ≡ none
unfolding moved
moved-gone rl outer p w =
    let given = given_to outer (filter (owned rl) p.resources) in
    let rest = others rl p.resources in
    let absent = entry-absent rl outer p w in
    ap (at_address rl) (unlink-append rl given rest absent)
    ∙ at_address-append rl given (unlink rl rest) absent
    ∙ unlink-gone rl rest (filter-Unique (λ r. not (owned rl r)) p.resources w.well_formed.unique)

moved-elsewhere :
    (x rl outer : ℕ) (p : Process)
    → Handling rl outer p
    → (x == rl) ≡ false
    → (x == outer) ≡ false
    → filter (owned x) (unlink rl (moved outer rl p.resources)) ≡ filter (owned x) p.resources
moved-elsewhere x rl outer p w e f =
    members x rl outer p w e
    ∙ ap₂ (λ xs ys. xs ++ ys)
        (filter-given_to-other x outer (filter (owned rl) p.resources) (ground (arith, f)))
        (unlink-nothing rl (filter (owned x) p.resources) (
          filter-left (owned x) rl p.resources w.entry w.well_formed.unique w.there
            (ground (arith, f, w.owner))))

check_deferred_errors-none :
    (calloc malloc : ℕ → Bool) (free : ℕ → ℕ) (h : Handler) (p : Process)
    → p.errh ≡ some h
    → (h.deferred_error == 0) ≡ true
    → check_deferred_errors calloc malloc free p ≡ done (some tt) p
unfolding check_deferred_errors check_deferred
check_deferred_errors-none calloc malloc free h p e d =
    ap (λ o. check_deferred calloc malloc free o p) e ∙ rw d refl

parent_of-Handling : (rl outer : ℕ) (p : Process) → Handling rl outer p → parent_of rl p ≡ ok outer
unfolding parent_of
parent_of-Handling rl outer p w = rw (w.there, w.kind) refl

leave_catch-return :
    (calloc malloc : ℕ → Bool) (free : ℕ → ℕ) (rl outer : ℕ) (old_errh : Option Handler)
    (h : Handler) (p : Process)
    → p.errh ≡ some h
    → Handling rl outer p
    → leave_catch calloc malloc free old_errh rl false (reslist_xfer outer rl p)
      ≡ done
          (false, h.err)
          (record p {
            resources = unlink rl (moved outer rl p.resources);
            current = outer;
            errh = old_errh;
          })
unfolding reslist_xfer moved
leave_catch-return calloc malloc free rl outer old_errh h p e w =
    rw
      (scoped_pop-empty rl (record (reslist_xfer outer rl p) { errh = old_errh }) w.entry false
        outer (entry-there rl outer p w) w.kind
        (moved-empty rl outer p.resources (apart rl outer p w)))
      (ap
        (λ o.
          done (false, err_of o)
            (record p {
              resources = unlink rl (moved outer rl p.resources);
              current = outer;
              errh = old_errh;
            }))
        e)

-- Where the body returns under the handler of its `catch_error`, with its list there and no error
-- deferred, catch_error returns false and runs nothing. The caller's list and handler are current again; the
-- caller's list has the members of the body's list in their order, in front of what it had, without the body's
-- list, which is gone; and every other list has what it had.
pub catch_error-return :
    (calloc malloc : ℕ → Bool) (free : ℕ → ℕ) (fn : Process → Sys Process (Option (Unit {0})))
    (has_info want_msg : Bool) (err0 : ℕ) (p p' : Process) (h : Handler)
    → fn (record (scoped_push p) { errh = some (handler has_info want_msg err0 p.next) })
      ≡ done (some tt) p'
    → p'.errh ≡ some h
    → (h.deferred_error == 0) ≡ true
    → Handling p.next p.current p'
    → Returned p.next p.current h.err p.errh p'
        (catch_error calloc malloc free fn has_info want_msg err0 p)
unfolding catch_error
catch_error-return calloc malloc free fn has_info want_msg err0 p p' h ends e d w =
    let rl = p.next in
    let outer = p.current in
    record {
      after = record p' {
        resources = unlink rl (moved outer rl p'.resources);
        current = outer;
        errh = p.errh;
      };
      returned =
          rw
            (
              ends,
              check_deferred_errors-none calloc malloc free h p' e d,
              parent_of-Handling rl outer p' w,
            )
            (leave_catch-return calloc malloc free rl outer p.errh h p' e w);
      current = refl;
      errh = refl;
      next = refl;
      ran = refl;
      gone = moved-gone rl outer p' w;
      given =
          members outer rl outer p' w (apart rl outer p' w)
          ∙ ap (λ xs. xs ++ unlink rl (filter (owned outer) p'.resources))
              (filter-given_to outer (filter (owned rl) p'.resources));
      elsewhere = λ x e f. moved-elsewhere x rl outer p' w e f;
    }
