-- ===== src/Resource/Die.antt =====
-- util.c: `catch_error` with a body that dies, runs out of memory, or defers an error.
use fb_adb.Prelude.{
  ℕ, ◌≡◌, refl, ap, ◌∙◌, arith, Bool, true, false, ◌&&◌, inl, inr, Bool-cases, Option, none, some,
  ◌==◌, if◌then◌else◌,
}
use fb_adb.Outcome.{enomem}
use fb_adb.Fs.{Sys, done, left_by, spinning, then_sys, of_outcome}
use fb_adb.Resource.{Handler, Process, empty_reslist, parent_of, scoped_push, reslist_xfer}
use fb_adb.Resource.Catch.{
  errno_or, unless_jumped, with_err, unwind, die_with, check_deferred, check_deferred_errors,
  die_under, diev, leave_catch, on_return, catch_error, die_oom_under, die_oom,
}
use fb_adb.Resource.Handle.{Handling, Caught, handler, Caught-at}

die_with-unwind :
    (calloc malloc : ℕ → Bool) (free : ℕ → ℕ) (err : ℕ) (h : Handler) (p : Process)
    → (h.has_info && h.want_msg) ≡ false
    → die_with calloc malloc free {A = Unit {0}} err h p ≡ unwind (with_err (errno_or err) h) p
unfolding die_with
die_with-unwind calloc malloc free err h p quiet = rw quiet refl

-- A deferred error stands in for the one at hand.
abbrev pub met_by : ℕ → Handler → Handler
met_by err h =
    with_err (errno_or (if h.deferred_error == 0 then err else h.deferred_error))
      (record h { deferred_error = 0 })

abbrev deferring : ℕ → ℕ → Handler → Handler
deferring err d h = with_err (errno_or err) (record h { deferred_error = d })

-- A jump goes on jumping.
jump_on :
    (s : Sys Process (Unit {0})) (f : Unit {0} → Process → Sys Process (Option (Unit {0})))
    → unless_jumped (then_sys s λ _ p. done none p) f ≡ then_sys s λ _ p. done none p
jump_on (done _ p) f = refl
jump_on (left_by o) f = refl
jump_on spinning f = refl

deferred-unwind :
    (calloc malloc : ℕ → Bool) (free : ℕ → ℕ) (err : ℕ) (h : Handler) (p : Process) (b : Bool)
    → (h.deferred_error == 0) ≡ b
    → (h.has_info && h.want_msg) ≡ false
    → die_under calloc malloc free {A = Unit {0}} (some h) err p ≡ unwind (met_by err h) p
unfolding die_under check_deferred
deferred-unwind calloc malloc free err h p true d quiet =
    let cleared : h.deferred_error ≡ 0 = ground (arith, d) in
    rw (d, die_with-unwind calloc malloc free err h p quiet)
      (ap (λ n. unwind (deferring err n h) p) cleared)
deferred-unwind calloc malloc free err h p false d quiet =
    let stands = with_err (errno_or h.deferred_error) (record h { deferred_error = 0 }) in
    rw
      (
        d,
        die_with-unwind calloc malloc free h.deferred_error (record h { deferred_error = 0 }) p
            quiet,
      )
      (jump_on (empty_reslist (stands).rl (record p { errh = some (stands) }))
        λ _ p'. die_with calloc malloc free err h p')

diev-unwind :
    (calloc malloc : ℕ → Bool) (free : ℕ → ℕ) (err : ℕ) (h : Handler) (p : Process)
    → p.errh ≡ some h
    → (h.has_info && h.want_msg) ≡ false
    → diev calloc malloc free {A = Unit {0}} err p ≡ unwind (met_by err h) p
unfolding diev
diev-unwind calloc malloc free err h p e quiet =
    ap (λ o. die_under calloc malloc free {A = Unit {0}} o err p) e
    ∙ deferred-unwind calloc malloc free err h p (h.deferred_error == 0) refl quiet

pub with_err_rl : (err : ℕ) (h : Handler) → (with_err err h).rl ≡ h.rl
with_err_rl err h = elim (Bool-cases h.has_info) [ inl e ↦ rw e refl | inr e ↦ rw e refl ]

met_by_rl : (err : ℕ) (h : Handler) → (met_by err h).rl ≡ h.rl
met_by_rl err h =
    with_err_rl (errno_or (if h.deferred_error == 0 then err else h.deferred_error))
      (record h { deferred_error = 0 })

-- Where the body dies, under the handler of its `catch_error` and with its list there, and the handler
-- has no `errinfo` or one that wants no message, catch_error returns, and true. The error is the
-- deferred one where there is one, -1 in place of 0, and left as it was without an `errinfo`. The caller's
-- list and handler are current again, the body's list is gone and nothing is in it, what no list in it owned
-- is where it was, and no cleanup is lost or run twice.
pub catch_error-die :
    (calloc malloc : ℕ → Bool) (free : ℕ → ℕ) (fn : Process → Sys Process (Option (Unit {0})))
    (has_info want_msg : Bool) (err0 err : ℕ) (p p' : Process) (h : Handler)
    → fn (record (scoped_push p) { errh = some (handler has_info want_msg err0 p.next) })
      ≡ diev calloc malloc free err p'
    → p'.errh ≡ some h
    → h.rl ≡ p.next
    → (h.has_info && h.want_msg) ≡ false
    → Handling p.next p.current p'
    → Caught p.next p.current
        (met_by err h).err
        p.errh
        p'
        (catch_error calloc malloc free fn has_info want_msg err0 p)
unfolding catch_error
catch_error-die calloc malloc free fn has_info want_msg err0 err p p' h ends e its quiet w =
    rw (ends, diev-unwind calloc malloc free err h p' e quiet)
      (Caught-at calloc malloc free p.next p.current p.errh (met_by err h) p'
        (met_by_rl err h ∙ its) w λ p''. on_return calloc malloc free p.errh p.next p'')

die_oom-unwind :
    (h : Handler) (p : Process)
    → p.errh ≡ some h
    → die_oom {A = Unit {0}} p ≡ unwind (with_err enomem h) p
unfolding die_oom
die_oom-unwind h p e = ap (λ o. die_oom_under {A = Unit {0}} o p) e

-- Where an allocation fails in the body, catch_error returns, and true, with ENOMEM where it has an
-- `errinfo`, whether that wants a message or not. Its effect on lists, handlers and cleanups is that of
-- a body that dies.
pub catch_error-die_oom :
    (calloc malloc : ℕ → Bool) (free : ℕ → ℕ) (fn : Process → Sys Process (Option (Unit {0})))
    (has_info want_msg : Bool) (err0 : ℕ) (p p' : Process) (h : Handler)
    → fn (record (scoped_push p) { errh = some (handler has_info want_msg err0 p.next) })
      ≡ die_oom p'
    → p'.errh ≡ some h
    → h.rl ≡ p.next
    → Handling p.next p.current p'
    → Caught p.next p.current
        (with_err enomem h).err
        p.errh
        p'
        (catch_error calloc malloc free fn has_info want_msg err0 p)
unfolding catch_error
catch_error-die_oom calloc malloc free fn has_info want_msg err0 p p' h ends e its w =
    rw (ends, die_oom-unwind h p' e)
      (Caught-at calloc malloc free p.next p.current p.errh (with_err enomem h) p'
        (with_err_rl enomem h ∙ its) w λ p''. on_return calloc malloc free p.errh p.next p'')

check_deferred_errors-unwind :
    (calloc malloc : ℕ → Bool) (free : ℕ → ℕ) (h : Handler) (p : Process)
    → p.errh ≡ some h
    → (h.deferred_error == 0) ≡ false
    → (h.has_info && h.want_msg) ≡ false
    → check_deferred_errors calloc malloc free p ≡ unwind (met_by 0 h) p
unfolding check_deferred_errors check_deferred
check_deferred_errors-unwind calloc malloc free h p e d quiet =
    ap (λ o. check_deferred calloc malloc free o p) e
    ∙ rw
        (
          d,
          die_with-unwind calloc malloc free h.deferred_error (record h { deferred_error = 0 }) p
              quiet,
        )
        refl

-- Where the body returns with an error deferred, catch_error returns true and reports that one.
pub catch_error-deferred :
    (calloc malloc : ℕ → Bool) (free : ℕ → ℕ) (fn : Process → Sys Process (Option (Unit {0})))
    (has_info want_msg : Bool) (err0 : ℕ) (p p' : Process) (h : Handler)
    → fn (record (scoped_push p) { errh = some (handler has_info want_msg err0 p.next) })
      ≡ done (some tt) p'
    → p'.errh ≡ some h
    → h.rl ≡ p.next
    → (h.deferred_error == 0) ≡ false
    → (h.has_info && h.want_msg) ≡ false
    → Handling p.next p.current p'
    → Caught p.next p.current
        (met_by 0 h).err
        p.errh
        p'
        (catch_error calloc malloc free fn has_info want_msg err0 p)
unfolding catch_error
catch_error-deferred calloc malloc free fn has_info want_msg err0 p p' h ends e its d quiet w =
    rw (ends, check_deferred_errors-unwind calloc malloc free h p' e d quiet)
      (Caught-at calloc malloc free p.next p.current p.errh (met_by 0 h) p' (met_by_rl 0 h ∙ its) w
        λ p''. of_outcome (parent_of p.next p'') λ parent.
          leave_catch calloc malloc free p.errh p.next false (reslist_xfer parent p.next p''))
