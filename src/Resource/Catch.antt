-- ===== src/Resource/Catch.antt =====
-- util.c: allocations that a cleanup guards, `die` and `catch_error`. A call that leaves by siglongjmp to
-- the current handler returns none. `free` is the function free with the memory at an address. Not
-- here: the message's text, error converters, and the signals that diev lets in.
use fb_adb.Prelude.{
  ℕ, suc, ◌^◌, ◌-◌, ◌==◌, Bool, true, false, ◌&&◌, Option, none, some, if◌then◌else◌,
}
use fb_adb.Outcome.{Outcome, ok, aborted, fault, ◌>>=◌, ◌>>◌, assert, enomem}
use fb_adb.Fs.{Sys, done, left_by, then_sys, of_outcome}
use fb_adb.Resource.{
  Kind, cleanup, reslist, Handler, Process, at_address, reslist_remove, insert_head, reslist_init,
  cleanup_destroy, empty_reslist, parent_of, scoped_push, scoped_pop, reslist_xfer,
}

-- ERR_ERRNO_WAS_ZERO, an int that is -1.
abbrev pub err_errno_was_zero : ℕ
err_errno_was_zero = 2 ^ 32 - 1

-- `err ?: ERR_ERRNO_WAS_ZERO`.
abbrev pub errno_or : ℕ → ℕ
errno_or err = if err == 0 then err_errno_was_zero else err

abbrev pub unset : Kind → Bool
unset (cleanup none) = true
unset (cleanup (some fn)) = false
unset (reslist onheap parent) = false

-- A cleanup that is not linked was freed.
unfoldable pub cleanup_commit : ℕ → Option ℕ → Process → Outcome Process
cleanup_commit cl fn p = elim (at_address cl p.resources) [
  | none ↦ fault
  | some r ↦
      assert (unset r.kind)
      >> (reslist_remove cl p >>= λ p'.
          ok (insert_head (record { address = cl; owner = p'.current; kind = cleanup fn }) p'))
]

unfoldable pub cleanup_forget : Option ℕ → Process → Outcome Process
cleanup_forget none p = ok p
cleanup_forget (some cl) p = cleanup_destroy cl none p

unfoldable pub reslist_guard_push : ℕ → Process → ℕ × Process
reslist_guard_push rl p = (p.current, record p { current = rl })

unfoldable pub reslist_guard_pop : ℕ → Process → Process
reslist_guard_pop saved_rl p = record p { current = saved_rl }

-- What a call does that a jump skips.
abbrev pub unless_jumped :
    {A B : Type 0}
    → Sys Process (Option A)
    → (A → Process → Sys Process (Option B))
    → Sys Process (Option B)
unless_jumped s f = then_sys s λ r p. elim r [ none ↦ done none p | some a ↦ f a p ]

-- `current_errh->ei->err = err`, where there is an `ei`.
abbrev pub with_err : ℕ → Handler → Handler
with_err err h = if h.has_info then record h { err = err } else h

-- `empty_reslist(current_errh->rl); siglongjmp(current_errh->where, 1);`.
abbrev pub unwind : {A : Type 0} → Handler → Process → Sys Process (Option A)
unwind h p = then_sys (empty_reslist h.rl (record p { errh = some h })) λ _ p'. done none p'

abbrev pub die_oom_under : {A : Type 0} → Option Handler → Process → Sys Process (Option A)
die_oom_under none p = left_by aborted
die_oom_under (some h) p = unwind (with_err enomem h) p

unfoldable pub die_oom : {A : Type 0} → Process → Sys Process (Option A)
die_oom p = die_oom_under p.errh p

abbrev pub err_of : Option Handler → ℕ
err_of none = 0
err_of (some h) = h.err

abbrev pub put_off : ℕ → ℕ → Handler → Process → Process
put_off err err' h p = record p { errh = some (record (with_err err' h) { deferred_error = err }) }

-- What calloc and malloc answer at the next address, and the function free at one.
module _ (calloc malloc : ℕ → Bool) (free : ℕ → ℕ) where
  unfoldable pub cleanup_allocate : Process → Sys Process (Option ℕ)
  cleanup_allocate p =
      if calloc p.next
      then done (some p.next)
          (record (insert_head (record { address = p.next; owner = p.current; kind = cleanup none })
            p) { next = suc p.next })
      else die_oom p

  unfoldable pub reslist_create : Process → Sys Process (Option ℕ)
  reslist_create p =
      if malloc p.next
      then done (some p.next) (record (reslist_init p.next p.current true p) { next = suc p.next })
      else die_oom p

  unfoldable pub xalloc : Process → Sys Process (Option ℕ)
  xalloc p = unless_jumped (cleanup_allocate p) λ cl p'.
      if malloc p'.next
      then of_outcome (cleanup_commit cl (some (free p'.next)) (record p' { next = suc p'.next }))
          (λ p''. done (some p'.next) p'')
      else die_oom p'

  -- The message and the program's name, in the list around the handler's.
  abbrev pub message : Handler → Process → Sys Process (Option (Unit {0}))
  message h p = of_outcome (parent_of h.rl p) λ parent.
      let (saved_rl, p') = reslist_guard_push parent p in
      unless_jumped (xalloc p') λ msg p''.
        unless_jumped (xalloc p'') λ name p'''. done (some tt) (reslist_guard_pop saved_rl p''')

  -- diev, once no error is deferred.
  unfoldable pub die_with : {A : Type 0} → ℕ → Handler → Process → Sys Process (Option A)
  die_with err h p =
      let h' = with_err (errno_or err) h in
      let p' = record p { errh = some h' } in
      if h.has_info && h.want_msg
      then unless_jumped (message h' p') (λ _ p''. unwind h' p'')
      else unwind h' p'

  unfoldable pub check_deferred : Option Handler → Process → Sys Process (Option (Unit {0}))
  check_deferred none p = left_by fault
  check_deferred (some h) p =
      if h.deferred_error == 0
      then done (some tt) p
      else die_with h.deferred_error (record h { deferred_error = 0 }) p

  unfoldable pub check_deferred_errors : Process → Sys Process (Option (Unit {0}))
  check_deferred_errors p = check_deferred p.errh p

  unfoldable pub die_under : {A : Type 0} → Option Handler → ℕ → Process → Sys Process (Option A)
  die_under none err p = left_by aborted
  die_under (some h) err p = unless_jumped (check_deferred (some h) p) λ _ p'. die_with err h p'

  unfoldable pub diev : {A : Type 0} → ℕ → Process → Sys Process (Option A)
  diev err p = die_under p.errh err p

  -- The result with what `ei->err` holds then.
  abbrev pub leave_catch : Option Handler → ℕ → Bool → Process → Sys Process (Bool × ℕ)
  leave_catch old_errh rl error p =
      then_sys (scoped_pop rl (record p { errh = old_errh })) λ _ p'. done (error, err_of p.errh) p'

  abbrev pub on_return : Option Handler → ℕ → Process → Sys Process (Bool × ℕ)
  on_return old_errh rl p = then_sys (check_deferred_errors p) λ r p'. elim r [
    | none ↦ leave_catch old_errh rl true p'
    | some _ ↦
        of_outcome (parent_of rl p')
          λ parent. leave_catch old_errh rl false (reslist_xfer parent rl p')
  ]

  unfoldable pub catch_error :
      (Process → Sys Process (Option (Unit {0})))
      → Bool
      → Bool
      → ℕ
      → Process
      → Sys Process (Bool × ℕ)
  catch_error fn has_info want_msg err p =
      let errh : Handler = record {
        rl = p.next;
        has_info = has_info;
        want_msg = want_msg;
        err = err;
        deferred_error = 0;
      } in
      then_sys (fn (record (scoped_push p) { errh = some errh })) λ r p'. elim r [
        | none ↦ leave_catch p.errh p.next true p'
        | some _ ↦ on_return p.errh p.next p'
      ]

  -- die_rethrow dies again with the error.
  unfoldable pub catch_one_error :
      (Process → Sys Process (Option (Unit {0}))) → ℕ → Process → Sys Process (Option Bool)
  catch_one_error fn errnum p = then_sys (catch_error fn true true 0 p) λ (error, err) p'.
      if error
      then (if err == errnum then done (some true) p' else diev err p')
      else done (some false) p'

  -- The message is made in the list around the handler's, and its failure is caught with the same `ei`.
  unfoldable pub deferred_die : ℕ → Process → Sys Process (Unit {0})
  deferred_die err p = elim p.errh [
    | none ↦ left_by aborted
    | some h ↦
        let err' = errno_or err in
        if h.has_info && h.want_msg
        then of_outcome (parent_of h.rl p) (λ parent.
          let (saved_rl, p') = reslist_guard_push parent p in
          then_sys
            (catch_error (λ p''. unless_jumped (xalloc p'') (λ msg p'''. done (some tt) p''')) true
              true err' p')
            (λ (error, err'') p''. done tt (put_off err' err'' h (reslist_guard_pop saved_rl p''))))
        else done tt (put_off err' err' h p)
  ]
