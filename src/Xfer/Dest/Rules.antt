-- ===== src/Xfer/Dest/Rules.antt =====
-- xfer.c: the rules by which a run keeps to the protocol of an atomic transfer.
use fb_adb.Prelude.{ℕ, Bool, true, false, ◌≡◌, refl, List, [], ◌∷◌, ◌++◌, Bytes, if◌then◌else◌}
use fb_adb.Outcome.{Errno, Outcome, ok, died, aborted, fault}
use fb_adb.Fs.{Sys, done, left_by, spinning}
use fb_adb.Xfer.{Stat}
use fb_adb.Xfer.Calls.{
  Syscall, Answer, refused_with, gave, Event, called, unlinked, Run, plain, after, then_run, decide,
  cleanup_at, with_unlink_cleanup, try_call, must_call, event_of, on_answer,
}
use fb_adb.Xfer.Dest.Protocol.{
  Phase, begun, temporary_open, temporary_full, published, dropped, Step, fails, drops_open,
  drops_full, drops_none, Steps, stop, next, Settled, Made, EndsIn, Runs,
}

pub Steps-append :
    {temporary filename parent : Bytes} {p q r : Phase} {es fs : List Event}
    → Steps temporary filename parent p es q
    → Steps temporary filename parent q fs r
    → Steps temporary filename parent p (es ++ fs) r
Steps-append stop more = more
Steps-append (next s rest) more = next s (Steps-append rest more)

module _ {K : Type 0} {temporary filename parent : Bytes} where
  after_rule :
      {A B : Type 0} {p q : Phase} {Q : A → Phase → Type 0} {R : B → Phase → Type 0}
      {D : Phase → Type 0} (log : List Event) (end : Sys K A) (f : A → K → Run K B)
      → Steps temporary filename parent p log q
      → EndsIn Q D end q
      → ((a : A) (k : K) (q : Phase) → Q a q → Runs temporary filename parent q R D (f a k))
      → Runs temporary filename parent p R D (after log end f)
  after_rule {q = q} log (done a k) f steps e rest =
      let later = rest a k q e in
      record { phase = later.phase; steps = Steps-append steps later.steps; ends = later.ends }
  after_rule {q = q} log (left_by (ok u)) f steps e rest = record {
    phase = q;
    steps = steps;
    ends = tt;
  }
  after_rule {q = q} log (left_by (died x)) f steps e rest = record {
    phase = q;
    steps = steps;
    ends = e;
  }
  after_rule {q = q} log (left_by aborted) f steps e rest = record {
    phase = q;
    steps = steps;
    ends = tt;
  }
  after_rule {q = q} log (left_by fault) f steps e rest = record {
    phase = q;
    steps = steps;
    ends = tt;
  }
  after_rule {q = q} log spinning f steps e rest = record { phase = q; steps = steps; ends = tt }

  pub then_rule :
      {A B : Type 0} {p : Phase} {Q : A → Phase → Type 0} {R : B → Phase → Type 0}
      {D : Phase → Type 0} {m : Run K A} {f : A → K → Run K B}
      → Runs temporary filename parent p Q D m
      → ((a : A) (k : K) (q : Phase) → Q a q → Runs temporary filename parent q R D (f a k))
      → Runs temporary filename parent p R D (then_run m f)
  unfolding then_run
  then_rule {m = m} {f = f} first rest = after_rule m.log m.end f first.steps first.ends rest

  -- After a run that returns in one phase only.
  pub then_at :
      {A B : Type 0} {p r : Phase} {R : B → Phase → Type 0} {D : Phase → Type 0} {m : Run K A}
      {f : A → K → Run K B}
      → Runs temporary filename parent p (λ a q. q ≡ r) D m
      → ((a : A) (k : K) → Runs temporary filename parent r R D (f a k))
      → Runs temporary filename parent p R D (then_run m f)
  then_at first rest = then_rule first λ a k q e. rw e (rest a k)

  pub plain_rule :
      {A : Type 0} {p : Phase} {D : Phase → Type 0}
      → D p
      → (m : Sys K A) → Runs temporary filename parent p (λ a q. q ≡ p) D (plain m)
  plain_rule {p = p} d (done a k) = record { phase = p; steps = stop; ends = refl }
  plain_rule {p = p} d (left_by (ok u)) = record { phase = p; steps = stop; ends = tt }
  plain_rule {p = p} d (left_by (died x)) = record { phase = p; steps = stop; ends = d }
  plain_rule {p = p} d (left_by aborted) = record { phase = p; steps = stop; ends = tt }
  plain_rule {p = p} d (left_by fault) = record { phase = p; steps = stop; ends = tt }
  plain_rule {p = p} d spinning = record { phase = p; steps = stop; ends = tt }

  pub decide_rule :
      {A : Type 0} {p : Phase} {D : Phase → Type 0}
      → D p
      → (o : Outcome A) (k : K)
      → Runs temporary filename parent p (λ a q. (q ≡ p) × (o ≡ ok a)) D (decide o k)
  decide_rule {p = p} d (ok a) k = record { phase = p; steps = stop; ends = (refl, refl) }
  decide_rule {p = p} d (died x) k = record { phase = p; steps = stop; ends = d }
  decide_rule {p = p} d aborted k = record { phase = p; steps = stop; ends = tt }
  decide_rule {p = p} d fault k = record { phase = p; steps = stop; ends = tt }

  pub decide_plain :
      {A : Type 0} {p : Phase} {D : Phase → Type 0}
      → D p
      → (o : Outcome A) (k : K) → Runs temporary filename parent p (λ a q. q ≡ p) D (decide o k)
  decide_plain {p = p} d (ok a) k = record { phase = p; steps = stop; ends = refl }
  decide_plain {p = p} d (died x) k = record { phase = p; steps = stop; ends = d }
  decide_plain {p = p} d aborted k = record { phase = p; steps = stop; ends = tt }
  decide_plain {p = p} d fault k = record { phase = p; steps = stop; ends = tt }

  pub if_rule :
      {A : Type 0} {p : Phase} {Q : A → Phase → Type 0} {D : Phase → Type 0} {m n : Run K A}
      (b : Bool)
      → Runs temporary filename parent p Q D m
      → Runs temporary filename parent p Q D n
      → Runs temporary filename parent p Q D (if b then m else n)
  if_rule true r q = r
  if_rule false r q = q

  pub cleanup_rule :
      {A : Type 0} {p : Phase} {m : Run K A}
      → Runs temporary filename parent p (λ a q. q ≡ published) Made m
      → Runs temporary filename parent p
          (λ a q. q ≡ published)
          Settled
          (with_unlink_cleanup true temporary m)
  unfolding with_unlink_cleanup
  cleanup_rule {m = m} r = closed m.log m.end r.phase r.steps r.ends
    where
      dropped_now :
          {p : Phase} (log : List Event) (q : Phase)
          → Steps temporary filename parent p log q
          → Made q
          → (r : Phase) × Steps temporary filename parent p (log ++ unlinked temporary ∷ []) r
            × Settled r
      dropped_now log (temporary_open fd) steps e =
          (dropped, Steps-append steps (next drops_open stop), tt)
      dropped_now log (temporary_full fd) steps e =
          (dropped, Steps-append steps (next drops_full stop), tt)
      dropped_now log published steps e = (published, Steps-append steps (next drops_none stop), tt)
      dropped_now log begun steps e = absurd e
      dropped_now log dropped steps e = absurd e

      closed :
          {A : Type 0} {p : Phase} (log : List Event) (end : Sys K A) (q : Phase)
          → Steps temporary filename parent p log q
          → EndsIn (λ a q. q ≡ published) Made end q
          → Runs temporary filename parent p
              (λ a q. q ≡ published)
              Settled
              (cleanup_at true temporary log end)
      closed log (done a k) q steps e = record { phase = q; steps = steps; ends = e }
      closed log (left_by (ok u)) q steps e = record { phase = q; steps = steps; ends = tt }
      closed log (left_by (died x)) q steps e =
          let (r, steps', settled) = dropped_now log q steps e in
          record { phase = r; steps = steps'; ends = settled }
      closed log (left_by aborted) q steps e = record { phase = q; steps = steps; ends = tt }
      closed log (left_by fault) q steps e = record { phase = q; steps = steps; ends = tt }
      closed log spinning q steps e = record { phase = q; steps = steps; ends = tt }

  module _ (kernel : K → Syscall → Answer × K) where
    pub try_rule :
        {p : Phase} {Q : Answer → Phase → Type 0} {D : Phase → Type 0} (c : Syscall) (k : K)
        → ((e : Errno) → Q (refused_with e) p)
        → ((n : ℕ) (st : Stat)
            → (q : Phase) × Step temporary filename parent p (called c n) q × Q (gave n st) q)
        → Runs temporary filename parent p Q D (try_call kernel c k)
    unfolding try_call
    try_rule {p = p} {Q = Q} {D = D} c k bad good = answered ((kernel k c).0)
      where
        answered :
            (a : Answer)
            → Runs {A = Answer} temporary filename parent p Q D
                (record { log = event_of c a ∷ []; end = done a ((kernel k c).1) })
        answered (refused_with e) = record { phase = p; steps = next fails stop; ends = bad e }
        answered (gave n st) =
            let (q, s, e) = good n st in record { phase = q; steps = next s stop; ends = e }

    pub must_rule :
        {p : Phase} {Q : ℕ × Stat → Phase → Type 0} {D : Phase → Type 0} (c : Syscall) (k : K)
        → D p
        → ((n : ℕ) (st : Stat)
            → (q : Phase) × Step temporary filename parent p (called c n) q × Q (n, st) q)
        → Runs temporary filename parent p Q D (must_call kernel c k)
    unfolding must_call
    must_rule {Q = Q} {D = D} c k d good =
        then_rule (try_rule {Q = seen Q D} c k (λ e. d) good) goes_on
      where
        seen : (ℕ × Stat → Phase → Type 0) → (Phase → Type 0) → Answer → Phase → Type 0
        seen Q D (refused_with e) q = D q
        seen Q D (gave n st) q = Q (n, st) q

        goes_on :
            {Q : ℕ × Stat → Phase → Type 0} {D : Phase → Type 0} (a : Answer) (k : K) (q : Phase)
            → seen Q D a q
            → Runs temporary filename parent q Q D (on_answer kernel a k)
        goes_on (refused_with e) k q d = record { phase = q; steps = stop; ends = d }
        goes_on (gave n st) k q e = record { phase = q; steps = stop; ends = e }
