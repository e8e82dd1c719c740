-- ===== src/Core/Link/Run.antt =====
-- core.c and channel.c: the events of a link, one after the other, and its invariant.
use fb_adb.Prelude.{ℕ, ◌≡◌, refl, List, [], ◌∷◌, Bytes}
use fb_adb.Outcome.{ok}
use fb_adb.Channel.Flow.{Takes}
use fb_adb.Channel.Fill.{Gives}
use fb_adb.Core.Link.{
  Link, Event, poll_source, poll_sink, send_data, take_data, send_credit, take_credit, step, run,
}
use fb_adb.Core.Link.Balance.{Fair, poll_source-Fair, poll_sink-Fair}
use fb_adb.Core.Link.Messages.{send-Fair, credit-Fair, take-Fair, grant-Fair}

-- What the kernel promises at an event.
abbrev pub Promised : Event → Type 0
Promised (poll_source reads writes) = Gives (reads 0)
Promised (poll_sink reads writes) = Takes (writes 0)
Promised (take_data writes) = Takes (writes 0)
Promised _ = Unit {0}

abbrev pub AllPromised : List Event → Type 0
AllPromised [] = Unit {0}
AllPromised (e ∷ es) = Promised e × AllPromised es

module _ {capacity : ℕ} where
  step-Fair :
      (e : Event) (l : Link)
      → Promised e
      → Fair capacity l
      → (l' : Link) × (step e l ≡ ok l') × Fair capacity l'
  unfolding step
  step-Fair (poll_source reads writes) l p f = poll_source-Fair f reads writes p
  step-Fair (poll_sink reads writes) l p f = poll_sink-Fair f reads writes p
  step-Fair (send_data maxoutmsg) l p f = send-Fair f maxoutmsg
  step-Fair (take_data writes) l p f = first l.payloads refl
    where
      first :
          (ps : List Bytes)
          → ps ≡ l.payloads
          → (l' : Link) × (step (take_data writes) l ≡ ok l') × Fair capacity l'
      first [] e = (l, rw (← e) refl, f)
      first (q ∷ ps) e = rw (← e) (take-Fair l writes q ps p (rw (← e) at f))
  step-Fair send_credit l p f = credit-Fair f
  step-Fair take_credit l p f = first l.credits refl
    where
      first :
          (ds : List ℕ)
          → ds ≡ l.credits
          → (l' : Link) × (step take_credit l ≡ ok l') × Fair capacity l'
      first [] e = (l, rw (← e) refl, f)
      first (d ∷ ds) e = rw (← e) (grant-Fair l d ds (rw (← e) at f))

  -- Whatever happens on a fair link, in whatever order, when the kernel keeps its promises: each step
  -- returns, so no message is refused for want of room and no window overflows, and the link is fair
  -- afterwards. So what the second descriptor took is a front of what the first one gave.
  pub run-Fair :
      (es : List Event) (l : Link)
      → AllPromised es
      → Fair capacity l
      → (l' : Link) × (run es l ≡ ok l') × Fair capacity l'
  unfolding run
  run-Fair [] l p f = (l, refl, f)
  run-Fair (e ∷ es) l p f =
      let (l1, one, f1) = step-Fair e l p.0 f in
      let (l2, rest, f2) = run-Fair es l1 p.1 f1 in (l2, rw one rest, f2)
