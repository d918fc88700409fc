-- ===== src/Amass/Laws.antt =====
-- What `amass` of src/aiodrive/modules/amass.py yields, and what it leaves behind.
use aiodrive.Prelude.{
  any, count, ℕ, ◌+◌, ◌≤◌, ◌<◌, ◌≡◌, refl, ap, subst, Bool, true, false, Option, some, List, [],
  map, arith,
}
use aiodrive.Asyncio.{cancelled_error, Outcome, raised, Task, task_done, task_cancelled}
use aiodrive.Gather.{exceptions, verdict}
use aiodrive.Amass.{
  Reason, exhausted, Phase, unstarted, waiting, dropped, yielded, closing, ended, Amass, has_room,
  conclude, gathered,
}
use aiodrive.Amass.Schedule.{Reach}
use aiodrive.Amass.Yields.{reason_of, keys, IsYield, IsMissed, all_completed-mem}
use aiodrive.Amass.Rounds.{Finishing, Inv}
use aiodrive.Amass.Invariant.{Reach-Inv}

module _ {A : Type 0} (awaitables : List ℕ) (distinct : (k : ℕ) → count k awaitables ≤ 1) where
  Finishing-of :
      (sensitive : Bool) (a : Amass A) (p : Phase) (reason : Reason)
      → reason_of p ≡ some reason
      → Inv awaitables distinct sensitive a p
      → Finishing awaitables distinct sensitive reason a
  Finishing-of sensitive a unstarted reason e v = cc
  Finishing-of sensitive a dropped reason e v = cc
  Finishing-of sensitive a waiting reason e v = cc
  Finishing-of sensitive a (yielded ks) reason e v = cc
  Finishing-of sensitive a (closing r) reason e v =
      subst (λ x. Finishing awaitables distinct sensitive x a) (ground arith) v
  Finishing-of sensitive a (ended r o) reason e (v, d) =
      subst (λ x. Finishing awaitables distinct sensitive x a) (ground arith) v

  -- If the bound is not zero and no awaitable is given twice, whatever awaitables end in whatever
  -- order: when the generator of `amass` finds nothing left to await, each awaitable has been looked
  -- at exactly once. Either its result was yielded, and is the value with which it has finished, or
  -- it was passed over, since it was cancelled or has failed; none is passed over if `sensitive`.
  pub exhausted_complete :
      (m : Option ℕ) (sensitive : Bool) {a : Amass A}
      → has_room m [] ≡ true
      → Reach m sensitive awaitables a
      → reason_of a.phase ≡ some exhausted
      → ((k : ℕ) → count k (keys a.out) + count k a.missed ≡ count k awaitables)
        × IsYield a.futures a.out
        × IsMissed a.futures a.missed
        × (sensitive ≡ true → a.missed ≡ [])
  exhausted_complete m sensitive {a} h r e =
      let v =
        Finishing-of sensitive a a.phase exhausted e
          (Reach-Inv awaitables distinct m sensitive h r) in
      ((v.all_seen refl).0, v.right, v.raised_ones, (v.all_seen refl).1)

  Inv-IsYield :
      (sensitive : Bool) (a : Amass A) (p : Phase)
      → Inv awaitables distinct sensitive a p
      → IsYield a.futures a.out
  Inv-IsYield sensitive a unstarted v = v.right
  Inv-IsYield sensitive a dropped v = v.right
  Inv-IsYield sensitive a waiting v = v.right
  Inv-IsYield sensitive a (yielded ks) v = v.right
  Inv-IsYield sensitive a (closing r) v = v.right
  Inv-IsYield sensitive a (ended r o) (v, d) = v.right

  -- If the bound is not zero and no awaitable is given twice, whatever has been yielded is the result of its future.
  pub out-IsYield :
      (m : Option ℕ) (sensitive : Bool) {a : Amass A}
      → has_room m [] ≡ true
      → Reach m sensitive awaitables a
      → IsYield a.futures a.out
  out-IsYield m sensitive {a} h r =
      Inv-IsYield sensitive a a.phase (Reach-Inv awaitables distinct m sensitive h r)

  all_done_from :
      (sensitive : Bool) (a : Amass A) (p : Phase) (reason : Reason) (o : Outcome (Unit {0}))
      (k : ℕ)
      → p ≡ ended reason o
      → Inv awaitables distinct sensitive a p
      → 0 < count k awaitables
      → task_done (a.futures k) ≡ true
  all_done_from sensitive a p reason o k e v h =
      let (f, d) : Inv awaitables distinct sensitive a (ended reason o) =
        subst (Inv awaitables distinct sensitive a) e v in
      all_completed-mem a.futures k a.all_futures d (omega (arith, f.known k))

  -- If the bound is not zero and no awaitable is given twice, then however a generator that has
  -- started ends (all yielded, a failure, closed early or cancelled), the future of each awaitable, one that terminates it if it was not awaited, is
  -- done.
  pub ended_clean :
      (m : Option ℕ) (sensitive : Bool) {a : Amass A} (reason : Reason) (o : Outcome (Unit {0}))
      (k : ℕ)
      → has_room m [] ≡ true
      → Reach m sensitive awaitables a
      → a.phase ≡ ended reason o
      → 0 < count k awaitables
      → task_done (a.futures k) ≡ true
  ended_clean m sensitive {a} reason o k h r e c =
      all_done_from sensitive a a.phase reason o k e (Reach-Inv awaitables distinct m sensitive h r)
        c

  verdict-cancelled :
      (was_cancelled : Bool) (ts : List (Task A))
      → exceptions ts ≡ []
      → any task_cancelled ts ≡ true
      → verdict was_cancelled ts ≡ raised cancelled_error
  unfolding verdict
  verdict-cancelled true ts e c = rw (e, verdict) refl
  verdict-cancelled false ts e c = rw (e, verdict) (rw c refl)

  -- If an awaitable was cancelled and none has raised another exception, for instance because the
  -- iterator was closed while it was pending, then the generator ends with `CancelledError`.
  pub gathered-cancelled :
      (reason : Reason) (was_cancelled : Bool) (a : Amass A)
      → exceptions (map a.futures a.all_futures) ≡ []
      → any task_cancelled (map a.futures a.all_futures) ≡ true
      → (gathered reason was_cancelled a).phase ≡ ended reason (raised cancelled_error)
  unfolding gathered
  gathered-cancelled reason was_cancelled a e c =
      ap (λ v. ended reason (conclude reason v))
        (verdict-cancelled was_cancelled (map a.futures a.all_futures) e c)
