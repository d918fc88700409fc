-- ===== src/Amass/Invariant.antt =====
-- What the steps of `amass` in src/aiodrive/modules/amass.py keep.
use aiodrive.Prelude.{
  All, count, count-append, ℕ, ◌+◌, ◌≤◌, ◌≡◌, refl, ap, subst, Bool, true, false, Option, List, [],
  ◌∷◌, ◌++◌, map, arith,
}
use aiodrive.Asyncio.{Outcome, returned, raised, task_done, result}
use aiodrive.Gather.{all_completed_over}
use aiodrive.Amass.{
  Reason, closed, interrupted, Phase, unstarted, waiting, dropped, yielded, closing, ended, Amass,
  mem, has_room, pass_over, take_outcome, look, wake, gathered, complete,
}
use aiodrive.Amass.Schedule.{
  begins, discards, completes, wakes, resumes, closes, interrupts, ends, Reach, here, next,
}
use aiodrive.Amass.Yields.{
  keys, is_raised, request-IsMissed, complete-IsMissed, append-IsMissed, result-is_raised,
  request-IsYield, complete-IsYield, append-IsYield, keys-append, result-finished, update_each_done,
  complete-all_completed,
}
use aiodrive.Amass.Rounds.{Running, Finishing, Inv, clean_up-Finishing, next_round-Inv, IsInv}

module _ {A : Type 0} (awaitables : List ℕ) (distinct : (k : ℕ) → count k awaitables ≤ 1) where
  pass_over-Running :
      (k : ℕ) (ks : List ℕ) (a : Amass A)
      → Running awaitables distinct false (k ∷ ks) a
      → is_raised (a.futures k).future ≡ true
      → Running awaitables distinct false ks (pass_over k a)
  pass_over-Running k ks a v raised_one = record {
    spread = λ j. omega (arith, count-append j a.missed (k ∷ []), v.spread j);
    known = v.known;
    right = v.right;
    raised_ones = append-IsMissed a.futures a.missed k v.raised_ones raised_one;
    over_ones = v.over_ones.1;
    strict = λ e. cc;
  }

  take_outcome-Inv :
      (sensitive : Bool) (k : ℕ) (ks : List ℕ) (a rest : Amass A) (o : Outcome A)
      → result (a.futures k).future ≡ o
      → (sensitive ≡ false
          → is_raised (a.futures k).future ≡ true
          → IsInv awaitables distinct sensitive rest)
      → Running awaitables distinct sensitive (k ∷ ks) a
      → IsInv awaitables distinct sensitive (take_outcome sensitive k ks a rest o)
  take_outcome-Inv sensitive k ks a rest (returned x) e h v = record {
    spread = λ j. omega (
      arith,
      ap (count j) (keys-append a.out k x),
      count-append j (keys a.out) (k ∷ []),
      v.spread j,
    );
    known = v.known;
    right = append-IsYield a.futures a.out k x v.right (result-finished (a.futures k).future x e);
    raised_ones = v.raised_ones;
    over_ones = v.over_ones.1;
    strict = v.strict;
  }
  take_outcome-Inv true k ks a rest (raised x) e h v = record {
    none_left = refl;
    known = λ j. omega (arith, count-append j a.all_futures a.todo, v.known j);
    right = request-IsYield (λ j. mem j a.pending_futures) a.futures a.out v.right;
    raised_ones =
        request-IsMissed (λ j. mem j a.pending_futures) a.futures (a.missed ++ k ∷ [])
          (append-IsMissed a.futures a.missed k v.raised_ones
            (result-is_raised (a.futures k).future x v.over_ones.0 e));
    all_seen = λ q. cc;
  }
  take_outcome-Inv false k ks a rest (raised x) e h v =
      h refl (result-is_raised (a.futures k).future x v.over_ones.0 e)

  look-Inv :
      (m : Option ℕ) (sensitive : Bool) (ks : List ℕ) (a : Amass A)
      → has_room m [] ≡ true
      → Running awaitables distinct sensitive ks a
      → IsInv awaitables distinct sensitive (look m sensitive ks a)
  unfolding look
  look-Inv m sensitive [] a h v = next_round-Inv awaitables distinct m sensitive a h v
  look-Inv m true (k ∷ ks) a h v =
      take_outcome-Inv true k ks a (look m true ks (pass_over k a)) (result (a.futures k).future)
        refl (λ q f. absurd cc) v
  look-Inv m false (k ∷ ks) a h v =
      take_outcome-Inv false k ks a (look m false ks (pass_over k a)) (result (a.futures k).future)
        refl (λ q f. look-Inv m false ks (pass_over k a) h (pass_over-Running k ks a v f)) v

  complete-Running :
      (sensitive : Bool) (k : ℕ) (o : Outcome A) (ks : List ℕ) (a : Amass A)
      → Running awaitables distinct sensitive ks a
      → Running awaitables distinct sensitive ks (complete k o a)
  unfolding complete
  complete-Running sensitive k o ks a v = record {
    spread = v.spread;
    known = v.known;
    right = complete-IsYield k o a.futures a.out v.right;
    raised_ones = complete-IsMissed k o a.futures a.missed v.raised_ones;
    over_ones = update_each_done k o a.futures ks v.over_ones;
    strict = v.strict;
  }

  complete-Finishing :
      (sensitive : Bool) (k : ℕ) (o : Outcome A) (reason : Reason) (a : Amass A)
      → Finishing awaitables distinct sensitive reason a
      → Finishing awaitables distinct sensitive reason (complete k o a)
  unfolding complete
  complete-Finishing sensitive k o reason a v = record {
    none_left = v.none_left;
    known = v.known;
    right = complete-IsYield k o a.futures a.out v.right;
    raised_ones = complete-IsMissed k o a.futures a.missed v.raised_ones;
    all_seen = v.all_seen;
  }

  complete-Inv :
      (sensitive : Bool) (k : ℕ) (o : Outcome A) (a : Amass A) (p : Phase)
      → Inv awaitables distinct sensitive a p
      → Inv awaitables distinct sensitive (complete k o a) p
  unfolding complete
  complete-Inv sensitive k o a unstarted v = complete-Running sensitive k o [] a v
  complete-Inv sensitive k o a dropped v = complete-Running sensitive k o [] a v
  complete-Inv sensitive k o a waiting v = complete-Running sensitive k o [] a v
  complete-Inv sensitive k o a (yielded ks) v = complete-Running sensitive k o ks a v
  complete-Inv sensitive k o a (closing reason) v = complete-Finishing sensitive k o reason a v
  complete-Inv sensitive k o a (ended reason r) (v, d) = (
    complete-Finishing sensitive k o reason a v,
    complete-all_completed k o a.futures a.all_futures d,
  )

  at_phase :
      (sensitive : Bool) (a : Amass A) (p : Phase)
      → a.phase ≡ p
      → IsInv awaitables distinct sensitive a
      → Inv awaitables distinct sensitive a p
  at_phase sensitive a p e v = subst (Inv awaitables distinct sensitive a) e v

  wake-Inv :
      (m : Option ℕ) (sensitive : Bool) (ds rest : List ℕ) (a : Amass A)
      → has_room m [] ≡ true
      → ((k : ℕ) → count k ds + count k rest ≡ count k a.pending_futures)
      → All (λ k. task_done (a.futures k) ≡ true) ds
      → Running awaitables distinct sensitive [] a
      → IsInv awaitables distinct sensitive (wake m sensitive ds rest a)
  unfolding wake
  wake-Inv m sensitive ds rest a h c d v =
      look-Inv m sensitive ds (record a { pending_futures = rest }) h
        (record {
          spread = λ k. omega (arith, v.spread k, c k);
          known = v.known;
          right = v.right;
          raised_ones = v.raised_ones;
          over_ones = d;
          strict = v.strict;
        })

  gathered-Inv :
      (sensitive was_cancelled : Bool) (reason : Reason) (a : Amass A)
      → Finishing awaitables distinct sensitive reason a
      → all_completed_over (map a.futures a.all_futures) ≡ true
      → IsInv awaitables distinct sensitive (gathered reason was_cancelled a)
  unfolding gathered
  gathered-Inv sensitive was_cancelled reason a v d = (
    record {
      none_left = v.none_left;
      known = v.known;
      right = v.right;
      raised_ones = v.raised_ones;
      all_seen = v.all_seen;
    },
    d,
  )

  pub Reach-Inv :
      (m : Option ℕ) (sensitive : Bool) {a : Amass A}
      → has_room m [] ≡ true
      → Reach m sensitive awaitables a
      → IsInv awaitables distinct sensitive a
  unfolding complete
  Reach-Inv m sensitive h here = record {
    spread = λ k. omega arith;
    known = λ k. omega arith;
    right = tt;
    raised_ones = tt;
    over_ones = tt;
    strict = λ e. refl;
  }
  Reach-Inv m sensitive h (next {a} r (begins e)) =
      next_round-Inv awaitables distinct m sensitive a h
        (at_phase sensitive a unstarted e (Reach-Inv m sensitive h r))
  Reach-Inv m sensitive h (next {a} r (discards e)) =
      let v : Running awaitables distinct sensitive [] a =
        at_phase sensitive a unstarted e (Reach-Inv m sensitive h r) in
      record {
        spread = v.spread;
        known = v.known;
        right = v.right;
        raised_ones = v.raised_ones;
        over_ones = tt;
        strict = v.strict;
      }
  Reach-Inv m sensitive h (next {a} r (completes k o)) =
      complete-Inv sensitive k o a a.phase (Reach-Inv m sensitive h r)
  Reach-Inv m sensitive h (next {a} r (wakes ds rest e c l d)) =
      wake-Inv m sensitive ds rest a h c d
        (at_phase sensitive a waiting e (Reach-Inv m sensitive h r))
  Reach-Inv m sensitive h (next {a} r (resumes ks e)) =
      look-Inv m sensitive ks a h (at_phase sensitive a (yielded ks) e (Reach-Inv m sensitive h r))
  Reach-Inv m sensitive h (next {a} r (closes ks e)) =
      clean_up-Finishing awaitables distinct sensitive closed ks a
        (at_phase sensitive a (yielded ks) e (Reach-Inv m sensitive h r)) (λ q. cc)
  Reach-Inv m sensitive h (next {a} r (interrupts e)) =
      clean_up-Finishing awaitables distinct sensitive interrupted [] a
        (at_phase sensitive a waiting e (Reach-Inv m sensitive h r)) (λ q. cc)
  Reach-Inv m sensitive h (next {a} r (ends reason w e d)) =
      gathered-Inv sensitive w reason a
        (at_phase sensitive a (closing reason) e (Reach-Inv m sensitive h r)) d
