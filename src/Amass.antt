-- ===== src/Amass.antt =====
-- src/aiodrive/modules/amass.py: the generator of `amass`, which awaits its futures, yields their
-- results and cleans up. An awaitable and its future have the same number; a future that
-- terminates an awaitable takes the number of that awaitable.
pub mod Bounded
pub mod Schedule
pub mod Invariant
pub mod Rounds
pub mod Laws
pub mod Yields
mod Tests
use aiodrive.Prelude.{
  ltb, ◌==◌, if◌then◌else◌, length, update, any, ℕ, Bool, true, false, Option, none, some, List, [],
  ◌∷◌, ◌++◌, map,
}
use aiodrive.Asyncio.{
  cancelled_error, more, Outcome, returned, raised, pending, Task, request, result, complete_task,
}
use aiodrive.Gather.{verdict}

-- How the `finally` of the generator is reached: all results were yielded, an awaitable failed, the
-- generator was closed at a `yield`, or its task was cancelled.
pub data Reason : Type 0 where
  exhausted failure closed interrupted : Reason

-- Not started, or closed before it was started; suspended in `asyncio.wait`, at a `yield` with the futures of the round that are left, or in
-- `gather`.
pub data Phase : Type 0 where
  unstarted waiting dropped : Phase
  yielded : List ℕ → Phase
  closing : Reason → Phase
  ended : Reason → Outcome (Unit {0}) → Phase

-- `out` are the results that were yielded, with their futures, and `missed` the futures whose
-- exception was passed over.
pub record Amass (A : Type 0) : Type 0 where
  pub todo : List ℕ
  pub all_futures : List ℕ
  pub pending_futures : List ℕ
  pub futures : ℕ → Task A
  pub out : List (ℕ × A)
  pub missed : List ℕ
  pub phase : Phase

abbrev pub mem : ℕ → List ℕ → Bool
mem k = any (λ x. x == k)

-- `(max_concurrent_count is None) or (len(pending_futures) < max_concurrent_count)`.
abbrev pub has_room : Option ℕ → List ℕ → Bool
has_room none ks = true
has_room (some max_concurrent_count) ks = ltb (length ks) max_concurrent_count

-- `set.add`.
abbrev pub add : ℕ → List ℕ → List ℕ
add k ks = if mem k ks then ks else ks ++ k ∷ []

abbrev pub is_empty : List ℕ → Bool
is_empty [] = true
is_empty (x ∷ xs) = false

module _ {A : Type 0} where
  -- The inner loop: the next awaitables become futures.
  abbrev pub fill : Option ℕ → List ℕ → Amass A → Amass A
  fill m [] a = record a { todo = [] }
  fill m (k ∷ ks) a =
      let a' : Amass A = record a {
        all_futures = add k a.all_futures;
        pending_futures = add k a.pending_futures;
      } in
      let more = fill m ks a' in
      if has_room m a.pending_futures then more else record a { todo = k ∷ ks }

  -- The `finally` up to its `gather`. The future that terminates an awaitable is new.
  abbrev pub clean_up : Reason → Amass A → Amass A
  clean_up reason a = record a {
    futures = λ k. if mem k a.pending_futures then request (a.futures k) else a.futures k;
    all_futures = a.all_futures ++ a.todo;
    todo = [];
    phase = closing reason;
  }

  -- The outer loop, up to `asyncio.wait`.
  unfoldable pub next_round : Option ℕ → Amass A → Amass A
  next_round m a =
      let f = fill m a.todo a in
      if is_empty f.pending_futures then clean_up exhausted f else record f { phase = waiting }

  abbrev pub pass_over : ℕ → Amass A → Amass A
  pass_over k a = record a { missed = a.missed ++ k ∷ [] }

  -- The body of the loop over the futures that are done; `rest` is what the loop goes on with.
  abbrev pub take_outcome : Bool → ℕ → List ℕ → Amass A → Amass A → Outcome A → Amass A
  take_outcome sensitive k ks a rest (returned v) = record a {
    out = a.out ++ (k, v) ∷ [];
    phase = yielded ks;
  }
  take_outcome sensitive k ks a rest (raised e) =
      if sensitive then clean_up failure (pass_over k a) else rest

  -- The loop, up to a `yield` or the next round.
  unfoldable pub look : Option ℕ → Bool → List ℕ → Amass A → Amass A
  unfolding next_round
  look m sensitive [] a = next_round m a
  look m sensitive (k ∷ ks) a =
      let rest = look m sensitive ks (pass_over k a) in
      take_outcome sensitive k ks a rest (result (a.futures k).future)

  -- `asyncio.wait` gives the futures that are done and those that are not.
  unfoldable pub wake : Option ℕ → Bool → List ℕ → List ℕ → Amass A → Amass A
  unfolding look
  wake m sensitive done_futures rest a =
      look m sensitive done_futures (record a { pending_futures = rest })

  -- What follows `gather` in the end.
  abbrev pub conclude : Reason → Outcome (List A) → Outcome (Unit {0})
  conclude reason (raised e) = raised e
  conclude interrupted (returned vs) = raised cancelled_error
  conclude reason (returned vs) = returned tt

  -- All futures are done; `was_cancelled` says whether the task of the generator was cancelled in
  -- `gather`.
  unfoldable pub gathered : Reason → Bool → Amass A → Amass A
  unfolding verdict
  gathered reason was_cancelled a =
      let tasks = map a.futures a.all_futures in
      record a { phase = ended reason (conclude reason (verdict was_cancelled tasks)) }

  unfoldable pub complete : ℕ → Outcome A → Amass A → Amass A
  unfolding complete_task
  complete k o a = record a { futures = update a.futures k (complete_task o (a.futures k)) }

  -- `aclose` on a generator that has not started runs nothing of it.
  abbrev pub discard : Amass A → Amass A
  discard a = record a { phase = dropped }

  -- The generator has not started.
  abbrev pub amass : List ℕ → Amass A
  amass awaitables = record {
    todo = awaitables;
    all_futures = [];
    pending_futures = [];
    futures = λ _. record { future = pending; requests = 0 };
    out = [];
    missed = [];
    phase = unstarted;
  }
