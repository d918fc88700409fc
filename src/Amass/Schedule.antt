-- ===== src/Amass/Schedule.antt =====
-- The steps of `amass` in src/aiodrive/modules/amass.py.
use aiodrive.Prelude.{length, All, count, ℕ, ◌+◌, ◌≡◌, Bool, true, Option, List, map}
use aiodrive.Asyncio.{Outcome, task_done}
use aiodrive.Gather.{all_completed_over}
use aiodrive.Amass.{
  Reason, closed, interrupted, unstarted, waiting, yielded, closing, Amass, clean_up, next_round,
  look, wake, gathered, complete, discard, amass,
}

module _ {A : Type 0} (max_concurrent_count : Option ℕ) (sensitive : Bool) where
  -- The consumer asks for the first item, or closes the iterator before; a future ends; `asyncio.wait` returns; the consumer asks for the next item, or closes the
  -- iterator; the task is cancelled in `asyncio.wait`; `gather` returns.
  pub data Step (a : Amass A) : Amass A → Type 0 where
    begins : a.phase ≡ unstarted → Step a (next_round max_concurrent_count a)
    discards : a.phase ≡ unstarted → Step a (discard a)
    completes : (k : ℕ) (o : Outcome A) → Step a (complete k o a)
    wakes :
        (done_futures rest : List ℕ)
        → a.phase ≡ waiting
        → ((k : ℕ) → count k done_futures + count k rest ≡ count k a.pending_futures)
        → length done_futures + length rest ≡ length a.pending_futures
        → All (λ k. task_done (a.futures k) ≡ true) done_futures
        → Step a (wake max_concurrent_count sensitive done_futures rest a)
    resumes :
        (ks : List ℕ) → a.phase ≡ yielded ks → Step a (look max_concurrent_count sensitive ks a)
    closes : (ks : List ℕ) → a.phase ≡ yielded ks → Step a (clean_up closed a)
    interrupts : a.phase ≡ waiting → Step a (clean_up interrupted a)
    ends :
        (reason : Reason) (was_cancelled : Bool)
        → a.phase ≡ closing reason
        → all_completed_over (map a.futures a.all_futures) ≡ true
        → Step a (gathered reason was_cancelled a)

  pub data Reach (awaitables : List ℕ) : Amass A → Type 0 where
    here : Reach awaitables (amass awaitables)
    next : {a b : Amass A} → Reach awaitables a → Step a b → Reach awaitables b
