-- ===== src/Map.antt =====
-- The jobs of `map` in src/aiodrive/modules/map.py. A job awaits the next item of the iterator,
-- starts the next job if the bound allows it, and then awaits the mapper. The queue between the
-- jobs and the consumer is in Queue.antt.
pub mod Bounded
pub mod Pipeline
pub mod Results
mod Tests
use aiodrive.Prelude.{
  ltb, if◌then◌else◌, ℕ, zero, suc, ◌+◌, ◌-◌, Bool, true, false, Option, none, some, List, [], ◌∷◌,
}

-- `fetching` says that a job awaits the next item, of which there is never more than one; `mapping`
-- counts the jobs that await the mapper, and `remaining` the items that the iterator has left.
pub record Jobs : Type 0 where
  pub job_count : ℕ
  pub fetching : Bool
  pub mapping : ℕ
  pub remaining : ℕ
  pub closed : Bool

-- The first job has been created.
unfoldable pub start : ℕ → Jobs
start items = record {
  job_count = 1;
  fetching = true;
  mapping = 0;
  remaining = items;
  closed = false;
}

-- `(max_concurrent_count is None) or (job_count < max_concurrent_count)`.
abbrev pub allows : Option ℕ → ℕ → Bool
allows none job_count = true
allows (some max_concurrent_count) job_count = ltb job_count max_concurrent_count

-- `anext` gives an item, `remaining` being what is left then.
unfoldable pub take_item : Option ℕ → ℕ → Jobs → Jobs
take_item max_concurrent_count remaining j =
    if allows max_concurrent_count j.job_count
    then record j { job_count = j.job_count + 1; mapping = j.mapping + 1; remaining = remaining }
    else record j { fetching = false; mapping = j.mapping + 1; remaining = remaining }

-- `anext` raises `StopAsyncIteration`.
unfoldable pub stop : Jobs → Jobs
stop j = record j { job_count = j.job_count - 1; fetching = false; closed = true }

-- The mapper of a job returns, and its item is put.
unfoldable pub finish : Jobs → Jobs
finish j = record j { job_count = j.job_count - 1; mapping = j.mapping - 1 }

pub data Event : Type 0 where
  fetches maps : Event

unfoldable pub step : Option ℕ → Event → Jobs → Jobs
unfolding take_item stop finish
step m fetches j =
    if j.fetching then elim j.remaining [ zero ↦ stop j | suc n ↦ take_item m n j ] else j
step m maps j = if ltb 0 j.mapping then finish j else j

unfoldable pub run : Option ℕ → List Event → Jobs → Jobs
unfolding step
run m [] j = j
run m (e ∷ es) j = run m es (step m e j)
