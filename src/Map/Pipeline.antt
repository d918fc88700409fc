-- ===== src/Map/Pipeline.antt =====
-- The generator of `map` in src/aiodrive/modules/map.py with an ordered queue: the source, the jobs,
-- the queue and the consumer, for a mapper that returns. One step is what happens between two
-- suspensions of a job or of the consumer.
use aiodrive.Prelude.{length, update, ℕ, ◌≡◌, true, Option, none, some, List, [], ◌∷◌}
use aiodrive.Map.{Jobs, take_item, stop, finish}
use aiodrive.Map
use aiodrive.Queue.{close, reserve}
use aiodrive.Queue.Ordered.{System, can_run, start, poll, put_at}
use aiodrive.Queue.Ordered

-- `todo` is what the source has left, and `running` the items that are being mapped, at their places.
pub record Pipeline (A B : Type 0) : Type 0 where
  pub jobs : Jobs
  pub system : System B
  pub todo : List A
  pub running : ℕ → Option A

module _ {A B : Type 0} (mapper : A → B) (max_concurrent_count : Option ℕ) where
  abbrev pub begin : List A → Pipeline A B
  begin source = record {
    jobs = Map.start (length source);
    system = Ordered.start;
    todo = source;
    running = λ _. none;
  }

  -- A job is given an item: it starts the next job and reserves a place.
  abbrev pub fetch : A → List A → Pipeline A B → Pipeline A B
  fetch item rest p = record {
    jobs = take_item max_concurrent_count (length rest) p.jobs;
    system = record p.system { queue = (reserve p.system.queue).0 };
    todo = rest;
    running = update p.running p.system.queue.reserved_count (some item);
  }

  -- The source has ended: the job closes the queue.
  abbrev pub exhaust : Pipeline A B → Pipeline A B
  exhaust p = record p {
    jobs = stop p.jobs;
    system = record p.system { queue = (close p.system.queue).0 };
  }

  -- The mapper returns, and the job puts the item at its place.
  abbrev pub deliver : ℕ → A → Pipeline A B → Pipeline A B
  deliver place item p = record p {
    jobs = finish p.jobs;
    system = put_at place (mapper item) p.system;
    running = update p.running place none;
  }

  pub data Step (p : Pipeline A B) : Pipeline A B → Type 0 where
    fetches :
        (item : A) (rest : List A)
        → p.jobs.fetching ≡ true
        → p.todo ≡ item ∷ rest
        → Step p (fetch item rest p)
    exhausts : p.jobs.fetching ≡ true → p.todo ≡ [] → Step p (exhaust p)
    delivers : (place : ℕ) (item : A) → p.running place ≡ some item → Step p (deliver place item p)
    polls :
        can_run p.system.queue.button p.system.consumer ≡ true
        → Step p (record p { system = poll p.system })

  pub data Reach (source : List A) : Pipeline A B → Type 0 where
    here : Reach source (begin source)
    next : {p q : Pipeline A B} → Reach source p → Step p q → Reach source q
