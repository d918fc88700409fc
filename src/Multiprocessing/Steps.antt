-- ===== src/Multiprocessing/Steps.antt =====
-- A parent and a child of src/aiodrive/modules/multiprocessing.py, joined by two streams of
-- messages, with any interleaving of calls, tasks and deliveries.
use aiodrive.Prelude.{
  ◌==◌, if◌then◌else◌, update, All, ℕ, ◌+◌, ◌≤◌, ◌<◌, ◌≡◌, ◌⊎◌, Option, none, some, List, [], ◌∷◌,
  ◌++◌, arith,
}
use aiodrive.Asyncio.{Exn, key_error, Outcome, Future}
use aiodrive.FutureState.{FutureState, transfer}
use aiodrive.Multiprocessing.{
  Message, create_task, cancel_task, shutdown, Reply, Parent, Child, remove, occurs, DumpsError,
  child_receive, sent, wait_task, new_parent, spawn, register, loop, interrupt_spawn,
}

-- `sending` are the calls that have written their message and have not registered their future,
-- because `drain` suspends or was cancelled. `begun` are the tasks of the child that have taken
-- their first step, and `silenced` those that were cancelled before: their `wait_task` never runs.
-- `log` has the outcome of each task that has ended, and `error` what `_loop` raised. A frame
-- arrives whole.
pub record System (A : Type 0) : Type 0 where
  pub parent : Parent A
  pub child : Child
  pub sending : List ℕ
  pub begun : List ℕ
  pub silenced : List ℕ
  pub to_child : List Message
  pub to_parent : List (Reply A)
  pub log : ℕ → Option (Outcome A)
  pub error : Option Exn

abbrev pub created : ℕ → List Message → ℕ
created id [] = 0
created id (create_task id' ∷ ms) = (if id == id' then 1 else 0) + created id ms
created id (cancel_task id' ∷ ms) = created id ms
created id (shutdown ∷ ms) = created id ms

abbrev pub replied : {A : Type 0} → ℕ → List (Reply A) → ℕ
replied id [] = 0
replied id (r ∷ rs) = (if id == r.task_id then 1 else 0) + replied id rs

pub created-append :
    (id : ℕ) (ms ns : List Message) → created id (ms ++ ns) ≡ created id ms + created id ns
created-append id [] ns = omega arith
created-append id (create_task id' ∷ ms) ns = omega (arith, created-append id ms ns)
created-append id (cancel_task id' ∷ ms) ns = created-append id ms ns
created-append id (shutdown ∷ ms) ns = created-append id ms ns

pub replied-append :
    {A : Type 0} (id : ℕ) (rs ss : List (Reply A))
    → replied id (rs ++ ss) ≡ replied id rs + replied id ss
replied-append id [] ss = omega arith
replied-append id (r ∷ rs) ss = omega (arith, replied-append id rs ss)

pub occurs-remove :
    (a b : ℕ) (xs : List ℕ)
    → 0 < occurs b xs
    → occurs a (remove b xs) + (if a == b then 1 else 0) ≡ occurs a xs
occurs-remove a b [] h = absurd (omega arith)
occurs-remove a b (x ∷ xs) h = ground (arith, occurs-remove a b xs)

module _ {A : Type 0} (py_none : A) (unpicklable : FutureState A → Option DumpsError) where
  abbrev pub start : System A
  start = record {
    parent = new_parent;
    child = record { tasks = []; requested = [] };
    sending = [];
    begun = [];
    silenced = [];
    to_child = [];
    to_parent = [];
    log = λ _. none;
    error = none;
  }

  abbrev pub end_task : ℕ → Outcome A → System A → System A
  end_task id o s = record s {
    child = (wait_task py_none unpicklable id o s.child).0;
    to_parent = s.to_parent ++ (wait_task py_none unpicklable id o s.child).1 ∷ [];
    log = update s.log id (some o);
  }

  -- A call of `spawn` sends its message, and registers its future; a cancellation of such a call; a
  -- message that the child takes; a task of the child begins, is cancelled before that, or ends as
  -- anything; and a message that `_loop` takes.
  pub data Step (s : System A) : System A → Type 0 where
    spawns : Step s (record s {
      parent = (spawn s.parent).1;
      sending = s.parent.next_task_id ∷ s.sending;
      to_child = s.to_child ++ (spawn s.parent).0 ∷ [];
    })
    registers :
        (id : ℕ)
        → 0 < occurs id s.sending
        → Step s (record s { parent = register id s.parent; sending = remove id s.sending })
    interrupts :
        (id : ℕ) (m : Message)
        → 0 < occurs id s.parent.tasks
        → interrupt_spawn id s.parent ≡ some m
        → Step s (record s { to_child = s.to_child ++ m ∷ [] })
    delivers :
        (m : Message) (ms : List Message) (c : Child)
        → s.to_child ≡ m ∷ ms
        → child_receive m s.child ≡ some c
        → Step s (record s { child = c; to_child = ms })
    begins_task :
        (id : ℕ)
        → 0 < occurs id s.child.tasks
        → occurs id s.child.requested ≡ 0
        → Step s (record s { begun = id ∷ s.begun })
    drops_task :
        (id : ℕ)
        → 0 < occurs id s.child.tasks
        → 0 < occurs id s.child.requested
        → occurs id s.begun ≡ 0
        → Step s (record s { silenced = id ∷ s.silenced })
    ends_task :
        (id : ℕ) (o : Outcome A)
        → 0 < occurs id s.child.tasks
        → 0 < occurs id s.begun
        → Step s (end_task id o s)
    replies :
        (r : Reply A) (rs : List (Reply A))
        → s.to_parent ≡ r ∷ rs
        → s.error ≡ none
        → Step s
            (record s { parent = (loop r s.parent).0; to_parent = rs; error = (loop r s.parent).1 })

  pub data Reach : System A → Type 0 where
    here : Reach start
    next : {s t : System A} → Reach s → Step s t → Reach t

  -- The state that was sent for a call, and what it makes of a pending future.
  abbrev pub sent_of : Option (Outcome A) → Option (FutureState A)
  sent_of none = none
  sent_of (some o) = some (sent py_none unpicklable o)

  abbrev pub transferred : Option (FutureState A) → Option (Future A)
  transferred none = none
  transferred (some st) = some (transfer st Future.pending).0

  abbrev pub IsHonest : (ℕ → Option (Outcome A)) → Reply A → Type 0
  IsHonest log r = some r.state ≡ sent_of (log r.task_id)

  pub record Live (s : System A) : Type 0 where
    -- Each call is in one place: its message is on its way, it has a task in the child, which may be
    -- silenced, or its reply is on its way. It is registered, or about to be.
    pub placed :
        (id : ℕ)
        → created id s.to_child + occurs id s.child.tasks + replied id s.to_parent
          ≡ occurs id s.parent.tasks + occurs id s.sending
    pub once : (id : ℕ) → occurs id s.parent.tasks + occurs id s.sending ≤ 1
    pub fresh :
        (id : ℕ) → s.parent.next_task_id ≤ id → occurs id s.parent.tasks + occurs id s.sending ≡ 0
    pub waiting : (id : ℕ) → 0 < occurs id s.parent.tasks → s.parent.futures id ≡ Future.pending
    pub answered :
        (id : ℕ)
        → id < s.parent.next_task_id
        → occurs id s.parent.tasks + occurs id s.sending ≡ 0
        → some (s.parent.futures id) ≡ transferred (sent_of (s.log id))
    pub honest : All (IsHonest s.log) s.to_parent

  -- `_loop` raises nothing but the `KeyError` for a call that is not registered.
  pub record Inv (s : System A) : Type 0 where
    pub fails : (s.error ≡ none) ⊎ (s.error ≡ some key_error)
    pub live : s.error ≡ none → Live s
