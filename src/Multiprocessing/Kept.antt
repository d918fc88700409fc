-- ===== src/Multiprocessing/Kept.antt =====
-- What the calls, the messages and the tasks of src/aiodrive/modules/multiprocessing.py keep while the
-- parent's loop has not raised.
use aiodrive.Prelude.{
  update, All, ℕ, ◌+◌, ◌<◌, ◌≡◌, refl, ap, ◌∙◌, Option, none, some, List, [], ◌∷◌, ◌++◌, arith,
}
use aiodrive.Asyncio.{Outcome, returned, raised, Future}
use aiodrive.FutureState.{FutureState, transfer, new_failed, absorb_awaitable}
use aiodrive.Multiprocessing.{
  Message, create_task, cancel_task, shutdown, Reply, Parent, Child, remove, occurs, DumpsError,
  child_receive, sent, wait_task, new_parent, spawn, register, interrupt_spawn,
}
use aiodrive.Multiprocessing.Steps.{
  System, created, replied, created-append, replied-append, occurs-remove, start, end_task, sent_of,
  IsHonest, Live,
}

module _ {A : Type 0} (py_none : A) (unpicklable : FutureState A → Option DumpsError) where
  pub start-Live : Live py_none unpicklable (start py_none unpicklable)
  unfolding new_parent
  start-Live = record {
    placed = λ id. refl;
    once = λ id. omega arith;
    fresh = λ id h. refl;
    waiting = λ id h. refl;
    answered = λ id h e. absurd (omega arith);
    honest = tt;
  }

  sent_transfers : (o : Outcome A) → (transfer (sent py_none unpicklable o) Future.pending).1 ≡ none
  unfolding sent transfer absorb_awaitable new_failed
  sent_transfers (returned a) = ground arith
  sent_transfers (raised e) = ground arith

  pub honest_transfers :
      (x : Option (Outcome A)) (st : FutureState A)
      → some st ≡ sent_of py_none unpicklable x
      → (transfer st Future.pending).1 ≡ none
  honest_transfers none st e = absurd cc
  honest_transfers (some o) st e =
      let e' : st ≡ sent py_none unpicklable o = cc in
      ap (λ st'. (transfer st' Future.pending).1) e' ∙ sent_transfers o

  IsHonest-log :
      (rs : List (Reply A)) (log : ℕ → Option (Outcome A)) (id : ℕ) (v : Option (Outcome A))
      → replied id rs ≡ 0
      → All (IsHonest py_none unpicklable log) rs
      → All (IsHonest py_none unpicklable (update log id v)) rs
  IsHonest-log [] log id v h a = tt
  IsHonest-log (r ∷ rs) log id v h (p, a) =
      (ground arith, IsHonest-log rs log id v (ground arith) a)

  IsHonest-append :
      (rs : List (Reply A)) (log : ℕ → Option (Outcome A)) (r : Reply A)
      → IsHonest py_none unpicklable log r
      → All (IsHonest py_none unpicklable log) rs
      → All (IsHonest py_none unpicklable log) (rs ++ r ∷ [])
  IsHonest-append [] log r p a = (p, tt)
  IsHonest-append (q ∷ rs) log r p (q', a) = (q', IsHonest-append rs log r p a)

  pub spawns-Live :
      (s : System A)
      → Live py_none unpicklable s
      → Live py_none unpicklable (record s {
        parent = (spawn s.parent).1;
        sending = s.parent.next_task_id ∷ s.sending;
        to_child = s.to_child ++ (spawn s.parent).0 ∷ [];
      })
  unfolding spawn
  spawns-Live s inv = record {
    placed = λ id. ground (
      arith,
      inv.placed id,
      created-append id s.to_child (create_task s.parent.next_task_id ∷ []),
    );
    once = λ id. ground (arith, inv.once id, inv.fresh id);
    fresh = λ id h. ground (arith, inv.fresh id);
    waiting = λ id h. ground (arith, inv.waiting id);
    answered = λ id h e. ground (arith, inv.answered id);
    honest = inv.honest;
  }

  pub registers-Live :
      (s : System A) (id : ℕ)
      → 0 < occurs id s.sending
      → Live py_none unpicklable s
      → Live py_none unpicklable
          (record s { parent = register id s.parent; sending = remove id s.sending })
  unfolding register
  registers-Live s id h inv = record {
    placed = λ k. ground (arith, inv.placed k, occurs-remove k id s.sending h);
    once = λ k. ground (arith, inv.once k, occurs-remove k id s.sending h);
    fresh = λ k l. ground (arith, inv.fresh k, occurs-remove k id s.sending h);
    waiting = λ k l. ground (arith, inv.waiting k);
    answered = λ k l e. ground (arith, inv.answered k, occurs-remove k id s.sending h);
    honest = inv.honest;
  }

  pub interrupts-Live :
      (s : System A) (id : ℕ) (m : Message)
      → interrupt_spawn id s.parent ≡ some m
      → Live py_none unpicklable s
      → Live py_none unpicklable (record s { to_child = s.to_child ++ m ∷ [] })
  unfolding interrupt_spawn
  interrupts-Live s id m e inv = record {
    placed = λ id'. ground (arith, inv.placed id', created-append id' s.to_child (m ∷ []));
    once = inv.once;
    fresh = inv.fresh;
    waiting = inv.waiting;
    answered = inv.answered;
    honest = inv.honest;
  }

  takes :
      (id : ℕ) (m : Message) (c c' : Child)
      → child_receive m c ≡ some c'
      → occurs id c'.tasks ≡ created id (m ∷ []) + occurs id c.tasks
  unfolding child_receive
  takes id (create_task id') c c' e = ground arith
  takes id (cancel_task id') c c' e = ground arith
  takes id shutdown c c' e = absurd cc

  pub delivers-Live :
      (s : System A) (m : Message) (ms : List Message) (c : Child)
      → s.to_child ≡ m ∷ ms
      → child_receive m s.child ≡ some c
      → Live py_none unpicklable s
      → Live py_none unpicklable (record s { child = c; to_child = ms })
  delivers-Live s m ms c e e' inv = record {
    placed = λ id.
        let split : created id s.to_child ≡ created id (m ∷ []) + created id ms =
          ap (created id) e ∙ created-append id (m ∷ []) ms in
        omega (arith, inv.placed id, takes id m s.child c e', split);
    once = inv.once;
    fresh = inv.fresh;
    waiting = inv.waiting;
    answered = inv.answered;
    honest = inv.honest;
  }

  pub ends_task-Live :
      (s : System A) (id : ℕ) (o : Outcome A)
      → 0 < occurs id s.child.tasks
      → Live py_none unpicklable s
      → Live py_none unpicklable (end_task py_none unpicklable id o s)
  unfolding wait_task
  ends_task-Live s id o h inv =
      let none_yet : replied id s.to_parent ≡ 0 = omega (arith, inv.placed id, inv.once id) in
      record {
        placed = λ id'. ground (
          arith,
          inv.placed id',
          occurs-remove id' id s.child.tasks h,
          replied-append id' s.to_parent ((wait_task py_none unpicklable id o s.child).1 ∷ []),
        );
        once = inv.once;
        fresh = inv.fresh;
        waiting = inv.waiting;
        answered = λ id' l e. ground (arith, inv.answered id', inv.placed id);
        honest =
            IsHonest-append s.to_parent (update s.log id (some o))
              (wait_task py_none unpicklable id o s.child).1 (ground arith)
              (IsHonest-log s.to_parent s.log id (some o) none_yet inv.honest);
      }

  -- The parent once `_loop` has taken the reply of a call that waits.
  abbrev pub settle_call : Reply A → Parent A → Parent A
  settle_call r p = record p {
    tasks = remove r.task_id p.tasks;
    futures = update p.futures r.task_id (transfer r.state Future.pending).0;
  }
