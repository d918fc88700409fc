-- ===== src/Multiprocessing/Protocol.antt =====
-- What the steps of src/aiodrive/modules/multiprocessing.py keep, in any interleaving.
use aiodrive.Prelude.{
  ltb, ◌==◌, if◌then◌else◌, Bool-cases, update, All, ℕ, ◌+◌, ◌<◌, ◌≡◌, refl, sym, ap, ◌∙◌, subst,
  inl, inr, true, false, Option, none, some, List, ◌∷◌, arith,
}
use aiodrive.Asyncio.{key_error, Future, Effect}
use aiodrive.FutureState.{FutureState, transfer}
use aiodrive.Multiprocessing.{Reply, Parent, remove, occurs, DumpsError, loop}
use aiodrive.Multiprocessing.Steps.{
  System, replied, occurs-remove, Step, spawns, registers, interrupts, delivers, begins_task,
  drops_task, ends_task, replies, Reach, here, next, IsHonest, Live, Inv,
}
use aiodrive.Multiprocessing.Kept.{
  start-Live, honest_transfers, spawns-Live, registers-Live, interrupts-Live, delivers-Live,
  ends_task-Live, settle_call,
}

module _ {A : Type 0} (py_none : A) (unpicklable : FutureState A → Option DumpsError) where
  loop-settle_call :
      (r : Reply A) (p : Parent A)
      → 0 < occurs r.task_id p.tasks
      → p.futures r.task_id ≡ Future.pending
      → (transfer r.state Future.pending).1 ≡ none
      → loop r p ≡ (settle_call py_none unpicklable r p, none)
  unfolding loop
  loop-settle_call r p h e e' =
      let found : ltb 0 (occurs r.task_id p.tasks) ≡ true = ground arith in
      let settled : Future A → Effect (Parent A) = λ f. (
        record p {
          tasks = remove r.task_id p.tasks;
          futures = update p.futures r.task_id (transfer r.state f).0;
        },
        (transfer r.state f).1,
      ) in
      ap (λ b. if b then settled (p.futures r.task_id) else (p, some key_error)) found
      ∙ ap settled e
      ∙ ap (λ x. (settle_call py_none unpicklable r p, x)) e'

  registered-Live :
      (s : System A) (r : Reply A) (rs : List (Reply A))
      → s.to_parent ≡ r ∷ rs
      → 0 < occurs r.task_id s.parent.tasks
      → Live py_none unpicklable s
      → (loop r s.parent ≡ (settle_call py_none unpicklable r s.parent, none))
        × Live py_none unpicklable
            (record s { parent = settle_call py_none unpicklable r s.parent; to_parent = rs })
  registered-Live s r rs e registered inv =
      let count : (id : ℕ)
          → replied id s.to_parent ≡ (if id == r.task_id then 1 else 0) + replied id rs =
        λ id. ap (replied id) e in
      let all_honest : All (IsHonest py_none unpicklable s.log) (r ∷ rs) =
        subst (All (IsHonest py_none unpicklable s.log)) e inv.honest in
      let gone = λ (id : ℕ). occurs-remove id r.task_id s.parent.tasks registered in
      (
        loop-settle_call r s.parent registered (inv.waiting r.task_id registered)
            (honest_transfers py_none unpicklable (s.log r.task_id) r.state all_honest.0),
        record {
          placed = λ id. ground (arith, count id, inv.placed id, gone id);
          once = λ id. ground (arith, inv.once id, gone id);
          fresh = λ id h. ground (arith, inv.fresh id, gone id);
          waiting = λ id h. ground (arith, inv.waiting id, inv.once id, gone id);
          answered = λ id h none_left. ground (arith, inv.answered id, all_honest.0, gone id);
          honest = all_honest.1;
        },
      )

  unregistered :
      (r : Reply A) (p : Parent A)
      → ltb 0 (occurs r.task_id p.tasks) ≡ false
      → loop r p ≡ (p, some key_error)
  unfolding loop
  unregistered r p h = rw h refl

  replies-Inv :
      (s : System A) (r : Reply A) (rs : List (Reply A))
      → s.to_parent ≡ r ∷ rs
      → s.error ≡ none
      → Inv py_none unpicklable s
      → Inv py_none unpicklable
          (record s { parent = (loop r s.parent).0; to_parent = rs; error = (loop r s.parent).1 })
  replies-Inv s r rs e n inv = elim (Bool-cases (ltb 0 (occurs r.task_id s.parent.tasks))) [
    | inl y ↦
        let (taken, v) = registered-Live s r rs e (ground (arith, y)) (inv.live n) in
        subst
          (λ x. Inv py_none unpicklable (record s { parent = x.0; to_parent = rs; error = x.1 }))
          (sym taken)
          (record {
            fails = inl refl;
            live = λ _. record {
              placed = v.placed;
              once = v.once;
              fresh = v.fresh;
              waiting = v.waiting;
              answered = v.answered;
              honest = v.honest;
            };
          })
    | inr f ↦
        subst
          (λ x. Inv py_none unpicklable (record s { parent = x.0; to_parent = rs; error = x.1 }))
          (sym (unregistered r s.parent f)) (record { fails = inr refl; live = λ q. absurd cc })
  ]

  -- A step of the child that changes neither its tasks nor the messages.
  same-Live :
      (s : System A) (begun silenced : List ℕ)
      → Live py_none unpicklable s
      → Live py_none unpicklable (record s { begun = begun; silenced = silenced })
  same-Live s begun silenced v = record {
    placed = v.placed;
    once = v.once;
    fresh = v.fresh;
    waiting = v.waiting;
    answered = v.answered;
    honest = v.honest;
  }

  Step-Inv :
      {s t : System A}
      → Step py_none unpicklable s t
      → Inv py_none unpicklable s
      → Inv py_none unpicklable t
  Step-Inv {s} spawns inv = record {
    fails = inv.fails;
    live = λ n. spawns-Live py_none unpicklable s (inv.live n);
  }
  Step-Inv {s} (registers id h) inv = record {
    fails = inv.fails;
    live = λ n. registers-Live py_none unpicklable s id h (inv.live n);
  }
  Step-Inv {s} (interrupts id m h e) inv = record {
    fails = inv.fails;
    live = λ n. interrupts-Live py_none unpicklable s id m e (inv.live n);
  }
  Step-Inv {s} (delivers m ms c e e') inv = record {
    fails = inv.fails;
    live = λ n. delivers-Live py_none unpicklable s m ms c e e' (inv.live n);
  }
  Step-Inv {s} (begins_task id h q) inv = record {
    fails = inv.fails;
    live = λ n. same-Live s (id ∷ s.begun) s.silenced (inv.live n);
  }
  Step-Inv {s} (drops_task id h q b) inv = record {
    fails = inv.fails;
    live = λ n. same-Live s s.begun (id ∷ s.silenced) (inv.live n);
  }
  Step-Inv {s} (ends_task id o h b) inv = record {
    fails = inv.fails;
    live = λ n. ends_task-Live py_none unpicklable s id o h (inv.live n);
  }
  Step-Inv {s} (replies r rs e n) inv = replies-Inv s r rs e n inv

  pub Reach-Inv : {s : System A} → Reach py_none unpicklable s → Inv py_none unpicklable s
  Reach-Inv here = record { fails = inl refl; live = λ n. start-Live py_none unpicklable }
  Reach-Inv (next p st) = Step-Inv st (Reach-Inv p)
