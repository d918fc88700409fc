-- ===== src/Multiprocessing/Silenced.antt =====
-- The tasks of the child of src/aiodrive/modules/multiprocessing.py that are cancelled before their
-- first step.
use aiodrive.Prelude.{ℕ, ◌<◌, ◌≡◌, Option, some, List, arith}
use aiodrive.FutureState.{FutureState}
use aiodrive.Multiprocessing.{
  Message, create_task, cancel_task, shutdown, Child, occurs, DumpsError, child_receive, wait_task,
}
use aiodrive.Multiprocessing.Steps.{
  System, occurs-remove, spawns, registers, interrupts, delivers, begins_task, drops_task,
  ends_task, replies, Reach, here, next,
}

module _ {A : Type 0} (py_none : A) (unpicklable : FutureState A → Option DumpsError) where
  -- Such a task stays in the dictionary, and neither begins nor ends.
  abbrev pub IsHeld : Child → List ℕ → List ℕ → ℕ → Type 0
  IsHeld c begun silenced id =
      0 < occurs id silenced
      → (0 < occurs id c.tasks) × (0 < occurs id c.requested) × (occurs id begun ≡ 0)

  delivers-IsHeld :
      (m : Message) (c c' : Child) (begun silenced : List ℕ) (id : ℕ)
      → child_receive m c ≡ some c'
      → IsHeld c begun silenced id
      → IsHeld c' begun silenced id
  unfolding child_receive
  delivers-IsHeld (create_task k) c c' begun silenced id e v h = ground (arith, v h)
  delivers-IsHeld (cancel_task k) c c' begun silenced id e v h = ground (arith, v h)
  delivers-IsHeld shutdown c c' begun silenced id e v h = absurd cc

  pub Reach-IsHeld :
      {s : System A} → Reach py_none unpicklable s → (id : ℕ) → IsHeld s.child s.begun s.silenced id
  unfolding wait_task
  Reach-IsHeld here id h = absurd (omega arith)
  Reach-IsHeld (next {s} r spawns) id h = Reach-IsHeld r id h
  Reach-IsHeld (next {s} r (registers k q)) id h = Reach-IsHeld r id h
  Reach-IsHeld (next {s} r (interrupts k m q e)) id h = Reach-IsHeld r id h
  Reach-IsHeld (next {s} r (delivers m ms c e e')) id h =
      delivers-IsHeld m s.child c s.begun s.silenced id e' (Reach-IsHeld r id) h
  Reach-IsHeld (next {s} r (begins_task k q n)) id h =
      let v = Reach-IsHeld r id h in (v.0, v.1, ground (arith, v.1, v.2))
  Reach-IsHeld (next {s} r (drops_task k q n b)) id h =
      let v = Reach-IsHeld r id in ground (arith, v)
  Reach-IsHeld (next {s} r (ends_task k o q b)) id h =
      let v = Reach-IsHeld r id h in
      (ground (arith, v.0, v.2, occurs-remove id k s.child.tasks q), v.1, v.2)
  Reach-IsHeld (next {s} r (replies x rs e n)) id h = Reach-IsHeld r id h
