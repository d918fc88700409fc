-- ===== src/Multiprocessing.antt =====
-- src/aiodrive/modules/multiprocessing.py: the frames of `Connection`, the child's tasks, and the
-- parent's futures. Pickling is not part of the repository: a message is sent as its bytes, and
-- `unpicklable` is the error, if any, that `pickle.dumps` raises for the state of a task: one of the
-- two that `wait_task` catches.
pub mod Frames
pub mod Protocol
pub mod Kept
pub mod Steps
pub mod Silenced
pub mod Answers
pub mod Closing
mod Tests
use aiodrive.Prelude.{
  ltb, ◌==◌, if◌then◌else◌, length, update, ℕ, zero, suc, ◌+◌, ◌*◌, ◌/◌, ◌%◌, min, Option, none,
  some, List, [], ◌∷◌, ◌++◌,
}
use aiodrive.Asyncio.{
  Exn, type_error, eof_error, key_error, overflow_error, connection_error, other, Outcome, returned,
  raised, Future, pending, is_done, set_exception, Effect, and_then,
}
use aiodrive.FutureState.{FutureState, transfer, new_failed, absorb_awaitable}

-- `int.to_bytes(4)`, the highest byte first.
unfoldable pub to_bytes : ℕ → Option (List ℕ)
to_bytes size =
    if ltb size 4294967296
    then some (size / 16777216 ∷ size / 65536 % 256 ∷ size / 256 % 256 ∷ size % 256 ∷ [])
    else none

-- `int.from_bytes`.
abbrev pub from_bytes_onto : ℕ → List ℕ → ℕ
from_bytes_onto n [] = n
from_bytes_onto n (b ∷ bs) = from_bytes_onto (n * 256 + b) bs

abbrev pub take : ℕ → List ℕ → List ℕ
take zero xs = []
take (suc n) [] = []
take (suc n) (x ∷ xs) = x ∷ take n xs

abbrev pub drop : ℕ → List ℕ → List ℕ
drop zero xs = xs
drop (suc n) [] = []
drop (suc n) (x ∷ xs) = drop n xs

-- `send`: what is written to the stream, or the error of `to_bytes`.
unfoldable pub send : List ℕ → Outcome (List ℕ)
unfolding to_bytes
send bytes = elim (to_bytes (length bytes)) [
  | none ↦ raised overflow_error
  | some size_bytes ↦ returned (size_bytes ++ bytes)
]

-- `StreamReader.read(n)`, which gives at most `n` bytes: those that have arrived.
abbrev pub read : ℕ → ℕ → List ℕ → List ℕ × List ℕ
read n arrived stream = (take (min n arrived) stream, drop (min n arrived) stream)

-- `recv` after its first `read`.
abbrev pub recv_rest : ℕ → List ℕ × List ℕ → Outcome (List ℕ × List ℕ)
recv_rest arrived' p = elim p.0 [
  | [] ↦ raised eof_error
  | b ∷ bs ↦ returned (read (from_bytes_onto 0 (b ∷ bs)) arrived' p.1)
]

-- `recv`: the bytes for `pickle.loads` and the rest of the stream, where `arrived` and `arrived'`
-- bytes of the stream have arrived at the first and the second `read`.
unfoldable pub recv : ℕ → ℕ → List ℕ → Outcome (List ℕ × List ℕ)
recv arrived arrived' stream = recv_rest arrived' (read 4 arrived stream)

pub data Message : Type 0 where
  create_task cancel_task : ℕ → Message
  shutdown : Message

-- `FinishTaskMessage`.
pub record Reply (A : Type 0) : Type 0 where
  pub state : FutureState A
  pub task_id : ℕ

-- `futures` has the future that each call of `spawn` made, `tasks` the keys of `_tasks`.
pub record Parent (A : Type 0) : Type 0 where
  pub tasks : List ℕ
  pub next_task_id : ℕ
  pub futures : ℕ → Future A

-- The keys of `tasks` in the child, and the ids that were asked to stop.
pub record Child : Type 0 where
  pub tasks : List ℕ
  pub requested : List ℕ

abbrev pub remove : ℕ → List ℕ → List ℕ
remove a [] = []
remove a (x ∷ xs) = if a == x then xs else x ∷ remove a xs

abbrev pub occurs : ℕ → List ℕ → ℕ
occurs a [] = 0
occurs a (x ∷ xs) = (if a == x then 1 else 0) + occurs a xs

-- `TypeError` and `pickle.PicklingError`, which is not among the exceptions that are named.
pub data DumpsError : Type 0 where
  refused_type : DumpsError
  refused_object : ℕ → DumpsError

abbrev pub exn_of : DumpsError → Exn
exn_of refused_type = type_error
exn_of (refused_object n) = other n

-- One round of the child's loop; `none` for the state says that the loop is left.
unfoldable pub child_receive : Message → Child → Option Child
child_receive (create_task id) c = some (record c { tasks = id ∷ c.tasks })
child_receive (cancel_task id) c =
    some (if ltb 0 (occurs id c.tasks) then record c { requested = id ∷ c.requested } else c)
child_receive shutdown c = none

module _ {A : Type 0} (py_none : A) (unpicklable : FutureState A → Option DumpsError) where
  -- The state that `wait_task` sends for a task that ended as `o`.
  unfoldable pub sent : Outcome A → FutureState A
  unfolding absorb_awaitable new_failed
  sent o = elim (unpicklable (absorb_awaitable py_none o)) [
    | none ↦ absorb_awaitable py_none o
    | some e ↦ new_failed py_none (exn_of e)
  ]

  -- `wait_task` once the task has ended.
  unfoldable pub wait_task : ℕ → Outcome A → Child → Child × Reply A
  unfolding sent
  wait_task id o c =
      (record c { tasks = remove id c.tasks }, record { state = sent o; task_id = id })

module _ {A : Type 0} where
  unfoldable pub new_parent : Parent A
  new_parent = record { tasks = []; next_task_id = 0; futures = λ _. Future.pending }

  -- `spawn` up to the end of its call of `send_object`: the message, and the parent afterwards.
  unfoldable pub spawn : Parent A → Message × Parent A
  spawn p = (create_task p.next_task_id, record p { next_task_id = p.next_task_id + 1 })

  -- `spawn` goes on from there up to its loop.
  unfoldable pub register : ℕ → Parent A → Parent A
  register task_id p = record p {
    tasks = task_id ∷ p.tasks;
    futures = update p.futures task_id Future.pending;
  }

  -- One round of `_loop` with a message.
  unfoldable pub loop : Reply A → Parent A → Effect (Parent A)
  unfolding transfer
  loop r p =
      if ltb 0 (occurs r.task_id p.tasks)
      then (
        record p {
          tasks = remove r.task_id p.tasks;
          futures = update p.futures r.task_id (transfer r.state (p.futures r.task_id)).0;
        },
        (transfer r.state (p.futures r.task_id)).1,
      )
      else (p, some key_error)

  -- The futures of the dictionary are given the error, one after the other.
  abbrev pub fail_all : List ℕ → (ℕ → Future A) → Effect (ℕ → Future A)
  fail_all [] fs = (fs, none)
  fail_all (id ∷ ids) fs =
      and_then (set_exception connection_error (fs id)) (λ f. fail_all ids (update fs id f))
        (λ f. fs)

  -- `_loop` at the end of the stream.
  unfoldable pub loop_eof : Parent A → Effect (Parent A)
  loop_eof p =
      and_then (fail_all p.tasks p.futures) (λ fs. (record p { tasks = []; futures = fs }, none))
        (λ fs. record p { futures = fs })

  -- The awaiting task is cancelled in `spawn`: the message that is sent, if any, for a future that
  -- is not done.
  unfoldable pub interrupt_spawn : ℕ → Parent A → Option Message
  interrupt_spawn id p = if is_done (p.futures id) then none else some (cancel_task id)
