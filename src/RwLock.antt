-- ===== src/RwLock.antt =====
-- src/aiodrive/experiments/rw_lock.py: a lock for readers and writers. Each method runs under the
-- thread lock `_state_lock`, so it is one step. A set of ids is a list without repetition, and
-- `signalled` lists the ids whose future has been set.
pub mod Exclusion
pub mod Cancelled
mod Tests
use aiodrive.Prelude.{◌==◌, if◌then◌else◌, any, ℕ, ◌+◌, Bool, true, false, List, [], ◌∷◌, ◌++◌}

pub data Target : Type 0 where
  read write : Target

pub data State : Type 0 where
  unlocked reading writing : State

pub record RwLock : Type 0 where
  pub next_id : ℕ
  pub queue_read : List ℕ
  pub queue_write : List ℕ
  pub state : State
  pub owner_ids : List ℕ
  pub signalled : List ℕ

unfoldable pub new : RwLock
new = record {
  next_id = 0;
  queue_read = [];
  queue_write = [];
  state = unlocked;
  owner_ids = [];
  signalled = [];
}

abbrev pub contains : ℕ → List ℕ → Bool
contains a = any (λ b. a == b)

abbrev pub insert : ℕ → List ℕ → List ℕ
insert a xs = if contains a xs then xs else a ∷ xs

abbrev pub discard : ℕ → List ℕ → List ℕ
discard a [] = []
discard a (x ∷ xs) = if a == x then discard a xs else x ∷ discard a xs

abbrev state_of : Target → State
state_of read = reading
state_of write = writing

-- The first case of the `match`, in which nothing is awaited.
abbrev pub enters : State → Target → Bool
enters unlocked _ = true
enters reading read = true
enters reading write = false
enters writing _ = false

-- `_acquire` up to its first `await`: the id, and whether its future is awaited.
unfoldable pub acquire : Target → RwLock → RwLock × ℕ × Bool
acquire target l =
    let id = l.next_id in
    let l' = record l { next_id = l.next_id + 1 } in
    if enters l.state target
    then (record l' { state = state_of target; owner_ids = insert id l.owner_ids }, id, false)
    else (
      elim target [
        | read ↦ record l' { queue_read = l.queue_read ++ id ∷ [] }
        | write ↦ record l' { queue_write = l.queue_write ++ id ∷ [] }
      ],
      id,
      true,
    )

abbrev pub insert_all : List ℕ → List ℕ → List ℕ
insert_all [] owners = owners
insert_all (x ∷ xs) owners = insert_all xs (insert x owners)

-- What `release` does when nobody owns the lock.
unfoldable pub hand_over : RwLock → RwLock
hand_over l = elim l.queue_write [
  | next ∷ rest ↦ record l {
    queue_write = rest;
    state = writing;
    owner_ids = insert next l.owner_ids;
    signalled = next ∷ l.signalled;
  }
  | [] ↦ elim l.queue_read [
    | next ∷ rest ↦ record l {
      state = reading;
      queue_read = [];
      owner_ids = insert_all (next ∷ rest) l.owner_ids;
      signalled = next ∷ rest ++ l.signalled;
    }
    | [] ↦ record l { state = unlocked }
  ]
]

-- `release`, called when the block of `id` ends and when its wait is cancelled.
unfoldable pub release : ℕ → RwLock → RwLock
unfolding hand_over
release id l =
    let l' = record l { owner_ids = discard id l.owner_ids } in
    elim l'.owner_ids [ [] ↦ hand_over l' | _ ∷ _ ↦ l' ]

pub data Call : Type 0 where
  acquires : Target → Call
  releases : ℕ → Call

unfoldable pub step : Call → RwLock → RwLock
step (acquires target) l = (acquire target l).0
step (releases id) l = release id l

unfoldable pub run : List Call → RwLock → RwLock
run [] l = l
run (c ∷ cs) l = run cs (step c l)
