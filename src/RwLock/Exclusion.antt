-- ===== src/RwLock/Exclusion.antt =====
-- Who owns the lock of src/aiodrive/experiments/rw_lock.py.
use aiodrive.Prelude.{length, ℕ, ◌≤◌, ◌<◌, ◌≡◌, refl, ap, List, [], ◌∷◌, arith}
use aiodrive.RwLock.{
  Target, read, write, unlocked, reading, writing, RwLock, new, insert, discard, acquire,
  insert_all, hand_over, release, Call, acquires, releases, step, run,
}

-- A writer owns the lock alone, readers own it together, and nobody waits for a free lock.
pub record Inv (l : RwLock) : Type 0 where
  pub writer : l.state ≡ writing → length l.owner_ids ≡ 1
  pub readers : l.state ≡ reading → 0 < length l.owner_ids
  pub free : l.state ≡ unlocked → (l.owner_ids ≡ []) × (l.queue_read ≡ []) × (l.queue_write ≡ [])

new-Inv : Inv new
unfolding new
new-Inv = ground arith

length-insert : (a : ℕ) (xs : List ℕ) → 0 < length (insert a xs)
length-insert a [] = ground arith
length-insert a (x ∷ xs) = ground arith

length-insert_all : (a : ℕ) (xs owners : List ℕ) → 0 < length (insert_all (a ∷ xs) owners)
length-insert_all a [] owners = length-insert a owners
length-insert_all a (x ∷ xs) owners = length-insert_all x xs (insert a owners)

acquire-Inv : (t : Target) (l : RwLock) → Inv l → Inv (acquire t l).0
unfolding acquire
acquire-Inv read l v =
    ground (arith, v.writer, v.readers, v.free, length-insert l.next_id l.owner_ids)
acquire-Inv write l v = ground (arith, v.writer, v.readers, v.free)

length-discard : (a : ℕ) (xs : List ℕ) → length (discard a xs) ≤ length xs
length-discard a [] = omega arith
length-discard a (x ∷ xs) = ground (arith, length-discard a xs)

hand_over-Inv :
    (l : RwLock) (ws rs : List ℕ)
    → l.owner_ids ≡ []
    → l.queue_write ≡ ws
    → l.queue_read ≡ rs
    → Inv (hand_over l)
unfolding hand_over
hand_over-Inv l [] [] o w r = ground arith
hand_over-Inv l [] (a ∷ rs) o w r = ground (arith, length-insert_all a rs [])
hand_over-Inv l (a ∷ ws) rs o w r = ground arith

abbrev without : ℕ → RwLock → RwLock
without a l = record l { owner_ids = discard a l.owner_ids }

without-Inv :
    (a x : ℕ) (xs : List ℕ) (l : RwLock)
    → discard a l.owner_ids ≡ x ∷ xs
    → Inv l
    → Inv (without a l)
without-Inv a x xs l e v =
    ground (arith, length-discard a l.owner_ids, v.writer, v.readers, v.free, ap length e)

release-Inv_of :
    (a : ℕ) (l : RwLock) (owners : List ℕ)
    → discard a l.owner_ids ≡ owners
    → Inv l
    → Inv (release a l)
unfolding release
release-Inv_of a l [] e v =
    rw (e, release) (hand_over-Inv (without a l) l.queue_write l.queue_read e refl refl)
release-Inv_of a l (x ∷ xs) e v = rw (e, release) (without-Inv a x xs l e v)

step-Inv : (c : Call) (l : RwLock) → Inv l → Inv (step c l)
unfolding step
step-Inv (acquires t) l v = acquire-Inv t l v
step-Inv (releases a) l v = release-Inv_of a l (discard a l.owner_ids) refl v

run-Inv : (cs : List Call) (l : RwLock) → Inv l → Inv (run cs l)
unfolding run
run-Inv [] l v = v
run-Inv (c ∷ cs) l v = run-Inv cs (step c l) (step-Inv c l v)

-- After any calls on a new lock, with any ids released in any order: in the writing state exactly
-- one id owns the lock, in the reading state at least one does, and in the unlocked state there is
-- no owner and nobody waits.
pub run-new-Inv : (cs : List Call) → Inv (run cs new)
run-new-Inv cs = run-Inv cs new new-Inv
