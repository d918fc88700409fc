-- ===== src/RwLock/Cancelled.antt =====
-- What src/aiodrive/experiments/rw_lock.py does about a writer whose wait is cancelled: `release`
-- leaves its id in the queue.
use aiodrive.Prelude.{◌==◌, any, ℕ, ◌≡◌, ◌≢◌, Bool, false, List, [], ◌∷◌, arith}
use aiodrive.RwLock.{
  read, write, writing, RwLock, acquire, hand_over, release, Call, acquires, releases, step, run,
}

-- Whether a call releases `d`.
abbrev pub is_release_of : ℕ → Call → Bool
is_release_of d (acquires _) = false
is_release_of d (releases a) = d == a

step_held :
    (d : ℕ) (c : Call) (l : RwLock)
    → l.state ≡ writing
    → l.owner_ids ≡ d ∷ []
    → is_release_of d c ≡ false
    → ((step c l).state ≡ writing) × ((step c l).owner_ids ≡ d ∷ [])
unfolding step acquire release
step_held d (acquires read) l s o h = ground arith
step_held d (acquires write) l s o h = ground arith
step_held d (releases a) l s o h = ground arith

run_held :
    (d : ℕ) (cs : List Call) (l : RwLock)
    → l.state ≡ writing
    → l.owner_ids ≡ d ∷ []
    → any (is_release_of d) cs ≡ false
    → ((run cs l).state ≡ writing) × ((run cs l).owner_ids ≡ d ∷ [])
unfolding run
run_held d [] l s o h = (s, o)
run_held d (c ∷ cs) l s o h =
    let (s', o') = step_held d c l s o (ground arith) in
    run_held d cs (step c l) s' o' (ground arith)

-- If the wait of the first writer `d` in the queue is cancelled while `a` owns the lock, then the
-- release by `a` makes `d` the owner, although `d` has given up; whatever calls follow, other than
-- a release of `d`, the lock stays in the writing state with the owner `d`.
pub cancelled_writer_owns :
    (a d : ℕ) (ws : List ℕ) (cs : List Call) (l : RwLock)
    → l.owner_ids ≡ a ∷ []
    → l.queue_write ≡ d ∷ ws
    → a ≢ d
    → any (is_release_of d) cs ≡ false
    → let l' = run cs (release a (release d l)) in (l'.state ≡ writing) × (l'.owner_ids ≡ d ∷ [])
unfolding release hand_over
cancelled_writer_owns a d ws cs l o q ne h =
    let l' = release a (release d l) in
    let won : (l'.state ≡ writing) × (l'.owner_ids ≡ d ∷ []) = ground arith in
    run_held d cs l' won.0 won.1 h
