-- ===== src/FileLock/Waking.antt =====
-- One caller of `flock_kqueue` of src/aiodrive/modules/lock.py among other processes.
-- The caller that awaits the button is resumed once its future is done.
use aiodrive.Prelude.{
  if◌then◌else◌, Bool-cases, ℕ, ◌+◌, ◌-◌, ◌≤◌, ◌<◌, ◌≡◌, refl, subst, inl, inr, true, false, Option,
  none, some, arith,
}
use aiodrive.Button.{new, woken}
use aiodrive.FileLock.{FileLock, new_file_lock, interrupt_flock, leave_flock}
use aiodrive.FileLock.Rounds.{
  is_due, Step, others_lock, others_unlock, enters, reads, resumes, gives_up, leaves, Reach, here,
  next, IsAwaited, Inv, attempt-Inv, read_event-Inv, enter_flock-Inv,
}

more-IsAwaited :
    (l : FileLock) (w : Option ℕ) (c k : ℕ)
    → l.conflicts + l.notifications ≤ c + k
    → IsAwaited l w
    → IsAwaited (record l { conflicts = c; notifications = k }) w
more-IsAwaited l none c k h a = tt
more-IsAwaited l (some n) c k h (le, a) = (le, λ e. ((a e).0, omega (arith, (a e).1)))

unlocked-IsAwaited :
    (l : FileLock) (w : Option ℕ) (k : ℕ)
    → k ≤ 1
    → (l.registered ≡ false → (l.notifications ≡ 0) × (w ≡ none))
    → IsAwaited l w
    → IsAwaited
        (record l {
          conflicts = l.conflicts - k;
          notifications = if l.registered then l.notifications + 1 else l.notifications;
        })
        w
unlocked-IsAwaited l none k h i a = tt
unlocked-IsAwaited l (some n) k h i (le, a) = (
  le,
  λ e. (
    (a e).0,
    elim (Bool-cases l.registered) [
      | inl y ↦ rw y (omega arith)
      | inr f ↦ let z = (i f).1 in absurd cc
    ],
  ),
)

due_apart :
    (l : FileLock) (w : Option ℕ)
    → l.waiting ≡ w
    → is_due l w ≡ true
    → Inv l
    → (l.registered ≡ true) × (l.locked ≡ false)
due_apart l none e h inv = absurd cc
due_apart l (some n) e h inv = (ground (arith, inv.idle), ground (arith, inv.idle, inv.apart))

Step-Inv : {l l' : FileLock} → Step l l' → Inv l → Inv l'
unfolding interrupt_flock leave_flock
Step-Inv {l} (others_lock h) inv = record {
  ready = inv.ready;
  exclusive = λ e. absurd (ground arith);
  idle = inv.idle;
  apart = inv.apart;
  awaited = more-IsAwaited l l.waiting (l.conflicts + 1) l.notifications (omega arith) inv.awaited;
  silent = inv.silent;
}
Step-Inv {l} (others_unlock k a b) inv = record {
  ready = inv.ready;
  exclusive = λ e. ground (arith, inv.exclusive e);
  idle = λ r. ground (arith, inv.idle r);
  apart = inv.apart;
  awaited = unlocked-IsAwaited l l.waiting k a inv.idle inv.awaited;
  silent = inv.silent;
}
Step-Inv {l} (enters h r) inv = enter_flock-Inv l h r inv
Step-Inv {l} (reads h) inv = read_event-Inv l h inv
Step-Inv {l} (resumes h) inv =
    let (r, k) = due_apart l l.waiting refl h inv in attempt-Inv l r k inv
Step-Inv {l} (gives_up h) inv = record {
  ready = inv.ready;
  exclusive = inv.exclusive;
  idle = λ e. (refl, refl);
  apart = λ e. refl;
  awaited = tt;
  silent = inv.silent;
}
Step-Inv {l} (leaves h) inv = record {
  ready = inv.ready;
  exclusive = λ e. absurd cc;
  idle = inv.idle;
  apart = λ e. absurd cc;
  awaited = inv.awaited;
  silent = inv.silent;
}

Reach-Inv : {l : FileLock} → Reach l → Inv l
unfolding new_file_lock new
Reach-Inv (here conflicts) = record {
  ready = refl;
  exclusive = λ e. absurd cc;
  idle = λ e. (refl, refl);
  apart = λ e. absurd cc;
  awaited = tt;
  silent = refl;
}
Reach-Inv (next r s) = Step-Inv s (Reach-Inv r)

-- No unlocking is missed: a caller that awaits the button and is not resumed has a conflicting lock
-- against it, or a notification of kqueue that the event loop has not read yet.
pub Reach-notified :
    {l : FileLock}
    → Reach l
    → (n : ℕ) → l.waiting ≡ some n
    → woken l.button n ≡ none
    → 0 < l.conflicts + l.notifications
unfolding woken
Reach-notified {l} r n w s =
    let (le, a) = subst (IsAwaited l) w (Reach-Inv r).awaited in (a (ground arith)).1
