-- ===== src/FileLock/Rounds.antt =====
-- -- What a round of the loop of src/aiodrive/modules/lock.py keeps, and the steps of its caller.
use aiodrive.Prelude.{
  ◌==◌, if◌then◌else◌, Bool-cases, ℕ, ◌+◌, ◌-◌, ◌≤◌, ◌<◌, ◌≡◌, refl, sym, ◌∙◌, subst, inl, inr,
  Bool, true, false, Option, none, some, arith,
}
use aiodrive.Asyncio.{Future, is_done}
use aiodrive.Button.{new, call, await, Button, press}
use aiodrive.FileLock.{
  FileLock, new_file_lock, attempt, press_button, enter_flock, read_event, interrupt_flock,
  leave_flock,
}

abbrev pub is_due : FileLock → Option ℕ → Bool
is_due l none = false
is_due l (some n) = is_done (l.button.futures n)

pub data Step (l : FileLock) : FileLock → Type 0 where
  -- Others lock the file, where the caller does not hold a lock, and unlock it; an unlocking that
  -- removes no conflict is notified too.
  others_lock : l.locked ≡ false → Step l (record l { conflicts = l.conflicts + 1 })
  others_unlock :
      (k : ℕ)
      → k ≤ 1
      → k ≤ l.conflicts
      → Step l (record l {
        conflicts = l.conflicts - k;
        notifications = if l.registered then l.notifications + 1 else l.notifications;
      })
  enters : l.locked ≡ false → l.registered ≡ false → Step l (enter_flock l)
  reads : 0 < l.notifications → Step l (read_event l)
  resumes : is_due l l.waiting ≡ true → Step l (attempt l)
  gives_up : l.registered ≡ true → Step l (interrupt_flock l)
  leaves : l.locked ≡ true → Step l (leave_flock l)

pub data Reach : FileLock → Type 0 where
  here : (conflicts : ℕ) → Reach (new_file_lock conflicts)
  next : {l l' : FileLock} → Reach l → Step l l' → Reach l'

-- The future of a caller that waits, where it is of the present button and is not done, is awaited
-- for a conflict, or for a notification of its end.
abbrev pub IsAwaited : FileLock → Option ℕ → Type 0
IsAwaited l none = Unit
IsAwaited l (some n) =
    (n ≤ l.button.current)
    × ((is_done (l.button.futures n) ≡ false)
        → (n ≡ l.button.current) × (0 < l.conflicts + l.notifications))

pub record Inv (l : FileLock) : Type 0 where
  pub ready : l.button.futures l.button.current ≡ Future.pending
  pub exclusive : l.locked ≡ true → l.conflicts ≡ 0
  pub idle : l.registered ≡ false → (l.notifications ≡ 0) × (l.waiting ≡ none)
  pub apart : l.locked ≡ true → l.registered ≡ false
  pub awaited : IsAwaited l l.waiting
  pub silent : l.error ≡ none

press_ready :
    (b : Button)
    → b.futures b.current ≡ Future.pending
    → ((press b).0.futures (press b).0.current ≡ Future.pending)
      × ((press b).1 ≡ none)
      × ((press b).0.current ≡ b.current + 1)
      × ((press b).0.futures b.current ≡ Future.finished tt)
unfolding press call
press_ready b h = (ground arith, ground arith, ground arith, ground arith)

pub attempt-Inv : (l : FileLock) → l.registered ≡ true → l.locked ≡ false → Inv l → Inv (attempt l)
unfolding attempt await
attempt-Inv l r k inv = elim (Bool-cases (l.conflicts == 0)) [
  | inl y ↦ rw y (record {
    ready = inv.ready;
    exclusive = λ h. ground arith;
    idle = λ h. (refl, refl);
    apart = λ h. refl;
    awaited = tt;
    silent = inv.silent;
  })
  | inr n ↦ rw n (record {
    ready = inv.ready;
    exclusive = λ h. absurd cc;
    idle = λ h. absurd cc;
    apart = λ h. absurd cc;
    awaited = (omega arith, λ h. (refl, ground arith));
    silent = inv.silent;
  })
]

press_awaited :
    (b : Button) (n : ℕ)
    → b.futures b.current ≡ Future.pending
    → n ≤ b.current
    → ((is_done (b.futures n) ≡ false) → n ≡ b.current)
    → (n ≤ (press b).0.current) × (is_done ((press b).0.futures n) ≡ true)
unfolding press call
press_awaited b n h le f = ground (arith, f)

read_event-IsAwaited :
    (l : FileLock) (w : Option ℕ)
    → l.button.futures l.button.current ≡ Future.pending
    → IsAwaited l w
    → IsAwaited (read_event l) w
unfolding read_event press call
read_event-IsAwaited l none h a = tt
read_event-IsAwaited l (some n) h (le, a) =
    let (le', d) = press_awaited l.button n h le (λ e. (a e).0) in
    (le', λ e. let c : true ≡ false = sym d ∙ e in absurd cc)

pub read_event-Inv : (l : FileLock) → 0 < l.notifications → Inv l → Inv (read_event l)
unfolding read_event
read_event-Inv l h inv =
    let p = press_ready l.button inv.ready in
    record {
      ready = p.0;
      exclusive = inv.exclusive;
      idle = λ r. absurd (ground (arith, inv.idle r));
      apart = inv.apart;
      awaited = read_event-IsAwaited l l.waiting inv.ready inv.awaited;
      silent = rw inv.silent p.1;
    }

abbrev pub pressed : FileLock → FileLock
unfolding new
pressed l = press_button (record l { button = new; registered = true })

enter_flock-attempt :
    (l : FileLock) → (l.conflicts == 0) ≡ false → enter_flock l ≡ attempt (pressed l)
unfolding enter_flock new
enter_flock-attempt l n = rw n refl

pressed-Inv :
    (l : FileLock)
    → (l.conflicts == 0) ≡ false
    → l.locked ≡ false
    → l.registered ≡ false
    → Inv l
    → Inv (attempt (pressed l))
unfolding new
pressed-Inv l n k r inv =
    let p = press_ready new refl in
    attempt-Inv (pressed l) refl k (record {
      ready = p.0;
      exclusive = λ h. absurd (ground arith);
      idle = λ h. absurd cc;
      apart = λ h. absurd (ground arith);
      awaited = subst (IsAwaited (pressed l)) (sym (inv.idle r).1) tt;
      silent = rw inv.silent p.1;
    })

pub enter_flock-Inv :
    (l : FileLock) → l.locked ≡ false → l.registered ≡ false → Inv l → Inv (enter_flock l)
unfolding enter_flock new
enter_flock-Inv l k r inv = elim (Bool-cases (l.conflicts == 0)) [
  | inl y ↦ rw y (record {
    ready = inv.ready;
    exclusive = λ h. ground arith;
    idle = λ h. inv.idle r;
    apart = λ h. r;
    awaited = inv.awaited;
    silent = inv.silent;
  })
  | inr n ↦ subst Inv (sym (enter_flock-attempt l n)) (pressed-Inv l n k r inv)
]
