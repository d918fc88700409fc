-- ===== src/Signals/Seen.antt =====
-- What the consumer of `watch_signal` in src/aiodrive/modules/signals.py sees of the signals.
-- `unseen` counts the signals since the last item, `total` all of them, and `items` the items.
use aiodrive.Prelude.{
  ltb, if◌then◌else◌, all, ℕ, ◌+◌, ◌≤◌, ◌≡◌, refl, sym, subst, Bool, true, false, not, Option, none,
  some, List, [], ◌∷◌, ◌++◌, map, arith,
}
use aiodrive.Asyncio.{cancelled_error, returned, raised}
use aiodrive.Signals.{
  is_registered, Incident, arrives, interrupts, wait_for_signal, Phase, awaits, yielded, closed,
  Watcher, start_watch, receive_signal, resume_watch, ask_next, close_watch,
}

pub record Seen : Type 0 where
  pub watcher : Watcher
  pub unseen : ℕ
  pub total : ℕ
  pub items : ℕ

pub data Step (s : Seen) : Seen → Type 0 where
  signals :
      (code : ℕ)
      → is_registered code s.watcher.handlers ≡ true
      → Step s (record s {
        watcher = receive_signal code s.watcher;
        unseen = s.unseen + 1;
        total = s.total + 1;
      })
  resumes :
      (w : Watcher)
      → s.watcher.phase ≡ awaits
      → resume_watch s.watcher ≡ some w
      → Step s (record s { watcher = w; unseen = 0; items = s.items + 1 })
  asks : s.watcher.phase ≡ yielded → Step s (record s { watcher = ask_next s.watcher })
  closes : Step s (record s { watcher = close_watch s.watcher })

pub data Reach (codes : List ℕ) : Seen → Type 0 where
  here : Reach codes (record { watcher = start_watch codes; unseen = 0; total = 0; items = 0 })
  next : {s s' : Seen} → Reach codes s → Step s s' → Reach codes s'

abbrev pub is_closed : Phase → Bool
is_closed closed = true
is_closed _ = false

pub record Inv (codes : List ℕ) (s : Seen) : Type 0 where
  pub told : s.watcher.event ≡ ltb 0 s.unseen
  pub fewer : s.items + s.unseen ≤ s.total
  pub registered : s.watcher.handlers ≡ (if is_closed s.watcher.phase then [] else codes)

resumed_lem :
    (w w' : Watcher)
    → resume_watch w ≡ some w'
    → (w' ≡ record w { event = false; phase = yielded }) × (w.event ≡ true)
unfolding resume_watch
resumed_lem w w' e = ground arith

Step-Inv : {codes : List ℕ} {s s' : Seen} → Step s s' → Inv codes s → Inv codes s'
unfolding receive_signal ask_next close_watch
Step-Inv {s = s} (signals code h) inv =
    rw h (record {
      told = ground arith;
      fewer = omega (arith, inv.fewer);
      registered = inv.registered;
    })
Step-Inv {codes} {s} (resumes w p e) inv =
    let (q, v) = resumed_lem s.watcher w e in
    subst (λ w. Inv codes (record s { watcher = w; unseen = 0; items = s.items + 1 })) (sym q)
      (record {
        told = ground arith;
        fewer = ground (arith, inv.told, inv.fewer);
        registered = ground (arith, inv.registered);
      })
Step-Inv {s = s} (asks p) inv = record {
  told = inv.told;
  fewer = inv.fewer;
  registered = ground (arith, inv.registered);
}
Step-Inv closes inv = record { told = inv.told; fewer = inv.fewer; registered = refl }

Reach-Inv : {codes : List ℕ} {s : Seen} → Reach codes s → Inv codes s
unfolding start_watch
Reach-Inv here = record { told = ground arith; fewer = omega arith; registered = refl }
Reach-Inv (next r s) = Step-Inv s (Reach-Inv r)

abbrev pub is_some : {A : Type 0} → Option A → Bool
is_some none = false
is_some (some a) = true

-- In any order of signals, items and requests for the next: the consumer can be given an item
-- exactly if a signal has arrived since the last one, so none is missed, there are at most as many
-- items as signals, and the handlers are registered until the generator is closed, and then none is.
pub Reach-seen :
    {codes : List ℕ} {s : Seen}
    → Reach codes s
    → (is_some (resume_watch s.watcher) ≡ ltb 0 s.unseen)
      × (s.items ≤ s.total)
      × (s.watcher.handlers ≡ (if is_closed s.watcher.phase then [] else codes))
unfolding resume_watch
Reach-seen {s = s} r =
    let inv = Reach-Inv r in (ground (arith, inv.told), omega (arith, inv.fewer), inv.registered)

-- `wait_for_signal` returns at the first registered signal, unless it is cancelled before, and
-- removes its handlers either way.
pub wait_for_signal_ends :
    (codes others : List ℕ) (code : ℕ) (is : List Incident)
    → all (λ c. not (is_registered c codes)) others ≡ true
    → is_registered code codes ≡ true
    → (wait_for_signal codes (map arrives others ++ arrives code ∷ is) ≡ (some (returned tt), []))
      × (wait_for_signal codes (map arrives others ++ interrupts ∷ is)
          ≡ (some (raised cancelled_error), []))
unfolding wait_for_signal
wait_for_signal_ends codes [] code is n h = (rw h refl, refl)
wait_for_signal_ends codes (c ∷ others) code is n h =
    let rest = wait_for_signal_ends codes others code is (ground arith) h in
    let q : is_registered c codes ≡ false = ground arith in (rw q rest.0, rw q rest.1)
