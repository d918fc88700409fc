-- ===== src/Scope/Signals.antt =====
-- How `handle_signal` of src/aiodrive/modules/signals.py ends its block.
use aiodrive.Prelude.{
  ◌==◌, if◌then◌else◌, ℕ, suc, ◌+◌, ◌-◌, ◌≡◌, refl, ap, ◌∙◌, false, Option, none, some, List, [],
  ◌∷◌, arith,
}
use aiodrive.Asyncio.{cancelled_error, signal_handled, Outcome, returned, raised}
use aiodrive.Scope.{scope_cancel, use_scope, Handler, enter_handler, on_signal, handle_signal}
use aiodrive.Scope.Laws.{from_outside, receive, uncancel_times_lem, in_block}

-- What arrives during the block.
pub data Arrival : Type 0 where
  signals : ℕ → Arrival
  interrupts : Arrival

abbrev pub arrive : Arrival → Handler → Handler
unfolding on_signal
arrive (signals code) h = (on_signal code h).0
arrive interrupts h = record h { scoped = receive from_outside h.scoped }

abbrev pub arrive_all : List Arrival → Handler → Handler
arrive_all [] h = h
arrive_all (a ∷ rest) h = arrive_all rest (arrive a h)

abbrev pub last_code : Option ℕ → List Arrival → Option ℕ
last_code c [] = c
last_code c (signals code ∷ rest) = last_code (some code) rest
last_code c (interrupts ∷ rest) = last_code c rest

abbrev pub signal_count : List Arrival → ℕ
signal_count [] = 0
signal_count (signals code ∷ rest) = suc (signal_count rest)
signal_count (interrupts ∷ rest) = signal_count rest

abbrev pub interrupt_count : List Arrival → ℕ
interrupt_count [] = 0
interrupt_count (signals code ∷ rest) = interrupt_count rest
interrupt_count (interrupts ∷ rest) = suc (interrupt_count rest)

abbrev handling : ℕ → ℕ → Option ℕ → Handler
handling k requests c = record {
  scoped = in_block k requests;
  exited = false;
  handled_signal_code = c;
}

handling_ap : {k k' r r' : ℕ} (c : Option ℕ) → k ≡ k' → r ≡ r' → handling k r c ≡ handling k' r' c
handling_ap c e e' = λ i. handling (e i) (e' i) c

arrive_all-handling :
    (xs : List Arrival) (k r : ℕ) (c : Option ℕ)
    → arrive_all xs (handling k r c)
      ≡ handling (k + signal_count xs) (r + signal_count xs + interrupt_count xs) (last_code c xs)
unfolding on_signal scope_cancel
arrive_all-handling [] k r c = handling_ap c (omega arith) (omega arith)
arrive_all-handling (signals code ∷ xs) k r c =
    arrive_all-handling xs (k + 1) (r + 1) (some code)
    ∙ handling_ap (last_code (some code) xs) (omega arith) (omega arith)
arrive_all-handling (interrupts ∷ xs) k r c =
    arrive_all-handling xs k (r + 1) c ∙ handling_ap (last_code c xs) (omega arith) (omega arith)

arrived :
    (xs : List Arrival) (r : ℕ)
    → arrive_all xs (handling 0 r none)
      ≡ handling (signal_count xs) (r + signal_count xs + interrupt_count xs) (last_code none xs)
arrived xs r = arrive_all-handling xs 0 r none ∙ handling_ap (last_code none xs) (omega arith) refl

-- The exception for the last signal, if one was handled.
abbrev pub for_signal : Option ℕ → Outcome (Unit {0})
for_signal none = returned tt
for_signal (some code) = raised (signal_handled code)

ends_cancelled :
    (k n r : ℕ) (c : Option ℕ)
    → r - k ≡ n
    → (((handle_signal (handling k r c) (raised cancelled_error)).0
          ≡ (if n == 0 then for_signal c else raised cancelled_error))
        × ((handle_signal (handling k r c) (raised cancelled_error)).1.scoped.requests ≡ n))
unfolding handle_signal use_scope
ends_cancelled k n r c e = (ground (arith, uncancel_times_lem k r), uncancel_times_lem k r ∙ e)

-- If the block ends as cancelled after any signals and any other cancellations, in any order, with
-- `r` requests before: the requests that the signals made are taken back, and what is raised is
-- the exception for the last signal if no other request is left, and the cancellation if one is.
pub handle_signal-cancelled :
    (r : ℕ) (xs : List Arrival)
    → ((handle_signal (arrive_all xs (enter_handler r)) (raised cancelled_error)).0 ≡ (
        if r + interrupt_count xs == 0
        then for_signal (last_code none xs)
        else raised cancelled_error))
      × ((handle_signal
            (arrive_all xs (enter_handler r))
            (raised cancelled_error)).1.scoped.requests
          ≡ r + interrupt_count xs)
unfolding enter_handler
handle_signal-cancelled r xs =
    let last =
      ends_cancelled (signal_count xs) (r + interrupt_count xs)
        (r + signal_count xs + interrupt_count xs) (last_code none xs) (omega arith) in
    (
      ap (λ h. (handle_signal h (raised cancelled_error)).0) (arrived xs r) ∙ last.0,
      ap (λ h. (handle_signal h (raised cancelled_error)).1.scoped.requests) (arrived xs r)
          ∙ last.1,
    )

returns_signal :
    (h : Handler) → (handle_signal h (returned tt)).0 ≡ for_signal h.handled_signal_code
unfolding handle_signal use_scope
returns_signal h = ground arith

-- If the block returns, the exception for the last signal is raised, but the requests that the
-- signals made are not taken back: the task keeps one for each signal.
pub handle_signal-returned :
    (r : ℕ) (xs : List Arrival)
    → ((handle_signal (arrive_all xs (enter_handler r)) (returned tt)).0
        ≡ for_signal (last_code none xs))
      × ((handle_signal (arrive_all xs (enter_handler r)) (returned tt)).1.scoped.requests
          ≡ r + signal_count xs + interrupt_count xs)
unfolding enter_handler handle_signal use_scope
handle_signal-returned r xs = (
  ap (λ h. (handle_signal h (returned tt)).0) (arrived xs r)
      ∙ returns_signal (
          handling (signal_count xs) (r + signal_count xs + interrupt_count xs)
            (last_code none xs)),
  ap (λ h. (handle_signal h (returned tt)).1.scoped.requests) (arrived xs r),
)
