-- ===== src/Process/Laws.antt =====
-- The signals that `Process.wait` of src/aiodrive/modules/process.py sends.
use aiodrive.Prelude.{
  ltb, ◌==◌, if◌then◌else◌, replicate, ℕ, zero, suc, ◌+◌, ◌≡◌, refl, sym, ap, ◌∙◌, none, some, List,
  [], ◌∷◌, ◌++◌, append_assoc, append-nil, arith,
}
use aiodrive.Asyncio.{cancelled_error, process_terminated, Outcome, returned, raised}
use aiodrive.Cancel.{ensure_correct_cancellation}
use aiodrive.Process.{Event, cancels, exits, Process, ends, check_code, wait_loop, wait}

abbrev pub running : List ℕ → Process
running signals = record { returncode = none; signals = signals }

abbrev pub exited : ℕ → List ℕ → Process
exited code signals = record { returncode = some code; signals = signals }

abbrev pub signals_for : ℕ → ℕ → ℕ → List ℕ
signals_for zero first subsequent = []
signals_for (suc k) first subsequent = first ∷ replicate k subsequent

ends_ap :
    (code : ℕ) {o o' : Outcome (Unit {0})} {xs ys : List ℕ} {m n : ℕ}
    → o ≡ o'
    → xs ≡ ys
    → m ≡ n
    → ends o (exited code xs) m ≡ ends o' (exited code ys) n
ends_ap code e f g = λ i. ends (e i) (exited code (f i)) (g i)

wait_loop-cancels :
    (k initial subsequent count code : ℕ) (sent : List ℕ) (es : List Event)
    → wait_loop initial subsequent (running sent) count (replicate k cancels ++ exits code ∷ es)
      ≡ ends
          (ensure_correct_cancellation initial (count + k) (check_code code))
          (exited code (sent ++ replicate k subsequent))
          (count + k)
unfolding wait_loop
wait_loop-cancels zero initial subsequent count code sent es =
    let e : count ≡ count + 0 = omega arith in
    ends_ap code (ap (λ n. ensure_correct_cancellation initial n (check_code code)) e)
      (sym (append-nil sent)) e
wait_loop-cancels (suc k) initial subsequent count code sent es =
    let e : count + 1 + k ≡ count + suc k = omega arith in
    wait_loop-cancels k initial subsequent (count + 1) code (sent ++ subsequent ∷ []) es
    ∙ ends_ap code (ap (λ n. ensure_correct_cancellation initial n (check_code code)) e)
        (append_assoc sent (subsequent ∷ []) (replicate k subsequent)) e

-- When the task is cancelled `k` times before the process exits, the process gets the first signal
-- once and the subsequent one for each further cancellation. `wait` then raises
-- `ProcessTerminatedException` if the code is not zero, else `CancelledError` if it was cancelled,
-- and returns otherwise.
pub wait-cancels :
    (k count first subsequent code : ℕ) (es : List Event)
    → wait count first subsequent (running []) (replicate k cancels ++ exits code ∷ es)
      ≡ ends
          (if code == 0
            then if ltb 0 k then raised cancelled_error else returned tt
            else raised (process_terminated code))
          (exited code (signals_for k first subsequent))
          (count + k)
unfolding wait ensure_correct_cancellation
wait-cancels zero count first subsequent code es = ends_ap code (ground arith) refl (omega arith)
wait-cancels (suc k) count first subsequent code es =
    wait_loop-cancels k count subsequent (count + 1) code (first ∷ []) es
    ∙ ends_ap code (ground arith) refl (omega arith)
