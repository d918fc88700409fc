-- ===== src/Coroutine/Runs.antt =====
-- What `prime` and `ensure_daemon` change about a coroutine.
use aiodrive.Prelude.{◌≡◌, refl, ap, ◌∙◌, fun_ext, Option, none, some, List, [], ◌∷◌, arith}
use aiodrive.Asyncio.{runtime_error, daemon_return_error, Outcome, returned, raised}
use mathlib.Core.Option
use aiodrive.FutureState.Laws.{apply-absorb}
use aiodrive.Coroutine.{
  Resumption, sends, throws, Coroutine, finishes, yields, first_send, prime, pass_on, replay, go_on,
  inner, ensure_daemon,
}

abbrev pub no_return : {A : Type 0} → Outcome A → Outcome A
no_return (returned a) = raised daemon_return_error
no_return (raised e) = raised e

module _ {V : Type 0} {A : Type 0} where
  -- The coroutine does not look at what it is sent, as one that awaits futures and tasks.
  abbrev pub IsDeaf : Coroutine V A → Type 0
  IsDeaf (finishes o) = Unit
  IsDeaf (yields value resume) =
      ((x y : V) → resume (sends x) ≡ resume (sends y)) × ((r : Resumption V) → IsDeaf (resume r))

  pass_on_same :
      (value : V) (resume : Resumption V → Coroutine V A)
      → ((x y : V) → resume (sends x) ≡ resume (sends y))
      → (r : Resumption V) → resume (pass_on value r) ≡ resume r
  pass_on_same value resume h (sends x) = h value x
  pass_on_same value resume h (throws e) = refl

  replay-IsDeaf : (g : Coroutine V A) → IsDeaf g → replay g ≡ g
  unfolding replay
  replay-IsDeaf (finishes o) h = refl
  replay-IsDeaf (yields value resume) (same, rest) = ap (yields value) (
      fun_ext (λ r.
        replay-IsDeaf (resume (pass_on value r)) (rest (pass_on value r))
        ∙ pass_on_same value resume same r))

  go_on-first_send :
      (py_none : V) (g : Coroutine V A) → IsDeaf g → go_on g (first_send g py_none) ≡ g
  unfolding first_send replay
  go_on-first_send py_none (finishes (returned a)) h = refl
  go_on-first_send py_none (finishes (raised e)) h = ground arith
  go_on-first_send py_none (yields value resume) h = replay-IsDeaf (yields value resume) h

  -- A coroutine that does not look at what it is sent is unchanged by `prime`: the awaitable that
  -- `prime` returns yields the same values, and returns and raises the same, however it is resumed
  -- and whatever is thrown into it, its first step having been made before.
  pub inner-prime : (py_none : V) (g : Coroutine V A) → IsDeaf g → inner (prime py_none g) ≡ g
  unfolding inner prime
  inner-prime py_none g h =
      ap (go_on g) (apply-absorb py_none (first_send g) py_none (raised runtime_error)).1
      ∙ go_on-first_send py_none g h

  -- The values that a coroutine yields while it is resumed so, and its outcome if it finishes.
  abbrev pub run : Coroutine V A → List (Resumption V) → List V × Option (Outcome A)
  run (finishes o) rs = ([], some o)
  run (yields value resume) [] = (value ∷ [], none)
  run (yields value resume) (r ∷ rs) = let (vs, o) = run (resume r) rs in (value ∷ vs, o)

  -- A daemon yields what the awaitable yields, however it is resumed, raises what it raises, and
  -- raises `DaemonReturnError` where it returns.
  pub run-ensure_daemon :
      (g : Coroutine V A) (rs : List (Resumption V))
      → run (ensure_daemon g) rs ≡ ((run g rs).0, Option.map no_return (run g rs).1)
  unfolding ensure_daemon
  run-ensure_daemon (finishes (returned a)) rs = refl
  run-ensure_daemon (finishes (raised e)) rs = refl
  run-ensure_daemon (yields value resume) [] = refl
  run-ensure_daemon (yields value resume) (r ∷ rs) =
      ap (λ x. (value ∷ x.0, x.1)) (run-ensure_daemon (resume r) rs)
