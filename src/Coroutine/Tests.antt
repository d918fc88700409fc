-- ===== src/Coroutine/Tests.antt =====
-- A coroutine that awaits two futures and returns.
use aiodrive.Prelude.{ℕ, ◌≡◌, refl, some, [], ◌∷◌}
use aiodrive.Asyncio.{daemon_return_error, returned, raised}
use aiodrive.Coroutine.{
  Resumption, sends, throws, Coroutine, finishes, yields, prime, inner, ensure_daemon,
}
use aiodrive.Coroutine.Runs.{IsDeaf, inner-prime, run, run-ensure_daemon}

abbrev answer : Resumption ℕ → Coroutine ℕ ℕ
answer (sends x) = finishes (returned 5)
answer (throws e) = finishes (raised e)

abbrev twice : Coroutine ℕ ℕ
twice = yields 1 (λ r. yields 2 answer)

answer-IsDeaf : (r : Resumption ℕ) → IsDeaf (answer r)
answer-IsDeaf (sends x) = tt
answer-IsDeaf (throws e) = tt

inner-prime_example : inner (prime 0 twice) ≡ twice
inner-prime_example = inner-prime 0 twice (λ x y. refl, λ r. (λ x y. refl, answer-IsDeaf))

run-ensure_daemon_test :
    run (ensure_daemon twice) (sends 0 ∷ sends 0 ∷ [])
    ≡ (1 ∷ 2 ∷ [], some (raised daemon_return_error))
run-ensure_daemon_test = run-ensure_daemon twice (sends 0 ∷ sends 0 ∷ [])

-- A coroutine that returns what it is sent is changed: `inner` sends it the value that it yielded.
abbrev echo : Coroutine ℕ ℕ
echo = yields 1 (λ r. elim r [ sends x ↦ finishes (returned x) | throws e ↦ finishes (raised e) ])

inner_echo : run (inner (prime 0 echo)) (sends 7 ∷ []) ≡ (1 ∷ [], some (returned 1))
unfolding inner prime
inner_echo = refl
