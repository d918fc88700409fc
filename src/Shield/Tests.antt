-- ===== src/Shield/Tests.antt =====
-- Runs of the shields.
use aiodrive.Prelude.{any, ℕ, ◌≡◌, refl, ◌⊎◌, true, false, none, some, List, [], ◌∷◌, arith}
use aiodrive.Asyncio.{cancelled_error, other, returned, raised, Future, is_done}
use aiodrive.Shield.{
  ends, completed, spinning, shield_wait, shield_wait_forever, context_shield, cleaned_up,
}
use aiodrive.Shield.Waiting.{
  after_cancels, pending_task, ended_task, shield_wait-after_cancels,
  shield_wait_forever-after_cancels, shield_wait_forever_stuck, cleaned_up-after_cancels,
}
use aiodrive.Shield.Callbacks.{
  Happening, inner_ends, outer_cancelled, inner_callback, outer_callback, is_outer_cancelled,
  shield, happen, happen_all, linked_pair, shield_sound, shield_delivers,
}

shield_wait-after_cancels_example :
    shield_wait {A = ℕ} 2 (pending_task 0) (after_cancels 3 (returned 7) [])
    ≡ completed (raised cancelled_error) (ended_task 1 (returned 7))
shield_wait-after_cancels_example = shield_wait-after_cancels 2 3 0 (returned 7) []

shield_wait_forever-after_cancels_test :
    shield_wait_forever {A = ℕ} 4 (pending_task 0) (after_cancels 3 (raised (other 1)) [])
    ≡ completed (raised (other 1)) (ended_task 0 (raised (other 1)))
shield_wait_forever-after_cancels_test =
    shield_wait_forever-after_cancels 4 3 0 (raised (other 1)) [] (omega arith) (λ e. cc)

shield_wait_forever_stuck_test :
    shield_wait_forever {A = ℕ} 10 (pending_task 0) (ends (raised cancelled_error) ∷ []) ≡ spinning
shield_wait_forever_stuck_test = shield_wait_forever_stuck 10 0 0 []

cleaned_up-after_cancels_test :
    (context_shield 0 1 (pending_task 0) (after_cancels 1 (returned tt) [])
      ≡ completed (raised cancelled_error) (ended_task 0 (returned tt)))
    × (cleaned_up {B = ℕ} 0 (returned 5) (pending_task 0) (after_cancels 1 (returned tt) [])
        ≡ some (raised cancelled_error))
cleaned_up-after_cancels_test = cleaned_up-after_cancels 0 1 (returned 5) (returned tt)

abbrev some_hours : List (Happening ℕ)
some_hours = inner_ends (returned 7) ∷ outer_cancelled ∷ inner_callback ∷ outer_callback ∷ []

shield_sound_example :
    let t = happen_all {A = ℕ} 0 some_hours (linked_pair {A = ℕ} 0) in
    (t.error ≡ none)
    × ((t.outer ≡ Future.pending)
        ⊎ ((t.outer ≡ Future.cancelled) × (any is_outer_cancelled some_hours ≡ true))
        ⊎ ((t.outer ≡ t.inner) × (is_done t.inner ≡ true)))
    × (is_done t.inner ≡ true → t.inner_queued ≡ false → is_done t.outer ≡ true)
unfolding shield
shield_sound_example = shield_sound 0 some_hours (linked_pair {A = ℕ} 0) refl

shield_delivers_test :
    ((happen {A = ℕ} 0 inner_callback
        (happen {A = ℕ} 0 (inner_ends (returned 7)) (linked_pair {A = ℕ} 0))).outer
      ≡ Future.finished 7)
    × ((happen {A = ℕ} 0 outer_cancelled (linked_pair {A = ℕ} 0)).inner ≡ Future.pending)
    × ((happen {A = ℕ} 0 outer_cancelled (linked_pair {A = ℕ} 0)).outer ≡ Future.cancelled)
unfolding happen_all
shield_delivers_test = shield_delivers 0 [] (returned 7) refl refl
