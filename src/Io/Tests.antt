-- ===== src/Io/Tests.antt =====
-- A line of two bytes that arrive one by one.
use aiodrive.Prelude.{
  ltb, if◌then◌else◌, replicate, all, ℕ, ◌≡◌, refl, Option, none, some, List, [], ◌∷◌,
}
use aiodrive.Asyncio.{Exn, value_error, Outcome, returned, raised, Future, pending, finished}
use aiodrive.Io.{nothing, Prompt, new_prompt, callback, prompt, pipe}
use aiodrive.Io.Lines.{prompt-line, callback_stuck, pipe-bytes}

-- Decoding that keeps the bytes, and refuses those that are not of ASCII.
abbrev same : List ℕ → Outcome (List ℕ)
same xs = if all (λ x. ltb x 128) xs then returned xs else raised value_error

abbrev line_state : Future (List ℕ) → Option Exn → Prompt same
line_state f x = record {
  future = f;
  result = 104 ∷ 105 ∷ [];
  output = 63 ∷ 10 ∷ 62 ∷ 32 ∷ 104 ∷ 105 ∷ 10 ∷ [];
  error = x;
}

prompt-line_example :
    let last = prompt same ((104 ∷ []) ∷ (105 ∷ 10 ∷ 33 ∷ []) ∷ []) (new_prompt same (63 ∷ [])) in
    ((s : List ℕ) → same (104 ∷ 105 ∷ []) ≡ returned s → last ≡ some (line_state (finished s) none))
    × ((e : Exn)
        → same (104 ∷ 105 ∷ []) ≡ raised e
        → last ≡ prompt same [] (line_state pending (some e)))
prompt-line_example = prompt-line same (63 ∷ []) ((104 ∷ []) ∷ []) (105 ∷ []) (33 ∷ []) [] refl refl

prompt_undecoded_test :
    prompt same ((255 ∷ 10 ∷ []) ∷ []) (new_prompt same [])
    ≡ some (record {
      future = pending;
      result = 255 ∷ [];
      output = 10 ∷ 62 ∷ 32 ∷ 255 ∷ 10 ∷ [];
      error = some value_error;
    })
unfolding prompt new_prompt
prompt_undecoded_test = (prompt-line same [] [] (255 ∷ []) [] [] refl refl).1 value_error refl

stuck_test : callback same (replicate 3 nothing) (new_prompt same (63 ∷ [])) ≡ none
stuck_test = callback_stuck same 3 (new_prompt same (63 ∷ []))

pipe_test : pipe ((1 ∷ 2 ∷ []) ∷ (3 ∷ []) ∷ [] ∷ []) ≡ (1 ∷ 2 ∷ []) ∷ (3 ∷ []) ∷ []
pipe_test = pipe-bytes ((1 ∷ 2 ∷ []) ∷ (3 ∷ []) ∷ []) [] refl
