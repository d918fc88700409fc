-- ===== src/Io/Lines.antt =====
-- The line that `prompt` of src/aiodrive/modules/io.py returns.
use aiodrive.Prelude.{
  ◌==◌, replicate, all, ℕ, zero, suc, ◌≡◌, refl, sym, ap, ◌∙◌, Bool, true, false, not, ◌&&◌, none,
  some, List, [], ◌∷◌, ◌++◌, map, append_assoc, append-nil, arith,
}
use aiodrive.Asyncio.{Exn, Outcome, returned, raised, Future, pending, finished, is_done}
use aiodrive.Io.{
  byte, nothing, would_block, newline, end_of_transmission, Prompt, new_prompt, succeed_as,
  callback, prompt, pipe,
}

abbrev pub is_plain : ℕ → Bool
is_plain char = not (char == newline) && not (char == end_of_transmission)

abbrev pub is_nil : List ℕ → Bool
is_nil [] = true
is_nil (x ∷ xs) = false

module _ {S : Type 0} (decode : List ℕ → Outcome S) where
  abbrev typed : List ℕ → Prompt decode → Prompt decode
  typed xs p = record p { result = p.result ++ xs; output = p.output ++ xs }

  record_eq :
      (p : Prompt decode) {xs ys zs ws : List ℕ}
      → xs ≡ zs
      → ys ≡ ws
      → record p { result = xs; output = ys } ≡ record p { result = zs; output = ws }
  record_eq p e f = rw e (rw f refl)

  -- A part of the line is echoed and kept.
  callback-typed :
      (xs : List ℕ) (p : Prompt decode)
      → all is_plain xs ≡ true
      → callback decode (map byte xs ++ would_block ∷ []) p ≡ some (typed xs p)
  unfolding callback
  callback-typed [] p h =
      ap some (record_eq p (sym (append-nil p.result)) (sym (append-nil p.output)))
  callback-typed (x ∷ xs) p h =
      let n : (x == newline) ≡ false = ground (arith, h) in
      let t : (x == end_of_transmission) ≡ false = ground (arith, h) in
      rw t (
        rw n (
          callback-typed xs (typed (x ∷ []) p) (ground (arith, h))
          ∙ ap some (
              record_eq p (append_assoc p.result (x ∷ []) xs) (append_assoc p.output (x ∷ []) xs))))

  -- The prompt once the line is read and `decode` has come to an outcome.
  abbrev answered_as : Outcome S → List ℕ → List ℕ → Prompt decode → Prompt decode
  answered_as (returned s) xs ys p = record p { future = finished s; result = xs; output = ys }
  answered_as (raised e) xs ys p = record p { error = some e; result = xs; output = ys }

  abbrev answered : List ℕ → Prompt decode → Prompt decode
  answered xs p =
      answered_as (decode (p.result ++ xs)) (p.result ++ xs) ((p.output ++ xs) ++ newline ∷ []) p

  answered_eq :
      (p : Prompt decode) {xs ys zs ws : List ℕ}
      → xs ≡ zs
      → ys ≡ ws
      → answered_as (decode xs) xs ys p ≡ answered_as (decode zs) zs ws p
  answered_eq p e f = λ i. answered_as (decode (e i)) (e i) (f i) p

  answered_as-typed :
      (o : Outcome S) (xs ys zs : List ℕ) (p : Prompt decode)
      → answered_as o xs ys (typed zs p) ≡ answered_as o xs ys p
  answered_as-typed (returned s) xs ys zs p = refl
  answered_as-typed (raised e) xs ys zs p = refl

  answered-typed :
      (zs xs ws : List ℕ) (p : Prompt decode)
      → ((ys : List ℕ) → (ys ++ zs) ++ xs ≡ ys ++ ws)
      → answered xs (typed zs p) ≡ answered ws p
  answered-typed zs xs ws p e =
      answered_as-typed (decode ((p.result ++ zs) ++ xs)) ((p.result ++ zs) ++ xs)
        (((p.output ++ zs) ++ xs) ++ newline ∷ []) zs p
      ∙ answered_eq p (e p.result) (ap (λ o. o ++ newline ∷ []) (e p.output))

  succeed_as-answered_as :
      (f : Future S) (o : Outcome S) (ys : List ℕ) (p : Prompt decode)
      → f ≡ pending
      → succeed_as decode f o (record p { output = ys }) ≡ answered_as o p.result ys p
  succeed_as-answered_as f (raised e) ys p g = refl
  succeed_as-answered_as f (returned s) ys p g =
      ap (λ x. succeed_as decode x (returned s) (record p { output = ys })) g

  -- The rest of the line, with its end.
  callback-line :
      (xs rest : List ℕ) (p : Prompt decode)
      → all is_plain xs ≡ true
      → p.future ≡ pending
      → callback decode (map byte (xs ++ newline ∷ rest) ++ would_block ∷ []) p
        ≡ some (answered xs p)
  unfolding callback
  callback-line [] rest p h f =
      ap some (succeed_as-answered_as p.future (decode p.result) (p.output ++ newline ∷ []) p f)
      ∙ ap some (
          answered_eq p (sym (append-nil p.result))
            (ap (λ o. o ++ newline ∷ []) (sym (append-nil p.output))))
  callback-line (x ∷ xs) rest p h f =
      let n : (x == newline) ≡ false = ground (arith, h) in
      let t : (x == end_of_transmission) ≡ false = ground (arith, h) in
      rw t (
        rw n (
          callback-line xs rest (typed (x ∷ []) p) (ground (arith, h)) f
          ∙ ap some (answered-typed (x ∷ []) xs (x ∷ xs) p (λ ys. append_assoc ys (x ∷ []) xs))))

  abbrev pub concat : List (List ℕ) → List ℕ
  concat [] = []
  concat (xs ∷ xss) = xs ++ concat xss

  prompt_done :
      (chunks : List (List ℕ)) (p : Prompt decode)
      → is_done p.future ≡ true
      → prompt decode chunks p ≡ some p
  unfolding prompt
  prompt_done [] p d = refl
  prompt_done (chunk ∷ chunks) p d = rw d refl

  joined :
      (ys chunk : List ℕ) (chunks : List (List ℕ)) (xs : List ℕ)
      → (ys ++ chunk) ++ (concat chunks ++ xs) ≡ ys ++ (concat (chunk ∷ chunks) ++ xs)
  joined ys chunk chunks xs =
      append_assoc ys chunk (concat chunks ++ xs)
      ∙ ap (λ zs. ys ++ zs) (sym (append_assoc chunk (concat chunks) xs))

  prompt-from :
      (chunks : List (List ℕ)) (xs rest : List ℕ) (later : List (List ℕ)) (p : Prompt decode)
      → all (all is_plain) chunks ≡ true
      → all is_plain xs ≡ true
      → p.future ≡ pending
      → prompt decode (chunks ++ (xs ++ newline ∷ rest) ∷ later) p
        ≡ prompt decode later (answered (concat chunks ++ xs) p)
  unfolding prompt
  prompt-from [] xs rest later p c h f =
      let d : is_done p.future ≡ false = ap is_done f in
      rw d (rw (callback-line xs rest p h f) refl)
  prompt-from (chunk ∷ chunks) xs rest later p c h f =
      let d : is_done p.future ≡ false = ap is_done f in
      let u : all is_plain chunk ≡ true = ground (arith, c) in
      let w : all (all is_plain) chunks ≡ true = ground (arith, c) in
      let e : callback decode (map byte chunk ++ would_block ∷ []) p ≡ some (typed chunk p) =
        callback-typed chunk p u in
      rw d (
        rw e (
          prompt-from chunks xs rest later (typed chunk p) w h f
          ∙ ap (prompt decode later) (
              answered-typed chunk (concat chunks ++ xs) (concat (chunk ∷ chunks) ++ xs) p
                (λ ys. joined ys chunk chunks xs))))

  -- However the bytes of a line are split over the times that the file is readable, if no byte
  -- before its line feed is one that ends the transmission: the message and then the line with its
  -- line feed have been written. If the line without its line feed decodes, `prompt` returns it so,
  -- whatever follows. If it does not, the error is raised in the callback, and `prompt` goes on
  -- waiting, with the bytes of the line still in its result.
  pub prompt-line :
      (message : List ℕ) (chunks : List (List ℕ)) (xs rest : List ℕ) (later : List (List ℕ))
      → all (all is_plain) chunks ≡ true
      → all is_plain xs ≡ true
      → let line = concat chunks ++ xs in
        let written = ((message ++ newline ∷ 62 ∷ 32 ∷ []) ++ line) ++ newline ∷ [] in
        let last =
          prompt decode (chunks ++ (xs ++ newline ∷ rest) ∷ later) (new_prompt decode message) in
        ((s : S)
          → decode line ≡ returned s
          → last
            ≡ some (record { future = finished s; result = line; output = written; error = none }))
        × ((e : Exn)
            → decode line ≡ raised e
            → last
              ≡ prompt decode later
                  (record { future = pending; result = line; output = written; error = some e }))
  unfolding new_prompt
  prompt-line message chunks xs rest later c h =
      let p = new_prompt decode message in
      let line = concat chunks ++ xs in
      let q = prompt-from chunks xs rest later p c h refl in
      let with_outcome = λ (o : Outcome S).
        prompt decode later (answered_as o line ((p.output ++ line) ++ newline ∷ []) p) in
      (
        λ s d.
            q
            ∙ ap with_outcome d
            ∙ prompt_done later
                (answered_as (returned s) line ((p.output ++ line) ++ newline ∷ []) p) refl,
        λ e d. q ∙ ap with_outcome d,
      )

  -- At the end of the file the loop of the callback does not end, however often it reads.
  pub callback_stuck : (n : ℕ) (p : Prompt decode) → callback decode (replicate n nothing) p ≡ none
  unfolding callback
  callback_stuck zero p = refl
  callback_stuck (suc n) p = callback_stuck n p

-- Until a chunk is empty, which is the end of the source, every byte is written, in order.
pub pipe-bytes :
    (chunks later : List (List ℕ))
    → all (λ xs. not (is_nil xs)) chunks ≡ true
    → pipe (chunks ++ [] ∷ later) ≡ chunks
unfolding pipe
pipe-bytes [] later h = refl
pipe-bytes ([] ∷ chunks) later h = cc
pipe-bytes ((x ∷ xs) ∷ chunks) later h = ap (λ c. (x ∷ xs) ∷ c) (pipe-bytes chunks later h)
