-- ===== src/Aiter/Zip.antt =====
-- `zip_concurrently` of src/aiodrive/modules/zip.py, on the outcomes of its successive gathers, one
-- for each row.
use aiodrive.Prelude.{
  if◌then◌else◌, all, ◌≡◌, refl, sym, ap, ◌∙◌, ◌≢◌, Bool, true, false, ◌||◌, Option, none, some,
  List, [], ◌∷◌, ◌++◌, map, arith,
}
use aiodrive.Asyncio.{
  Exn, runtime_error, stop_async_iteration, group, Exns, end, more, exns, is_stop_async_iteration,
  Outcome, returned, raised, Task,
}
use aiodrive.Cancel.{keep_some, unmatched, unmatched_all}
use aiodrive.Gather.{exceptions, verdict}

-- Whether an exception has a leaf that `except* StopAsyncIteration` takes.
mutual
  pub has_stop : Exn → Bool
  has_stop (group es) = any_stop es
  has_stop e = is_stop_async_iteration e

  pub any_stop : Exns → Bool
  any_stop end = false
  any_stop (more e es) = has_stop e || any_stop es

-- What is raised from an `except*` clause that raises: the exception itself if a naked one was
-- caught, and otherwise a group of it and what the clause has not taken.
abbrev pub raise_in_clause : Exn → Option Exn → Exn
raise_in_clause e none = group (more e end)
raise_in_clause e (some rest) = group (more e (more rest end))

unfoldable pub zip_error : Exn → Exn
unfolding has_stop unmatched
zip_error (group es) =
    if has_stop (group es)
    then raise_in_clause stop_async_iteration (unmatched is_stop_async_iteration (group es))
    else group es
zip_error e = if is_stop_async_iteration e then stop_async_iteration else e

stop_only : (e : Exn) → is_stop_async_iteration e ≡ true → e ≡ stop_async_iteration
stop_only e p = ground arith

-- A group of nothing but `StopAsyncIteration`s is taken whole.
unmatched_all-stopped :
    (es : List Exn)
    → all is_stop_async_iteration es ≡ true
    → unmatched_all is_stop_async_iteration (exns es) ≡ end
unfolding unmatched
unmatched_all-stopped [] a = refl
unmatched_all-stopped (e ∷ es) a =
    let first : e ≡ stop_async_iteration = stop_only e (ground arith) in
    let rest = unmatched_all-stopped es (ground arith) in
    ap
      (λ x.
        keep_some (unmatched is_stop_async_iteration x)
          (unmatched_all is_stop_async_iteration (exns es)))
      first
    ∙ rest

zip_error-stopped :
    (e : Exn) (es : List Exn)
    → all is_stop_async_iteration (e ∷ es) ≡ true
    → zip_error (group (exns (e ∷ es))) ≡ group (more stop_async_iteration end)
unfolding zip_error unmatched
zip_error-stopped e es a =
    let first : e ≡ stop_async_iteration = stop_only e (ground arith) in
    let none_left = unmatched_all-stopped (e ∷ es) a in rw (none_left, first) refl

-- An asynchronous generator does not let a `StopAsyncIteration` out.
abbrev pub leave_generator : Exn → Exn
leave_generator e = if is_stop_async_iteration e then runtime_error else e

is_stop_async_iteration-leave_generator :
    (e : Exn) → is_stop_async_iteration (leave_generator e) ≡ false
is_stop_async_iteration-leave_generator e = ground arith

verdict-stopped {ℓ} :
    {A : Type ℓ} (interrupted : Bool) (ts : List (Task A)) (e : Exn) (es : List Exn)
    → exceptions ts ≡ e ∷ es
    → verdict interrupted ts ≡ raised (group (exns (e ∷ es)))
unfolding verdict
verdict-stopped interrupted ts e es p = rw (p, verdict) refl

module _ {A : Type 0} where
  -- The rows that are yielded, and what ends the generator.
  unfoldable pub zip_concurrently : List (Outcome (List A)) → List (List A) × Option Exn
  unfolding zip_error
  zip_concurrently [] = ([], none)
  zip_concurrently (returned items ∷ os) =
      let rest = zip_concurrently os in (items ∷ rest.0, rest.1)
  zip_concurrently (raised e ∷ os) = ([], some (leave_generator (zip_error e)))

  -- All the rows are yielded in order. When in a round the iterators that do not give an item are
  -- exhausted, at least one is, and the round is not cancelled before it is over, then the zipped
  -- iterator raises a group of one `StopAsyncIteration`, and so does not end in the regular way.
  pub zip_concurrently_exhausted :
      (rows : List (List A)) (interrupted : Bool) (ts : List (Task A)) (e : Exn) (es : List Exn)
      (os : List (Outcome (List A)))
      → exceptions ts ≡ e ∷ es
      → all is_stop_async_iteration (e ∷ es) ≡ true
      → zip_concurrently (map returned rows ++ verdict interrupted ts ∷ os)
        ≡ (rows, some (group (more stop_async_iteration end)))
  unfolding zip_concurrently
  zip_concurrently_exhausted [] interrupted ts e es os p a =
      ap (λ o. zip_concurrently (o ∷ os)) (verdict-stopped interrupted ts e es p)
      ∙ ap (λ x. ([], some (leave_generator x))) (zip_error-stopped e es a)
  zip_concurrently_exhausted (row ∷ rows) interrupted ts e es os p a =
      rw (zip_concurrently_exhausted rows interrupted ts e es os p a) refl

  -- Whatever the gathers come to, the zipped iterator never ends as one that is exhausted.
  pub zip_concurrently_endless :
      (os : List (Outcome (List A))) → (zip_concurrently os).1 ≢ some stop_async_iteration
  unfolding zip_concurrently
  zip_concurrently_endless [] h = absurd cc
  zip_concurrently_endless (returned items ∷ os) h = zip_concurrently_endless os h
  zip_concurrently_endless (raised e ∷ os) h =
      let l : leave_generator (zip_error e) ≡ stop_async_iteration = cc in
      let c : true ≡ false =
        sym (ap is_stop_async_iteration l)
        ∙ is_stop_async_iteration-leave_generator (zip_error e) in
      absurd cc
