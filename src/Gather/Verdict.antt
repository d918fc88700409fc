-- ===== src/Gather/Verdict.antt =====
-- How src/aiodrive/modules/gather.py ends, once every task is done.
use aiodrive.Prelude.{
  any, all, ◌≡◌, refl, ◌↔◌, ◌⊎◌, inl, inr, Bool, true, false, List, [], ◌∷◌, map, arith,
}
use aiodrive.Asyncio.{
  Exn, returned, Future, finished, is_done, is_cancelled, Task, task_done, task_cancelled,
}
use aiodrive.Gather.{exceptions, results, verdict}

module _ {A : Type 0} where
  abbrev pub outcomes : List (Task A) → List (Future A)
  outcomes = map (λ t. t.future)

  abbrev pub finished_all : List A → List (Future A)
  finished_all = map Future.finished

  results_finished :
      (ts : List (Task A)) (vs : List A)
      → outcomes ts ≡ finished_all vs
      → (exceptions ts ≡ []) × (any task_cancelled ts ≡ false) × (results ts ≡ returned vs)
  unfolding exceptions results
  results_finished [] [] e = (refl, refl, refl)
  results_finished [] (a ∷ vs) e = absurd (cc)
  results_finished (t ∷ ts) [] e = absurd (cc)
  results_finished (t ∷ ts) (a ∷ vs) e =
      let head : t.future ≡ finished a = ground arith in
      let tail : outcomes ts ≡ finished_all vs = ground arith in
      ground (arith, head, results_finished ts vs tail)

  Future-cases :
      (f : Future A)
      → (is_done f ≡ false)
        ⊎ (is_cancelled f ≡ true)
        ⊎ ((e : Exn) × (f ≡ Future.failed e))
        ⊎ ((a : A) × (f ≡ Future.finished a))
  Future-cases Future.pending = inl refl
  Future-cases Future.cancelled = inr (inl refl)
  Future-cases (Future.failed e) = inr (inr (inl (e, refl)))
  Future-cases (Future.finished a) = inr (inr (inr (a, refl)))

  -- Every task is done, and none failed or was cancelled.
  abbrev AllFine : List (Task A) → Type 0
  AllFine ts = (all task_done ts ≡ true) × (exceptions ts ≡ []) × (any task_cancelled ts ≡ false)

  AllFine-head :
      (t : Task A) (ts : List (Task A))
      → AllFine (t ∷ ts)
      → (a : A) × (t.future ≡ Future.finished a) × AllFine ts
  unfolding exceptions
  AllFine-head t ts (d, x, c) = elim (Future-cases t.future) [
    | inl p ↦ absurd (ground arith)
    | inr (inl p) ↦ absurd (ground arith)
    | inr (inr (inl (e, p))) ↦ absurd (ground arith)
    | inr (inr (inr (a, p))) ↦ (a, p, (ground arith, ground arith, ground arith))
  ]

  AllFine-results :
      (ts : List (Task A))
      → AllFine ts
      → (vs : List A) × (results ts ≡ returned vs) × (outcomes ts ≡ finished_all vs)
  unfolding results
  AllFine-results [] h = ([], refl, refl)
  AllFine-results (t ∷ ts) h =
      let (a, p, fine) = AllFine-head t ts h in
      let (vs, r, o) = AllFine-results ts fine in (a ∷ vs, ground arith, ground arith)

  -- Where every task is done, `gather` returns exactly when no cancellation of its own task came
  -- and every task has finished with a value, and then it returns these values in the order of
  -- the tasks.
  pub verdict-returned :
      (interrupted : Bool) (ts : List (Task A)) (vs : List A)
      → all task_done ts ≡ true
      → (verdict interrupted ts ≡ returned vs)
        ↔ (interrupted ≡ false) × (outcomes ts ≡ finished_all vs)
  unfolding verdict
  verdict-returned interrupted ts vs d = (
    λ e.
        let calm : interrupted ≡ false = ground arith in
        let quiet : exceptions ts ≡ [] = ground arith in
        let kept : any task_cancelled ts ≡ false = ground arith in
        let (ws, r, o) = AllFine-results ts (d, quiet, kept) in (calm, ground arith),
    λ (calm, o). let (x, c, r) = results_finished ts vs o in ground arith,
  )
