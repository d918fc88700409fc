-- ===== src/Amass/Yields.antt =====
-- The results that `amass` of src/aiodrive/modules/amass.py has yielded, and the futures that are
-- done.
use aiodrive.Prelude.{
  ◌==◌, if◌then◌else◌, Bool-cases, update, All, count, ℕ, ◌<◌, ◌≡◌, refl, ap, subst, inl, inr, Bool,
  true, false, ◌&&◌, Option, none, some, List, [], ◌∷◌, ◌++◌, map, arith,
}
use aiodrive.Asyncio.{
  Exn, Outcome, returned, raised, Future, pending, failed, finished, is_done, Task, task_done,
  request, result, complete_task,
}
use aiodrive.Gather.{all_completed_over}
use aiodrive.Amass.{Reason, Phase, closing, ended, is_empty}

and_parts : (x y : Bool) → (x && y) ≡ true → (x ≡ true) × (y ≡ true)
and_parts true y e = (refl, e)
and_parts false y e = cc

pub is_empty-nil : (ks : List ℕ) → is_empty ks ≡ true → ks ≡ []
is_empty-nil [] e = refl
is_empty-nil (k ∷ ks) e = cc

abbrev pub reason_of : Phase → Option Reason
reason_of (closing reason) = some reason
reason_of (ended reason o) = some reason
reason_of _ = none

module _ {A : Type 0} where
  abbrev pub keys : List (ℕ × A) → List ℕ
  keys [] = []
  keys ((k, v) ∷ xs) = k ∷ keys xs

  abbrev pub IsYield : (ℕ → Task A) → List (ℕ × A) → Type 0
  IsYield futures [] = Unit
  IsYield futures ((k, v) ∷ xs) = ((futures k).future ≡ finished v) × IsYield futures xs

  -- Every one of these futures was cancelled or has failed.
  abbrev pub is_raised : Future A → Bool
  is_raised (failed x) = true
  is_raised Future.cancelled = true
  is_raised _ = false

  abbrev pub IsMissed : (ℕ → Task A) → List ℕ → Type 0
  IsMissed futures = All (λ k. is_raised (futures k).future ≡ true)

  pub request-IsMissed :
      (p : ℕ → Bool) (futures : ℕ → Task A) (ks : List ℕ)
      → IsMissed futures ks
      → IsMissed (λ k. if p k then request (futures k) else futures k) ks
  request-IsMissed p futures [] y = y
  request-IsMissed p futures (k ∷ ks) y = (ground (arith, y.0), request-IsMissed p futures ks y.1)

  pub complete-IsMissed :
      (k : ℕ) (o : Outcome A) (futures : ℕ → Task A) (ks : List ℕ)
      → IsMissed futures ks
      → IsMissed (update futures k (complete_task o (futures k))) ks
  unfolding complete_task
  complete-IsMissed k o futures [] y = y
  complete-IsMissed k o futures (j ∷ js) y =
      (ground (arith, y.0), complete-IsMissed k o futures js y.1)

  pub append-IsMissed :
      (futures : ℕ → Task A) (ks : List ℕ) (k : ℕ)
      → IsMissed futures ks
      → is_raised (futures k).future ≡ true
      → IsMissed futures (ks ++ k ∷ [])
  append-IsMissed futures [] k y e = (e, tt)
  append-IsMissed futures (j ∷ js) k y e = (y.0, append-IsMissed futures js k y.1 e)

  pub result-is_raised :
      (f : Future A) (e : Exn) → is_done f ≡ true → result f ≡ raised e → is_raised f ≡ true
  result-is_raised pending e d h = cc
  result-is_raised Future.cancelled e d h = refl
  result-is_raised (failed x) e d h = refl
  result-is_raised (finished w) e d h = cc

  pub request-IsYield :
      (p : ℕ → Bool) (futures : ℕ → Task A) (xs : List (ℕ × A))
      → IsYield futures xs
      → IsYield (λ k. if p k then request (futures k) else futures k) xs
  request-IsYield p futures [] y = y
  request-IsYield p futures ((k, v) ∷ xs) y =
      (ground (arith, y.0), request-IsYield p futures xs y.1)

  pub complete-IsYield :
      (k : ℕ) (o : Outcome A) (futures : ℕ → Task A) (xs : List (ℕ × A))
      → IsYield futures xs
      → IsYield (update futures k (complete_task o (futures k))) xs
  unfolding complete_task
  complete-IsYield k o futures [] y = y
  complete-IsYield k o futures ((j, v) ∷ xs) y =
      (ground (arith, y.0), complete-IsYield k o futures xs y.1)

  pub append-IsYield :
      (futures : ℕ → Task A) (xs : List (ℕ × A)) (k : ℕ) (v : A)
      → IsYield futures xs
      → (futures k).future ≡ finished v
      → IsYield futures (xs ++ (k, v) ∷ [])
  append-IsYield futures [] k v y e = (e, tt)
  append-IsYield futures ((j, w) ∷ xs) k v y e = (y.0, append-IsYield futures xs k v y.1 e)

  pub keys-append :
      (xs : List (ℕ × A)) (k : ℕ) (v : A) → keys (xs ++ (k, v) ∷ []) ≡ keys xs ++ k ∷ []
  keys-append [] k v = refl
  keys-append ((j, w) ∷ xs) k v = ap (λ ys. j ∷ ys) (keys-append xs k v)

  pub result-finished : (f : Future A) (v : A) → result f ≡ returned v → f ≡ finished v
  result-finished pending v e = cc
  result-finished Future.cancelled v e = cc
  result-finished (failed x) v e = cc
  result-finished (finished w) v e = cc

  pub complete_task_done :
      (o : Outcome A) (t : Task A) → task_done t ≡ true → task_done (complete_task o t) ≡ true
  unfolding complete_task
  complete_task_done o t d = rw d d

  pub update_done :
      (k j : ℕ) (o : Outcome A) (futures : ℕ → Task A)
      → task_done (futures j) ≡ true
      → task_done (update futures k (complete_task o (futures k)) j) ≡ true
  update_done k j o futures d = elim (Bool-cases (k == j)) [
    | inl e ↦ rw e (
        complete_task_done o (futures k)
          (subst (λ i. task_done (futures i) ≡ true) (ground arith) d))
    | inr n ↦ rw n d
  ]

  pub update_each_done :
      (k : ℕ) (o : Outcome A) (futures : ℕ → Task A) (ks : List ℕ)
      → All (λ j. task_done (futures j) ≡ true) ks
      → All (λ j. task_done (update futures k (complete_task o (futures k)) j) ≡ true) ks
  update_each_done k o futures [] d = tt
  update_each_done k o futures (j ∷ js) d =
      (update_done k j o futures d.0, update_each_done k o futures js d.1)

  pub complete-all_completed :
      (k : ℕ) (o : Outcome A) (futures : ℕ → Task A) (ks : List ℕ)
      → all_completed_over (map futures ks) ≡ true
      → all_completed_over (map (update futures k (complete_task o (futures k))) ks) ≡ true
  complete-all_completed k o futures [] d = refl
  complete-all_completed k o futures (j ∷ js) d =
      let (x, y) = and_parts (task_done (futures j)) (all_completed_over (map futures js)) d in
      rw (update_done k j o futures x) (complete-all_completed k o futures js y)

  pub all_completed-mem :
      (futures : ℕ → Task A) (k : ℕ) (ks : List ℕ)
      → all_completed_over (map futures ks) ≡ true
      → 0 < count k ks
      → task_done (futures k) ≡ true
  all_completed-mem futures k [] d h = absurd (omega arith)
  all_completed-mem futures k (j ∷ js) d h =
      let (x, y) = and_parts (task_done (futures j)) (all_completed_over (map futures js)) d in
      elim (Bool-cases (j == k)) [
        | inl e ↦ subst (λ i. task_done (futures i) ≡ true) (ground arith) x
        | inr n ↦ all_completed-mem futures k js y (ground arith)
      ]
