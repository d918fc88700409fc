-- ===== src/Multiprocessing/Answers.antt =====
-- What the calls of `spawn` in src/aiodrive/modules/multiprocessing.py get.
use aiodrive.Prelude.{
  ltb, if◌then◌else◌, update, ℕ, ◌+◌, ◌≤◌, ◌<◌, ◌≡◌, refl, ap, ◌∙◌, fun_ext, Option, none, List, [],
  ◌∷◌, arith,
}
use aiodrive.Asyncio.{connection_error, Future, set_exception, and_then}
use aiodrive.FutureState.{FutureState}
use aiodrive.Multiprocessing.{occurs, DumpsError, fail_all, loop_eof}
use aiodrive.Multiprocessing.Steps.{System, created, replied, Reach}
use aiodrive.Multiprocessing.Protocol.{Reach-Inv}
use aiodrive.Multiprocessing.Silenced.{Reach-IsHeld}

no_occurrence : (xs : List ℕ) → ((id : ℕ) → occurs id xs ≡ 0) → xs ≡ []
no_occurrence [] h = refl
no_occurrence (x ∷ xs) h = absurd (ground (arith, h x))

fail_all-waiting :
    {A : Type 0} (ids : List ℕ) (fs : ℕ → Future A)
    → ((id : ℕ) → occurs id ids ≤ 1)
    → ((id : ℕ) → 0 < occurs id ids → fs id ≡ Future.pending)
    → fail_all ids fs
      ≡ (λ id. if ltb 0 (occurs id ids) then Future.failed connection_error else fs id, none)
fail_all-waiting {A} [] fs once waiting = refl
fail_all-waiting {A} (x ∷ ids) fs once waiting =
    let registered : 0 < occurs x (x ∷ ids) = ground arith in
    ap
      (λ g.
        and_then (set_exception connection_error g) (λ f. fail_all ids (update fs x f)) (λ f. fs))
      (waiting x registered)
    ∙ fail_all-waiting ids (update fs x (Future.failed connection_error))
        (λ id. ground (arith, once id)) (λ id h. ground (arith, once id, waiting id))
    ∙ ap (λ h. (h, none)) (fun_ext (λ id. ground (arith, once id)))

module _ {A : Type 0} (py_none : A) (unpicklable : FutureState A → Option DumpsError) where
  -- If each frame arrives whole, `_loop` has not raised and no message is under way: the calls that
  -- wait, or that are about to register their futures, are exactly those that have a task in the
  -- dictionary of the child. Among them are all those whose task was cancelled before its first
  -- step, and each of these tasks has not begun.
  pub Reach-drained :
      {s : System A}
      → Reach py_none unpicklable s
      → s.error ≡ none
      → s.to_child ≡ []
      → s.to_parent ≡ []
      → (id : ℕ)
      → (occurs id s.parent.tasks + occurs id s.sending ≡ occurs id s.child.tasks)
        × (0 < occurs id s.silenced
            → (0 < occurs id s.parent.tasks + occurs id s.sending) × (occurs id s.begun ≡ 0))
  Reach-drained {s} p n e1 e3 id =
      let v = (Reach-Inv py_none unpicklable p).live n in
      let a : created id s.to_child ≡ 0 = ap (created id) e1 in
      let c : replied id s.to_parent ≡ 0 = ap (replied id) e3 in
      let placed : occurs id s.parent.tasks + occurs id s.sending ≡ occurs id s.child.tasks =
        omega (arith, v.placed id, a, c) in
      (
        placed,
        λ h.
            let held = Reach-IsHeld py_none unpicklable p id h in
            (omega (arith, placed, held.0), held.2),
      )

  -- When the connection closes and `_loop` has not raised, it ends without an error, each call that waits is given a
  -- `ConnectionError`, and no other future changes.
  pub Reach-eof :
      {s : System A}
      → Reach py_none unpicklable s
      → s.error ≡ none
      → (id : ℕ)
      → ((loop_eof s.parent).1 ≡ none)
        × ((loop_eof s.parent).0.tasks ≡ [])
        × ((loop_eof s.parent).0.futures id ≡ (
            if ltb 0 (occurs id s.parent.tasks)
            then Future.failed connection_error
            else s.parent.futures id))
  unfolding loop_eof
  Reach-eof {s} p n id =
      let inv = (Reach-Inv py_none unpicklable p).live n in
      let closed =
        ap
          (λ x.
            and_then x (λ fs. (record s.parent { tasks = []; futures = fs }, none))
              (λ fs. record s.parent { futures = fs }))
          (fail_all-waiting s.parent.tasks s.parent.futures (λ k. omega (arith, inv.once k))
            inv.waiting) in
      (ap (λ x. x.1) closed, ap (λ x. x.0.tasks) closed, ap (λ x. x.0.futures id) closed)
