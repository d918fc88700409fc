-- ===== src/Cancel/Suppress.antt =====
-- What the contexts of src/aiodrive/modules/cancel.py and task_group.py let through.
use aiodrive.Prelude.{leb, ◌≡◌, refl, ap, ◌∙◌, Bool, true, false, not, ◌&&◌, none, some, arith}
use aiodrive.Asyncio.{Exn, task_group_terminated, group, Exns, end, more, Outcome, returned, raised}
use aiodrive.Cancel.{
  Count, ensure_correct_cancellation, regroup, keep_some, unmatched, unmatched_all, reraise,
  suppress_block, suppress, is_terminated, append_exn, task_group_exit, volatile_task_group,
}

abbrev pub is_returned {ℓ} : {A : Type ℓ} → Outcome A → Bool
is_returned (returned _) = true
is_returned (raised _) = false

-- With a running loop, `suppress` returns exactly when the current task was not cancelled during
-- the block and either nothing was raised and it is not strict, or what was raised consists of
-- exceptions that match; in particular it swallows no cancellation, whatever it is told to match.
pub suppress_returns :
    (matches : Exn → Bool) (strict : Bool) (initial final : Count) (body : Outcome (Unit {0}))
    → is_returned (suppress matches strict true initial final body) ≡ (
        leb final initial && elim body [
          | returned _ ↦ not strict
          | raised e ↦ elim (unmatched matches e) [ none ↦ true | some _ ↦ false ]
        ])
unfolding suppress
suppress_returns matches strict initial final body = ground arith

unmatched_all-append_exn :
    (es : Exns)
    → unmatched_all is_terminated (append_exn es task_group_terminated)
      ≡ unmatched_all is_terminated es
unfolding unmatched
unmatched_all-append_exn end = refl
unmatched_all-append_exn (more e es) =
    ap (λ rest. keep_some (unmatched is_terminated e) rest) (unmatched_all-append_exn es)

task_group_exit-terminated :
    (es : Exns)
    → task_group_exit es (raised task_group_terminated)
      ≡ raised (group (append_exn es task_group_terminated))
task_group_exit-terminated end = refl
task_group_exit-terminated (more e es) = refl

pub ensure-same :
    (count : Count) (o : Outcome (Unit {0})) → ensure_correct_cancellation count count o ≡ o
unfolding ensure_correct_cancellation
ensure-same count (returned a) = ground arith
ensure-same count (raised e) = refl

reraise-regroup :
    (es : Exns)
    → reraise (regroup es)
      ≡ elim es [ end ↦ returned tt | more e rest ↦ raised (group (more e rest)) ]
reraise-regroup end = refl
reraise-regroup (more e es) = refl

-- If the current task is not cancelled during the block and the block returns, the group's
-- context raises the group of what is left of its tasks' exceptions without their terminators,
-- and returns if nothing is left: its own terminator never gets out.
pub volatile_task_group_returned :
    (count : Count) (errors : Exns)
    → volatile_task_group count count errors (returned tt)
      ≡ elim (unmatched_all is_terminated errors) [
        | end ↦ returned tt
        | more e es ↦ raised (group (more e es))
      ]
unfolding volatile_task_group suppress suppress_block unmatched
volatile_task_group_returned count errors =
    ensure-same count _
    ∙ ap (suppress_block is_terminated false) (task_group_exit-terminated errors)
    ∙ ap (λ es. reraise (regroup es)) (unmatched_all-append_exn errors)
    ∙ reraise-regroup (unmatched_all is_terminated errors)
