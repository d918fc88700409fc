-- ===== src/Watch/Reports.antt =====
-- What the user's callback is told by watch_path of src/aiodrive/modules/watch.py.
use aiodrive.Prelude.{
  Bool-cases, ℕ, ◌≡◌, refl, sym, ap, ◌∙◌, subst, inl, inr, Bool, true, false, not, ◌&&◌, Option,
  none, some, List, [], ◌∷◌, ◌++◌, arith,
}
use aiodrive.Watch.{
  WatchPathEvent, create, delete, write, is_delete, Reporter, new_reporter, cancel_handle,
  later_event, handle_event, eager_callback, report, late_callback, fire_next, fire,
}

-- The calls that describe a path consistently, and whether it exists after them.
pub data Follows : List WatchPathEvent → Bool → Type 0 where
  found : Follows (create ∷ []) true
  missing : Follows (delete ∷ []) false
  appears : {es : List WatchPathEvent} → Follows es false → Follows (es ++ create ∷ []) true
  changes : {es : List WatchPathEvent} → Follows es true → Follows (es ++ write ∷ []) true
  vanishes : {es : List WatchPathEvent} → Follows es true → Follows (es ++ delete ∷ []) false

-- With a delay and an immediate first call: the first event is not a write, and then events come
-- and delays pass in any order.
pub data Reach : Reporter → Type 0 where
  finds : Reach (eager_callback true true create new_reporter)
  misses : Reach (eager_callback true true delete new_reporter)
  sees : {r : Reporter} (e : WatchPathEvent) → Reach r → Reach (eager_callback true true e r)
  fires : {r : Reporter} → Reach r → Reach (fire r)

-- One call is due at most, that of the last handle; if none is, the callback is up to date.
abbrev pub IsDue : List ℕ → Option ℕ → WatchPathEvent → Bool → Type 0
IsDue [] c e last = last ≡ not (is_delete e)
IsDue (h ∷ []) c e last = (c ≡ some h) × ((last ≡ false) → is_delete e ≡ false)
IsDue (h ∷ x ∷ hs) c e last = false ≡ true

abbrev IsUpToDate : Reporter → Bool → Type 0
IsUpToDate r last =
    (r.last_reported_exists ≡ some last)
    × (r.error ≡ none)
    × Follows r.calls last
    × IsDue r.scheduled r.callback_handle r.queued_event last

cancel_handle-IsDue :
    (hs : List ℕ) (c : Option ℕ) (e : WatchPathEvent) (last : Bool)
    → IsDue hs c e last
    → cancel_handle c hs ≡ []
cancel_handle-IsDue [] none e last d = refl
cancel_handle-IsDue [] (some c) e last d = refl
cancel_handle-IsDue (h ∷ []) c e last d = rw d.0 (ground arith)
cancel_handle-IsDue (h ∷ x ∷ hs) c e last d = cc

later_event-IsUpToDate :
    (r : Reporter) (last : Bool) (e : WatchPathEvent)
    → IsUpToDate r last
    → IsUpToDate (later_event true last e (record r { queued_event = e })) last
later_event-IsUpToDate r last e d =
    let c : cancel_handle r.callback_handle r.scheduled ≡ [] =
      cancel_handle-IsDue r.scheduled r.callback_handle r.queued_event last d.3 in
    elim (Bool-cases (not last && is_delete e)) [
      | inl t ↦ rw t (rw c (d.0, d.1, d.2, ground arith))
      | inr n ↦ rw n (rw c (d.0, d.1, d.2, (refl, λ h. ground arith)))
    ]

-- What holds when a delay has passed with no event since.
abbrev pub IsTold : Reporter → WatchPathEvent → Type 0
IsTold r e =
    (r.error ≡ none)
    × (r.queued_event ≡ e)
    × (r.scheduled ≡ [])
    × Follows r.calls (not (is_delete e))
    × (r.last_reported_exists ≡ some (not (is_delete e)))

report-IsTold :
    (r : Reporter) (last : Bool) (e : WatchPathEvent)
    → (r.last_reported_exists ≡ some last)
    → (r.error ≡ none)
    → (r.queued_event ≡ e)
    → (r.scheduled ≡ [])
    → Follows r.calls last
    → ((last ≡ false) → is_delete e ≡ false)
    → IsTold (report (some last) e r) e
report-IsTold r true create l x q s f h = (x, q, s, changes f, l)
report-IsTold r true delete l x q s f h = (x, q, s, vanishes f, refl)
report-IsTold r true write l x q s f h = (x, q, s, changes f, l)
report-IsTold r false create l x q s f h = (x, q, s, appears f, refl)
report-IsTold r false delete l x q s f h = let c : true ≡ false = h refl in cc
report-IsTold r false write l x q s f h = (x, q, s, appears f, refl)

fire_next-IsTold :
    (r : Reporter) (last : Bool) (hs : List ℕ)
    → r.scheduled ≡ hs
    → (r.last_reported_exists ≡ some last)
    → (r.error ≡ none)
    → Follows r.calls last
    → IsDue hs r.callback_handle r.queued_event last
    → IsTold (fire_next hs r) r.queued_event
unfolding late_callback
fire_next-IsTold r last [] s l x f d = (x, refl, s, subst (Follows r.calls) d f, l ∙ ap some d)
fire_next-IsTold r last (h ∷ []) s l x f d =
    let t : IsTold (report (some last) r.queued_event (record r { scheduled = [] }))
        r.queued_event =
      report-IsTold (record r { scheduled = [] }) last r.queued_event l x refl refl f d.1 in
    subst (λ o. IsTold (report o r.queued_event (record r { scheduled = [] })) r.queued_event)
      (sym l) t
fire_next-IsTold r last (h ∷ x ∷ hs) s l y f d = cc

handle_event-IsUpToDate :
    (r : Reporter) (last : Bool) (e : WatchPathEvent) (o : Option Bool)
    → o ≡ some last
    → IsUpToDate r last
    → IsUpToDate (handle_event true true e o (record r { queued_event = e })) last
handle_event-IsUpToDate r last e o p d = rw p (later_event-IsUpToDate r last e d)

IsTold-IsUpToDate :
    (r : Reporter) (e : WatchPathEvent) → IsTold r e → IsUpToDate r (not (is_delete e))
IsTold-IsUpToDate r e (x, q, s, f, l) = (l, x, f, rw s (rw q refl))

Reach-IsUpToDate : {r : Reporter} → Reach r → (last : Bool) × IsUpToDate r last
unfolding eager_callback new_reporter fire
Reach-IsUpToDate finds = (true, (refl, refl, found, refl))
Reach-IsUpToDate misses = (false, (refl, refl, missing, refl))
Reach-IsUpToDate (sees {r} e s) =
    let (last, d) = Reach-IsUpToDate s in
    (last, handle_event-IsUpToDate r last e r.last_reported_exists d.0 d)
Reach-IsUpToDate (fires {r} s) =
    let (last, d) = Reach-IsUpToDate s in
    (
      not (is_delete r.queued_event),
      IsTold-IsUpToDate (fire r) r.queued_event
          (fire_next-IsTold r last r.scheduled refl d.0 d.1 d.2 d.3),
    )

-- With a delay and an immediate first call, whatever events come and whenever delays pass, from a
-- first event that is not a write: when the delay has passed once more, no call of `late_callback` has failed,
-- none is due, and the calls of the callback describe the path consistently (created only when it
-- was missing, written to and deleted only when it was there) up to the last event.
pub fire-IsTold : {r : Reporter} → Reach r → IsTold (fire r) r.queued_event
unfolding fire
fire-IsTold {r} s =
    let (last, d) = Reach-IsUpToDate s in fire_next-IsTold r last r.scheduled refl d.0 d.1 d.2 d.3

-- Events, and the passing of the delays that are due.
abbrev pub run : Bool → List (Option WatchPathEvent) → Reporter → Reporter
run debounced [] r = r
run debounced (none ∷ es) r = run debounced es (fire r)
run debounced (some e ∷ es) r = run debounced es (eager_callback false debounced e r)

run-calls_from :
    (debounced : Bool) (es : List (Option WatchPathEvent)) (r : Reporter)
    → r.last_reported_exists ≡ none
    → r.scheduled ≡ []
    → (run debounced es r).calls ≡ r.calls
unfolding eager_callback fire
run-calls_from debounced [] r n s = refl
run-calls_from debounced (none ∷ es) r n s =
    subst (λ hs. (run debounced es (fire_next hs r)).calls ≡ r.calls) (sym s)
      (run-calls_from debounced es r n s)
run-calls_from debounced (some e ∷ es) r n s =
    subst
      (λ o.
        (run debounced es (handle_event false debounced e o (record r { queued_event = e }))).calls
        ≡ r.calls)
      (sym n) (run-calls_from debounced es (record r { queued_event = e }) n s)

-- Without an immediate first call, with a delay or not, the callback is never called.
pub run-calls :
    (debounced : Bool) (es : List (Option WatchPathEvent))
    → (run debounced es new_reporter).calls ≡ []
unfolding new_reporter
run-calls debounced es = run-calls_from debounced es new_reporter refl refl
