-- ===== src/Watch.antt =====
-- src/aiodrive/modules/watch.py: how file events become calls of the callback, and which ancestor
-- of the path is watched. The events come from kqueue, which is not modelled.
pub mod Composed
pub mod Paths
pub mod Reports
mod Tests
use aiodrive.Prelude.{
  ◌==◌, if◌then◌else◌, ℕ, zero, suc, ◌+◌, ◌-◌, Bool, true, false, not, ◌&&◌, Option, none, some,
  List, [], ◌∷◌, ◌++◌,
}
use aiodrive.Asyncio.{Exn, runtime_error}

pub data WatchPathEvent : Type 0 where
  create delete write : WatchPathEvent

abbrev pub is_create : WatchPathEvent → Bool
is_create create = true
is_create _ = false

abbrev pub is_delete : WatchPathEvent → Bool
is_delete delete = true
is_delete _ = false

-- `scheduled` lists the handles whose call is due, and `calls` the calls of the user's callback.
pub record Reporter : Type 0 where
  pub callback_handle : Option ℕ
  pub last_reported_exists : Option Bool
  pub queued_event : WatchPathEvent
  pub scheduled : List ℕ
  pub next_handle : ℕ
  pub calls : List WatchPathEvent
  pub error : Option Exn

-- `queued_event` is set before it is first read.
unfoldable pub new_reporter : Reporter
new_reporter = record {
  callback_handle = none;
  last_reported_exists = none;
  queued_event = create;
  scheduled = [];
  next_handle = 0;
  calls = [];
  error = none;
}

abbrev pub remove : ℕ → List ℕ → List ℕ
remove h [] = []
remove h (x ∷ xs) = if h == x then remove h xs else x ∷ remove h xs

-- `callback_handle.cancel()`, if there is one.
abbrev pub cancel_handle : Option ℕ → List ℕ → List ℕ
cancel_handle none hs = hs
cancel_handle (some h) hs = remove h hs

abbrev pub schedule : List ℕ → Reporter → Reporter
schedule hs r = record r {
  callback_handle = some r.next_handle;
  scheduled = hs ++ r.next_handle ∷ [];
  next_handle = r.next_handle + 1;
}

-- The first event, which is reported at once if it is reported.
abbrev pub first_event : Bool → WatchPathEvent → Reporter → Reporter
first_event call_immediately event r =
    if call_immediately
    then record r { last_reported_exists = some (is_create event); calls = r.calls ++ event ∷ [] }
    else r

-- A later event; `debounced` says whether there is a delay.
abbrev pub later_event : Bool → Bool → WatchPathEvent → Reporter → Reporter
later_event debounced last event r =
    if not last && is_delete event
    then record r {
      scheduled = cancel_handle r.callback_handle r.scheduled;
      callback_handle = none;
    }
    else if debounced
    then schedule (cancel_handle r.callback_handle r.scheduled) r
    else schedule r.scheduled r

abbrev pub handle_event : Bool → Bool → WatchPathEvent → Option Bool → Reporter → Reporter
handle_event call_immediately debounced event none r = first_event call_immediately event r
handle_event call_immediately debounced event (some last) r = later_event debounced last event r

unfoldable pub eager_callback : Bool → Bool → WatchPathEvent → Reporter → Reporter
eager_callback call_immediately debounced event r =
    handle_event call_immediately debounced event r.last_reported_exists
      (record r { queued_event = event })

-- The `match` of `late_callback`.
abbrev pub report : Option Bool → WatchPathEvent → Reporter → Reporter
report none event r = r
report (some false) delete r = record r { error = some runtime_error }
report (some false) create r = record r {
  calls = r.calls ++ create ∷ [];
  last_reported_exists = some true;
}
report (some false) write r = record r {
  calls = r.calls ++ create ∷ [];
  last_reported_exists = some true;
}
report (some true) delete r = record r {
  calls = r.calls ++ delete ∷ [];
  last_reported_exists = some false;
}
report (some true) create r = record r { calls = r.calls ++ write ∷ [] }
report (some true) write r = record r { calls = r.calls ++ write ∷ [] }

unfoldable pub late_callback : Reporter → Reporter
late_callback r = report r.last_reported_exists r.queued_event r

-- The event loop runs the call that is scheduled longest.
abbrev pub fire_next : List ℕ → Reporter → Reporter
fire_next [] r = r
fire_next (h ∷ hs) r = late_callback (record r { scheduled = hs })

unfoldable pub fire : Reporter → Reporter
fire r = fire_next r.scheduled r

-- The parts of the path are numbered from the root, 0, to the target; `fs` says which can be opened
-- and `exists` which exist. One event is handled on one state of the file system.
module _ (fs exists : ℕ → Bool) where
  -- The loop of `update_down`: the root can be opened.
  unfoldable pub open_down : ℕ → ℕ
  open_down zero = 0
  open_down (suc k) = let lower = open_down k in if fs (suc k) then suc k else lower

  -- The loop of `update_up`, with the number of the parts that are left up to the target.
  unfoldable pub open_up : ℕ → ℕ → ℕ
  open_up zero k = k
  open_up (suc j) k = let upper = open_up j (suc k) in if fs (suc k) then upper else k

  abbrev pub is_watched : ℕ → Option ℕ → Bool
  is_watched k none = false
  is_watched k (some w) = w == k

  -- `update_watch`, which calls `update_up` and `update_down`, on fuel; the watched part, if there
  -- is one, and the events that are passed on to `eager_callback`.
  unfoldable pub update_watch : ℕ → ℕ → ℕ → Option ℕ → Option ℕ × List WatchPathEvent
  unfolding open_up open_down
  update_watch zero target k watched = (watched, [])
  update_watch (suc fuel) target k watched =
      let upper = open_up (target - k) k in
      let up = update_watch fuel target upper (some k) in
      let down = update_watch fuel target (open_down (k - 1)) (some k) in
      if is_watched k watched
      then (watched, [])
      else if not (exists k)
      then down
      else if k == target
      then (some k, create ∷ [])
      else if upper == k
      then (some k, [])
      else up

  unfoldable pub update_down : ℕ → ℕ → ℕ → Option ℕ → Option ℕ × List WatchPathEvent
  unfolding open_down update_watch
  update_down fuel target guess watched = update_watch fuel target (open_down guess) watched

  -- Nothing is opened when the next part cannot be.
  unfoldable pub update_up : ℕ → ℕ → ℕ → Option ℕ → Option ℕ × List WatchPathEvent
  unfolding open_up update_watch
  update_up fuel target guess watched =
      let upper = open_up (target - guess) guess in
      if upper == guess then (watched, []) else update_watch fuel target upper watched

  -- `internal_callback`; the flag says whether the event is a deletion or a renaming, not a write.
  unfoldable pub internal_callback : ℕ → ℕ → Bool → ℕ → Option ℕ × List WatchPathEvent
  unfolding update_down update_up
  internal_callback fuel target gone watched =
      let (w, events) = update_down fuel target (watched - 1) (some watched) in
      if gone
      then (w, (if watched == target then delete ∷ events else events))
      else if watched == target
      then (some watched, write ∷ [])
      else update_up fuel target watched (some watched)
