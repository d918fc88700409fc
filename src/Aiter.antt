-- ===== src/Aiter.antt =====
-- src/aiodrive/modules/aiter.py. An asynchronous iterator is what its calls of `anext` give, up to
-- the first that gives no item.
pub mod Folds
pub mod Prefetch
pub mod Zip
mod Tests
use aiodrive.Prelude.{
  leb, if◌then◌else◌, length, ℕ, Bool, true, false, not, ◌&&◌, ◌||◌, Option, none, some, List, [],
  ◌∷◌, ◌++◌,
}
use aiodrive.Asyncio.{Exn, type_error, Outcome, returned, raised}

pub data Stream {ℓ} (A : Type ℓ) : Type ℓ where
  stops : Stream A
  fails : Exn → Stream A
  gives : A → Stream A → Stream A

module _ {ℓ} {A : Type ℓ} where
  abbrev pub cons_item : A → Outcome (List A) → Outcome (List A)
  cons_item a (returned xs) = returned (a ∷ xs)
  cons_item a (raised e) = raised e

  unfoldable pub collect : Stream A → Outcome (List A)
  collect stops = returned []
  collect (fails e) = raised e
  collect (gives a s) = cons_item a (collect s)

  -- `ensure_aiter` on an iterable that is not asynchronous.
  unfoldable pub ensure_aiter : List A → Stream A
  ensure_aiter [] = stops
  ensure_aiter (a ∷ xs) = gives a (ensure_aiter xs)

  -- `shield_aiter` while its consumer is not cancelled.
  unfoldable pub shield_aiter : Stream A → Stream A
  shield_aiter stops = stops
  shield_aiter (fails e) = fails e
  shield_aiter (gives a s) = gives a (shield_aiter s)

module _ {ℓ κ} {A : Type ℓ} {S : Type κ} where
  -- The loop of `reduce`.
  unfoldable pub reduce_from : (S → A → S) → S → Stream A → Outcome S
  reduce_from function accumulator stops = returned accumulator
  reduce_from function accumulator (fails e) = raised e
  reduce_from function accumulator (gives a s) = reduce_from function (function accumulator a) s

-- `reduce` with and without an initial value.
unfoldable pub reduce : {A : Type 0} → (A → A → A) → Stream A → Option A → Outcome A
unfolding reduce_from
reduce function s (some initial) = reduce_from function initial s
reduce function stops none = raised type_error
reduce function (fails e) none = raised e
reduce function (gives a s) none = reduce_from function a s

-- `buffer_aiter`: the items in the queue, whether the latch is set, and what the source has left;
-- its consumer asks, and the producer advances when it can.
pub record Buffer (A : Type 0) : Type 0 where
  pub queue : List A
  pub latch : Bool
  pub source : Stream A
  pub out : List A
  pub over : Bool

module _ {A : Type 0} where
  unfoldable pub buffer_aiter : Stream A → Buffer A
  buffer_aiter s = record { queue = []; latch = false; source = s; out = []; over = false }

  -- `(size is not None) and (len(queue) >= size)`.
  abbrev pub is_full : Option ℕ → List A → Bool
  is_full none queue = false
  is_full (some size) queue = leb size (length queue)

  abbrev pub append_item : Stream A → Buffer A → Buffer A
  append_item stops b = b
  append_item (fails e) b = b
  append_item (gives a s) b = record b { queue = b.queue ++ a ∷ []; latch = true; source = s }

  -- One round of `producer`, which waits for the latch to be unset if the queue is full.
  unfoldable pub produce : Option ℕ → Buffer A → Buffer A
  produce size b = if is_full size b.queue && b.latch then b else append_item b.source b

  abbrev pub is_empty : List A → Bool
  is_empty [] = true
  is_empty (x ∷ xs) = false

  abbrev pub take_first : List A → Buffer A → Buffer A
  take_first [] b = b
  take_first (a ∷ queue) b = record b {
    queue = queue;
    latch = if is_empty queue then false else b.latch;
    out = b.out ++ a ∷ [];
    over = true;
  }

  -- The consumer asks: it waits for the latch, takes an item, and the generator ends after its
  -- `yield`, on which `contextualize` cancels the producer.
  unfoldable pub consume : Buffer A → Buffer A
  consume b = if b.over || not b.latch then b else take_first b.queue b
