-- ===== src/Queue.antt =====
-- src/aiodrive/internal/queue.py: the queues behind `map`. A producer reserves a place and puts
-- its item there later; the consumer iterates. A dictionary is a function to `Option`.
pub mod Ordered
pub mod Unordered
mod Tests
use aiodrive.Prelude.{
  ltb, ◌==◌, if◌then◌else◌, update, ℕ, ◌+◌, Bool, true, false, not, ◌||◌, Option, none, some, List,
  [], ◌∷◌, ◌++◌,
}
use aiodrive.Asyncio.{assertion_error, Effect, and_then}
use aiodrive.Button.{new, await, Button, press}

-- One run of the consumer's generator, up to its next suspension or its end.
pub data Next {ℓ} (Q : Type ℓ) (A : Type ℓ) : Type ℓ where
  yields : A → Q → Next Q A
  awaits : ℕ → Next Q A
  ends : Next Q A

pub record OrderedQueue {ℓ} (A : Type ℓ) : Type ℓ where
  pub button : Button
  pub closed : Bool
  pub current_index : ℕ
  pub items : ℕ → Option A
  pub reserved_count : ℕ

pub record UnorderedQueue {ℓ} (A : Type ℓ) : Type ℓ where
  pub button : Button
  pub closed : Bool
  pub items : List A
  pub reserved_count : ℕ

module _ {ℓ} {A : Type ℓ} where
  unfoldable pub new_ordered : OrderedQueue A
  new_ordered = record {
    button = new;
    closed = false;
    current_index = 0;
    items = λ _. none;
    reserved_count = 0;
  }

  abbrev press_ordered : OrderedQueue A → Effect (OrderedQueue A)
  press_ordered q = and_then (press q.button) (λ b. (record q { button = b }, none)) (λ b. q)

  -- The loop of `__aiter__`: each round awaits the button or yields, so a run is one round.
  unfoldable pub aiter : OrderedQueue A → Next (OrderedQueue A) A
  aiter q =
      if not q.closed || ltb q.current_index q.reserved_count
      then elim (q.items q.current_index) [
        | none ↦ awaits (await q.button)
        | some item ↦ yields item (record q {
          items = update q.items q.current_index none;
          current_index = q.current_index + 1;
        })
      ]
      else ends

  unfoldable pub close : OrderedQueue A → Effect (OrderedQueue A)
  close q =
      if q.closed
      then (q, some assertion_error)
      else if q.current_index == q.reserved_count
      then press_ordered (record q { closed = true })
      else (record q { closed = true }, none)

  -- `reserve` returns the function `put` for the index that it reserves, here the old count.
  unfoldable pub reserve : OrderedQueue A → Effect (OrderedQueue A)
  reserve q =
      if q.closed
      then (q, some assertion_error)
      else (record q { reserved_count = q.reserved_count + 1 }, none)

  unfoldable pub put : ℕ → A → OrderedQueue A → Effect (OrderedQueue A)
  put index item q =
      let q' : OrderedQueue A = record q { items = update q.items index (some item) } in
      if index == q.current_index then press_ordered q' else (q', none)

  unfoldable pub new_unordered : UnorderedQueue A
  new_unordered = record { button = new; closed = false; items = []; reserved_count = 0 }

  abbrev is_empty : List A → Bool
  is_empty [] = true
  is_empty (x ∷ xs) = false

  unfoldable pub aiter_unordered : UnorderedQueue A → Next (UnorderedQueue A) A
  aiter_unordered q =
      if not q.closed || not (is_empty q.items)
      then elim q.items [
        | [] ↦ awaits (await q.button)
        | item ∷ rest ↦ yields item (record q { items = rest })
      ]
      else ends

  unfoldable pub close_unordered : UnorderedQueue A → Effect (UnorderedQueue A)
  close_unordered q =
      if q.closed then (q, some assertion_error) else (record q { closed = true }, none)

  unfoldable pub reserve_unordered : UnorderedQueue A → Effect (UnorderedQueue A)
  reserve_unordered q =
      if q.closed
      then (q, some assertion_error)
      else (record q { reserved_count = q.reserved_count + 1 }, none)

  unfoldable pub put_unordered : A → UnorderedQueue A → Effect (UnorderedQueue A)
  put_unordered item q =
      and_then (press q.button) (λ b. (record q { items = q.items ++ item ∷ []; button = b }, none))
        (λ b. record q { items = q.items ++ item ∷ [] })
