-- ===== src/Queue/Unordered.antt =====
-- The unordered queue of src/aiodrive/internal/queue.py between one consumer and any producers.
use aiodrive.Prelude.{
  length, length-append, ℕ, zero, suc, ◌≤◌, ◌<◌, ◌≡◌, refl, ap, subst, true, false, List, [], ◌∷◌,
  ◌++◌, append_assoc, arith,
}
use aiodrive.Button.{new, await}
use aiodrive.Button.Laws.{IsReady, woken-await, press_facts}
use aiodrive.Queue.{
  Next, yields, awaits, ends, UnorderedQueue, new_unordered, aiter_unordered, close_unordered,
  reserve_unordered, put_unordered,
}
use aiodrive.Queue.Ordered.{Consumer, running, stopped, sleeping, can_run}

-- `out` is what the consumer has got, and `log` what was put, in the order of the calls.
pub record System (A : Type 0) : Type 0 where
  pub queue : UnorderedQueue A
  pub consumer : Consumer
  pub out : List A
  pub log : List A

module _ {A : Type 0} where
  abbrev pub start : System A
  start = record { queue = new_unordered; consumer = running; out = []; log = [] }

  abbrev after_poll : System A → Next (UnorderedQueue A) A → System A
  after_poll s (yields a q) = record s { queue = q; consumer = running; out = s.out ++ a ∷ [] }
  after_poll s (awaits n) = record s { consumer = sleeping n }
  after_poll s ends = record s { consumer = stopped }

  unfoldable pub poll : System A → System A
  poll s = after_poll s (aiter_unordered s.queue)

  unfoldable pub put_item : A → System A → System A
  put_item a s = record s { queue = (put_unordered a s.queue).0; log = s.log ++ a ∷ [] }

  pub data Step (s : System A) : System A → Type 0 where
    reserves : Step s (record s { queue = (reserve_unordered s.queue).0 })
    closes : Step s (record s { queue = (close_unordered s.queue).0 })
    puts : (a : A) → length s.log < s.queue.reserved_count → Step s (put_item a s)
    polls : can_run s.queue.button s.consumer ≡ true → Step s (poll s)

  pub data Reach (s : System A) : System A → Type 0 where
    here : Reach s s
    next : {t u : System A} → Reach s t → Step t u → Reach s u

  pub record Inv (s : System A) : Type 0 where
    pub ready : IsReady s.queue.button
    pub fifo : s.out ++ s.queue.items ≡ s.log
    pub promised : length s.log ≤ s.queue.reserved_count

  pub start-Inv : Inv start
  unfolding new_unordered new
  start-Inv = record { ready = refl; fifo = refl; promised = omega arith }

  poll-Inv : (s : System A) (items : List A) → s.queue.items ≡ items → Inv s → Inv (poll s)
  unfolding poll aiter_unordered
  poll-Inv s [] e v = ground arith
  poll-Inv s (a ∷ rest) e v =
      ground (arith, v.ready, v.fifo, v.promised, append_assoc s.out (a ∷ []) rest)

  pub Step-Inv : {s t : System A} → Step s t → Inv s → Inv t
  unfolding reserve_unordered close_unordered put_item put_unordered
  Step-Inv {s} reserves v = ground (arith, v.ready, v.fifo, v.promised)
  Step-Inv {s} closes v = ground (arith, v.ready, v.fifo, v.promised)
  Step-Inv {s} (puts a lt) v = ground (
    arith,
    press_facts s.queue.button 0 v.ready,
    v.fifo,
    append_assoc s.out s.queue.items (a ∷ []),
    length-append s.log (a ∷ []),
  )
  Step-Inv {s} (polls _) v = poll-Inv s s.queue.items refl v

  pub Reach-Inv : {s t : System A} → Inv s → Reach s t → Inv t
  Reach-Inv v here = v
  Reach-Inv v (next r st) = Step-Inv st (Reach-Inv v r)

  -- What the consumer has got, followed by what lies in the queue, is what was put, in the order
  -- of the calls: no item that is put is lost, doubled or moved.
  pub out-fifo : {s : System A} → Reach start s → s.out ++ s.queue.items ≡ s.log
  out-fifo r = (Reach-Inv start-Inv r).fifo

  -- The consumer sleeps on a closed queue, and every place that was reserved has been served.
  pub record IsStranded (s : System A) : Type 0 where
    pub ready : IsReady s.queue.button
    pub asleep : s.consumer ≡ sleeping (await s.queue.button)
    pub over : s.queue.closed ≡ true
    pub empty : s.queue.items ≡ []
    pub served : length s.log ≡ s.queue.reserved_count

  cannot_run : (s : System A) → IsStranded s → can_run s.queue.button s.consumer ≡ false
  cannot_run s v = ground (arith, v.asleep, woken-await s.queue.button v.ready)

  Step-IsStranded : {s t : System A} → Step s t → IsStranded s → IsStranded t
  unfolding reserve_unordered close_unordered
  Step-IsStranded {s} reserves v = ground (arith, v.ready, v.asleep, v.over, v.empty, v.served)
  Step-IsStranded {s} closes v = ground (arith, v.ready, v.asleep, v.over, v.empty, v.served)
  Step-IsStranded {s} (puts a lt) v = absurd (omega (arith, v.served))
  Step-IsStranded {s} (polls run) v = absurd (ground (arith, cannot_run s v))

  Reach-IsStranded : {s t : System A} → IsStranded s → Reach s t → IsStranded t
  Reach-IsStranded v here = v
  Reach-IsStranded v (next r st) = Step-IsStranded st (Reach-IsStranded v r)

  -- An open queue with nothing left to deliver becomes such a queue when it is closed.
  no_items : (xs : List A) → length xs ≤ 0 → xs ≡ []
  no_items [] h = refl
  no_items (x ∷ xs) h = absurd (omega arith)

  closed-IsStranded :
      (s : System A)
      → Inv s
      → s.consumer ≡ sleeping (await s.queue.button)
      → s.queue.closed ≡ false
      → length s.out ≡ s.queue.reserved_count
      → IsStranded (record s { queue = (close_unordered s.queue).0 })
  unfolding close_unordered
  closed-IsStranded s v asleep fresh got =
      let sizes = length-append s.out s.queue.items in
      let total = ap length v.fifo in
      let small : length s.queue.items ≤ 0 = omega (arith, sizes, total, v.promised) in
      let full : length s.log ≡ s.queue.reserved_count = omega (arith, sizes, total, v.promised) in
      record {
        ready = ground (arith, v.ready);
        asleep = ground (arith, asleep);
        over = ground arith;
        empty = ground (arith, fresh, no_items s.queue.items small);
        served = ground (arith, fresh, full);
      }

  -- `close` does not press the button. If a consumer that has got an item from each reserved place
  -- sleeps on the open queue when it is closed, then whatever happens from there on, it never runs
  -- again, although its iteration is over.
  pub close-strands :
      {s t : System A}
      → Reach start s
      → s.consumer ≡ sleeping (await s.queue.button)
      → s.queue.closed ≡ false
      → length s.out ≡ s.queue.reserved_count
      → Reach (record s { queue = (close_unordered s.queue).0 }) t
      → (can_run t.queue.button t.consumer ≡ false) × (aiter_unordered t.queue ≡ ends)
  unfolding aiter_unordered
  close-strands {s} {t} r asleep fresh got later =
      let v = closed-IsStranded s (Reach-Inv start-Inv r) asleep fresh got in
      let w = Reach-IsStranded v later in (cannot_run t w, ground (arith, w.over, w.empty))

  -- A queue with `n` reserved places and nothing put, from which the consumer has not asked yet.
  abbrev reserved : ℕ → System A
  reserved n = record start { queue = record new_unordered { reserved_count = n } }

  reserved-Reach : (n : ℕ) → Reach start (reserved n)
  unfolding new_unordered reserve_unordered
  reserved-Reach zero = here
  reserved-Reach (suc n) =
      let e : record (reserved n) { queue = (reserve_unordered (reserved n).queue).0 }
          ≡ reserved (suc n) =
        ground arith in
      subst (λ t. Reach start t) e (next (reserved-Reach n) reserves)

  -- For any number `n` of items that producers are still preparing, there is a history in which
  -- the queue is closed, the consumer's iteration ends, and it has got none of them.
  pub ends_early :
      (n : ℕ)
      → (s : System A) × Reach start s
        × (s.consumer ≡ stopped)
        × (s.queue.reserved_count ≡ n)
        × (s.out ≡ [])
  unfolding new_unordered close_unordered poll aiter_unordered
  ends_early n =
      let r : Reach start (record (reserved n) { queue = (close_unordered (reserved n).queue).0 }) =
        next (reserved-Reach n) closes in
      (_, next r (polls refl), refl, refl, refl)
