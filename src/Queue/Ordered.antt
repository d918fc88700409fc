-- ===== src/Queue/Ordered.antt =====
-- The ordered queue of src/aiodrive/internal/queue.py between one consumer and any producers, each
-- of which puts one item at the place that it reserved.
use aiodrive.Prelude.{
  ltb, Bool-cases, Option-cases, length, get_elem?, update, length-append, get_elem?-append_last,
  get_elem?-append_left, get_elem?-ne-none, ℕ, ◌+◌, ◌≤◌, ◌<◌, ◌≡◌, refl, ◌⊎◌, inl, inr, Bool, true,
  false, Option, none, some, List, [], ◌∷◌, ◌++◌, arith,
}
use aiodrive.Button.{new, await, woken, Button}
use aiodrive.Button.Laws.{IsReady, press_facts}
use aiodrive.Queue.{
  Next, yields, awaits, ends, OrderedQueue, new_ordered, aiter, close, reserve, put,
}

pub data Consumer : Type 0 where
  running stopped : Consumer
  sleeping : ℕ → Consumer

-- `out` is what the consumer has got, and `log` what was put at each place.
pub record System (A : Type 0) : Type 0 where
  pub queue : OrderedQueue A
  pub consumer : Consumer
  pub out : List A
  pub log : ℕ → Option A

abbrev pub can_run : Button → Consumer → Bool
can_run b running = true
can_run b stopped = false
can_run b (sleeping n) = elim (woken b n) [ none ↦ false | some _ ↦ true ]

module _ {A : Type 0} where
  abbrev pub start : System A
  start = record { queue = new_ordered; consumer = running; out = []; log = λ _. none }

  abbrev after_poll : System A → Next (OrderedQueue A) A → System A
  after_poll s (yields a q) = record s { queue = q; consumer = running; out = s.out ++ a ∷ [] }
  after_poll s (awaits n) = record s { consumer = sleeping n }
  after_poll s ends = record s { consumer = stopped }

  unfoldable pub poll : System A → System A
  poll s = after_poll s (aiter s.queue)

  unfoldable pub put_at : ℕ → A → System A → System A
  put_at i a s = record s { queue = (put i a s.queue).0; log = update s.log i (some a) }

  pub data Step (s : System A) : System A → Type 0 where
    reserves : Step s (record s { queue = (reserve s.queue).0 })
    closes : Step s (record s { queue = (close s.queue).0 })
    puts : (i : ℕ) (a : A) → i < s.queue.reserved_count → s.log i ≡ none → Step s (put_at i a s)
    polls : can_run s.queue.button s.consumer ≡ true → Step s (poll s)

  pub data Reach : System A → Type 0 where
    here : Reach start
    next : {s t : System A} → Reach s → Step s t → Reach t

  pub record Inv (s : System A) : Type 0 where
    pub ready : IsReady s.queue.button
    pub counted : s.queue.current_index ≤ s.queue.reserved_count
    pub fresh : (i : ℕ) → s.queue.reserved_count ≤ i → s.log i ≡ none
    pub stored : (i : ℕ) → s.queue.current_index ≤ i → s.queue.items i ≡ s.log i
    pub drained : length s.out ≡ s.queue.current_index
    pub ordered : (i : ℕ) → i < s.queue.current_index → get_elem? s.out i ≡ s.log i
    -- A consumer that nobody woke has nothing to do.
    pub idle :
        (n : ℕ)
        → s.consumer ≡ sleeping n
        → woken s.queue.button n ≡ none
        → (n ≡ await s.queue.button)
          × (s.queue.items s.queue.current_index ≡ none)
          × ((s.queue.closed ≡ false) ⊎ (s.queue.current_index < s.queue.reserved_count))
    pub complete :
        s.consumer ≡ stopped
        → (s.queue.closed ≡ true) × (s.queue.current_index ≡ s.queue.reserved_count)
    pub registered : (n : ℕ) → s.consumer ≡ sleeping n → n ≤ await s.queue.button

  start-Inv : Inv start
  unfolding new_ordered new
  start-Inv = record {
    ready = refl;
    counted = omega arith;
    fresh = λ i h. refl;
    stored = λ i h. refl;
    drained = refl;
    ordered = λ i h. absurd (omega arith);
    idle = λ n e w. cc;
    complete = λ e. cc;
    registered = λ n e. cc;
  }

  reserve-Inv : (s : System A) → Inv s → Inv (record s { queue = (reserve s.queue).0 })
  unfolding reserve
  reserve-Inv s v = record {
    ready = ground (arith, v.ready);
    counted = ground (arith, v.counted);
    fresh = λ i h. ground (arith, v.fresh i);
    stored = λ i h. ground (arith, v.stored i);
    drained = ground (arith, v.drained);
    ordered = λ i h. ground (arith, v.ordered i);
    idle = λ n e w. ground (arith, v.idle n e);
    complete = λ e. ground (arith, v.complete e);
    registered = λ n e. ground (arith, v.registered n e);
  }

  close-Inv : (s : System A) → Inv s → Inv (record s { queue = (close s.queue).0 })
  unfolding close
  close-Inv s v =
      let p = press_facts s.queue.button 0 v.ready (omega arith) in
      record {
        ready = ground (arith, v.ready, p);
        counted = ground (arith, v.counted, p);
        fresh = λ i h. ground (arith, v.fresh i, p);
        stored = λ i h. ground (arith, v.stored i, p);
        drained = ground (arith, v.drained, p);
        ordered = λ i h. ground (arith, v.ordered i, p);
        idle = λ n e w.
            ground (arith, v.idle n e, press_facts s.queue.button n v.ready (v.registered n e));
        complete = λ e. ground (arith, v.complete e, p);
        registered = λ n e. ground (arith, v.registered n e, p);
      }

  put-Inv :
      (s : System A) (i : ℕ) (a : A)
      → Inv s
      → i < s.queue.reserved_count
      → s.log i ≡ none
      → Inv (put_at i a s)
  unfolding put put_at
  put-Inv s i a v lt empty =
      let p = press_facts s.queue.button 0 v.ready (omega arith) in
      record {
        ready = ground (arith, v.ready, p);
        counted = ground (arith, v.counted, p);
        fresh = λ j h. ground (arith, v.fresh j, p);
        stored = λ j h. ground (arith, v.stored j, p);
        drained = ground (arith, v.drained, p);
        ordered = λ j h.
            ground (arith, v.ordered j, v.ordered i, get_elem?-ne-none s.out i, v.drained, p);
        idle = λ n e w.
            ground (arith, v.idle n e, press_facts s.queue.button n v.ready (v.registered n e));
        complete = λ e. ground (arith, v.complete e, p);
        registered = λ n e. ground (arith, v.registered n e, p);
      }

  -- The three ways a run of the consumer goes.
  abbrev took : System A → A → System A
  took s a = record s {
    queue = record s.queue {
      items = update s.queue.items s.queue.current_index none;
      current_index = s.queue.current_index + 1;
    };
    consumer = running;
    out = s.out ++ a ∷ [];
  }

  poll_cases :
      (s : System A)
      → Inv s
      → ((a : A) × (s.log s.queue.current_index ≡ some a)
          × (s.queue.current_index < s.queue.reserved_count)
          × (poll s ≡ took s a))
        ⊎ ((s.queue.items s.queue.current_index ≡ none)
            × ((s.queue.closed ≡ false) ⊎ (s.queue.current_index < s.queue.reserved_count))
            × (poll s ≡ record s { consumer = sleeping (await s.queue.button) }))
        ⊎ ((s.queue.closed ≡ true)
            × (s.queue.current_index ≡ s.queue.reserved_count)
            × (poll s ≡ record s { consumer = stopped }))
  unfolding poll aiter
  poll_cases s v =
      let at = v.stored s.queue.current_index (omega arith) in
      let beyond = v.fresh s.queue.current_index in
      elim (Option-cases (s.queue.items s.queue.current_index)) [
        | inr (a, e) ↦
            let lt : s.queue.current_index < s.queue.reserved_count =
              ground (arith, at, beyond, v.counted) in
            inl (a, ground (arith, at), lt, ground arith)
        | inl e ↦ elim (Bool-cases s.queue.closed) [
          | inl c ↦ elim (Bool-cases (ltb s.queue.current_index s.queue.reserved_count)) [
            | inl lt ↦ inr (inl (e, inr (ground arith), ground arith))
            | inr ge ↦ inr (inr (c, ground (arith, v.counted), ground arith))
          ]
          | inr o ↦ inr (inl (e, inl o, ground arith))
        ]
      ]

  took-Inv :
      (s : System A) (a : A)
      → Inv s
      → s.log s.queue.current_index ≡ some a
      → s.queue.current_index < s.queue.reserved_count
      → Inv (took s a)
  took-Inv s a v at lt = record {
    ready = v.ready;
    counted = omega arith;
    fresh = v.fresh;
    stored = λ j h. ground (arith, v.stored j);
    drained = omega (arith, length-append s.out (a ∷ []), v.drained);
    ordered = λ j h. ground (
      arith,
      v.ordered j,
      v.drained,
      get_elem?-append_last s.out a,
      get_elem?-append_left s.out (a ∷ []) j,
    );
    idle = λ n e w. cc;
    complete = λ e. cc;
    registered = λ n e. cc;
  }

  poll-Inv : (s : System A) → Inv s → Inv (poll s)
  poll-Inv s v = elim (poll_cases s v) [
    | inl (a, at, lt, e) ↦ rw e (took-Inv s a v at lt)
    | inr (inl (empty, more_due, e)) ↦ rw e (record {
      ready = v.ready;
      counted = v.counted;
      fresh = v.fresh;
      stored = v.stored;
      drained = v.drained;
      ordered = v.ordered;
      idle = λ n q w. (ground arith, empty, more_due);
      complete = λ q. cc;
      registered = λ n q. ground arith;
    })
    | inr (inr (c, all_taken, e)) ↦ rw e (record {
      ready = v.ready;
      counted = v.counted;
      fresh = v.fresh;
      stored = v.stored;
      drained = v.drained;
      ordered = v.ordered;
      idle = λ n q w. cc;
      complete = λ q. (c, all_taken);
      registered = λ n q. cc;
    })
  ]

  Step-Inv : {s t : System A} → Step s t → Inv s → Inv t
  Step-Inv {s} reserves v = reserve-Inv s v
  Step-Inv {s} closes v = close-Inv s v
  Step-Inv {s} (puts i a lt empty) v = put-Inv s i a v lt empty
  Step-Inv {s} (polls _) v = poll-Inv s v

  pub Reach-Inv : {s : System A} → Reach s → Inv s
  Reach-Inv here = start-Inv
  Reach-Inv (next r st) = Step-Inv st (Reach-Inv r)

  -- Whatever the order in which producers put their items, the consumer has got, one after the
  -- other, the items of the first places in the order of reservation.
  pub out-ordered :
      {s : System A} → Reach s → (i : ℕ) → i < length s.out → get_elem? s.out i ≡ s.log i
  out-ordered r i lt = let v = Reach-Inv r in v.ordered i (omega (arith, v.drained))

  -- A consumer whose iteration has ended has got an item from each place that was reserved, and the
  -- queue is closed.
  pub out_complete :
      {s : System A}
      → Reach s
      → s.consumer ≡ stopped
      → (length s.out ≡ s.queue.reserved_count) × (s.queue.closed ≡ true)
  out_complete r e = let v = Reach-Inv r in ground (arith, v.drained, v.complete e)

  -- No wake-up is lost: a consumer that sleeps and was not woken waits for an item that is not
  -- there, and the queue is open or has places left.
  pub no_lost_wakeup :
      {s : System A} {n : ℕ}
      → Reach s
      → s.consumer ≡ sleeping n
      → can_run s.queue.button s.consumer ≡ false
      → (s.log (length s.out) ≡ none)
        × ((s.queue.closed ≡ false) ⊎ (length s.out < s.queue.reserved_count))
  no_lost_wakeup {s} {n} r e asleep =
      let v = Reach-Inv r in ground (arith, v.idle n e, v.stored s.queue.current_index, v.drained)
