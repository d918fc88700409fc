-- ===== src/Map/Results.antt =====
-- The items that `map` of src/aiodrive/modules/map.py yields, in order.
use aiodrive.Map
use aiodrive.Prelude.{
  ltb, Bool-cases, Option-cases, length, get_elem?, get_elem?-ne-none, get_elem?_beyond,
  get_elem?_ext, ℕ, suc, ◌+◌, ◌-◌, ◌<◌, ◌≡◌, refl, sym, ◌∙◌, inl, inr, true, false, Option, none,
  some, List, [], ◌∷◌, map, arith,
}
use aiodrive.Button.Laws.{press_facts}
use aiodrive.Queue.{OrderedQueue, new_ordered, aiter, close, reserve, put}
use aiodrive.Queue.Ordered
use aiodrive.Queue.Ordered.{
  Consumer, running, stopped, sleeping, System, can_run, poll, put_at, reserves, closes, puts,
  out-ordered, out_complete, no_lost_wakeup,
}
use aiodrive.Map.{take_item, stop, finish}
use aiodrive.Map.Pipeline.{
  Pipeline, begin, fetch, exhaust, deliver, fetches, exhausts, delivers, polls, Reach, here, next,
}

module _ {B : Type 0} where
  -- What the places and the closing of a queue are.
  abbrev Same : OrderedQueue B → OrderedQueue B → Type 0
  Same q r = (q.reserved_count ≡ r.reserved_count) × (q.closed ≡ r.closed)

  put_at-Same : (s : System B) (i : ℕ) (b : B) → Ordered.Reach s → Same (put_at i b s).queue s.queue
  unfolding put put_at
  put_at-Same s i b r =
      let v = Ordered.Reach-Inv r in
      ground (arith, press_facts s.queue.button 0 v.ready (omega arith))

  poll-Same :
      (s : System B) → Ordered.Reach s → Same (poll s).queue s.queue × ((poll s).log ≡ s.log)
  unfolding poll aiter
  poll-Same s r = ground arith

  close-Same :
      (s : System B)
      → Ordered.Reach s
      → ((close s.queue).0.reserved_count ≡ s.queue.reserved_count)
        × ((close s.queue).0.closed ≡ true)
  unfolding close
  close-Same s r =
      let v = Ordered.Reach-Inv r in
      ground (arith, press_facts s.queue.button 0 v.ready (omega arith))

module _ {A B : Type 0} (mapper : A → B) (max_concurrent_count : Option ℕ) (source : List A) where
  abbrev image : ℕ → Option B
  image i = get_elem? (map mapper source) i

  record Inv (p : Pipeline A B) : Type 0 where
    pub behaves : Ordered.Reach p.system
    pub left : (j : ℕ) → get_elem? (map mapper p.todo) j ≡ image (p.system.queue.reserved_count + j)
    pub placed :
        (i : ℕ) (a : A)
        → p.running i ≡ some a
        → (i < p.system.queue.reserved_count)
          × (p.system.log i ≡ none)
          × (image i ≡ some (mapper a))
    pub logged : (i : ℕ) (b : B) → p.system.log i ≡ some b → image i ≡ some b
    pub accounted :
        (i : ℕ) → i < p.system.queue.reserved_count → p.running i ≡ none → ¬ (p.system.log i ≡ none)
    pub open_while : p.jobs.fetching ≡ true → p.system.queue.closed ≡ false
    pub over : p.system.queue.closed ≡ true → p.todo ≡ []

  begin-Inv : Inv (begin mapper max_concurrent_count source)
  unfolding new_ordered
  begin-Inv = record {
    behaves = Ordered.here;
    left = λ j. ground arith;
    placed = λ i a e. cc;
    logged = λ i b e. cc;
    accounted = λ i h e. absurd (omega arith);
    open_while = λ e. refl;
    over = λ e. cc;
  }

  fetch-Inv :
      (p : Pipeline A B) (a : A) (rest : List A)
      → Inv p
      → p.jobs.fetching ≡ true
      → p.todo ≡ a ∷ rest
      → Inv (fetch mapper max_concurrent_count a rest p)
  unfolding reserve take_item
  fetch-Inv p a rest v f t =
      let o = v.open_while f in
      let first : image p.system.queue.reserved_count ≡ some (mapper a) =
        ground (arith, v.left 0) in
      let r = Ordered.Reach-Inv v.behaves in
      record {
        behaves = Ordered.next v.behaves Ordered.reserves;
        left = λ j. ground (arith, v.left (suc j));
        placed = λ i x e. ground (arith, v.placed i x, first, r.fresh i);
        logged = v.logged;
        accounted = λ i h e. ground (arith, v.accounted i);
        open_while = λ e. ground arith;
        over = λ e. ground arith;
      }

  exhaust-Inv :
      (p : Pipeline A B) → Inv p → p.todo ≡ [] → Inv (exhaust mapper max_concurrent_count p)
  unfolding stop
  exhaust-Inv p v t =
      let s = close-Same p.system v.behaves in
      record {
        behaves = Ordered.next v.behaves Ordered.closes;
        left = λ j. ground (arith, v.left j, s);
        placed = λ i x e. ground (arith, v.placed i x, s);
        logged = v.logged;
        accounted = λ i h e. ground (arith, v.accounted i, s);
        open_while = λ e. cc;
        over = λ e. t;
      }

  deliver-Inv :
      (p : Pipeline A B) (i : ℕ) (a : A)
      → Inv p
      → p.running i ≡ some a
      → Inv (deliver mapper max_concurrent_count i a p)
  unfolding finish put_at
  deliver-Inv p i a v e =
      let s = put_at-Same p.system i (mapper a) v.behaves in
      let (l, n, m) = v.placed i a e in
      record {
        behaves = Ordered.next v.behaves (Ordered.puts i (mapper a) l n);
        left = λ j. ground (arith, v.left j, s);
        placed = λ j x q. ground (arith, v.placed j x, s);
        logged = λ j b q. ground (arith, v.logged j b, m);
        accounted = λ j h q. ground (arith, v.accounted j, s);
        open_while = λ q. ground (arith, v.open_while, s);
        over = λ q. ground (arith, v.over, s);
      }

  poll-Inv :
      (p : Pipeline A B)
      → Inv p
      → can_run p.system.queue.button p.system.consumer ≡ true
      → Inv (record p { system = poll p.system })
  poll-Inv p v c =
      let (s, l) = poll-Same p.system v.behaves in
      record {
        behaves = Ordered.next v.behaves (Ordered.polls c);
        left = λ j. ground (arith, v.left j, s);
        placed = λ j x q. ground (arith, v.placed j x, s, l);
        logged = λ j b q. ground (arith, v.logged j b, l);
        accounted = λ j h q. ground (arith, v.accounted j, s, l);
        open_while = λ q. ground (arith, v.open_while, s);
        over = λ q. ground (arith, v.over, s);
      }

  Reach-Inv : {p : Pipeline A B} → Reach mapper max_concurrent_count source p → Inv p
  Reach-Inv here = begin-Inv
  Reach-Inv (next {p} r (fetches a rest f t)) = fetch-Inv p a rest (Reach-Inv r) f t
  Reach-Inv (next {p} r (exhausts f t)) = exhaust-Inv p (Reach-Inv r) t
  Reach-Inv (next {p} r (delivers i a e)) = deliver-Inv p i a (Reach-Inv r) e
  Reach-Inv (next {p} r (polls c)) = poll-Inv p (Reach-Inv r) c

  -- With an ordered queue, whatever the bound and the order in which mappers return: the items that
  -- the consumer has got are, one after the other, what the mapper returns for the items of the
  -- source, from the first one on.
  pub map_ordered :
      {p : Pipeline A B}
      → Reach mapper max_concurrent_count source p
      → (i : ℕ) → i < length p.system.out
      → get_elem? p.system.out i ≡ get_elem? (map mapper source) i
  map_ordered {p} r i h =
      let v = Reach-Inv r in
      let o = Ordered.out-ordered v.behaves i h in
      elim (Option-cases (p.system.log i)) [
        | inl n ↦ absurd (get_elem?-ne-none p.system.out i h (o ∙ n))
        | inr (b, e) ↦ o ∙ e ∙ sym (v.logged i b e)
      ]

  -- With an ordered queue: when the iteration ends, the consumer has got what the mapper returns
  -- for each item of the source, in the order of the source.
  pub map-stopped :
      {p : Pipeline A B}
      → Reach mapper max_concurrent_count source p
      → p.system.consumer ≡ stopped
      → p.system.out ≡ map mapper source
  map-stopped {p} r e =
      let v = Reach-Inv r in
      let (l, c) = Ordered.out_complete v.behaves e in
      let t = v.over c in
      get_elem?_ext p.system.out (map mapper source) (λ i.
        elim (Bool-cases (ltb i (length p.system.out))) [
          | inl lt ↦ map_ordered r i (ground arith)
          | inr ge ↦
              get_elem?_beyond p.system.out i (ground arith)
              ∙ ground (arith, v.left (i - p.system.queue.reserved_count))
        ])

  unbounded_closes :
      {p : Pipeline A B}
      → Reach mapper max_concurrent_count source p
      → max_concurrent_count ≡ none
      → p.jobs.fetching ≡ false
      → p.system.queue.closed ≡ true
  unfolding Map.start take_item stop finish
  unbounded_closes here m f = cc
  unbounded_closes (next {p} r (fetches a rest g t)) m f = ground arith
  unbounded_closes (next {p} r (exhausts g t)) m f = (close-Same p.system (Reach-Inv r).behaves).1
  unbounded_closes (next {p} r (delivers i a e)) m f =
      (put_at-Same p.system i (mapper a) (Reach-Inv r).behaves).1 ∙ unbounded_closes r m f
  unbounded_closes (next {p} r (polls c)) m f =
      (poll-Same p.system (Reach-Inv r).behaves).0.1 ∙ unbounded_closes r m f

  stopped_at_rest :
      (p : Pipeline A B) (c : Consumer)
      → Reach mapper max_concurrent_count source p
      → max_concurrent_count ≡ none
      → p.jobs.fetching ≡ false
      → ((i : ℕ) → p.running i ≡ none)
      → p.system.consumer ≡ c
      → can_run p.system.queue.button p.system.consumer ≡ false
      → p.system.consumer ≡ stopped
  stopped_at_rest p running r m f n e c = ground arith
  stopped_at_rest p stopped r m f n e c = e
  stopped_at_rest p (sleeping k) r m f n e c =
      let v = Reach-Inv r in
      let (l, d) = Ordered.no_lost_wakeup v.behaves e c in
      elim d [
        | inl o ↦ let x = unbounded_closes r m f in cc
        | inr lt ↦ absurd (v.accounted (length p.system.out) lt (n (length p.system.out)) l)
      ]

  -- Without a bound and with an ordered queue, once the source has ended, all mappers have
  -- returned and the consumer cannot go on, the consumer has got what the mapper returns for each
  -- item of the source, in the order of the source: `map` does not come to a standstill before.
  pub map_finishes :
      {p : Pipeline A B}
      → Reach mapper max_concurrent_count source p
      → max_concurrent_count ≡ none
      → p.jobs.fetching ≡ false
      → ((i : ℕ) → p.running i ≡ none)
      → can_run p.system.queue.button p.system.consumer ≡ false
      → p.system.out ≡ map mapper source
  map_finishes {p} r m f n c = map-stopped r (stopped_at_rest p p.system.consumer r m f n refl c)
