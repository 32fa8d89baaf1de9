-- ===== src/Queue/Fifo.antt =====
-- Each queue of ftl/queue/queue.c is a sequence that grows at its tail and shrinks at its head.
use native.Mathlib.Nat.{mod-eq_of_lt}
use h4h.Base.{
  ℕ, zero, suc, ◌+◌, ◌<◌, ◌≤◌, ◌≡◌, ◌≢◌, refl, sym, ap, ◌∙◌, ◌^◌, true, false, not, bug_on, List,
  [], ◌∷◌, ◌++◌, Option, none, some, arith, get_elem?, set, length, length-set, length-append,
  length-replicate, replicate, get_elem?-lt, get_elem?-set_self, get_elem?-set_ne, Returns,
  Returns-bind, some-inj, ◌==◌, ltb, leb, ◌>>=◌, dec64,
}
use h4h.Queue.{
  Queue, queue_create, has_room, put_list, enqueue, enqueue_top, take_first, dequeue, is_full,
  is_all_empty,
}

-- The number of items in all the lists
unfoldable pub total : {A : Type 0} → List (List A) → ℕ
total [] = 0
total (xs ∷ rest) = length xs + total rest

module _ {A : Type 0} where
  total-set :
      (ls : List (List A)) (i : ℕ) (xs ys : List A)
      → get_elem? ls i ≡ some xs
      → total (set ls i ys) + length xs ≡ total ls + length ys
  unfolding total
  total-set [] i xs ys at = ground arith
  total-set (l ∷ ls) zero xs ys at = rw (some-inj at) (omega arith)
  total-set (l ∷ ls) (suc i) xs ys at = omega (arith, total-set ls i xs ys at)

total-replicate : (A : Type 0) (n : ℕ) → total (replicate {A = List A} n []) ≡ 0
unfolding total
total-replicate A zero = refl
total-replicate A (suc n) = omega (arith, total-replicate A n)

-- The limit holds, where there is one.
abbrev pub Within : Option ℕ → ℕ → Type 0
Within none n = n < 2 ^ 63
Within (some m) n = (n ≤ m) × (m < 2 ^ 63)

pub record IsQueue {A : Type 0} (mq : Queue A) : Type 0 where
  pub lists : length mq.qlh ≡ mq.nr_queues
  pub counts : mq.qic ≡ total mq.qlh
  pub within : Within mq.max_size mq.qic

-- Queue `qid` holds `after` now; no other queue has changed.
pub record Holds {A : Type 0} (mq : Queue A) (qid : ℕ) (after : List A) (mq' : Queue A)
    : Type 0 where
  pub now : get_elem? mq'.qlh qid ≡ some after
  pub others : (k : ℕ) → qid ≢ k → get_elem? mq'.qlh k ≡ get_elem? mq.qlh k
  pub same_limit : mq'.max_size ≡ mq.max_size
  pub same_queues : mq'.nr_queues ≡ mq.nr_queues

-- `n` calls of h4h_queue_dequeue, and the requests they return
unfoldable pub dequeue_times : {A : Type 0} → ℕ → ℕ → Queue A → Option (Queue A × List A)
dequeue_times qid zero mq = some (mq, [])
dequeue_times qid (suc n) mq = dequeue qid mq >>= λ (q, x). elim x [
  | none ↦ some (q, [])
  | some a ↦ dequeue_times qid n q >>= λ (r, xs). some (r, a ∷ xs)
]

module _ {A : Type 0} (mq : Queue A) (ok : IsQueue mq) (qid : ℕ) where
  Within-suc :
      has_room mq.max_size mq.qic ≡ true → mq.qic + 1 < 2 ^ 63 → Within mq.max_size (mq.qic + 1)
  unfolding has_room
  Within-suc room small = go mq.max_size room ok.within
    where
      go : (m : Option ℕ) → has_room m mq.qic ≡ true → Within m mq.qic → Within m (mq.qic + 1)
      go none r w = small
      go (some m) r w = ground arith

  put_list-Holds :
      (items after : List A)
      → get_elem? mq.qlh qid ≡ some items
      → length after ≡ length items + 1
      → has_room mq.max_size mq.qic ≡ true
      → mq.qic + 1 < 2 ^ 63
      → IsQueue (put_list qid after mq) × Holds mq qid after (put_list qid after mq)
  unfolding put_list
  put_list-Holds items after at len room small =
      let exact = mod-eq_of_lt {n = mq.qic + 1} {m = 2 ^ 64} (omega arith) in
      (
        record {
          lists = rw length-set ok.lists;
          counts = rw exact (omega (arith, ok.counts, total-set mq.qlh qid items after at));
          within = rw exact (Within-suc room small);
        },
        record {
          now = get_elem?-set_self mq.qlh qid after (get_elem?-lt mq.qlh qid at);
          others = λ k ne. get_elem?-set_ne mq.qlh qid k after ne;
          same_limit = refl;
          same_queues = refl;
        },
      )

  take_first-Holds :
      (a : A) (rest : List A)
      → get_elem? mq.qlh qid ≡ some (a ∷ rest)
      → let r = take_first qid mq (a ∷ rest) in
        IsQueue r.0 × Holds mq qid rest r.0 × (r.0.qic + 1 ≡ mq.qic) × (0 < mq.qic)
  unfolding take_first
  take_first-Holds a rest at =
      let t = total-set mq.qlh qid (a ∷ rest) rest at in
      let big : 0 < mq.qic = omega (arith, t, ok.counts) in
      let small = below mq.max_size ok.within in
      let down : dec64 mq.qic + 1 ≡ mq.qic = omega arith in
      (
        record {
          lists = rw length-set ok.lists;
          counts = omega (arith, t, ok.counts, down);
          within = less mq.max_size (dec64 mq.qic) (omega arith) ok.within;
        },
        record {
          now = get_elem?-set_self mq.qlh qid rest (get_elem?-lt mq.qlh qid at);
          others = λ k ne. get_elem?-set_ne mq.qlh qid k rest ne;
          same_limit = refl;
          same_queues = refl;
        },
        down,
        big,
      )
    where
      below : (m : Option ℕ) → Within m mq.qic → mq.qic < 2 ^ 63
      below none w = w
      below (some m) w = omega arith

      less : (m : Option ℕ) (n : ℕ) → n ≤ mq.qic → Within m mq.qic → Within m n
      less none n le w = omega arith
      less (some m) n le w = omega arith

  dequeue-eq :
      (a : A) (rest : List A)
      → get_elem? mq.qlh qid ≡ some (a ∷ rest)
      → 0 < mq.qic
      → dequeue qid mq ≡ some (take_first qid mq (a ∷ rest))
  unfolding dequeue
  dequeue-eq a rest at big = let busy : ltb 0 mq.qic ≡ true = ground arith in rw (busy, at) refl

  -- h4h_queue_enqueue on a state that satisfies the invariant, for a queue that holds `items`, with
  -- room under the limit, fewer than 2^63 - 1 items in all and a successful allocation: it returns 0,
  -- keeps the invariant, and puts the request behind the items of that queue, the others unchanged.
  pub enqueue-Holds :
      (req : A) (items : List A)
      → get_elem? mq.qlh qid ≡ some items
      → has_room mq.max_size mq.qic ≡ true
      → mq.qic + 1 < 2 ^ 63
      → Returns
          (λ (r : Queue A × ℕ). (r.1 ≡ 0) × IsQueue r.0 × Holds mq qid (items ++ (req ∷ [])) r.0)
          (enqueue true qid req mq)
  unfolding enqueue
  enqueue-Holds req items at room small =
      let inside : leb mq.nr_queues qid ≡ false =
        ground (arith, get_elem?-lt mq.qlh qid at, ok.lists) in
      rw (inside, room, at)
        (let h =
            put_list-Holds items (items ++ (req ∷ [])) at (length-append items (req ∷ [])) room
              small in
          (refl, h.0, h.1))

  -- h4h_queue_enqueue_top, under the same conditions, returns 0, keeps the invariant, and puts the
  -- request before the items of that queue, the others unchanged.
  pub enqueue_top-Holds :
      (req : A) (items : List A)
      → get_elem? mq.qlh qid ≡ some items
      → has_room mq.max_size mq.qic ≡ true
      → mq.qic + 1 < 2 ^ 63
      → Returns
          (λ (r : Queue A × ℕ). (r.1 ≡ 0) × IsQueue r.0 × Holds mq qid (req ∷ items) r.0)
          (enqueue_top true qid req mq)
  unfolding enqueue_top
  enqueue_top-Holds req items at room small =
      let inside : leb mq.nr_queues qid ≡ false =
        ground (arith, get_elem?-lt mq.qlh qid at, ok.lists) in
      rw (inside, room, at)
        (let h = put_list-Holds items (req ∷ items) at (omega arith) room small in (refl, h.0, h.1))

module _ {A : Type 0} (mq : Queue A) (ok : IsQueue mq) where
  -- On a state that satisfies the invariant, h4h_queue_is_full passes its check and says exactly when
  -- the limit leaves no room for one more item.
  pub is_full-has_room : is_full mq ≡ some (not (has_room mq.max_size mq.qic))
  unfolding is_full has_room
  is_full-has_room = go mq.max_size ok.within
    where
      go :
          (m : Option ℕ)
          → Within m mq.qic
          → elim m [
            | none ↦ some false
            | some n ↦ bug_on (ltb n mq.qic) >>= λ u. some (mq.qic == n)
          ]
            ≡ some (not (has_room m mq.qic))
      go none w = refl
      go (some n) w = ground arith

-- What is left after the queue `qid` is emptied
pub record Emptied {A : Type 0} (mq : Queue A) (qid : ℕ) (items : List A) (r : Queue A × List A)
    : Type 0 where
  pub in_order : r.1 ≡ items
  pub still_queue : IsQueue r.0
  pub holds_none : Holds mq qid [] r.0
  pub items_left : r.0.qic + length items ≡ mq.qic

module _ {A : Type 0} (qid : ℕ) where
  -- A queue that holds `items`, on a state that satisfies the invariant: as many calls of
  -- h4h_queue_dequeue as there are items return them in their order, first in, first out; the queue is
  -- empty then, the other queues are as before, and the count is less by the number of the items.
  pub dequeue_times-Emptied :
      (items : List A) (mq : Queue A)
      → IsQueue mq
      → get_elem? mq.qlh qid ≡ some items
      → Returns (Emptied mq qid items) (dequeue_times qid (length items) mq)
  unfolding dequeue_times take_first
  dequeue_times-Emptied [] mq ok at = record {
    in_order = refl;
    still_queue = ok;
    holds_none = record { now = at; others = λ k ne. refl; same_limit = refl; same_queues = refl };
    items_left = omega arith;
  }
  dequeue_times-Emptied (a ∷ rest) mq ok at =
      let (ok', h, down, big) = take_first-Holds mq ok qid a rest at in
      let q = (take_first qid mq (a ∷ rest)).0 in
      rw (dequeue-eq mq ok qid a rest at big) (
        Returns-bind (Emptied q qid rest) (Emptied mq qid (a ∷ rest))
          (dequeue_times qid (length rest) q) _ (dequeue_times-Emptied rest q ok' h.now)
          λ r e m. record {
            in_order = ap (◌∷◌ a) m.in_order;
            still_queue = m.still_queue;
            holds_none = record {
              now = m.holds_none.now;
              others = λ k ne. m.holds_none.others k ne ∙ h.others k ne;
              same_limit = m.holds_none.same_limit ∙ h.same_limit;
              same_queues = m.holds_none.same_queues ∙ h.same_queues;
            };
            items_left = omega (arith, m.items_left, down);
          })

-- h4h_queue_create makes a state that satisfies the invariant, with every queue empty, when a limit is
-- below 2^63.
pub queue_create-IsQueue :
    (A : Type 0) (n : ℕ) (limit : Option ℕ)
    → Within limit 0
    → IsQueue (queue_create {A = A} n limit) × (is_all_empty (queue_create {A = A} n limit) ≡ true)
unfolding queue_create is_all_empty
queue_create-IsQueue A n limit w =
    (record { lists = length-replicate n []; counts = sym (total-replicate A n); within = w }, refl)
