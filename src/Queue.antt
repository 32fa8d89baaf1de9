-- ===== src/Queue.antt =====
-- ftl/queue/queue.h and ftl/queue/queue.c: FIFO queues that share one limit.
-- A request pointer is an element of `A`. The spin lock makes each call one step. An item is
-- allocated on enqueue: the flag `allocated` says whether that succeeds.
pub mod Fifo
use h4h.Base.{
  ℕ, zero, suc, ◌+◌, ◌%◌, ◌^◌, Bool, true, false, ◌||◌, not, List, [], ◌∷◌, ◌++◌, Option, none,
  some, ◌==◌, ltb, leb, if◌then◌else◌, ◌>>=◌, ◌>>◌, bug_on, get_elem?, set, replicate, inc64, dec64,
}

-- h4h_queue_t, and the counter `max_queue_items` of the file. `none` for the size is
-- INFINITE_QUEUE, which is -1; no other negative size is used.
pub record Queue (A : Type 0) : Type 0 where
  pub nr_queues : ℕ
  pub max_size : Option ℕ
  pub qic : ℕ
  pub qlh : List (List A)
  pub max_queue_items : ℕ

-- h4h_queue_create, where the allocations succeed
unfoldable pub queue_create : {A : Type 0} → ℕ → Option ℕ → Queue A
queue_create nr_queues max_size = record {
  nr_queues = nr_queues;
  max_size = max_size;
  qic = 0;
  qlh = replicate nr_queues [];
  max_queue_items = 0;
}

-- The test of the limit, `max_size == INFINITE_QUEUE || qic < max_size`
unfoldable pub has_room : Option ℕ → ℕ → Bool
has_room none qic = true
has_room (some n) qic = ltb qic n

-- The part of an enqueue under the lock, with the new list of queue `qid`
unfoldable pub put_list : {A : Type 0} → ℕ → List A → Queue A → Queue A
put_list qid items mq = record mq {
  qlh = set mq.qlh qid items;
  qic = inc64 mq.qic;
  max_queue_items =
      if ltb mq.max_queue_items (inc64 mq.qic) then inc64 mq.qic else mq.max_queue_items;
}

-- h4h_queue_enqueue
unfoldable pub enqueue : {A : Type 0} → Bool → ℕ → A → Queue A → Option (Queue A × ℕ)
unfolding has_room put_list
enqueue allocated qid req mq =
    if leb mq.nr_queues qid
    then some (mq, 1)
    else if has_room mq.max_size mq.qic
    then (if allocated
        then (get_elem? mq.qlh qid >>= λ items. some (put_list qid (items ++ (req ∷ [])) mq, 0))
        else some (mq, 1))
    else some (mq, 1)

-- h4h_queue_enqueue_top
unfoldable pub enqueue_top : {A : Type 0} → Bool → ℕ → A → Queue A → Option (Queue A × ℕ)
unfolding has_room put_list
enqueue_top allocated qid req mq =
    if leb mq.nr_queues qid
    then some (mq, 1)
    else if has_room mq.max_size mq.qic
    then (if allocated
        then (get_elem? mq.qlh qid >>= λ items. some (put_list qid (req ∷ items) mq, 0))
        else some (mq, 1))
    else some (mq, 1)

abbrev pub null_list : {A : Type 0} → List A → Bool
null_list [] = true
null_list (x ∷ xs) = false

-- h4h_queue_is_empty
unfoldable pub is_empty : {A : Type 0} → ℕ → Queue A → Option Bool
is_empty qid mq =
    if ltb 0 mq.qic then (get_elem? mq.qlh qid >>= λ items. some (null_list items)) else some true

-- The first item leaves its list.
unfoldable pub take_first : {A : Type 0} → ℕ → Queue A → List A → Queue A × Option A
take_first qid mq [] = (mq, none)
take_first qid mq (x ∷ rest) = (record mq { qlh = set mq.qlh qid rest; qic = dec64 mq.qic }, some x)

-- h4h_queue_dequeue; `none` for the request is NULL.
unfoldable pub dequeue : {A : Type 0} → ℕ → Queue A → Option (Queue A × Option A)
unfolding take_first
dequeue qid mq =
    if ltb 0 mq.qic
    then (get_elem? mq.qlh qid >>= λ items. some (take_first qid mq items))
    else some (mq, none)

-- h4h_queue_is_full
unfoldable pub is_full : {A : Type 0} → Queue A → Option Bool
is_full mq = elim mq.max_size [
  | none ↦ some false
  | some n ↦ bug_on (ltb n mq.qic) >>= λ u. some (mq.qic == n)
]

-- h4h_queue_is_all_empty
unfoldable pub is_all_empty : {A : Type 0} → Queue A → Bool
is_all_empty mq = mq.qic == 0

-- h4h_queue_get_nr_items
unfoldable pub get_nr_items : {A : Type 0} → Queue A → ℕ
get_nr_items mq = mq.qic
