-- ===== src/Tests/Queues.antt =====
-- ftl/queue/queue.c, ftl/queue/prior_queue.c, ftl/queue/rd_prior_queue.c, ftl/llm_mq.c and the pool of
-- ftl/hlm_reqs_pool.c at concrete inputs.
use h4h.Base.{
  zero, suc, subst, some-inj, get_elem?, ◌<◌, ℕ, ◌≡◌, ◌≢◌, refl, ◌==◌, ==_refl, ==_ne,
  if◌then◌else◌, true, false, [], ◌∷◌, Option, none, some, arith, Returns, count, none-ne-some,
  ◌>>=◌,
}
use h4h.Queue.{Queue, enqueue, enqueue_top, has_room}
use h4h.Queue.Fifo.{
  IsQueue, Holds, Emptied, total, dequeue_times, enqueue-Holds, enqueue_top-Holds,
  dequeue_times-Emptied,
}
use h4h.PriorQueue.{
  LpaItem, LpaHash, PriorItem, PriorQueue, prior_queue_create, add_item, prior_enqueue,
  prior_dequeue, prior_remove, hand_out, get_highest_priority_tag, get_new_priority_tag,
}
use h4h.PriorQueue.Order.{IsPrior, HandedOut, prior_dequeue-HandedOut}
use h4h.PriorQueue.Tags.{Joined, prior_enqueue-Joined, prior_queue_create-IsPrior}
use h4h.PriorQueue.{prior_move}
use h4h.PriorQueue.Move.{Returned, prior_move-Returned}
use h4h.PriorQueue.Remove.{HasLeft, prior_remove-HasLeft}
use h4h.RdPriorQueue.{rd_priority_read, rd_priority_write, RdPriorQueue, rd_prior_dequeue}
use h4h.RdPriorQueue.Served.{Served, rd_prior_dequeue-Served}
use h4h.Request.{LlmReq}
use h4h.LlmMq.{LlmMq, serve_punit, send_req, mq_end_req, sema_unlock}
use h4h.LlmMq.Serve.{IsMq, Round, serve_punit-Round}
use h4h.Tests.Memory.{read_of}
use h4h.ReqsPool.{Pool, get_item, free_item}
use h4h.ReqsPool.Lend.{IsPool, IsSize, Lent, get_item-Lent, free_item-IsPool}

-- Two queues with a limit of four items: one holds 7 and 8, the other 9.
abbrev two_queues : Queue ℕ
two_queues = record {
  nr_queues = 2;
  max_size = some 4;
  qic = 3;
  qlh = (7 ∷ 8 ∷ []) ∷ (9 ∷ []) ∷ [];
  max_queue_items = 3;
}

two_queues-IsQueue : IsQueue two_queues
unfolding total
two_queues-IsQueue = record { lists = refl; counts = refl; within = (omega arith, omega arith) }

enqueue-Holds_example :
    Returns
      (λ (r : Queue ℕ × ℕ). (r.1 ≡ 0) × IsQueue r.0 × Holds two_queues 1 (9 ∷ 5 ∷ []) r.0)
      (enqueue true 1 5 two_queues)
unfolding has_room
enqueue-Holds_example =
    enqueue-Holds two_queues two_queues-IsQueue 1 5 (9 ∷ []) refl refl (omega arith)

enqueue_top-Holds_example :
    Returns
      (λ (r : Queue ℕ × ℕ). (r.1 ≡ 0) × IsQueue r.0 × Holds two_queues 1 (5 ∷ 9 ∷ []) r.0)
      (enqueue_top true 1 5 two_queues)
unfolding has_room
enqueue_top-Holds_example =
    enqueue_top-Holds two_queues two_queues-IsQueue 1 5 (9 ∷ []) refl refl (omega arith)

dequeue_times-Emptied_example :
    Returns (Emptied two_queues 0 (7 ∷ 8 ∷ [])) (dequeue_times 0 2 two_queues)
dequeue_times-Emptied_example =
    dequeue_times-Emptied 0 (7 ∷ 8 ∷ []) two_queues two_queues-IsQueue refl

-- A table as a function from keys
abbrev write_at : (ℕ → Option LpaItem) → ℕ → Option LpaItem → ℕ → Option LpaItem
write_at h k o j = if k == j then o else h j

write_self : (h : ℕ → Option LpaItem) (k : ℕ) (o : Option LpaItem) → write_at h k o k ≡ o
write_self h k o = rw (==_refl k) refl

write_ne : (h : ℕ → Option LpaItem) (k j : ℕ) (o : Option LpaItem) → k ≢ j → write_at h k o j ≡ h j
write_ne h k j o ne = rw (==_ne k j ne) refl

abbrev table : LpaHash (ℕ → Option LpaItem)
table = record {
  no_hash = λ k. none;
  hash_find = λ h k. h k;
  hash_add = λ h k q. write_at h k (some q);
  hash_del = λ h k. write_at h k none;
  hash_write = λ h k q. write_at h k (some q);
  find-none = λ k. refl;
  find-add_self = λ h k q. write_self h k (some q);
  find-add_ne = λ h k j q ne. write_ne h k j (some q) ne;
  find-del_self = λ h k. write_self h k none;
  find-del_ne = λ h k j ne. write_ne h k j none ne;
  find-write_self = λ h k q. write_self h k (some q);
  find-write_ne = λ h k j q ne. write_ne h k j (some q) ne;
}

abbrev nobody : PriorQueue ℕ (ℕ → Option LpaItem)
nobody = prior_queue_create table 2 none

nobody-IsPrior : IsPrior table nobody
nobody-IsPrior = prior_queue_create-IsPrior table 2 none

prior_enqueue-Joined_example :
    Returns
      (λ (r : PriorQueue ℕ (ℕ → Option LpaItem) × ℕ). (r.1 ≡ 0) × Joined table nobody 6 r.0)
      (prior_enqueue table true 0 6 41 nobody)
unfolding prior_queue_create has_room
prior_enqueue-Joined_example =
    prior_enqueue-Joined table nobody nobody-IsPrior 0 6 41 [] refl (omega arith)
      (λ e at. absurd (none-ne-some at)) refl

-- One request, for logical page 6
abbrev one_waits : PriorQueue ℕ (ℕ → Option LpaItem)
one_waits = add_item table 0 6 41 [] nobody

one_waits-Joined : Joined table nobody 6 one_waits
unfolding prior_queue_create has_room prior_enqueue
one_waits-Joined =
    (prior_enqueue-Joined table nobody nobody-IsPrior 0 6 41 [] refl (omega arith)
      (λ e at. absurd (none-ne-some at)) refl).1

one_waits-IsPrior : IsPrior table one_waits
one_waits-IsPrior = one_waits-Joined.still_prior

prior_dequeue-HandedOut_example :
    Returns (HandedOut table one_waits) (prior_dequeue table 0 one_waits)
unfolding add_item prior_queue_create
prior_dequeue-HandedOut_example =
    prior_dequeue-HandedOut table one_waits one_waits-IsPrior 0 (omega arith)

abbrev first_request : PriorItem ℕ
first_request = record { ptr_req = 41; lpa = 6; tag = 1; lock = false }

prior_remove-HasLeft_example :
    Returns (HasLeft table one_waits 0 first_request) (prior_remove table 0 one_waits)
unfolding add_item prior_queue_create get_new_priority_tag get_highest_priority_tag
prior_remove-HasLeft_example =
    prior_remove-HasLeft table one_waits one_waits-IsPrior 0 first_request refl refl

prior_move-Returned_example :
    Returns (Returned table one_waits 1 0 first_request) (prior_move table 1 0 one_waits)
unfolding add_item prior_queue_create get_new_priority_tag
prior_move-Returned_example =
    prior_move-Returned table one_waits one_waits-IsPrior 1 0 first_request refl (omega arith)

-- In queue 0 a write of address 6 stands before a read of address 7.
abbrev idle : RdPriorQueue ℕ (ℕ → Option LpaItem)
idle = prior_queue_create table 2 none

abbrev write_waits : RdPriorQueue ℕ (ℕ → Option LpaItem)
write_waits = add_item table 0 6 (41, rd_priority_write) [] idle

write_waits-IsPrior : IsPrior table write_waits
unfolding prior_queue_create has_room prior_enqueue
write_waits-IsPrior =
    (prior_enqueue-Joined table idle (prior_queue_create-IsPrior table 2 none) 0 6
      (41, rd_priority_write) [] refl (omega arith) (λ e at. absurd (none-ne-some at))
      refl).1.still_prior

abbrev both_wait : RdPriorQueue ℕ (ℕ → Option LpaItem)
both_wait = add_item table 0 7 (42, rd_priority_read) (0 ∷ []) write_waits

both_wait-IsPrior : IsPrior table both_wait
unfolding prior_queue_create has_room prior_enqueue add_item get_new_priority_tag
both_wait-IsPrior =
    (prior_enqueue-Joined table write_waits write_waits-IsPrior 0 7 (42, rd_priority_read) (0 ∷ [])
      refl (omega arith) (λ e at. absurd (none-ne-some at)) refl).1.still_prior

rd_prior_dequeue-Served_example :
    Returns (Served table both_wait (0 ∷ 1 ∷ [])) (rd_prior_dequeue table 0 both_wait)
unfolding add_item prior_queue_create
rd_prior_dequeue-Served_example =
    rd_prior_dequeue-Served table both_wait both_wait-IsPrior 0 (0 ∷ 1 ∷ []) refl

-- Requests 0 and 1 are lent, and none is free.
abbrev all_lent : Pool
all_lent = record {
  used_list = 0 ∷ 1 ∷ [];
  free_list = [];
  pool_size = 2;
  map_unit = 4096;
  io_unit = 4096;
  in_place_rmw = false;
  allocated = 2;
}

all_lent-IsPool : IsPool all_lent
all_lent-IsPool = record { each_once = λ i. ground arith }

get_item-Lent_example : Lent all_lent (get_item 25 all_lent)
get_item-Lent_example = get_item-Lent 25 all_lent all_lent-IsPool refl (omega arith) (omega arith)

free_item-IsPool_example :
    IsPool (free_item 1 all_lent)
    × IsSize (free_item 1 all_lent)
    × (count 1 (free_item 1 all_lent).used_list ≡ 0)
free_item-IsPool_example = free_item-IsPool all_lent all_lent-IsPool refl 1 (omega arith)

-- Parallel unit 0 has a request to send: number 0, for logical page 6.
abbrev queued : PriorQueue ℕ (ℕ → Option LpaItem)
queued = add_item table 0 6 0 [] nobody

queued-IsPrior : IsPrior table queued
unfolding prior_queue_create has_room prior_enqueue
queued-IsPrior =
    (prior_enqueue-Joined table nobody nobody-IsPrior 0 6 0 [] refl (omega arith)
      (λ e at. absurd (none-ne-some at)) refl).1.still_prior

abbrev sending : LlmMq (ℕ → Option LpaItem)
sending = record {
  nr_punits = 2;
  punit_locks = 1 ∷ 1 ∷ [];
  q = queued;
  reqs = record { llm_req = read_of 6; ptr_qitem = none } ∷ [];
}

sending-IsMq : IsMq table sending
unfolding add_item prior_queue_create get_new_priority_tag
sending-IsMq = record {
  prior = queued-IsPrior;
  a_queue_each = refl;
  a_lock_each = refl;
  requests = only;
}
  where
    only :
        (i : ℕ) (item : PriorItem ℕ) → get_elem? queued.heap i ≡ some (some item) → item.ptr_req < 1
    only zero item at =
        subst (λ (x : PriorItem ℕ). x.ptr_req < 1) (some-inj (some-inj at)) (omega arith)
    only (suc i) item at = absurd (none-ne-some at)

-- A device that counts what it is sent
abbrev take_req : LlmReq → ℕ → Option (ℕ × ℕ)
take_req lr d = some (suc d, 0)

serve_punit-Round_example :
    Returns
      (Round table take_req sending 0 7 9)
      (serve_punit table take_req (λ lr s. suc s) 0 sending 7 9)
serve_punit-Round_example =
    serve_punit-Round table take_req (λ lr d. refl) (λ lr s. suc s) sending 0 7 9 sending-IsMq
      (omega arith)

-- A device that refuses every request
abbrev refuse_req : LlmReq → ℕ → Option (ℕ × ℕ)
refuse_req lr d = some (d, 1)

-- After a refused request the semaphore of the unit stands at 2: it is given back twice.
refused_test :
    (serve_punit table refuse_req (λ lr s. suc s) 0 sending 7 9 >>= λ r. some r.0.punit_locks)
    ≡ some (2 ∷ 1 ∷ [])
unfolding serve_punit send_req mq_end_req sema_unlock prior_dequeue prior_remove hand_out add_item
    prior_queue_create get_new_priority_tag
refused_test = refl
