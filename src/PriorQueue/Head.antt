-- ===== src/PriorQueue/Head.antt =====
-- Which item h4h_prior_queue_dequeue of ftl/queue/prior_queue.c hands out: the head of the queue.
use h4h.Base.{
  ℕ, ◌<◌, ◌≡◌, inl, inr, refl, true, false, not, ◌&&◌, Bool-cases, List, [], ◌∷◌, Option, none,
  some, arith, get_elem?, get_elem?_of_lt, set, Returns, ◌==◌, ltb, ◌>>=◌,
}
use h4h.PageFtl.{deref}
use h4h.PriorQueue.{
  LpaHash, PriorItem, PriorQueue, get_highest_priority_tag, hand_out, prior_dequeue,
}
use h4h.PriorQueue.Order.{IsLiveList, IsPrior}

module _ {A : Type 0} {H : Type 0} (ops : LpaHash H) where
  -- An item that may be served: it is not locked, and it has the tag whose turn it is at its address.
  pub record IsReady (mq : PriorQueue A H) (q : PriorItem A) : Type 0 where
    pub unlocked : q.lock ≡ false
    pub current : get_highest_priority_tag ops mq.hash_lpa q.lpa ≡ q.tag

  -- Why a queue hands out nothing
  pub data Held (mq : PriorQueue A H) (qid : ℕ) : Type 0 where
    no_items : mq.qic ≡ 0 → Held mq qid
    is_empty : get_elem? mq.qlh qid ≡ some [] → Held mq qid
    head_waits :
        (k : ℕ) (rest : List ℕ) (q : PriorItem A)
        → get_elem? mq.qlh qid ≡ some (k ∷ rest)
        → get_elem? mq.heap k ≡ some (some q)
        → ¬ IsReady mq q
        → Held mq qid

  -- What a dequeue from queue `qid` does
  pub data FromHead (mq : PriorQueue A H) (qid : ℕ) (r : PriorQueue A H × Option (ℕ × A))
      : Type 0 where
    holds : r ≡ (mq, none) → Held mq qid → FromHead mq qid r
    hands :
        (k : ℕ) (rest : List ℕ) (q : PriorItem A)
        → get_elem? mq.qlh qid ≡ some (k ∷ rest)
        → get_elem? mq.heap k ≡ some (some q)
        → IsReady mq q
        → r ≡ (
          record mq { heap = set mq.heap k (some (record q { lock = true })) },
          some (k, q.ptr_req),
        )
        → FromHead mq qid r

  module _ (mq : PriorQueue A H) (ok : IsPrior ops mq) (qid : ℕ) (lt : qid < mq.nr_queues) where
    hand_out-FromHead :
        (k : ℕ) (rest : List ℕ) (q : PriorItem A)
        → get_elem? mq.qlh qid ≡ some (k ∷ rest)
        → get_elem? mq.heap k ≡ some (some q)
        → FromHead mq qid (hand_out ops k q mq)
    unfolding hand_out
    hand_out-FromHead k rest q head at =
        elim (Bool-cases (not q.lock && get_highest_priority_tag ops mq.hash_lpa q.lpa == q.tag)) [
          | inl turn ↦ rw turn (
              hands k rest q head at (record { unlocked = ground arith; current = ground arith })
                refl)
          | inr waits ↦ rw waits (
              holds refl (
                head_waits k rest q head at
                  λ ready. let u = ready.unlocked in let c = ready.current in ground arith))
        ]

    -- The head of the queue is handed out if it is ready, and nothing if it is not.
    pub prior_dequeue-FromHead : Returns (FromHead mq qid) (prior_dequeue ops qid mq)
    unfolding prior_dequeue
    prior_dequeue-FromHead =
        let (items, at) = get_elem?_of_lt mq.qlh qid (omega (arith, ok.lists)) in
        elim (Bool-cases (ltb 0 mq.qic)) [
          | inr idle ↦ rw idle (holds refl (no_items (ground arith)))
          | inl busy ↦ rw (busy, at) (go items at (ok.live qid items at))
        ]
      where
        go :
            (items : List ℕ)
            → get_elem? mq.qlh qid ≡ some items
            → IsLiveList ops mq.heap items
            → Returns (FromHead mq qid) (elim items [
              | [] ↦ some (mq, none)
              | k ∷ rest ↦ deref (get_elem? mq.heap k) >>= λ q. some (hand_out ops k q mq)
            ])
        go [] e h = holds refl (is_empty e)
        go (k ∷ rest) e h = rw (h.0.1) (hand_out-FromHead k rest h.0.0 e h.0.1)
