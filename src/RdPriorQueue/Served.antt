-- ===== src/RdPriorQueue/Served.antt =====
-- The dequeue of ftl/queue/rd_prior_queue.c: which request it serves.
use h4h.Base.{
  ℕ, ◌<◌, ◌≤◌, ◌≡◌, ◌⊎◌, inl, inr, refl, sym, subst, ◌∙◌, Bool, true, false, ◌&&◌, Bool-cases, List,
  [], ◌∷◌, Option, none, some, arith, get_elem?, set, count, All, Returns, Returns-mono,
  Returns-bind, some-inj, ltb,
}
use h4h.PriorQueue.{LpaHash}
use h4h.PriorQueue.Order.{IsPrior, IsLiveList, current-oldest}
use h4h.RdPriorQueue.{
  RdPriorItem, RdPriorQueue, is_priority_read, is_ready, candidate, rd_scan, serve,
  rd_prior_dequeue,
}

module _ {H : Type 0} (ops : LpaHash H) {A : Type 0} where
  -- No item of a list is ready, or no read of it.
  abbrev pub NoneReady : H → List (Option (RdPriorItem A)) → List ℕ → Type 0
  NoneReady h heap items =
      All (λ i. (q : RdPriorItem A) → get_elem? heap i ≡ some (some q) → is_ready ops h q ≡ false)
        items

  abbrev pub NoReadReady : H → List (Option (RdPriorItem A)) → List ℕ → Type 0
  NoReadReady h heap items =
      All
        (λ i.
          (q : RdPriorItem A)
          → get_elem? heap i ≡ some (some q)
          → (is_ready ops h q && is_priority_read q.ptr_req.1) ≡ false)
        items

  -- What the loop makes of the rest of a list
  data Scanned (h : H) (heap : List (Option (RdPriorItem A))) (items : List ℕ)
      (cand o : Option (ℕ × RdPriorItem A)) : Type 0 where
    keep :
        o ≡ cand
        → NoReadReady h heap items
        → (cand ≡ none → NoneReady h heap items)
        → Scanned h heap items cand o
    take :
        (i : ℕ) (q : RdPriorItem A)
        → o ≡ some (i, q)
        → 0 < count i items
        → get_elem? heap i ≡ some (some q)
        → is_ready ops h q ≡ true
        → (is_priority_read q.ptr_req.1 ≡ true) ⊎ NoReadReady h heap items
        → Scanned h heap items cand o

  module _ (h : H) (heap : List (Option (RdPriorItem A))) where
    -- An item that is no ready read in front of the rest
    later :
        (i : ℕ) (rest : List ℕ) (q : RdPriorItem A) (ready : Bool)
        (cand o : Option (ℕ × RdPriorItem A))
        → get_elem? heap i ≡ some (some q)
        → is_ready ops h q ≡ ready
        → (is_ready ops h q && is_priority_read q.ptr_req.1) ≡ false
        → Scanned h heap rest (candidate ready i q cand) o
        → Scanned h heap (i ∷ rest) cand o
    later i rest q ready cand o at er no_read s = go ready cand er s
      where
        same : (q' : RdPriorItem A) → get_elem? heap i ≡ some (some q') → q ≡ q'
        same q' at' = some-inj (some-inj (sym at ∙ at'))

        first :
            (q' : RdPriorItem A)
            → get_elem? heap i ≡ some (some q')
            → (is_ready ops h q' && is_priority_read q'.ptr_req.1) ≡ false
        first q' at' =
            subst
              (λ (x : RdPriorItem A). (is_ready ops h x && is_priority_read x.ptr_req.1) ≡ false)
              (same q' at') no_read

        behind :
            (cand' : Option (ℕ × RdPriorItem A)) (j : ℕ) (p : RdPriorItem A)
            → o ≡ some (j, p)
            → 0 < count j rest
            → get_elem? heap j ≡ some (some p)
            → is_ready ops h p ≡ true
            → (is_priority_read p.ptr_req.1 ≡ true) ⊎ NoReadReady h heap rest
            → Scanned h heap (i ∷ rest) cand' o
        behind cand' j p e c at' r (inl read) = take j p e (omega arith) at' r (inl read)
        behind cand' j p e c at' r (inr none_left) =
            take j p e (omega arith) at' r (inr (first, none_left))

        go :
            (ready : Bool) (cand : Option (ℕ × RdPriorItem A))
            → is_ready ops h q ≡ ready
            → Scanned h heap rest (candidate ready i q cand) o
            → Scanned h heap (i ∷ rest) cand o
        go false cand er (keep e nr ne) =
            keep e (first, nr)
              λ c. (
                (λ q' at'.
                    subst (λ (x : RdPriorItem A). is_ready ops h x ≡ false) (same q' at') er),
                ne c,
              )
        go true (some x) er (keep e nr ne) = keep e (first, nr) (λ c. cc (c))
        go true none er (keep e nr ne) = take i q e (ground arith) at er (inr (first, nr))
        go false cand er (take j p e c at' r w) = behind cand j p e c at' r w
        go true (some x) er (take j p e c at' r w) = behind (some x) j p e c at' r w
        go true none er (take j p e c at' r w) = behind none j p e c at' r w

    rd_scan-Scanned :
        (items : List ℕ) (cand : Option (ℕ × RdPriorItem A))
        → IsLiveList ops heap items
        → Returns (Scanned h heap items cand) (rd_scan ops h heap items cand)
    unfolding rd_scan
    rd_scan-Scanned [] cand live = keep refl tt (λ e. tt)
    rd_scan-Scanned (i ∷ rest) cand live =
        let q = live.0.0 in
        rw (live.0.1) (
          step (λ c. rd_scan-Scanned rest c live.1) q live.0.1
            (is_ready ops h q && is_priority_read q.ptr_req.1) refl)
      where
        step :
            ((c : Option (ℕ × RdPriorItem A))
              → Returns (Scanned h heap rest c) (rd_scan ops h heap rest c))
            → (q : RdPriorItem A) → get_elem? heap i ≡ some (some q)
            → (both : Bool) → (is_ready ops h q && is_priority_read q.ptr_req.1) ≡ both
            → Returns (Scanned h heap (i ∷ rest) cand) (elim both [
              | true ↦ some (some (i, q))
              | false ↦ rd_scan ops h heap rest (candidate (is_ready ops h q) i q cand)
            ])
        step ih q at true e = take i q refl (ground arith) at (ground arith) (inl (ground arith))
        step ih q at false e =
            Returns-mono _ _ (rd_scan ops h heap rest (candidate (is_ready ops h q) i q cand))
              (λ o _ s. later i rest q (is_ready ops h q) cand o at refl e s)
              (ih (candidate (is_ready ops h q) i q cand))

  -- What a dequeue does, among the items of a queue
  pub data Served (mq : RdPriorQueue A H) (items : List ℕ) (r : RdPriorQueue A H × Option (ℕ × A))
      : Type 0 where
    nothing :
        r ≡ (mq, none) → (0 < mq.qic → NoneReady mq.hash_lpa mq.heap items) → Served mq items r
    served :
        (i : ℕ) (q : RdPriorItem A)
        → 0 < count i items
        → get_elem? mq.heap i ≡ some (some q)
        → q.lock ≡ false
        → r ≡ (
          record mq { heap = set mq.heap i (some (record q { lock = true })) },
          some (i, q.ptr_req.0),
        )
        → ((j : ℕ) (p : RdPriorItem A)
            → get_elem? mq.heap j ≡ some (some p)
            → p.lpa ≡ q.lpa
            → q.tag ≤ p.tag)
        → (is_priority_read q.ptr_req.1 ≡ true) ⊎ NoReadReady mq.hash_lpa mq.heap items
        → Served mq items r

  module _ (mq : RdPriorQueue A H) (ok : IsPrior ops mq) where
    serve-Served :
        (items : List ℕ) (o : Option (ℕ × RdPriorItem A))
        → Scanned mq.hash_lpa mq.heap items none o
        → Served mq items (serve ops mq o)
    unfolding serve
    serve-Served items o (keep e nr ne) = rw e (nothing refl (λ _. ne refl))
    serve-Served items o (take i q e c at r w) =
        rw e
          (served i q c at (ground arith) refl (current-oldest ops mq ok i q at (ground arith)) w)

    -- h4h_rd_prior_queue_dequeue on a state that satisfies the invariant of the tags, for a queue that
    -- exists: it runs through. A request that it serves stands in that queue, was unlocked and is locked
    -- now, nothing else has changed, and no item that waits for the same logical address has a smaller tag.
    -- It is a read unless no read of the queue is ready, that is, unlocked and next in turn. It serves none
    -- only if no item of the queue is ready or the count of items is not positive.
    pub rd_prior_dequeue-Served :
        (qid : ℕ) (items : List ℕ)
        → get_elem? mq.qlh qid ≡ some items
        → Returns (Served mq items) (rd_prior_dequeue ops qid mq)
    unfolding rd_prior_dequeue
    rd_prior_dequeue-Served qid items at = elim (Bool-cases (ltb 0 mq.qic)) [
      | inr idle ↦ rw idle (nothing refl (λ busy. absurd (ground arith)))
      | inl busy ↦
          rw (busy, at)
            (Returns-bind (Scanned mq.hash_lpa mq.heap items none) (Served mq items)
              (rd_scan ops mq.hash_lpa mq.heap items none) (λ q. some (serve ops mq q))
              (rd_scan-Scanned mq.hash_lpa mq.heap items none (ok.live qid items at))
              λ o _ s. serve-Served items o s)
    ]
