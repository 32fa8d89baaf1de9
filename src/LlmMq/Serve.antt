-- ===== src/LlmMq/Serve.antt =====
-- What a round of the sending thread of ftl/llm_mq.c sends.
use h4h.Base.{
  ℕ, ◌<◌, ◌≤◌, ◌≡◌, zero, suc, refl, sym, ap, ◌∙◌, List, ◌∷◌, true, false, Option, none, some,
  some-inj, get_elem?, get_elem?_of_lt, get_elem?-lt, get_elem?-set_self, set, set-set,
  set-get_elem?, length, length-set, get_elem?-set, subst, inl, inr, arith, Returns, Returns-bind,
  ◌>>=◌,
}
use h4h.Request.{LlmReq}
use h4h.PriorQueue.{LpaHash, PriorItem, PriorQueue, prior_dequeue}
use h4h.PriorQueue.Order.{IsPrior, current-oldest}
use h4h.PriorQueue.Head.{Held, FromHead, holds, hands, prior_dequeue-FromHead}
use h4h.PriorQueue.Lock.{lock-IsPrior}
use h4h.LlmMq.{QueuedReq, LlmMq, sema_unlock, send_req, serve_punit}

module _ {H : Type 0} (ops : LpaHash H) where
  -- A queue and a lock for each parallel unit, and a request for each item
  pub record IsMq (p : LlmMq H) : Type 0 where
    pub prior : IsPrior ops p.q
    pub a_queue_each : p.q.nr_queues ≡ p.nr_punits
    pub a_lock_each : length p.punit_locks ≡ p.nr_punits
    pub requests :
        (i : ℕ) (item : PriorItem ℕ)
        → get_elem? p.q.heap i ≡ some (some item)
        → item.ptr_req < length p.reqs

  -- The state after request `i` of item `k` is sent to parallel unit `loop`, whose lock has `n` left
  abbrev pub after_send : LlmMq H → ℕ → ℕ → ℕ → PriorItem ℕ → QueuedReq → LlmMq H
  after_send p loop n k item x = record p {
    q = record p.q { heap = set p.q.heap k (some (record item { lock = true })) };
    punit_locks = set p.punit_locks loop n;
    reqs = set p.reqs item.ptr_req (record x { ptr_qitem = some k });
  }

  after_send-IsMq :
      (p : LlmMq H) (ok : IsMq p) (loop n k : ℕ) (item : PriorItem ℕ) (x : QueuedReq)
      → get_elem? p.q.heap k ≡ some (some item)
      → IsMq (after_send p loop n k item x)
  after_send-IsMq p ok loop n k item x at = record {
    prior = lock-IsPrior ops p.q ok.prior k item at true;
    a_queue_each = ok.a_queue_each;
    a_lock_each = length-set p.punit_locks loop n ∙ ok.a_lock_each;
    requests = λ i other there.
        rw (length-set p.reqs item.ptr_req (record x { ptr_qitem = some k }))
          (elim (get_elem?-set p.q.heap k i _ there) [
            | inl (_, e) ↦
                subst (λ (y : PriorItem ℕ). y.ptr_req < length p.reqs) (sym (some-inj e))
                  (ok.requests k item at)
            | inr (_, e) ↦ ok.requests i other e
          ]);
  }

  -- A round sends nothing, or one request.
  pub data Round {D S : Type 0} (dm_make_req : LlmReq → D → Option (D × ℕ)) (p : LlmMq H) (loop : ℕ)
      (d : D) (s : S) (r : LlmMq H × D × S) : Type 0 where
    busy : get_elem? p.punit_locks loop ≡ some 0 → r ≡ (p, d, s) → Round dm_make_req p loop d s r
    idle : Held ops p.q loop → r ≡ (p, d, s) → Round dm_make_req p loop d s r
    sends :
        (n k : ℕ) (rest : List ℕ) (item : PriorItem ℕ) (x : QueuedReq) (d' : D)
        → get_elem? p.punit_locks loop ≡ some (suc n)
        → get_elem? p.q.qlh loop ≡ some (k ∷ rest)
        → get_elem? p.q.heap k ≡ some (some item)
        → item.lock ≡ false
        → ((j : ℕ) (other : PriorItem ℕ)
            → get_elem? p.q.heap j ≡ some (some other)
            → other.lpa ≡ item.lpa
            → item.tag ≤ other.tag)
        → get_elem? p.reqs item.ptr_req ≡ some x
        → dm_make_req x.llm_req d ≡ some (d', 0)
        → r ≡ (after_send p loop n k item x, d', s)
        → IsMq r.0
        → Round dm_make_req p loop d s r

  module _ {D S : Type 0} (dm_make_req : LlmReq → D → Option (D × ℕ))
      (accepts : (lr : LlmReq) (d : D) → Returns (λ (a : D × ℕ). a.1 ≡ 0) (dm_make_req lr d))
      (end_req : LlmReq → S → S) where
    module _ (p : LlmMq H) (ok : IsMq p) (loop : ℕ) (inside : loop < p.nr_punits) (d : D) (s : S)
        (n : ℕ) (free : get_elem? p.punit_locks loop ≡ some (suc n)) where
      -- A lock that is taken and given back is as it was.
      given_back : sema_unlock loop (set p.punit_locks loop n) ≡ some p.punit_locks
      unfolding sema_unlock
      given_back =
          rw (get_elem?-set_self p.punit_locks loop n (get_elem?-lt p.punit_locks loop free)) (
            ap (λ (x : List ℕ). some x)
              (set-set p.punit_locks loop n (suc n)
                ∙ set-get_elem? p.punit_locks loop (suc n) free))

      handed-Round :
          (a : PriorQueue ℕ H × Option (ℕ × ℕ))
          → FromHead ops p.q loop a
          → Returns (Round dm_make_req p loop d s) (elim a.1 [
            | none ↦ sema_unlock loop (set p.punit_locks loop n) >>= λ locks'.
                some (record p { q = a.0; punit_locks = locks' }, d, s)
            | some handed ↦
                send_req ops dm_make_req end_req loop handed.0 handed.1
                  (record p { q = a.0; punit_locks = set p.punit_locks loop n })
                  d
                  s
          ])
      unfolding send_req
      handed-Round a (holds e why) =
          rw (e, given_back)
            (idle why
              (ap (λ (x : PriorQueue ℕ H × Option (ℕ × ℕ)). (record p { q = x.0 }, d, s)) e))
      handed-Round a (hands k rest item head at ready e) =
          let (x, there) = get_elem?_of_lt p.reqs item.ptr_req (ok.requests k item at) in
          rw (e, there)
            (Returns-bind (λ (b : D × ℕ). b.1 ≡ 0) _ (dm_make_req x.llm_req d) _
              (accepts x.llm_req d)
              λ b eq z. rw z (
                sends n k rest item x b.0 free head at ready.unlocked
                  (current-oldest ops p.q ok.prior k item at ready.current) there
                  (eq ∙ ap (λ y. some (b.0, y)) z)
                  (ap
                    (λ (y : PriorQueue ℕ H × Option (ℕ × ℕ)).
                      (record (after_send p loop n k item x) { q = y.0 }, b.0, s))
                    e)
                  (subst
                    (λ (y : PriorQueue ℕ H × Option (ℕ × ℕ)).
                      IsMq (record (after_send p loop n k item x) { q = y.0 }))
                    (sym e) (after_send-IsMq p ok loop n k item x at))))

    -- One round of the sending thread, for a parallel unit of the device, on a state with a queue and a lock
    -- for each unit that satisfies the invariant of the tags, and with a device that takes every request: it
    -- runs through. Nothing changes if the lock of the unit is taken, if there are no items, or if the
    -- queue of the unit is empty or its head is locked or does not have the tag whose turn it is. Otherwise
    -- the lock of the unit is taken once, the head of the queue of the unit, which was not locked, is locked,
    -- its request has the item as ptr_qitem and is handed to the device, nothing else changes, no item that
    -- waits for the same logical address has a smaller tag, and the invariant holds again.
    pub serve_punit-Round :
        (p : LlmMq H) (loop : ℕ) (d : D) (s : S)
        → IsMq p
        → loop < p.nr_punits
        → Returns (Round dm_make_req p loop d s) (serve_punit ops dm_make_req end_req loop p d s)
    unfolding serve_punit
    serve_punit-Round p loop d s ok inside =
        let (count, at) = get_elem?_of_lt p.punit_locks loop (omega (arith, ok.a_lock_each)) in
        rw at (by_lock count at)
      where
        by_lock :
            (count : ℕ)
            → get_elem? p.punit_locks loop ≡ some count
            → Returns (Round dm_make_req p loop d s) (elim count [
              | zero ↦ some (p, d, s)
              | suc n ↦ prior_dequeue ops loop p.q >>= λ a. elim a.1 [
                | none ↦ sema_unlock loop (set p.punit_locks loop n) >>= λ locks'.
                    some (record p { q = a.0; punit_locks = locks' }, d, s)
                | some handed ↦
                    send_req ops dm_make_req end_req loop handed.0 handed.1
                      (record p { q = a.0; punit_locks = set p.punit_locks loop n })
                      d
                      s
              ]
            ])
        by_lock zero at = busy at refl
        by_lock (suc n) at =
            Returns-bind (FromHead ops p.q loop) _ (prior_dequeue ops loop p.q) _
              (prior_dequeue-FromHead ops p.q ok.prior loop (omega (arith, ok.a_queue_each)))
              λ a _ h. handed-Round p ok loop inside d s n at a h
