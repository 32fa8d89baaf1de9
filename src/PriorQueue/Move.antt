-- ===== src/PriorQueue/Move.antt =====
-- h4h_prior_queue_move of ftl/queue/prior_queue.c gives a request back to the head of a queue.
use h4h.Base.{
  ℕ, ◌<◌, ◌≡◌, ◌≢◌, refl, ap, some-inj, get_elem?-map-some, inl, inr, sym, subst, ◌∙◌, false, List,
  ◌∷◌, Option, some, map, erase, arith, get_elem?, get_elem?_of_lt, get_elem?-lt, get_elem?-map,
  length-map, length-set, All-erase, get_elem?-set, get_elem?-set_ne, get_elem?-set_self, Returns,
}
use h4h.PriorQueue.{LpaHash, PriorItem, PriorQueue, prior_move}
use h4h.PriorQueue.Lock.{heap_after, lock_there, lock_live, lock_small, lock_tags}
use h4h.PriorQueue.Order.{IsLiveList, IsPrior}

module _ {A : Type 0} {H : Type 0} (ops : LpaHash H) where
  -- The item `i`, which is `q`, is unlocked at the head of queue `qid`.
  pub record Returned (mq : PriorQueue A H) (qid i : ℕ) (q : PriorItem A) (mq' : PriorQueue A H)
      : Type 0 where
    pub still_prior : IsPrior ops mq'
    pub unlocked : get_elem? mq'.heap i ≡ some (some (record q { lock = false }))
    pub at_head :
        (xs : List ℕ)
        → get_elem? mq.qlh qid ≡ some xs
        → get_elem? mq'.qlh qid ≡ some (i ∷ erase i xs)
    pub other_queues :
        (k : ℕ) (xs : List ℕ)
        → k ≢ qid
        → get_elem? mq.qlh k ≡ some xs
        → get_elem? mq'.qlh k ≡ some (erase i xs)
    pub others_stay : (j : ℕ) → i ≢ j → get_elem? mq'.heap j ≡ get_elem? mq.heap j
    pub same_count : mq'.qic ≡ mq.qic
    pub same_hash : mq'.hash_lpa ≡ mq.hash_lpa

  module _ (mq : PriorQueue A H) (ok : IsPrior ops mq) (qid i : ℕ) (q : PriorItem A)
      (at : get_elem? mq.heap i ≡ some (some q)) where
    abbrev after : List (Option (PriorItem A))
    after = heap_after ops mq ok i q at false

    still_live : (ys : List ℕ) → IsLiveList ops mq.heap ys → IsLiveList ops after (erase i ys)
    still_live ys h = All-erase _ _ i ys (λ j _ p. p) (lock_live ops mq ok i q at false ys h)

    -- h4h_prior_queue_move of an item on a state that satisfies the invariant, to a queue that exists: the
    -- call runs through, keeps the invariant, unlocks the item, takes it out of whatever queue it is in,
    -- and puts it at the head of that queue. The other items, their order in each queue, the number of
    -- items and the hash table stay as they are.
    pub prior_move-Returned :
        qid < mq.nr_queues → Returns (Returned mq qid i q) (prior_move ops qid i mq)
    unfolding prior_move
    prior_move-Returned lt =
        let (ys, there) =
          get_elem?_of_lt (map (erase i) mq.qlh) qid
            (omega (arith, length-map (erase i) mq.qlh, ok.lists)) in
        let (xs, old, eq) = get_elem?-map (erase i) mq.qlh qid there in
        rw (at, there)
          (record {
            still_prior = record {
              entries = ok.entries;
              tags = lock_tags ops mq ok i q at false;
              small_lpa = lock_small ops mq ok i q at false;
              lists =
                  length-set (map (erase i) mq.qlh) qid _ ∙ length-map (erase i) mq.qlh ∙ ok.lists;
              live = λ k zs g. elim (get_elem?-set (map (erase i) mq.qlh) qid k _ g) [
                | inl (a, b) ↦ subst (IsLiveList ops after) (sym b) (
                  (record q { lock = false }, lock_there ops mq ok i q at false),
                  subst (IsLiveList ops after) (sym eq) (still_live xs (ok.live qid xs old)),
                )
                | inr (a, b) ↦
                    let (ws, old', eq') = get_elem?-map (erase i) mq.qlh k b in
                    subst (IsLiveList ops after) (sym eq') (still_live ws (ok.live k ws old'))
              ];
            };
            unlocked = lock_there ops mq ok i q at false;
            at_head = λ ws g.
                get_elem?-set_self (map (erase i) mq.qlh) qid (i ∷ ys)
                  (get_elem?-lt (map (erase i) mq.qlh) qid there)
                ∙ ap (λ zs. some (i ∷ zs)) (eq ∙ ap (erase i) (some-inj (sym old ∙ g)));
            other_queues = λ k ws ne g.
                get_elem?-set_ne (map (erase i) mq.qlh) qid k _ (λ e. ne (sym e))
                ∙ get_elem?-map-some (erase i) mq.qlh k ws g;
            same_count = refl;
            same_hash = refl;
            others_stay = λ j ne. get_elem?-set_ne mq.heap i j _ ne;
          })
