-- ===== src/PriorQueue/Tags.antt =====
-- Enqueue and remove of ftl/queue/prior_queue.c keep the tags of each logical address in a row.
use native.Mathlib.Nat.{mod-eq_of_lt}
use native.Mathlib.Decide.{ℕ_discrete}
use h4h.Base.{
  ℕ, ◌+◌, ◌<◌, ◌≤◌, ◌≡◌, ◌≢◌, inl, inr, refl, sym, subst, ◌∙◌, ◌^◌, true, false, ◌&&◌, List, [],
  ◌∷◌, ◌++◌, Option, none, some, arith, get_elem?, length, count_p, count_p-append, get_elem?-lt,
  get_elem?-append_cases, get_elem?-append_old, get_elem?-append_new, All-append, All-mono,
  length-set, tally, get_elem?-set, Returns, some-inj, none-ne-some, ◌==◌, leb, inc64,
  length-replicate,
}
use h4h.PageFtl.State.Turn.{get-replicate}
use h4h.Queue.{has_room}
use h4h.PriorQueue.{
  LpaItem, LpaHash, PriorItem, PriorQueue, get_new_priority_tag, prior_queue_create, add_item,
  prior_enqueue,
}
use h4h.PriorQueue.Order.{is_item, waiting, IsLiveList, IsPrior, item_waits}

-- What a new tag does to the table
pub record NewTag {H : Type 0} (ops : LpaHash H) (h : H) (lpa : ℕ) (r : H × ℕ) : Type 0 where
  pub entry : LpaItem
  pub found_now : ops.hash_find r.0 lpa ≡ some entry
  pub entry_lpa : entry.lpa ≡ lpa
  pub entry_max : entry.max_tag ≡ r.1
  pub entry_cur : entry.cur_tag ≤ r.1
  pub entry_small : r.1 < 2 ^ 64
  pub one_more :
      (t : ℕ) → waiting (some entry) t ≡ waiting (ops.hash_find h lpa) t + tally (r.1 == t)
  pub above : (e : LpaItem) → ops.hash_find h lpa ≡ some e → e.max_tag < r.1
  pub others_found : (l : ℕ) → l ≢ lpa → ops.hash_find r.0 l ≡ ops.hash_find h l

module _ {H : Type 0} (ops : LpaHash H) (h : H) (lpa : ℕ) (small : lpa < 2 ^ 32) where
  new_tag :
      (o : Option LpaItem)
      → ops.hash_find h lpa ≡ o
      → ((e : LpaItem)
          → o ≡ some e
          → (e.lpa ≡ lpa) × (e.cur_tag ≤ e.max_tag) × (e.max_tag + 1 < 2 ^ 64))
      → NewTag ops h lpa (get_new_priority_tag ops h lpa)
  unfolding get_new_priority_tag
  new_tag none at good =
      let key = mod-eq_of_lt {n = lpa} {m = 2 ^ 32} (omega arith) in
      rw (get_new_priority_tag, key, at, key)
        (record {
          entry = record { lpa = lpa; cur_tag = 1; max_tag = 1 };
          found_now = ops.find-add_self h lpa _;
          entry_lpa = refl;
          entry_max = refl;
          entry_cur = omega arith;
          entry_small = omega arith;
          one_more = λ t. rw at (ground arith);
          above = λ e g. absurd (none-ne-some (sym at ∙ g));
          others_found = λ l ne. ops.find-add_ne h lpa l _ (λ e. ne (sym e));
        })
  new_tag (some q) at good =
      let key = mod-eq_of_lt {n = lpa} {m = 2 ^ 32} (omega arith) in
      let (el, ec, em) = good q refl in
      let exact = mod-eq_of_lt {n = q.max_tag + 1} {m = 2 ^ 64} (omega arith) in
      rw (get_new_priority_tag, key, at, key)
        (record {
          entry = record q { max_tag = inc64 q.max_tag };
          found_now = ops.find-write_self h lpa _;
          entry_lpa = el;
          entry_max = refl;
          entry_cur = rw exact (omega arith);
          entry_small = rw exact (omega arith);
          one_more = λ t. rw (exact, at) (ground arith);
          above = λ e g. rw (exact, ← some-inj (sym at ∙ g)) (omega arith);
          others_found = λ l ne. ops.find-write_ne h lpa l _ (λ e. ne (sym e));
        })

module _ {A : Type 0} {H : Type 0} (ops : LpaHash H) where
  -- The state after a request joins, against the state before
  pub record Joined (mq : PriorQueue A H) (lpa : ℕ) (mq' : PriorQueue A H) : Type 0 where
    pub still_prior : IsPrior ops mq'
    pub item : PriorItem A
    pub item_there : get_elem? mq'.heap (length mq.heap) ≡ some (some item)
    pub item_lpa : item.lpa ≡ lpa
    pub last_in_line :
        (j : ℕ) (p : PriorItem A)
        → get_elem? mq.heap j ≡ some (some p)
        → p.lpa ≡ lpa
        → p.tag < item.tag

  module _ (mq : PriorQueue A H) (ok : IsPrior ops mq) (qid lpa : ℕ) (req : A) (items : List ℕ)
      (at : get_elem? mq.qlh qid ≡ some items) (small : lpa < 2 ^ 32)
      (room : (e : LpaItem) → ops.hash_find mq.hash_lpa lpa ≡ some e → e.max_tag + 1 < 2 ^ 64) where
    fresh_tag : NewTag ops mq.hash_lpa lpa (get_new_priority_tag ops mq.hash_lpa lpa)
    fresh_tag =
        new_tag ops mq.hash_lpa lpa small (ops.hash_find mq.hash_lpa lpa) refl
          λ e at'. let (a, b, c) = ok.entries lpa e small at' in (a, b, room e at')

    new_item : PriorItem A
    new_item = record {
      ptr_req = req;
      lpa = lpa;
      tag = (get_new_priority_tag ops mq.hash_lpa lpa).1;
      lock = false;
    }

    tags_after :
        (l t : ℕ)
        → l < 2 ^ 32
        → count_p (is_item l t) mq.heap
            + tally (lpa == l && (get_new_priority_tag ops mq.hash_lpa lpa).1 == t)
          ≡ waiting (ops.hash_find (get_new_priority_tag ops mq.hash_lpa lpa).0 l) t
    tags_after l t lt =
        let n = fresh_tag in
        elim (ℕ_discrete l lpa) [
          | yes e ↦
              rw (e, n.found_now)
                (let before = ok.tags lpa t small in let one = n.one_more t in ground arith)
          | no ne ↦ rw (n.others_found l ne) (let before = ok.tags l t lt in ground arith)
        ]

    entries_after :
        (l : ℕ) (e : LpaItem)
        → l < 2 ^ 32
        → ops.hash_find (get_new_priority_tag ops mq.hash_lpa lpa).0 l ≡ some e
        → (e.lpa ≡ l) × (e.cur_tag ≤ e.max_tag) × (e.max_tag < 2 ^ 64)
    entries_after l e lt g =
        let n = fresh_tag in
        elim (ℕ_discrete l lpa) [
          | yes p ↦
              let here : ops.hash_find (get_new_priority_tag ops mq.hash_lpa lpa).0 lpa ≡ some e =
                subst (λ x. ops.hash_find (get_new_priority_tag ops mq.hash_lpa lpa).0 x ≡ some e) p
                  g in
              let one : n.entry ≡ e = some-inj (sym n.found_now ∙ here) in
              subst (λ (x : LpaItem). (x.lpa ≡ l) × (x.cur_tag ≤ x.max_tag) × (x.max_tag < 2 ^ 64))
                one
                (
                  n.entry_lpa ∙ sym p,
                  omega (arith, n.entry_cur, n.entry_max),
                  omega (arith, n.entry_small, n.entry_max),
                )
          | no ne ↦ ok.entries l e lt (sym (n.others_found l ne) ∙ g)
        ]

    grow :
        (ys : List ℕ)
        → IsLiveList ops mq.heap ys
        → IsLiveList ops (mq.heap ++ (some new_item ∷ [])) ys
    grow ys h =
        All-mono _
          (λ i. (q : PriorItem A) × (get_elem? (mq.heap ++ (some new_item ∷ [])) i ≡ some (some q)))
          ys (λ i p. (p.0, get_elem?-append_old mq.heap (some new_item) i p.1)) h

    add_item-IsPrior : IsPrior ops (add_item ops qid lpa req items mq)
    unfolding add_item new_item
    add_item-IsPrior = record {
      entries = entries_after;
      tags = λ l t lt. count_p-append (is_item l t) mq.heap (some new_item) ∙ tags_after l t lt;
      small_lpa = λ i q g. elim (get_elem?-append_cases mq.heap (some new_item) i g) [
        | inl old ↦ ok.small_lpa i q old
        | inr new ↦ subst (λ (x : PriorItem A). x.lpa < 2 ^ 32) (sym (some-inj new)) small
      ];
      lists = rw length-set ok.lists;
      live = λ k xs g. elim (get_elem?-set mq.qlh qid k _ g) [
        | inl (p, q) ↦ subst (IsLiveList ops (mq.heap ++ (some new_item ∷ []))) (sym q) (
            All-append _ items (length mq.heap) (grow items (ok.live qid items at))
              (new_item, get_elem?-append_new mq.heap (some new_item)))
        | inr (p, q) ↦ grow xs (ok.live k xs q)
      ];
    }

    add_item-Joined : Joined mq lpa (add_item ops qid lpa req items mq)
    unfolding add_item new_item
    add_item-Joined = record {
      still_prior = add_item-IsPrior;
      item = new_item;
      item_there = get_elem?-append_new mq.heap (some new_item);
      item_lpa = refl;
      last_in_line = λ j p g same.
          let (e, fe, lo, hi) = item_waits ops mq ok j p g in
          let here : ops.hash_find mq.hash_lpa lpa ≡ some e = rw (← same) fe in
          omega (arith, hi, fresh_tag.above e here);
    }

    -- h4h_prior_queue_enqueue on a state that satisfies the invariant, for a queue that exists, with room
    -- under the limit and a successful allocation, for a logical address below 2^32 whose tags do not
    -- run out of 64 bits: it returns 0, keeps the invariant, and gives the new item a tag larger than
    -- that of every item, in any queue, that waits for the same address.
    pub prior_enqueue-Joined :
        has_room mq.max_size mq.qic ≡ true
        → Returns
            (λ (r : PriorQueue A H × ℕ). (r.1 ≡ 0) × Joined mq lpa r.0)
            (prior_enqueue ops true qid lpa req mq)
    unfolding prior_enqueue
    prior_enqueue-Joined free_place =
        let inside : leb mq.nr_queues qid ≡ false =
          ground (arith, get_elem?-lt mq.qlh qid at, ok.lists) in
        rw (inside, free_place, at) (refl, add_item-Joined)

-- h4h_prior_queue_create: nothing waits.
pub prior_queue_create-IsPrior :
    {A : Type 0} {H : Type 0} (ops : LpaHash H) (n : ℕ) (m : Option ℕ)
    → IsPrior {A = A} ops (prior_queue_create ops n m)
unfolding prior_queue_create
prior_queue_create-IsPrior {A = A} ops n m = record {
  entries = λ l e lt at. absurd (none-ne-some (sym (ops.find-none l) ∙ at));
  tags = λ l t lt. rw (ops.find-none l) refl;
  small_lpa = λ i q at. absurd (none-ne-some at);
  lists = length-replicate n [];
  live = λ k xs at. subst (IsLiveList ops []) (get-replicate n [] xs k at) tt;
}
