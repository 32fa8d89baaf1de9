-- ===== src/PriorQueue/Remove.antt =====
-- h4h_prior_queue_remove of ftl/queue/prior_queue.c lets the next request to the address have its turn.
use native.Mathlib.Nat.{mod-eq_of_lt}
use native.Mathlib.Decide.{ℕ_discrete}
use h4h.Base.{
  ℕ, ◌+◌, ◌<◌, ◌≤◌, ◌≡◌, ◌≢◌, inl, inr, sym, ap, subst, ◌∙◌, ◌^◌, true, Bool-cases, none, some, map,
  erase, arith, get_elem?, set, count_p, count_p-set, get_elem?-lt, get_elem?-map, length-map,
  All-erase, tally, get_elem?-set, get_elem?-set_ne, get_elem?-set_self, Returns, Returns-bind,
  some-inj, none-ne-some, ◌==◌, ltb, inc64, dec64,
}
use h4h.PriorQueue.{
  LpaItem, LpaHash, PriorItem, PriorQueue, get_highest_priority_tag, advance_tag,
  remove_highest_priority_tag, prior_remove,
}
use h4h.PriorQueue.Order.{is_item, waiting, IsLiveList, IsPrior, item_waits, highest_eq}

-- What giving up the current tag of an address does to the table
pub record TagGone {H : Type 0} (ops : LpaHash H) (h : H) (lpa : ℕ) (e : LpaItem) (h' : H)
    : Type 0 where
  pub one_less :
      (t : ℕ) → waiting (ops.hash_find h' lpa) t + tally (e.cur_tag == t) ≡ waiting (some e) t
  pub entry_good :
      (f : LpaItem)
      → ops.hash_find h' lpa ≡ some f
      → (f.lpa ≡ lpa) × (f.cur_tag ≤ f.max_tag) × (f.max_tag < 2 ^ 64)
  pub others_found : (l : ℕ) → l ≢ lpa → ops.hash_find h' l ≡ ops.hash_find h l

module _ {H : Type 0} (ops : LpaHash H) (h : H) (lpa : ℕ) (small : lpa < 2 ^ 32) (e : LpaItem)
    (at : ops.hash_find h lpa ≡ some e) (el : e.lpa ≡ lpa) (ec : e.cur_tag ≤ e.max_tag)
    (em : e.max_tag < 2 ^ 64) where
  tag_gone : Returns (TagGone ops h lpa e) (remove_highest_priority_tag ops h lpa)
  unfolding remove_highest_priority_tag advance_tag
  tag_gone =
      let key = mod-eq_of_lt {n = lpa} {m = 2 ^ 32} (omega arith) in
      let own : (e.lpa == lpa) ≡ true = ground arith in
      elim (Bool-cases (e.max_tag == e.cur_tag)) [
        | inl last ↦
            rw (remove_highest_priority_tag, key, at, own, last, key)
              (let gone = ops.find-del_self h lpa in
                record {
                  one_less = λ t. rw gone (ground arith);
                  entry_good = λ f g. absurd (none-ne-some (sym gone ∙ g));
                  others_found = λ l ne. ops.find-del_ne h lpa l (λ p. ne (sym p));
                })
        | inr more ↦
            let lt : ltb e.cur_tag e.max_tag ≡ true = ground arith in
            let exact = mod-eq_of_lt {n = e.cur_tag + 1} {m = 2 ^ 64} (ground arith) in
            rw (remove_highest_priority_tag, key, at, own, more, lt, key)
              (let now = ops.find-write_self h lpa (record e { cur_tag = inc64 e.cur_tag }) in
                record {
                  one_less = λ t. rw (now, exact) (ground arith);
                  entry_good = λ f g.
                      subst
                        (λ (x : LpaItem).
                          (x.lpa ≡ lpa) × (x.cur_tag ≤ x.max_tag) × (x.max_tag < 2 ^ 64))
                        (some-inj (sym now ∙ g)) (el, rw exact (ground arith), em);
                  others_found = λ l ne. ops.find-write_ne h lpa l _ (λ p. ne (sym p));
                })
      ]

module _ {A : Type 0} {H : Type 0} (ops : LpaHash H) where
  -- The state after the item `i`, which is `q`, has left
  pub record HasLeft (mq : PriorQueue A H) (i : ℕ) (q : PriorItem A) (mq' : PriorQueue A H)
      : Type 0 where
    pub still_prior : IsPrior ops mq'
    pub freed : get_elem? mq'.heap i ≡ some none
    pub others_stay : (j : ℕ) → i ≢ j → get_elem? mq'.heap j ≡ get_elem? mq.heap j

  module _ (mq : PriorQueue A H) (ok : IsPrior ops mq) (i : ℕ) (q : PriorItem A)
      (at : get_elem? mq.heap i ≡ some (some q))
      (turn : get_highest_priority_tag ops mq.hash_lpa q.lpa ≡ q.tag) where
    module _ (e : LpaItem) (fe : ops.hash_find mq.hash_lpa q.lpa ≡ some e) (h' : H)
        (gone : TagGone ops mq.hash_lpa q.lpa e h') where
      tags_left :
          (l t : ℕ)
          → l < 2 ^ 32
          → count_p (is_item l t) (set mq.heap i none) ≡ waiting (ops.hash_find h' l) t
      tags_left l t lt =
          let moved = count_p-set (is_item l t) mq.heap i none at in
          let high = highest_eq ops mq.hash_lpa q.lpa e (ok.small_lpa i q at) fe in
          elim (ℕ_discrete l q.lpa) [
            | yes p ↦
                let less = gone.one_less t in
                let before : count_p (is_item l t) mq.heap ≡ waiting (some e) t =
                  ok.tags l t lt ∙ rw p (ap (λ x. waiting x t) fe) in
                subst
                  (λ x. count_p (is_item l t) (set mq.heap i none) ≡ waiting (ops.hash_find h' x) t)
                  (sym p) (ground arith)
            | no ne ↦ rw (gone.others_found l ne) (let before = ok.tags l t lt in ground arith)
          ]

      left : HasLeft mq i q (record mq {
        hash_lpa = h';
        qlh = map (erase i) mq.qlh;
        heap = set mq.heap i none;
        qic = dec64 mq.qic;
      })
      left = record {
        still_prior = record {
          entries = λ l f lt g. elim (ℕ_discrete l q.lpa) [
            | yes p ↦
                let here = subst (λ x. ops.hash_find h' x ≡ some f) p g in
                let (a, b, c) = gone.entry_good f here in (a ∙ sym p, b, c)
            | no ne ↦ ok.entries l f lt (sym (gone.others_found l ne) ∙ g)
          ];
          tags = tags_left;
          small_lpa = λ j p g. elim (get_elem?-set mq.heap i j none g) [
            | inl (a, b) ↦ absurd (none-ne-some (sym b))
            | inr (a, b) ↦ ok.small_lpa j p b
          ];
          lists = length-map (erase i) mq.qlh ∙ ok.lists;
          live = λ k xs g.
              let (ys, old, eq) = get_elem?-map (erase i) mq.qlh k g in
              subst (IsLiveList ops (set mq.heap i none)) (sym eq) (
                All-erase _
                  (λ j. (p : PriorItem A) × (get_elem? (set mq.heap i none) j ≡ some (some p))) i ys
                  (λ j ne h. (h.0, get_elem?-set_ne mq.heap i j none ne ∙ h.1)) (ok.live k ys old));
        };
        freed = get_elem?-set_self mq.heap i none (get_elem?-lt mq.heap i at);
        others_stay = λ j ne. get_elem?-set_ne mq.heap i j none ne;
      }

    -- Removing an item whose tag is the current one of its logical address, as h4h_prior_queue_dequeue
    -- hands it out, on a state that satisfies the invariant: the call runs through without a bug check,
    -- keeps the invariant, frees that item and leaves every other one.
    pub prior_remove-HasLeft : Returns (HasLeft mq i q) (prior_remove ops i mq)
    unfolding prior_remove
    prior_remove-HasLeft =
        let lt = ok.small_lpa i q at in
        let (e, fe, lo, hi) = item_waits ops mq ok i q at in
        let (el, ec, em) = ok.entries q.lpa e lt fe in
        rw at (
          Returns-bind _ (HasLeft mq i q) (remove_highest_priority_tag ops mq.hash_lpa q.lpa) _
            (tag_gone ops mq.hash_lpa q.lpa lt e fe el ec em) λ h' eq gone. left e fe h' gone)
