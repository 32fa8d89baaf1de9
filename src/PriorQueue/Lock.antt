-- ===== src/PriorQueue/Lock.antt =====
-- The lock of an item of ftl/queue/prior_queue.c plays no part in the order of the tags.
use native.Mathlib.Decide.{ℕ_discrete}
use h4h.Base.{
  ℕ, ◌<◌, ◌≡◌, inl, inr, sym, subst, ◌∙◌, ◌^◌, Bool, List, [], ◌∷◌, Option, some, arith, get_elem?,
  set, count_p, count_p-set, get_elem?-lt, get_elem?-set, get_elem?-set_ne, get_elem?-set_self,
  some-inj,
}
use h4h.PriorQueue.{LpaHash, PriorItem, PriorQueue}
use h4h.PriorQueue.Order.{is_item, waiting, IsLiveList, IsPrior}

module _ {A : Type 0} {H : Type 0} (ops : LpaHash H) (mq : PriorQueue A H) (ok : IsPrior ops mq)
    (i : ℕ) (q : PriorItem A) (at : get_elem? mq.heap i ≡ some (some q)) (b : Bool) where
  -- Item `i` with its lock set to `b`
  abbrev pub heap_after : List (Option (PriorItem A))
  heap_after = set mq.heap i (some (record q { lock = b }))

  pub lock_there : get_elem? heap_after i ≡ some (some (record q { lock = b }))
  lock_there = get_elem?-set_self mq.heap i _ (get_elem?-lt mq.heap i at)

  pub lock_live : (ys : List ℕ) → IsLiveList ops mq.heap ys → IsLiveList ops heap_after ys
  lock_live [] h = tt
  lock_live (j ∷ ys) h = (
    elim (ℕ_discrete i j) [
      | yes same ↦
          subst (λ k. (p : PriorItem A) × (get_elem? heap_after k ≡ some (some p))) same
            (record q { lock = b }, lock_there)
      | no ne ↦ (h.0.0, get_elem?-set_ne mq.heap i j _ ne ∙ h.0.1)
    ],
    lock_live ys h.1,
  )

  pub lock_small :
      (j : ℕ) (p : PriorItem A) → get_elem? heap_after j ≡ some (some p) → p.lpa < 2 ^ 32
  lock_small j p g = elim (get_elem?-set mq.heap i j _ g) [
    | inl (_, e) ↦
        subst (λ (x : PriorItem A). x.lpa < 2 ^ 32) (sym (some-inj e)) (ok.small_lpa i q at)
    | inr (_, e) ↦ ok.small_lpa j p e
  ]

  pub lock_tags :
      (l t : ℕ)
      → l < 2 ^ 32
      → count_p (is_item l t) heap_after ≡ waiting (ops.hash_find mq.hash_lpa l) t
  lock_tags l t lt =
      omega (
        arith,
        count_p-set (is_item l t) mq.heap i (some (record q { lock = b })) at,
        ok.tags l t lt,
      )

  pub lock-IsPrior : IsPrior ops (record mq { heap = heap_after })
  lock-IsPrior = record {
    entries = ok.entries;
    tags = lock_tags;
    small_lpa = lock_small;
    lists = ok.lists;
    live = λ k ys e. lock_live ys (ok.live k ys e);
  }
