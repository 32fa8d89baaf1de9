-- ===== src/PriorQueue/Order.antt =====
-- The tags of ftl/queue/prior_queue.c: the requests to one address are served in their order.
use native.Mathlib.Nat.{mod-eq_of_lt}
use h4h.Base.{
  ℕ, ◌<◌, ◌≤◌, ◌≡◌, inl, inr, refl, sym, ap, subst, ◌∙◌, ◌^◌, Bool, true, false, not, ◌&&◌,
  Bool-cases, Option-cases, List, [], ◌∷◌, Option, none, some, arith, get_elem?, set, length,
  count_p, count_p_pos, get_elem?_of_lt, All, Every, tally, Returns, some-inj, ◌==◌, ltb, leb,
  ◌>>=◌,
}
use h4h.PageFtl.{deref}
use h4h.PriorQueue.{
  LpaItem, LpaHash, PriorItem, PriorQueue, get_highest_priority_tag, hand_out, prior_dequeue,
}

abbrev pub is_item : {A : Type 0} → ℕ → ℕ → Option (PriorItem A) → Bool
is_item l t none = false
is_item l t (some q) = q.lpa == l && q.tag == t

-- How many items with tag `t` an entry of the hash table stands for
abbrev pub waiting : Option LpaItem → ℕ → ℕ
waiting none t = 0
waiting (some e) t = tally (leb e.cur_tag t && leb t e.max_tag)

module _ {H : Type 0} (ops : LpaHash H) where
  pub highest_eq :
      (h : H) (l : ℕ) (e : LpaItem)
      → l < 2 ^ 32
      → ops.hash_find h l ≡ some e
      → get_highest_priority_tag ops h l ≡ e.cur_tag
  unfolding get_highest_priority_tag
  highest_eq h l e lt at =
      let key = mod-eq_of_lt {n = l} {m = 2 ^ 32} (omega arith) in
      rw (get_highest_priority_tag, key, at) refl

module _ {A : Type 0} {H : Type 0} (ops : LpaHash H) where
  open ops use {hash_find}

  -- The pointers of a list are to items that are not freed.
  abbrev pub IsLiveList : List (Option (PriorItem A)) → List ℕ → Type 0
  IsLiveList heap items = All (λ i. (q : PriorItem A) × (get_elem? heap i ≡ some (some q))) items

  -- Each entry of the table stands for one item with each tag from the current one to the largest.
  pub record IsPrior (mq : PriorQueue A H) : Type 0 where
    pub entries :
        (l : ℕ) (e : LpaItem)
        → l < 2 ^ 32
        → hash_find mq.hash_lpa l ≡ some e
        → (e.lpa ≡ l) × (e.cur_tag ≤ e.max_tag) × (e.max_tag < 2 ^ 64)
    pub tags :
        (l t : ℕ) → l < 2 ^ 32 → count_p (is_item l t) mq.heap ≡ waiting (hash_find mq.hash_lpa l) t
    pub small_lpa : (i : ℕ) (q : PriorItem A) → get_elem? mq.heap i ≡ some (some q) → q.lpa < 2 ^ 32
    pub lists : length mq.qlh ≡ mq.nr_queues
    pub live : Every (λ k items. IsLiveList mq.heap items) mq.qlh

  module _ (mq : PriorQueue A H) (ok : IsPrior mq) where
    -- An item that waits has a tag between the two tags of its address.
    pub item_waits :
        (i : ℕ) (q : PriorItem A)
        → get_elem? mq.heap i ≡ some (some q)
        → (e : LpaItem) × (hash_find mq.hash_lpa q.lpa ≡ some e)
          × (e.cur_tag ≤ q.tag)
          × (q.tag ≤ e.max_tag)
    item_waits i q at =
        let lt = ok.small_lpa i q at in
        let here : is_item q.lpa q.tag (some q) ≡ true = ground arith in
        let pos = count_p_pos (is_item q.lpa q.tag) mq.heap i at here in
        elim (Option-cases (hash_find mq.hash_lpa q.lpa)) [
          | inl gone ↦ absurd (ground (arith, pos, ok.tags q.lpa q.tag lt, gone))
          | inr (e, yes_e) ↦
              let w : 0 < waiting (some e) q.tag =
                subst (λ (x : Option LpaItem). 0 < waiting x q.tag) yes_e
                  (omega (arith, pos, ok.tags q.lpa q.tag lt)) in
              (e, yes_e, ground arith, ground arith)
        ]

  -- What an item handed out is, among the items that wait
  pub data HandedOut (mq : PriorQueue A H) (r : PriorQueue A H × Option (ℕ × A)) : Type 0 where
    nothing : r ≡ (mq, none) → HandedOut mq r
    oldest :
        (i : ℕ) (q : PriorItem A)
        → get_elem? mq.heap i ≡ some (some q)
        → q.lock ≡ false
        → r ≡ (
          record mq { heap = set mq.heap i (some (record q { lock = true })) },
          some (i, q.ptr_req),
        )
        → ((j : ℕ) (p : PriorItem A)
            → get_elem? mq.heap j ≡ some (some p)
            → p.lpa ≡ q.lpa
            → q.tag ≤ p.tag)
        → HandedOut mq r

  module _ (mq : PriorQueue A H) (ok : IsPrior mq) where
    -- An item whose tag is the current one has the smallest tag of its address.
    pub current-oldest :
        (i : ℕ) (q : PriorItem A)
        → get_elem? mq.heap i ≡ some (some q)
        → get_highest_priority_tag ops mq.hash_lpa q.lpa ≡ q.tag
        → (j : ℕ) (p : PriorItem A) → get_elem? mq.heap j ≡ some (some p)
        → p.lpa ≡ q.lpa
        → q.tag ≤ p.tag
    current-oldest i q at mine j p at' same =
        let (e, fe, lo, hi) = item_waits mq ok i q at in
        let (e', fe', lo', hi') = item_waits mq ok j p at' in
        let one : e ≡ e' = some-inj (sym fe ∙ rw (← same) fe') in
        let high = highest_eq ops mq.hash_lpa q.lpa e (ok.small_lpa i q at) fe in
        let cur = ap (λ (x : LpaItem). x.cur_tag) one in omega arith

    hand_out-HandedOut :
        (i : ℕ) (q : PriorItem A)
        → get_elem? mq.heap i ≡ some (some q)
        → HandedOut mq (hand_out ops i q mq)
    unfolding hand_out
    hand_out-HandedOut i q at =
        elim (Bool-cases (not q.lock && get_highest_priority_tag ops mq.hash_lpa q.lpa == q.tag)) [
          | inr held ↦ rw held (nothing refl)
          | inl turn ↦
              rw turn (oldest i q at (ground arith) refl (current-oldest i q at (ground arith)))
        ]

    -- h4h_prior_queue_dequeue on a state that satisfies the invariant and a queue that exists: it runs
    -- through; if it hands out a request, the item was unlocked and is locked now, nothing else has
    -- changed, and no item that waits for the same logical address, in any queue, has a smaller tag.
    pub prior_dequeue-HandedOut :
        (qid : ℕ) → qid < mq.nr_queues → Returns (HandedOut mq) (prior_dequeue ops qid mq)
    unfolding prior_dequeue
    prior_dequeue-HandedOut qid lt =
        let (items, at) = get_elem?_of_lt mq.qlh qid (omega (arith, ok.lists)) in
        let live = ok.live qid items at in
        elim (Bool-cases (ltb 0 mq.qic)) [
          | inr idle ↦ rw idle (nothing refl)
          | inl busy ↦ rw (busy, at) (go items live)
        ]
      where
        go :
            (items : List ℕ)
            → IsLiveList mq.heap items
            → Returns (HandedOut mq) (elim items [
              | [] ↦ some (mq, none)
              | i ∷ rest ↦ deref (get_elem? mq.heap i) >>= λ q. some (hand_out ops i q mq)
            ])
        go [] h = nothing refl
        go (i ∷ rest) h = rw (h.0.1) (hand_out-HandedOut i h.0.0 h.0.1)
