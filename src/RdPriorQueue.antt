-- ===== src/RdPriorQueue.antt =====
-- ftl/queue/rd_prior_queue.h and ftl/queue/rd_prior_queue.c: the queues of prior_queue.c with reads
-- served before writes. All but the dequeue is the code of prior_queue.c over again; the type of a
-- request stands beside its pointer here.
pub mod Served
use h4h.Base.{
  ℕ, Bool, true, false, ◌&&◌, not, List, [], ◌∷◌, Option, none, some, ◌==◌, ltb, if◌then◌else◌,
  ◌>>=◌, get_elem?, set,
}
use h4h.PageFtl.{deref}
use h4h.PriorQueue.{
  LpaHash, PriorItem, PriorQueue, get_highest_priority_tag, prior_queue_create, prior_enqueue,
  prior_is_empty, prior_remove, prior_move, prior_is_full, prior_is_all_empty, prior_get_nr_items,
}

-- rd_prior_iotype_t
pub data RdPriorIotype : Type 0 where
  rd_priority_read : RdPriorIotype
  rd_priority_write : RdPriorIotype

-- h4h_rd_prior_queue_item_t
abbrev pub RdPriorItem : Type 0 → Type 0
RdPriorItem A = PriorItem (A × RdPriorIotype)

-- h4h_rd_prior_queue_t
abbrev pub RdPriorQueue : Type 0 → Type 0 → Type 0
RdPriorQueue A H = PriorQueue (A × RdPriorIotype) H

abbrev pub is_priority_read : RdPriorIotype → Bool
is_priority_read rd_priority_read = true
is_priority_read rd_priority_write = false

module _ {A : Type 0} where
  -- The write that is served if no read is found: the first one
  abbrev pub candidate :
      Bool → ℕ → RdPriorItem A → Option (ℕ × RdPriorItem A) → Option (ℕ × RdPriorItem A)
  candidate false i q_tmp q = q
  candidate true i q_tmp (some q) = some q
  candidate true i q_tmp none = some (i, q_tmp)

module _ {H : Type 0} (ops : LpaHash H) {A : Type 0} where
  -- h4h_rd_prior_queue_create, where the allocations succeed
  unfoldable pub rd_prior_queue_create : ℕ → Option ℕ → RdPriorQueue A H
  unfolding prior_queue_create
  rd_prior_queue_create nr_queues max_size = prior_queue_create ops nr_queues max_size

  -- h4h_rd_prior_queue_enqueue
  unfoldable pub rd_prior_enqueue :
      Bool → ℕ → ℕ → A → RdPriorIotype → RdPriorQueue A H → Option (RdPriorQueue A H × ℕ)
  unfolding prior_enqueue
  rd_prior_enqueue allocated qid lpa req type mq =
      prior_enqueue ops allocated qid lpa (req, type) mq

  -- An unlocked item whose turn has come for its address
  abbrev pub is_ready : H → RdPriorItem A → Bool
  is_ready h q = not q.lock && get_highest_priority_tag ops h q.lpa == q.tag

  -- The loop of the dequeue on the rest of a list, with the item chosen so far
  unfoldable pub rd_scan :
      H
      → List (Option (RdPriorItem A))
      → List ℕ
      → Option (ℕ × RdPriorItem A)
      → Option (Option (ℕ × RdPriorItem A))
  rd_scan h heap [] q = some q
  rd_scan h heap (i ∷ rest) q = deref (get_elem? heap i) >>= λ q_tmp.
      elim (is_ready h q_tmp && is_priority_read q_tmp.ptr_req.1) [
        | true ↦ some (some (i, q_tmp))
        | false ↦ rd_scan h heap rest (candidate (is_ready h q_tmp) i q_tmp q)
      ]

  -- The chosen item is locked and handed out.
  unfoldable pub serve :
      RdPriorQueue A H → Option (ℕ × RdPriorItem A) → RdPriorQueue A H × Option (ℕ × A)
  serve mq none = (mq, none)
  serve mq (some (i, q)) =
      (record mq { heap = set mq.heap i (some (record q { lock = true })) }, some (i, q.ptr_req.0))

  -- h4h_rd_prior_queue_dequeue: the item, which goes to `oq`, and the request
  unfoldable pub rd_prior_dequeue :
      ℕ → RdPriorQueue A H → Option (RdPriorQueue A H × Option (ℕ × A))
  unfolding rd_scan serve get_highest_priority_tag
  rd_prior_dequeue qid mq =
      if ltb 0 mq.qic
      then (get_elem? mq.qlh qid >>= λ items.
          rd_scan mq.hash_lpa mq.heap items none >>= λ q. some (serve mq q))
      else some (mq, none)

  -- The other operations, which are those of prior_queue.c
  unfoldable pub rd_prior_is_empty : ℕ → RdPriorQueue A H → Option Bool
  unfolding prior_is_empty
  rd_prior_is_empty qid mq = prior_is_empty ops qid mq

  unfoldable pub rd_prior_remove : ℕ → RdPriorQueue A H → Option (RdPriorQueue A H)
  unfolding prior_remove
  rd_prior_remove i mq = prior_remove ops i mq

  unfoldable pub rd_prior_move : ℕ → ℕ → RdPriorQueue A H → Option (RdPriorQueue A H)
  unfolding prior_move
  rd_prior_move qid i mq = prior_move ops qid i mq

  unfoldable pub rd_prior_is_full : RdPriorQueue A H → Option Bool
  unfolding prior_is_full
  rd_prior_is_full mq = prior_is_full ops mq

  unfoldable pub rd_prior_is_all_empty : RdPriorQueue A H → Bool
  unfolding prior_is_all_empty
  rd_prior_is_all_empty mq = prior_is_all_empty ops mq

  unfoldable pub rd_prior_get_nr_items : RdPriorQueue A H → ℕ
  unfolding prior_get_nr_items
  rd_prior_get_nr_items mq = prior_get_nr_items ops mq
