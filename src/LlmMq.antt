-- ===== src/LlmMq.antt =====
-- ftl/llm_mq.c: the low-level memory manager, with a queue and a semaphore for each parallel
-- unit. A pointer to a request is its number, and a semaphore is the count that it holds in the kernel. The threads are steps: a round of the sending thread, a request that comes in,
-- a completion. A step that waits, as for room in the queue, is taken when the wait is over.
pub mod Serve
use h4h.Base.{
  ℕ, zero, suc, Bool, ◌&&◌, List, [], ◌∷◌, Option, none, some, get_elem?, set, replicate, ◌==◌, ◌*◌,
  if◌then◌else◌, ◌>>=◌,
}
use h4h.Params.{DeviceParams}
use h4h.PageFtl.{PhyAddr}
use h4h.Request.{reqtype_rmw_write, is_rmw, is_read, LlmReq}
use h4h.PriorQueue.{
  LpaHash, PriorQueue, prior_queue_create, prior_enqueue, prior_dequeue, prior_remove,
}

-- A request with its ptr_qitem
pub record QueuedReq : Type 0 where
  pub llm_req : LlmReq
  pub ptr_qitem : Option ℕ

-- struct h4h_llm_mq_private with the requests that it points to. A lock of a parallel unit is a counting
-- semaphore: 1 if the unit is idle, and 0 if it is busy.
pub record LlmMq (H : Type 0) : Type 0 where
  pub nr_punits : ℕ
  pub punit_locks : List ℕ
  pub q : PriorQueue ℕ H
  pub reqs : List QueuedReq

-- h4h_sema_unlock of the lock of parallel unit `u`
unfoldable pub sema_unlock : ℕ → List ℕ → Option (List ℕ)
sema_unlock u locks = get_elem? locks u >>= λ count. some (set locks u (suc count))

module _ {H : Type 0} (ops : LpaHash H) where
  -- llm_mq_create, where the allocations succeed; `reqs` are the requests that will be handed in.
  unfoldable pub mq_create : DeviceParams → List QueuedReq → LlmMq H
  unfolding prior_queue_create
  mq_create np reqs = record {
    nr_punits = np.nr_channels * np.nr_chips_per_channel;
    punit_locks = replicate (np.nr_channels * np.nr_chips_per_channel) 1;
    q = prior_queue_create ops (np.nr_channels * np.nr_chips_per_channel) none;
    reqs = reqs;
  }

  -- llm_mq_make_req of request `i`; the flags say whether the queue items can be allocated.
  unfoldable pub mq_make_req : Bool → Bool → ℕ → LlmMq H → Option (LlmMq H × ℕ)
  unfolding prior_enqueue
  mq_make_req allocated allocated' i p = do
    x ← get_elem? p.reqs i
    let r = x.llm_req
    lpa ← get_elem? r.logaddr.lpa 0
    if is_rmw r.req_type && is_read r.req_type
        then (prior_enqueue ops allocated r.phyaddr_src.punit_id lpa i p.q >>= λ a.
            prior_enqueue ops allocated' r.phyaddr_dst.punit_id lpa i a.0 >>= λ b. some (
              record p {
                q = b.0;
                reqs = set p.reqs i (record x { llm_req = record r { phyaddr = r.phyaddr_src } });
              },
              b.1,
            ))
        else (prior_enqueue ops allocated r.phyaddr.punit_id lpa i p.q >>= λ a.
            some (record p { q = a.0 }, a.1))

  -- llm_mq_end_req of request `i`; `end_req` is that of the high-level manager, whose state is `s`.
  unfoldable pub mq_end_req :
      {S : Type 0} → (LlmReq → S → S) → ℕ → LlmMq H → S → Option (LlmMq H × S)
  unfolding prior_remove sema_unlock
  mq_end_req end_req i p s = do
    x ← get_elem? p.reqs i
    qitem ← x.ptr_qitem
    let r = x.llm_req
    q ← prior_remove ops qitem p.q
    locks ← sema_unlock r.phyaddr.punit_id p.punit_locks
    if is_rmw r.req_type && is_read r.req_type
        then some (
          record p {
            punit_locks = locks;
            q = q;
            reqs = set p.reqs i (record x {
              llm_req = record r { req_type = reqtype_rmw_write; phyaddr = r.phyaddr_dst };
            });
          },
          s,
        )
        else some (record p { punit_locks = locks; q = q }, end_req r s)

  -- The request that a dequeue gives is sent; `dm_make_req` is that of the device, whose state is `d`. If
  -- the device refuses it, the lock of the unit is given back here, and once more by end_req.
  unfoldable pub send_req :
      {D S : Type 0}
      → (LlmReq → D → Option (D × ℕ))
      → (LlmReq → S → S)
      → ℕ
      → ℕ
      → ℕ
      → LlmMq H
      → D
      → S
      → Option (LlmMq H × D × S)
  unfolding mq_end_req sema_unlock
  send_req dm_make_req end_req loop qitem i p d s = do
    x ← get_elem? p.reqs i
    let sent = record p { reqs = set p.reqs i (record x { ptr_qitem = some qitem }) }
    a ← dm_make_req x.llm_req d
    if a.1 == 0
        then some (sent, a.0, s)
        else (sema_unlock loop p.punit_locks >>= λ locks.
            mq_end_req end_req i (record sent { punit_locks = locks }) s >>= λ b.
            some (b.0, a.0, b.1))

  -- One round of the loop of __llm_mq_thread, for parallel unit `loop`
  unfoldable pub serve_punit :
      {D S : Type 0}
      → (LlmReq → D → Option (D × ℕ))
      → (LlmReq → S → S)
      → ℕ
      → LlmMq H
      → D
      → S
      → Option (LlmMq H × D × S)
  unfolding prior_dequeue send_req sema_unlock
  serve_punit dm_make_req end_req loop p d s = get_elem? p.punit_locks loop >>= λ count.
      elim count [
        | zero ↦ some (p, d, s)
        | suc n ↦
            let locks = set p.punit_locks loop n in
            prior_dequeue ops loop p.q >>= λ a. elim a.1 [
              | none ↦ sema_unlock loop locks >>= λ locks'.
                  some (record p { q = a.0; punit_locks = locks' }, d, s)
              | some handed ↦
                  send_req dm_make_req end_req loop handed.0 handed.1
                    (record p { q = a.0; punit_locks = locks }) d s
            ]
      ]
