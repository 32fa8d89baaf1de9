-- ===== src/ReqsPool/Compact.antt =====
-- hlm_reqs_pool_write_compaction of ftl/hlm_reqs_pool.c: the kernel pages that the garbage collection
-- has read are packed into as few pages to write. Counters of array entries are not wrapped.
pub mod Slots
pub mod Copy
pub mod Pack
use h4h.Base.{
  ℕ, zero, suc, ◌*◌, List, [], ◌∷◌, Option, none, some, get_elem?, set, ◌==◌, if◌then◌else◌, ◌>>=◌,
}
use h4h.Params.{DeviceParams}
use h4h.Request.{
  ReqType, KernelPage, kp_stt_data, kp_stt_hole, kp_stt_done, kp_stt_hole_done, kp_stt_data_done,
  LlmReq,
}
use h4h.ReqsPool.Pages.{reset_fmain, alloc_fmain_pad, store}

-- h4h_hlm_req_gc_t, without its semaphore
pub record HlmReqGc : Type 0 where
  pub req_type : ReqType
  pub nr_llm_reqs : ℕ
  pub nr_llm_reqs_done : ℕ
  pub llm_reqs : List LlmReq

-- A loop that changes the kernel pages of `n` requests, the first of which is number `i`
unfoldable pub each_fmain :
    (ℕ → List KernelPage → List KernelPage) → ℕ → ℕ → List LlmReq → Option (List LlmReq)
each_fmain f zero i lrs = some lrs
each_fmain f (suc n) i [] = none
each_fmain f (suc n) i (lr ∷ lrs) =
    each_fmain f n (suc i) lrs >>= λ rest. some (record lr { fmain = f i lr.fmain } ∷ rest)

-- The loop variables: dst_r is the request with number `dst_loop`.
pub record Target : Type 0 where
  pub reqs : List LlmReq
  pub dst_loop : ℕ
  pub dst_kp : ℕ
  pub nr_llm_reqs : ℕ

-- The target after kernel page `src_kp` of `src_r` is copied to it
unfoldable pub copy_data : LlmReq → ℕ → KernelPage → Target → Option Target
copy_data src_r src_kp kp c = do
  dst_r ← get_elem? c.reqs c.dst_loop
  old ← get_elem? dst_r.fmain c.dst_kp
  lpa ← get_elem? src_r.logaddr.lpa src_kp
  lpas ← store dst_r.logaddr.lpa c.dst_kp lpa
  oob ← get_elem? src_r.foob src_kp
  oobs ← store dst_r.foob c.dst_kp oob
  some (record c {
    reqs = set c.reqs c.dst_loop (record dst_r {
      fmain = set dst_r.fmain c.dst_kp (record old { kp_stt = kp.kp_stt; kp_ptr = kp.kp_ptr });
      logaddr = record dst_r.logaddr { lpa = lpas };
      foob = oobs;
    });
  })

-- The next kernel page of the target, in the next request if this one is full
abbrev pub advance : ℕ → Target → Target
advance subpages c =
    if suc c.dst_kp == subpages
    then record c { dst_kp = 0; dst_loop = suc c.dst_loop; nr_llm_reqs = suc c.nr_llm_reqs }
    else record c { dst_kp = suc c.dst_kp }

-- One round of the inner loop
unfoldable pub copy_kp : ℕ → LlmReq → ℕ → Target → Option Target
unfolding copy_data
copy_kp subpages src_r src_kp c = get_elem? src_r.fmain src_kp >>= λ kp. elim kp.kp_stt [
  | kp_stt_data ↦ copy_data src_r src_kp kp c >>= λ d. some (advance subpages d)
  | _ ↦ some c
]

-- The inner loop, with `n` rounds to go
unfoldable pub copy_kps : ℕ → LlmReq → ℕ → ℕ → Target → Option Target
unfolding copy_kp
copy_kps subpages src_r zero src_kp c = some c
copy_kps subpages src_r (suc n) src_kp c =
    copy_kp subpages src_r src_kp c >>= copy_kps subpages src_r n (suc src_kp)

-- The outer loop, with `n` rounds to go
unfoldable pub copy_reqs : ℕ → ℕ → List LlmReq → Target → Option Target
unfolding copy_kps
copy_reqs subpages zero src c = some c
copy_reqs subpages (suc n) [] c = none
copy_reqs subpages (suc n) (src_r ∷ src) c =
    copy_kps subpages src_r subpages 0 c >>= copy_reqs subpages n src

abbrev pub gc_size : DeviceParams → ℕ
gc_size np = np.nr_chips_per_channel * np.nr_channels * np.nr_pages_per_block

-- hlm_reqs_pool_write_compaction; `h4h_malloc i f` is the address of the memory allocated for entry f
-- of request i.
unfoldable pub write_compaction : (ℕ → ℕ → ℕ) → DeviceParams → HlmReqGc → HlmReqGc → Option HlmReqGc
unfolding each_fmain copy_reqs reset_fmain alloc_fmain_pad
write_compaction h4h_malloc np dst src = do
  blank ← each_fmain (λ _. reset_fmain) (gc_size np) 0 dst.llm_reqs
  c ←
      copy_reqs np.nr_subpages_per_page (gc_size np) src.llm_reqs
        (record { reqs = blank; dst_loop = 0; dst_kp = 0; nr_llm_reqs = 1 })
  reqs ← each_fmain (λ i. alloc_fmain_pad (h4h_malloc i) 0) (gc_size np) 0 c.reqs
  some (record dst { nr_llm_reqs = c.nr_llm_reqs; llm_reqs = reqs })
