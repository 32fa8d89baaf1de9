-- ===== src/HlmNobuf.antt =====
-- ftl/hlm_nobuf.c: the high-level memory manager without a buffer. It asks the FTL where the low-level
-- requests of a request go, hands them to the low-level memory manager, and tells the host when all of
-- them are done. `F`, `M` and `S` are the states of the FTL, the low-level manager and the host.
pub mod Trim
pub mod Done
pub mod Collect
pub mod Lookup
pub mod Send
pub mod Reads
pub mod Writes
use h4h.Base.{
  ℕ, zero, suc, ◌^◌, Bool, true, false, ◌&&◌, not, List, [], ◌∷◌, Option, none, some, get_elem?,
  set, ◌==◌, if◌then◌else◌, ◌>>=◌, ◌>>◌, bug_on, add64, inc64,
}
use h4h.Params.{DeviceParams}
use h4h.PageFtl.{PhyAddr}
use h4h.Request.{
  ReqType, reqtype_write, reqtype_read_dummy, is_normal, is_rmw, is_gc, is_read, is_write, is_trim,
  LlmReq, HlmReq, trim_lpa, trim_len,
}
use h4h.ReqsPool.Build.{is_plain_write}
use h4h.ReqsPool.Pages.{store, relocate_kp}
use h4h.ReqsPool.Compact.{HlmReqGc}
use h4h.FtlInf.{FtlInf, LlmInf}

-- enum H4H_MAPPING_POLICY of include/params.h
pub data MappingPolicy : Type 0 where
  mapping_policy_not_specified : MappingPolicy
  mapping_policy_no_ftl : MappingPolicy
  mapping_policy_block : MappingPolicy
  mapping_policy_rsd : MappingPolicy
  mapping_policy_page : MappingPolicy
  mapping_policy_dftl : MappingPolicy

-- The address that a lookup leaves in its argument
abbrev pub looked_up : Option (PhyAddr × ℕ) → PhyAddr → PhyAddr
looked_up none old = old
looked_up (some (ppa, sp_ofs)) old = ppa

-- The kernel page goes to the subpage that a lookup found.
abbrev pub relocate_found : Option (PhyAddr × ℕ) → LlmReq → Option LlmReq
relocate_found none lr = none
relocate_found (some (ppa, sp_ofs)) lr = relocate_kp sp_ofs lr

-- The loop that fills the spare area with the logical addresses, with `n` rounds to go
unfoldable pub setup_oob : ℕ → ℕ → List ℕ → List ℕ → Option (List ℕ)
setup_oob zero j lpas foob = some foob
setup_oob (suc n) j lpas foob = do
  lpa ← get_elem? lpas j
  foob' ← store foob j lpa
  setup_oob n (suc j) lpas foob'

module _ {F : Type 0} (ftl : FtlInf F) where
  -- The loop of __hlm_nobuf_make_trim_req from address `lpa` on, with `n` rounds to go
  unfoldable pub trim_loop : ℕ → ℕ → F → Option F
  trim_loop zero lpa f = some f
  trim_loop (suc n) lpa f = ftl.invalidate_lpa lpa 1 f >>= λ r. trim_loop n (inc64 lpa) r.0

  -- __hlm_nobuf_make_trim_req
  unfoldable pub make_trim_req : HlmReq → F → Option (F × ℕ)
  unfolding trim_loop
  make_trim_req hr f = trim_loop (trim_len hr) (trim_lpa hr) f >>= λ g. some (g, 0)

  -- A normal read; the result of the lookup is `r`.
  abbrev pub locate_read : Option (PhyAddr × ℕ) × ℕ → LlmReq → Option LlmReq
  locate_read r lr =
      let lr' = record lr { phyaddr = looked_up r.0 lr.phyaddr } in
      if r.1 == 0
      then relocate_found r.0 lr'
      else some (record lr' { req_type = reqtype_read_dummy })

  -- The page to which a read-modify-write goes: `put` keeps its address in the request.
  unfoldable pub allocate_page :
      (PhyAddr → LlmReq → LlmReq) → ℕ → LlmReq → F → Option (F × LlmReq × ℕ)
  allocate_page put lpa lr f = do
    (g, ppa, ret) ← ftl.get_free_ppa lpa f
    if ret == 0
        then (ftl.map_lpa_to_ppa lr.logaddr.lpa ppa g >>= λ r.
            some (r.0, put ppa lr, if r.1 == 0 then 0 else 1))
        else some (g, put ppa lr, 1)

  -- A read-modify-write; the result of the lookup is `r`.
  unfoldable pub locate_rmw : Option (PhyAddr × ℕ) × ℕ → ℕ → LlmReq → F → Option (F × LlmReq × ℕ)
  unfolding allocate_page
  locate_rmw r lpa lr f =
      let lr' = record lr { phyaddr_src = looked_up r.0 lr.phyaddr_src } in
      if r.1 == 0
      then (relocate_found r.0 lr' >>= λ l.
          allocate_page (λ ppa x. record x { phyaddr_dst = ppa }) lpa l f)
      else allocate_page (λ ppa x. record x { phyaddr = ppa }) lpa
          (record lr' { req_type = reqtype_write }) f

  -- Step (1) of the loop of __hlm_nobuf_make_rw_req: the state of the FTL, the request, and 1 for a jump
  -- to `fail`
  unfoldable pub locate : LlmReq → F → Option (F × LlmReq × ℕ)
  unfolding locate_rmw
  locate lr f = do
    bug_on (not (is_normal lr.req_type) && not (is_rmw lr.req_type))
    bug_on (is_normal lr.req_type && not (is_read lr.req_type) && not (is_write lr.req_type))
    lpa ← get_elem? lr.logaddr.lpa 0
    r ← ftl.get_ppa lpa f
    if is_rmw lr.req_type
        then locate_rmw r lpa lr f
        else (if is_read lr.req_type
            then (locate_read r lr >>= λ l. some (f, l, 0))
            else some
                (f, record lr { phyaddr = looked_up r.0 lr.phyaddr }, if r.1 == 0 then 0 else 1))

  -- One round of that loop
  unfoldable pub map_llm_req : DeviceParams → LlmReq → F → Option (F × LlmReq × ℕ)
  unfolding locate setup_oob
  map_llm_req np lr f = do
    (g, l, ret) ← locate lr f
    if ret == 0
        then (setup_oob np.nr_subpages_per_page 0 l.logaddr.lpa l.foob >>= λ foob.
            some (g, record l { foob = foob }, 0))
        else some (g, l, ret)

  -- That loop, with `n` rounds to go
  unfoldable pub map_llm_reqs : DeviceParams → ℕ → List LlmReq → F → Option (F × List LlmReq × ℕ)
  unfolding map_llm_req
  map_llm_reqs np zero lrs f = some (f, lrs, 0)
  map_llm_reqs np (suc n) [] f = none
  map_llm_reqs np (suc n) (lr ∷ lrs) f = do
    (g, l, ret) ← map_llm_req np lr f
    elim (ret == 0) [
      | true ↦ map_llm_reqs np n lrs g >>= λ r. some (r.0, l ∷ r.1, r.2)
      | false ↦ some (g, l ∷ lrs, 1)
    ]

module _ {M : Type 0} (llm : LlmInf M) where
  -- The loop that sends one request at a time, with `n` rounds to go
  unfoldable pub send_each : ℕ → List LlmReq → M → Option M
  send_each zero lrs m = some m
  send_each (suc n) [] m = none
  send_each (suc n) (lr ∷ lrs) m = do
    (m', ret) ← llm.make_req lr m
    bug_on (not (ret == 0))
    send_each n lrs m'

  -- Step (3) of __hlm_nobuf_make_rw_req. Its last check, on the loop counter, cannot fail here.
  unfoldable pub send_reqs : HlmReq → M → Option M
  unfolding send_each
  send_reqs hr m = elim llm.make_reqs [
    | none ↦ send_each hr.nr_llm_reqs hr.llm_reqs m
    | some make_reqs ↦ make_reqs hr m >>= λ r. bug_on (not (r.1 == 0)) >> some r.0
  ]

module _ {F : Type 0} (ftl : FtlInf F) {M : Type 0} (llm : LlmInf M) where
  -- __hlm_nobuf_make_rw_req
  unfoldable pub make_rw_req : DeviceParams → HlmReq → F → M → Option (F × M × HlmReq × ℕ)
  unfolding map_llm_reqs send_reqs
  make_rw_req np hr f m = do
    (g, lrs, ret) ← map_llm_reqs ftl np hr.nr_llm_reqs hr.llm_reqs f
    let hr' = record hr { llm_reqs = lrs }
    if ret == 0 then (send_reqs llm hr' m >>= λ m'. some (g, m', hr', 0)) else some (g, m, hr', 1)

module _ {F : Type 0} (ftl : FtlInf F) where
  -- The loop for the page-level FTL, with `n` rounds to go
  unfoldable pub page_gc_loop : (ℕ → F → Bool) → ℕ → F → Option F
  page_gc_loop is_gc_needed zero f = some f
  page_gc_loop is_gc_needed (suc n) f = elim (is_gc_needed 0 f) [
    | true ↦ ftl.do_gc 0 f >>= λ r. page_gc_loop is_gc_needed n r.0
    | false ↦ some f
  ]

  -- The loop for the block-level FTL, with `n` rounds to go
  unfoldable pub block_gc_loop : (ℕ → F → Bool) → ℕ → List LlmReq → F → Option F
  block_gc_loop is_gc_needed zero lrs f = some f
  block_gc_loop is_gc_needed (suc n) [] f = none
  block_gc_loop is_gc_needed (suc n) (lr ∷ lrs) f = do
    lpa ← get_elem? lr.logaddr.lpa 0
    g ← (if is_gc_needed lpa f then (ftl.do_gc lpa f >>= λ r. some r.0) else some f)
    block_gc_loop is_gc_needed n lrs g

  -- __hlm_nobuf_check_ondemand_gc
  unfoldable pub check_ondemand_gc : MappingPolicy → HlmReq → F → Option F
  unfolding page_gc_loop block_gc_loop
  check_ondemand_gc mapping_type hr f =
      if is_plain_write hr.req_type
      then elim ftl.is_gc_needed [
        | none ↦ some f
        | some is_gc_needed ↦ elim mapping_type [
          | mapping_policy_page ↦ page_gc_loop is_gc_needed 10 f
          | mapping_policy_rsd ↦ block_gc_loop is_gc_needed hr.nr_llm_reqs hr.llm_reqs f
          | mapping_policy_block ↦ block_gc_loop is_gc_needed hr.nr_llm_reqs hr.llm_reqs f
          | _ ↦ some f
        ]
      ]
      else some f

-- `end_req` is that of the host interface.
module _ {F : Type 0} (ftl : FtlInf F) {M : Type 0} (llm : LlmInf M) {S : Type 0}
    (end_req : HlmReq → S → S) where
  -- hlm_nobuf_make_req
  unfoldable pub nobuf_make_req :
      DeviceParams → MappingPolicy → HlmReq → F → M → S → Option (F × M × S × HlmReq × ℕ)
  unfolding make_trim_req check_ondemand_gc make_rw_req
  nobuf_make_req np mapping_type hr f m s = do
    bug_on (not (is_normal hr.req_type))
    if is_trim hr.req_type
        then (make_trim_req ftl hr f >>= λ r.
            some (r.0, m, if r.1 == 0 then end_req hr s else s, hr, r.1))
        else (check_ondemand_gc ftl mapping_type hr f >>= λ g.
            make_rw_req ftl llm np hr g m >>= λ r. some (r.0, r.1, s, r.2, r.3))

module _ {S : Type 0} (end_req : HlmReq → S → S) where
  -- __hlm_nobuf_end_blkio_req, when low-level request `i` of `hr` is done
  unfoldable pub end_blkio_req : ℕ → HlmReq → S → Option (HlmReq × S)
  end_blkio_req i hr s = do
    lr ← get_elem? hr.llm_reqs i
    let hr' = record hr {
      nr_llm_reqs_done = inc64 hr.nr_llm_reqs_done;
      llm_reqs = set hr.llm_reqs i (record lr { is_done = true });
    }
    some (hr', if hr'.nr_llm_reqs_done == hr'.nr_llm_reqs then end_req hr' s else s)

-- __hlm_nobuf_end_gcio_req: the request and whether it unlocks the semaphore of the collector
unfoldable pub end_gcio_req : ℕ → HlmReqGc → Option (HlmReqGc × Bool)
end_gcio_req i hr_gc = do
  lr ← get_elem? hr_gc.llm_reqs i
  let hr' = record hr_gc {
    nr_llm_reqs_done = inc64 hr_gc.nr_llm_reqs_done;
    llm_reqs = set hr_gc.llm_reqs i (record lr { is_done = true });
  }
  some (hr', hr'.nr_llm_reqs_done == hr'.nr_llm_reqs)

-- ptr_hlm_req of a low-level request
pub data Parent : Type 0 where
  of_host : HlmReq → Parent
  of_gc : HlmReqGc → Parent

-- hlm_nobuf_end_req, when low-level request `i` of a request is done; its type says what it belongs to. The
-- flag says whether the semaphore of the collector is unlocked.
unfoldable pub nobuf_end_req :
    {S : Type 0} → (HlmReq → S → S) → ℕ → Parent → S → Option (Parent × S × Bool)
unfolding end_blkio_req end_gcio_req
nobuf_end_req end_req i (of_host hr) s = do
  lr ← get_elem? hr.llm_reqs i
  bug_on (is_gc lr.req_type)
  r ← end_blkio_req end_req i hr s
  some (of_host r.0, r.1, false)
nobuf_end_req end_req i (of_gc hr_gc) s = do
  lr ← get_elem? hr_gc.llm_reqs i
  bug_on (not (is_gc lr.req_type))
  r ← end_gcio_req i hr_gc
  some (of_gc r.0, s, r.1)
