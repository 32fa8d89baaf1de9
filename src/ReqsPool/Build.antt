-- ===== src/ReqsPool/Build.antt =====
-- How ftl/hlm_reqs_pool.c turns a request of the host into low-level requests. `h4h_malloc i f` is the
-- address of the memory allocated for entry f of low-level request i. Signed and unsigned comparisons
-- agree on the sector numbers, which are below 2^63.
pub mod Fill
pub mod Units
pub mod Llm
pub mod Shape
pub mod Write
pub mod Trim
pub mod Read
use h4h.Base.{
  ℕ, zero, suc, ◌+◌, ◌-◌, ◌*◌, ◌/◌, ◌%◌, ◌^◌, Bool, true, false, not, ◌&&◌, List, [], ◌∷◌, Option,
  none, some, get_elem?, set, ◌==◌, ltb, leb, if◌then◌else◌, ◌>>=◌, ◌>>◌, bug_on, add64, inc64,
}
use h4h.Params.{kernel_page_size}
use h4h.Request.{
  ReqType, reqtype_read, reqtype_write, reqtype_trim, reqtype_rmw_read, KernelPage, kp_stt_data,
  LogAddr, LlmReq, BlkioReq, HlmReq, align_down, align_up, nr_ksectors_in, nr_kpages_in,
  h4h_blkio_max_vecs,
}
use h4h.ReqsPool.{Pool}
use h4h.ReqsPool.Pages.{reset_fmain, alloc_fmain_pad, reset_logaddr, store}

-- __hlm_reqs_pool_create_trim_req
unfoldable pub create_trim_req : Pool → BlkioReq → HlmReq → HlmReq
create_trim_req pool br hr = record hr {
  req_type = br.bi_rw;
  nr_llm_reqs = sec_start / unit;
  nr_llm_reqs_done = if ltb sec_start sec_end then (sec_end - sec_start) / unit else 0;
  blkio_req = some br;
  ret = 0;
}
  where
    unit : ℕ
    unit = nr_ksectors_in pool.map_unit

    sec_start : ℕ
    sec_start = align_up br.bi_offset unit

    sec_end : ℕ
    sec_end = align_down (add64 br.bi_offset br.bi_size) unit

-- pg_start and pg_end of the write and the read: the kernel pages that the request touches
unfoldable pub pg_start : BlkioReq → ℕ
pg_start br =
    align_down br.bi_offset (nr_ksectors_in kernel_page_size) / nr_ksectors_in kernel_page_size

unfoldable pub pg_end : BlkioReq → ℕ
pg_end br =
    align_up (add64 br.bi_offset br.bi_size) (nr_ksectors_in kernel_page_size)
    / nr_ksectors_in kernel_page_size

-- The variables of the loops that build one low-level request
pub record Cursor : Type 0 where
  pub sec_start : ℕ
  pub bvec_cnt : ℕ
  pub hole : Bool
  pub fm_ofs : ℕ
  pub fmain : List KernelPage
  pub lpa : List ℕ

-- The data of the host goes to the next kernel page.
unfoldable pub place_bvec : BlkioReq → Cursor → Option Cursor
place_bvec br c = do
  bug_on (leb br.bi_bvec_cnt c.bvec_cnt)
  ptr ← get_elem? br.bi_bvec_ptr c.bvec_cnt
  kp ← get_elem? c.fmain c.fm_ofs
  some (record c {
    fmain = set c.fmain c.fm_ofs (record kp { kp_stt = kp_stt_data; kp_ptr = some ptr });
    bvec_cnt = suc c.bvec_cnt;
  })

-- One round of the loop on kernel pages
unfoldable pub build_page : BlkioReq → Cursor → Option Cursor
unfolding place_bvec
build_page br c =
    (if leb (pg_start br) (c.sec_start / nr_ksectors_in kernel_page_size)
        && ltb (c.sec_start / nr_ksectors_in kernel_page_size) (pg_end br)
      then place_bvec br c
      else some (record c { hole = true }))
    >>= λ d. some (record d {
      sec_start = c.sec_start + nr_ksectors_in kernel_page_size;
      fm_ofs = suc c.fm_ofs;
    })

-- The loop on kernel pages, `k` rounds
unfoldable pub build_pages : BlkioReq → ℕ → Cursor → Option Cursor
unfolding build_page
build_pages br zero c = some c
build_pages br (suc k) c = build_page br c >>= build_pages br k

-- The loop on mapping units, with `n` rounds to go, the first of which is round `j`
unfoldable pub build_units : Pool → BlkioReq → ℕ → ℕ → ℕ → Cursor → Option Cursor
unfolding build_pages
build_units pool br sec_end zero j c = some c
build_units pool br sec_end (suc n) j c = do
  lpa ← store c.lpa j (c.sec_start / nr_ksectors_in pool.map_unit)
  d ← build_pages br (nr_kpages_in pool.map_unit) (record c { lpa = lpa })
  elim (leb sec_end d.sec_start) [ true ↦ some d | false ↦ build_units pool br sec_end n (suc j) d ]

-- br->bi_rw == REQTYPE_WRITE
abbrev pub is_plain_write : ReqType → Bool
is_plain_write reqtype_write = true
is_plain_write _ = false

-- One low-level request of a write, from `sec_start` and the count of vectors used so far
unfoldable pub build_llm_req :
    Pool → BlkioReq → ℕ → (ℕ → ℕ) → ℕ → ℕ → LlmReq → Option (LlmReq × Cursor)
unfolding build_units reset_fmain reset_logaddr alloc_fmain_pad
build_llm_req pool br sec_end h4h_malloc sec_start bvec_cnt lr = do
  c ← build_units pool br sec_end (pool.io_unit / pool.map_unit) 0 (record {
    sec_start = sec_start;
    bvec_cnt = bvec_cnt;
    hole = false;
    fm_ofs = 0;
    fmain = reset_fmain lr.fmain;
    lpa = (reset_logaddr lr.logaddr).lpa;
  })
  some (
    record lr {
      req_type =
          if c.hole && pool.in_place_rmw && is_plain_write br.bi_rw
          then reqtype_rmw_read
          else br.bi_rw;
      logaddr = record { lpa = c.lpa; ofs = 0 };
      fmain = alloc_fmain_pad h4h_malloc 0 c.fmain;
    },
    c,
  )

-- The loop on low-level requests, with `n` rounds to go, the first of which is round `i`. It gives the
-- requests back with the count of vectors used.
unfoldable pub build_llm_reqs :
    Pool → BlkioReq → ℕ → (ℕ → ℕ → ℕ) → ℕ → ℕ → ℕ → ℕ → List LlmReq → Option (List LlmReq × ℕ)
unfolding build_llm_req
build_llm_reqs pool br sec_end h4h_malloc zero i sec_start bvec_cnt lrs = some (lrs, bvec_cnt)
build_llm_reqs pool br sec_end h4h_malloc (suc n) i sec_start bvec_cnt [] = none
build_llm_reqs pool br sec_end h4h_malloc (suc n) i sec_start bvec_cnt (lr ∷ lrs) = do
  (new, c) ← build_llm_req pool br sec_end (h4h_malloc i) sec_start bvec_cnt lr
  (rest, used) ← build_llm_reqs pool br sec_end h4h_malloc n (suc i) c.sec_start c.bvec_cnt lrs
  some (new ∷ rest, used)

-- What the write and the read leave in the request
abbrev pub rw_request : BlkioReq → ℕ → List LlmReq → HlmReq → HlmReq
rw_request br nr_llm_reqs llm_reqs hr = record hr {
  req_type = br.bi_rw;
  nr_llm_reqs = nr_llm_reqs;
  nr_llm_reqs_done = 0;
  llm_reqs = llm_reqs;
  blkio_req = some br;
  ret = 0;
}

-- sec_start, sec_end and nr_llm_reqs of the write
unfoldable pub write_start : Pool → BlkioReq → ℕ
write_start pool br = align_down br.bi_offset (nr_ksectors_in pool.map_unit)

unfoldable pub write_end : Pool → BlkioReq → ℕ
write_end pool br = align_up (add64 br.bi_offset br.bi_size) (nr_ksectors_in pool.map_unit)

unfoldable pub write_count : Pool → BlkioReq → ℕ
unfolding write_start write_end
write_count pool br =
    align_up (write_end pool br - write_start pool br) (nr_ksectors_in pool.io_unit)
    / nr_ksectors_in pool.io_unit

-- __hlm_reqs_pool_create_write_req
unfoldable pub create_write_req : (ℕ → ℕ → ℕ) → Pool → BlkioReq → HlmReq → Option HlmReq
unfolding build_llm_reqs
create_write_req h4h_malloc pool br hr = do
  bug_on (leb (write_end pool br) (write_start pool br))
  bug_on (leb (pg_end br) (pg_start br))
  bug_on (ltb h4h_blkio_max_vecs (write_count pool br))
  (llm_reqs, used) ←
      build_llm_reqs pool br (write_end pool br) h4h_malloc (write_count pool br) 0
        (write_start pool br) 0 hr.llm_reqs
  bug_on (not (used == br.bi_bvec_cnt))
  some (rw_request br (write_count pool br) llm_reqs hr)

-- One low-level request of a read: kernel page `pg` from vector `bvec_cnt`
unfoldable pub build_read : Pool → BlkioReq → (ℕ → ℕ) → ℕ → ℕ → LlmReq → Option LlmReq
unfolding reset_fmain reset_logaddr alloc_fmain_pad
build_read pool br h4h_malloc pg bvec_cnt lr = do
  let offset = pg % nr_kpages_in pool.map_unit
  bug_on (not pool.in_place_rmw && not (offset == 0))
  ptr ← get_elem? br.bi_bvec_ptr bvec_cnt
  kp ← get_elem? (reset_fmain lr.fmain) offset
  let fmain =
      set (reset_fmain lr.fmain) offset (record kp { kp_stt = kp_stt_data; kp_ptr = some ptr })
  lpa ← store (reset_logaddr lr.logaddr).lpa 0 (pg / nr_kpages_in pool.map_unit)
  some (record lr {
    req_type = br.bi_rw;
    logaddr = record { lpa = lpa; ofs = if pool.in_place_rmw then 0 else offset };
    fmain = alloc_fmain_pad h4h_malloc 0 fmain;
  })

-- The loop of the read; there is one low-level request for each vector.
unfoldable pub build_reads :
    Pool → BlkioReq → (ℕ → ℕ → ℕ) → ℕ → ℕ → ℕ → List LlmReq → Option (List LlmReq)
unfolding build_read
build_reads pool br h4h_malloc zero pg i lrs = some lrs
build_reads pool br h4h_malloc (suc n) pg i [] = none
build_reads pool br h4h_malloc (suc n) pg i (lr ∷ lrs) = do
  new ← build_read pool br (h4h_malloc i) pg i lr
  rest ← build_reads pool br h4h_malloc n (suc pg) (suc i) lrs
  some (new ∷ rest)

-- __hlm_reqs_pool_create_read_req
unfoldable pub create_read_req : (ℕ → ℕ → ℕ) → Pool → BlkioReq → HlmReq → Option HlmReq
unfolding build_reads
create_read_req h4h_malloc pool br hr = do
  bug_on (leb (pg_end br) (pg_start br))
  llm_reqs ← build_reads pool br h4h_malloc (pg_end br - pg_start br) (pg_start br) 0 hr.llm_reqs
  bug_on (not ((pg_end br - pg_start br) == br.bi_bvec_cnt))
  some (rw_request br (pg_end br - pg_start br) llm_reqs hr)

-- h4h_hlm_reqs_pool_build_req: the request and the error code
unfoldable pub build_req : (ℕ → ℕ → ℕ) → Pool → BlkioReq → HlmReq → Option (HlmReq × ℕ)
unfolding create_trim_req create_write_req create_read_req
build_req h4h_malloc pool br hr = elim br.bi_rw [
  | reqtype_trim ↦ some (create_trim_req pool br hr, 0)
  | reqtype_write ↦ create_write_req h4h_malloc pool br hr >>= λ r. some (r, 0)
  | reqtype_read ↦ create_read_req h4h_malloc pool br hr >>= λ r. some (r, 0)
  | _ ↦ some (hr, 1)
]
