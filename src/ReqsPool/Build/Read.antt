-- ===== src/ReqsPool/Build/Read.antt =====
-- __hlm_reqs_pool_create_read_req of ftl/hlm_reqs_pool.c: one low-level request for each kernel page.
use native.Mathlib.Nat.{mod-lt}
use h4h.Base.{
  ℕ, zero, suc, ◌+◌, ◌-◌, ◌/◌, ◌%◌, ◌<◌, ◌≤◌, ◌≡◌, ◌≢◌, ◌⊎◌, refl, sym, ◌∙◌, true, false, not, ◌&&◌,
  inl, inr, List, [], ◌∷◌, map, none, some, arith, get_elem?, get_elem?_of_lt, get_elem?-map-some,
  get_elem?-set_self, get_elem?-set_ne, set, length, length-map, length-set, Every, Returns,
  Returns-bind, leb, ◌==◌, ==_refl, if◌then◌else◌,
}
use h4h.Request.{KernelPage, kp_stt_data, kp_stt_hole, LlmReq, HlmReq, BlkioReq, nr_kpages_in}
use h4h.ReqsPool.{Pool}
use h4h.ReqsPool.Pages.{reset_page, reset_fmain, reset_logaddr, alloc_fmain_pad, no_lpa}
use h4h.ReqsPool.Build.{pg_start, pg_end, build_read, build_reads, create_read_req}
use h4h.ReqsPool.Build.Llm.{length-alloc_fmain_pad, alloc_pad-hole, get_elem?-alloc_fmain_pad}
use h4h.ReqsPool.Build.Shape.{IsHostReq, pg_start-eq, pg_end-eq}

-- The low-level request that reads kernel page `pg` into vector `v` of the host
pub record Reads (pool : Pool) (br : BlkioReq) (pg v : ℕ) (new : LlmReq) : Type 0 where
  pub slot : KernelPage
  pub slot_there : get_elem? new.fmain (pg % nr_kpages_in pool.map_unit) ≡ some slot
  pub slot_data : slot.kp_stt ≡ kp_stt_data
  pub slot_ptr : slot.kp_ptr ≡ get_elem? br.bi_bvec_ptr v
  pub padding :
      (f : ℕ)
      → pg % nr_kpages_in pool.map_unit ≢ f
      → f < length new.fmain
      → (kp : KernelPage) × (get_elem? new.fmain f ≡ some kp)
        × (kp.kp_stt ≡ kp_stt_hole)
        × (kp.kp_ptr ≡ kp.kp_pad)
        × (kp.kp_pad ≢ none)
  pub unit_is : get_elem? new.logaddr.lpa 0 ≡ some (pg / nr_kpages_in pool.map_unit)
  pub ofs_is : new.logaddr.ofs ≡ 0
  pub type_is : new.req_type ≡ br.bi_rw

-- A pool that reads any kernel page: it reads in place, or a mapping unit is one kernel page.
pub record IsReader (pool : Pool) : Type 0 where
  pub not_empty : 0 < nr_kpages_in pool.map_unit
  pub in_place : (pool.in_place_rmw ≡ true) ⊎ (nr_kpages_in pool.map_unit ≡ 1)

pub record HasUnit (pool : Pool) (lr : LlmReq) : Type 0 where
  pub a_unit : nr_kpages_in pool.map_unit ≤ length lr.fmain
  pub a_lpa : 0 < length lr.logaddr.lpa

-- A kernel page that is not the one written to
hole_at :
    (h4h_malloc : ℕ → ℕ) (kps : List KernelPage) (offset : ℕ) (new : KernelPage) (f : ℕ)
    → offset ≢ f
    → f < length (alloc_fmain_pad h4h_malloc 0 (set (map reset_page kps) offset new))
    → (kp : KernelPage) × (get_elem?
          (alloc_fmain_pad h4h_malloc 0 (set (map reset_page kps) offset new))
          f
        ≡ some kp)
      × (kp.kp_stt ≡ kp_stt_hole)
      × (kp.kp_ptr ≡ kp.kp_pad)
      × (kp.kp_pad ≢ none)
hole_at h4h_malloc kps offset new f ne h =
    let fm = map reset_page kps in
    let len =
      length-alloc_fmain_pad h4h_malloc 0 (set fm offset new)
      ∙ length-set fm offset new
      ∙ length-map reset_page kps in
    let (kp, e) = get_elem?_of_lt kps f (rw len at h) in
    let there = get_elem?-set_ne fm offset f new ne ∙ get_elem?-map-some reset_page kps f kp e in
    let hole = alloc_pad-hole (h4h_malloc (0 + f)) kp.kp_pad in
    (
      _,
      get_elem?-alloc_fmain_pad h4h_malloc 0 (set fm offset new) f (reset_page kp) there,
      hole.0,
      hole.1,
      hole.2,
    )

-- The first request and the others, counted together
numbered :
    (pool : Pool) (br : BlkioReq) (n pg i : ℕ) (new : LlmReq) (news : List LlmReq)
    → Reads pool br pg i new
    → ((k : ℕ)
        → k < n
        → (x : LlmReq) × (get_elem? news k ≡ some x) × Reads pool br (suc pg + k) (suc i + k) x)
    → (k : ℕ) → k < suc n
    → (x : LlmReq) × (get_elem? (new ∷ news) k ≡ some x) × Reads pool br (pg + k) (i + k) x
numbered pool br n pg i new news first rest zero h =
    let a : pg + 0 ≡ pg = omega arith in
    let b : i + 0 ≡ i = omega arith in (new, refl, rw (a, b) first)
numbered pool br n pg i new news first rest (suc k) h =
    let a : pg + suc k ≡ suc pg + k = omega arith in
    let b : i + suc k ≡ suc i + k = omega arith in rw (a, b) (rest k (omega arith))

module _ (pool : Pool) (reader : IsReader pool) (br : BlkioReq) where
  build_read-Reads :
      (h4h_malloc : ℕ → ℕ) (pg v : ℕ) (lr : LlmReq)
      → v < length br.bi_bvec_ptr
      → HasUnit pool lr
      → Returns (Reads pool br pg v) (build_read pool br h4h_malloc pg v lr)
  unfolding build_read reset_fmain reset_logaddr
  build_read-Reads h4h_malloc pg v lr inside has =
      let size = nr_kpages_in pool.map_unit in
      let offset = pg % size in
      let small : offset < size = mod-lt pg reader.not_empty in
      let (ptr, at_v) = get_elem?_of_lt br.bi_bvec_ptr v inside in
      let (kp, at_kp) = get_elem?_of_lt lr.fmain offset (omega (arith, has.a_unit)) in
      let fm = map reset_page lr.fmain in
      let entry = get_elem?-map-some reset_page lr.fmain offset kp at_kp in
      let (old, at_old) = get_elem?_of_lt lr.logaddr.lpa 0 has.a_lpa in
      let first = get_elem?-map-some (λ (_ : ℕ). no_lpa) lr.logaddr.lpa 0 old at_old in
      let new_kp = record (reset_page kp) { kp_stt = kp_stt_data; kp_ptr = some ptr } in
      let fits : offset < length fm =
        rw (length-map reset_page lr.fmain) (omega (arith, has.a_unit)) in
      let quiet : (not pool.in_place_rmw && not (offset == 0)) ≡ false = elim reader.in_place [
        | inl here ↦ rw here refl
        | inr one ↦ let none_off : offset ≡ 0 = omega arith in ground arith
      ] in
      let ofs : (if pool.in_place_rmw then 0 else offset) ≡ 0 = elim reader.in_place [
        | inl here ↦ rw here refl
        | inr one ↦ let none_off : offset ≡ 0 = omega arith in ground arith
      ] in
      rw (quiet, at_v, entry, first, ofs)
        (record {
          slot = new_kp;
          slot_there =
              get_elem?-alloc_fmain_pad h4h_malloc 0 (set fm offset new_kp) offset new_kp
                (get_elem?-set_self fm offset new_kp fits);
          slot_data = refl;
          slot_ptr = sym at_v;
          padding = λ f ne h. hole_at h4h_malloc lr.fmain offset new_kp f ne h;
          unit_is =
              get_elem?-set_self (map (λ (_ : ℕ). no_lpa) lr.logaddr.lpa) 0 (pg / size)
                (rw (length-map (λ (_ : ℕ). no_lpa) lr.logaddr.lpa) has.a_lpa);
          ofs_is = refl;
          type_is = refl;
        })

  build_reads-Reads :
      (h4h_malloc : ℕ → ℕ → ℕ) (n pg i : ℕ) (lrs : List LlmReq)
      → i + n ≤ length br.bi_bvec_ptr
      → n ≤ length lrs
      → Every (λ _. HasUnit pool) lrs
      → Returns
          (λ news.
            (k : ℕ)
            → k < n
            → (new : LlmReq) × (get_elem? news k ≡ some new) × Reads pool br (pg + k) (i + k) new)
          (build_reads pool br h4h_malloc n pg i lrs)
  unfolding build_reads
  build_reads-Reads h4h_malloc zero pg i lrs vs long each = λ k h. absurd (omega arith)
  build_reads-Reads h4h_malloc (suc n) pg i [] vs long each = absurd (omega arith)
  build_reads-Reads h4h_malloc (suc n) pg i (lr ∷ lrs) vs long each =
      Returns-bind _ _ (build_read pool br (h4h_malloc i) pg i lr) _
        (build_read-Reads (h4h_malloc i) pg i lr (omega arith) (each 0 lr refl))
        λ new _ r.
          Returns-bind _ _ (build_reads pool br h4h_malloc n (suc pg) (suc i) lrs) _
            (build_reads-Reads h4h_malloc n (suc pg) (suc i) lrs (omega arith) (omega arith)
              (λ k a e. each (suc k) a e))
            λ news _ rs. numbered pool br n pg i new news r rs

-- A read of the host as low-level requests, one for each kernel page from the first on
pub record AllRead (pool : Pool) (br : BlkioReq) (hr : HlmReq) : Type 0 where
  pub one_each : hr.nr_llm_reqs ≡ br.bi_bvec_cnt
  pub each_read :
      (k : ℕ)
      → k < hr.nr_llm_reqs
      → (lr : LlmReq) × (get_elem? hr.llm_reqs k ≡ some lr)
        × Reads pool br (br.bi_offset / 8 + k) k lr
  pub none_done : hr.nr_llm_reqs_done ≡ 0
  pub type_kept : hr.req_type ≡ br.bi_rw
  pub host_kept : hr.blkio_req ≡ some br

-- __hlm_reqs_pool_create_read_req in a pool that reads in place or whose mapping unit is one kernel page,
-- for a request with a vector for each kernel page that it touches and room for as many low-level
-- requests: no bug check stops it. Low-level request k reads the k-th kernel page: the entry at the place
-- of that page in its mapping unit points at vector k, every other entry is a hole backed by memory, and
-- the logical address is that of the mapping unit.
pub create_read_req-AllRead :
    (h4h_malloc : ℕ → ℕ → ℕ) (pool : Pool) (br : BlkioReq) (hr : HlmReq)
    → IsReader pool
    → IsHostReq br
    → br.bi_bvec_cnt ≤ length hr.llm_reqs
    → Every (λ _. HasUnit pool) hr.llm_reqs
    → Returns (AllRead pool br) (create_read_req h4h_malloc pool br hr)
unfolding create_read_req
create_read_req-AllRead h4h_malloc pool br hr reader host fits each =
    let start = pg_start-eq br host in
    let stop = pg_end-eq br host in
    let count : pg_end br - pg_start br ≡ br.bi_bvec_cnt = rw (start, stop) (sym host.each_page) in
    let some_page : leb (pg_end br) (pg_start br) ≡ false =
      rw (start, stop) (let p = host.some_sector in ground arith) in
    rw (some_page, count)
      (Returns-bind _ _ (build_reads pool br h4h_malloc br.bi_bvec_cnt (pg_start br) 0 hr.llm_reqs)
        _
        (build_reads-Reads pool reader br h4h_malloc br.bi_bvec_cnt (pg_start br) 0 hr.llm_reqs
          (omega (arith, host.vectors)) fits each)
        λ news _ all. rw (==_refl br.bi_bvec_cnt) (record {
          one_each = refl;
          each_read = λ k h. let same : 0 + k ≡ k = omega arith in rw (same, start) at (all k h);
          none_done = refl;
          type_kept = refl;
          host_kept = refl;
        }))
