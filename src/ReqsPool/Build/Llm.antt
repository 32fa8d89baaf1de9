-- ===== src/ReqsPool/Build/Llm.antt =====
-- The low-level requests that a write of ftl/hlm_reqs_pool.c is built of.
use native.Mathlib.Nat.{mul-le-mul_right, add-mul, zero-add, add-zero, le_refl}
use h4h.Base.{
  ℕ, zero, suc, ◌+◌, ◌-◌, ◌*◌, ◌/◌, ◌<◌, ◌≤◌, ◌≡◌, ◌≢◌, refl, ap, subst, ◌∙◌, true, false, ◌&&◌,
  Bool-cases, inl, inr, List, [], ◌∷◌, map, Option, none, some, arith, get_elem?, get_elem?_of_lt,
  length, length-map, get_elem?-map-some, Returns, Returns-bind, ltb, leb, if◌then◌else◌, some-inj,
}
use h4h.Request.{
  reqtype_rmw_read, KernelPage, kp_stt_data, kp_stt_hole, LlmReq, BlkioReq, nr_kpages_in,
}
use h4h.ReqsPool.{Pool}
use h4h.ReqsPool.Pages.{reset_page, alloc_pad, reset_fmain, reset_logaddr, alloc_fmain_pad, no_lpa}
use h4h.ReqsPool.Build.{pg_start, pg_end, is_plain_write, Cursor, build_units, build_llm_req}
use h4h.ReqsPool.Build.Fill.{
  fill, get_elem?-fill, inside, taken, outside, page_of, IsRequest, Placed,
}
use h4h.ReqsPool.Build.Units.{number, least, IsUnit, build_units-Placed}

pub get_elem?-alloc_fmain_pad :
    (h4h_malloc : ℕ → ℕ) (i : ℕ) (kps : List KernelPage) (f : ℕ) (kp : KernelPage)
    → get_elem? kps f ≡ some kp
    → get_elem? (alloc_fmain_pad h4h_malloc i kps) f ≡ some (alloc_pad (h4h_malloc (i + f)) kp)
unfolding alloc_fmain_pad
get_elem?-alloc_fmain_pad h4h_malloc i [] f kp e = ground arith
get_elem?-alloc_fmain_pad h4h_malloc i (x ∷ xs) zero kp e =
    let first : i + 0 ≡ i = omega arith in rw (first, some-inj e) refl
get_elem?-alloc_fmain_pad h4h_malloc i (x ∷ xs) (suc f) kp e =
    let next : i + suc f ≡ suc i + f = omega arith in
    rw next (get_elem?-alloc_fmain_pad h4h_malloc (suc i) xs f kp e)

pub length-alloc_fmain_pad :
    (h4h_malloc : ℕ → ℕ) (i : ℕ) (kps : List KernelPage)
    → length (alloc_fmain_pad h4h_malloc i kps) ≡ length kps
unfolding alloc_fmain_pad
length-alloc_fmain_pad h4h_malloc i [] = refl
length-alloc_fmain_pad h4h_malloc i (x ∷ xs) = ap suc (length-alloc_fmain_pad h4h_malloc (suc i) xs)

-- A kernel page of the request holds its vector; any other is a hole, backed by memory.
pub record Holds (br : BlkioReq) (pg : ℕ) (kp : KernelPage) : Type 0 where
  pub vector :
      inside br pg ≡ true
      → (kp.kp_stt ≡ kp_stt_data) × (kp.kp_ptr ≡ get_elem? br.bi_bvec_ptr (pg - pg_start br))
  pub padding :
      inside br pg ≡ false
      → (kp.kp_stt ≡ kp_stt_hole) × (kp.kp_ptr ≡ kp.kp_pad) × (kp.kp_pad ≢ none)

pub alloc_pad-hole :
    (addr : ℕ) (pad : Option ℕ)
    → let kp = alloc_pad addr (record { kp_stt = kp_stt_hole; kp_ptr = pad; kp_pad = pad }) in
      (kp.kp_stt ≡ kp_stt_hole) × (kp.kp_ptr ≡ kp.kp_pad) × (kp.kp_pad ≢ none)
alloc_pad-hole addr none = (refl, refl, λ e. cc (e))
alloc_pad-hole addr (some a) = (refl, refl, λ e. cc (e))

alloc_pad-Holds :
    (br : BlkioReq) (pg addr : ℕ) (kp : KernelPage)
    → Holds br pg (alloc_pad addr (page_of br pg (reset_page kp)))
alloc_pad-Holds br pg addr kp = elim (Bool-cases (inside br pg)) [
  | inl is_in ↦ rw is_in (record { vector = λ _. (refl, refl); padding = λ e. cc (e) })
  | inr is_out ↦
      rw is_out (record { vector = λ e. cc (e); padding = λ _. alloc_pad-hole addr kp.kp_pad })
]

-- The low-level request that starts at mapping unit `u`, for a write whose last unit is before `last`
pub record Built (pool : Pool) (br : BlkioReq) (last u : ℕ) (new : LlmReq) : Type 0 where
  pub pages :
      (f : ℕ)
      → f < pool.io_unit / pool.map_unit * nr_kpages_in pool.map_unit
      → (kp : KernelPage) × (get_elem? new.fmain f ≡ some kp)
        × Holds br (u * nr_kpages_in pool.map_unit + f) kp
  pub units :
      (j : ℕ)
      → j < pool.io_unit / pool.map_unit
      → get_elem? new.logaddr.lpa j ≡ some (if ltb (u + j) last then u + j else no_lpa)
  pub type_is : new.req_type ≡ (
      if outside br
          (u * nr_kpages_in pool.map_unit)
          (least (pool.io_unit / pool.map_unit) (last - u) * nr_kpages_in pool.map_unit)
        && pool.in_place_rmw
        && is_plain_write br.bi_rw
      then reqtype_rmw_read
      else br.bi_rw)

-- The arrays of a low-level request have an entry for each kernel page of an I/O unit.
pub record IsLlmReq (pool : Pool) (lr : LlmReq) : Type 0 where
  pub all_pages : length lr.fmain ≡ pool.io_unit / pool.map_unit * nr_kpages_in pool.map_unit
  pub all_units : pool.io_unit / pool.map_unit ≤ length lr.logaddr.lpa

start_Placed :
    (br : BlkioReq) (pg u : ℕ) (c : Cursor)
    → c.sec_start ≡ pg * 8
    → c.bvec_cnt ≡ taken br pg
    → c.fm_ofs ≡ 0
    → c.hole ≡ false
    → Placed br pg c.fmain (fill number u 0 c.lpa) 0 c
unfolding fill
start_Placed br pg u c sector vectors ofs hole =
    let same : pg + 0 ≡ pg = omega arith in
    record {
      at_sector = rw same sector;
      used = rw same vectors;
      at_entry = ofs;
      filled = refl;
      same_lpa = refl;
      has_hole = hole;
    }

module _ (pool : Pool) (unit : IsUnit pool) (br : BlkioReq) (ok : IsRequest br) (last : ℕ)
    (whole : pg_end br ≤ last * nr_kpages_in pool.map_unit) where
  -- A kernel page behind the last unit is not the request's.
  page_after :
      (u f : ℕ) (kp : KernelPage)
      → f < pool.io_unit / pool.map_unit * nr_kpages_in pool.map_unit
      → (if ltb f (least (pool.io_unit / pool.map_unit) (last - u) * nr_kpages_in pool.map_unit)
          then page_of br (u * nr_kpages_in pool.map_unit + f) kp
          else kp)
        ≡ page_of br (u * nr_kpages_in pool.map_unit + f) kp
  page_after u f kp h =
      let size = nr_kpages_in pool.map_unit in
      let rate = pool.io_unit / pool.map_unit in
      elim (Bool-cases (ltb f (least rate (last - u) * size))) [
        | inl done ↦ rw done refl
        | inr left ↦
            let far : least rate (last - u) * size ≤ f = ground arith in
            elim (Bool-cases (leb rate (last - u))) [
              | inl all ↦ absurd (let far' = rw all at far in omega arith)
              | inr part ↦
                  let far' : (last - u) * size ≤ f = rw part at far in
                  let cover : last * size ≤ (u + (last - u)) * size =
                    mul-le-mul_right size (omega arith) in
                  let behind : pg_end br ≤ u * size + f =
                    omega (arith, whole, cover, add-mul u (last - u) size, far') in
                  let is_out : inside br (u * size + f) ≡ false = ground arith in
                  rw (left, is_out) refl
            ]
      ]

  -- After `m` units of the request, which are all or all that are left
  Placed-Built :
      (h4h_malloc : ℕ → ℕ) (u : ℕ) (lr : LlmReq) (d : Cursor)
      → IsLlmReq pool lr
      → (let m = least (pool.io_unit / pool.map_unit) (last - u) in
          Placed br
            (u * nr_kpages_in pool.map_unit)
            (map reset_page lr.fmain)
            (fill number u m (map (λ _. no_lpa) lr.logaddr.lpa))
            (m * nr_kpages_in pool.map_unit)
            d)
      → Built pool br last u (record lr {
        req_type =
            if d.hole && pool.in_place_rmw && is_plain_write br.bi_rw
            then reqtype_rmw_read
            else br.bi_rw;
        logaddr = record { lpa = d.lpa; ofs = 0 };
        fmain = alloc_fmain_pad h4h_malloc 0 d.fmain;
      })
  Placed-Built h4h_malloc u lr d shape p = record {
    pages = λ f h.
        let (kp, e) = get_elem?_of_lt lr.fmain f (omega (arith, shape.all_pages)) in
        let filled =
          get_elem?-fill (page_of br) (u * size) (m * size) _ f _
            (get_elem?-map-some reset_page lr.fmain f kp e) in
        let same = page_after u f (reset_page kp) h in
        let there =
          get_elem?-alloc_fmain_pad h4h_malloc 0 d.fmain f
            (page_of br (u * size + f) (reset_page kp)) (rw p.filled (filled ∙ ap some same)) in
        (_, there, alloc_pad-Holds br (u * size + f) (h4h_malloc (0 + f)) kp);
    units = λ j h.
        let (v, e) = get_elem?_of_lt lr.logaddr.lpa j (omega (arith, shape.all_units)) in
        rw p.same_lpa (
          get_elem?-fill number u m _ j _
            (get_elem?-map-some (λ (_ : ℕ). no_lpa) lr.logaddr.lpa j v e)
          ∙ ground arith);
    type_is = rw p.has_hole refl;
  }
    where
      size : ℕ
      size = nr_kpages_in pool.map_unit

      m : ℕ
      m = least (pool.io_unit / pool.map_unit) (last - u)

  pub build_llm_req-Built :
      (h4h_malloc : ℕ → ℕ) (u : ℕ) (lr : LlmReq)
      → u < last
      → IsLlmReq pool lr
      → Returns
          (λ (r : LlmReq × Cursor).
            Built pool br last u r.0
            × (r.1.sec_start
                ≡ (u + least (pool.io_unit / pool.map_unit) (last - u))
                  * nr_kpages_in pool.map_unit
                  * 8)
            × (r.1.bvec_cnt
                ≡ taken br (
                    (u + least (pool.io_unit / pool.map_unit) (last - u))
                    * nr_kpages_in pool.map_unit)))
          (build_llm_req pool br
            (last * nr_kpages_in pool.map_unit * 8)
            h4h_malloc
            (u * nr_kpages_in pool.map_unit * 8)
            (taken br (u * nr_kpages_in pool.map_unit))
            lr)
  unfolding build_llm_req reset_fmain reset_logaddr
  build_llm_req-Built h4h_malloc u lr before shape =
      let size = nr_kpages_in pool.map_unit in
      let rate = pool.io_unit / pool.map_unit in
      let m = least rate (last - u) in
      let fm = map reset_page lr.fmain in
      let lpa = map (λ (_ : ℕ). no_lpa) lr.logaddr.lpa in
      let c : Cursor = record {
        sec_start = u * size * 8;
        bvec_cnt = taken br (u * size);
        hole = false;
        fm_ofs = 0;
        fmain = fm;
        lpa = lpa;
      } in
      let at_start : u * size + 0 * size ≡ u * size = omega arith in
      let no_pages : 0 * size ≡ 0 = omega arith in
      let start : Placed br (u * size) fm (fill number u 0 lpa) (0 * size) c =
        rw no_pages (start_Placed br (u * size) u c refl refl refl refl) in
      let all_units : 0 + least rate (last - (u + 0)) ≡ m = rw (zero-add, add-zero) refl in
      Returns-bind _ _ (build_units pool br (last * size * 8) rate 0 c) _
        (build_units-Placed pool unit br ok u last fm lpa rate 0 c (λ _. omega arith)
          (rw (zero-add, length-map reset_page lr.fmain, shape.all_pages) (le_refl _))
          (rw (zero-add, length-map (λ (_ : ℕ). no_lpa) lr.logaddr.lpa) shape.all_units) start)
        λ d _ p.
          let q =
            subst (λ x. Placed br (u * size) fm (fill number u x lpa) (x * size) d) all_units p in
          (
            Placed-Built h4h_malloc u lr d shape q,
            rw (add-mul u m size) q.at_sector,
            rw (add-mul u m size) q.used,
          )
