-- ===== src/ReqsPool/Build/Write.antt =====
-- __hlm_reqs_pool_create_write_req of ftl/hlm_reqs_pool.c as a whole.
use native.Mathlib.Nat.{suc-mul, zero-mul, mul-le-mul_right, mul-lt-mul_of_pos_right}
use h4h.Base.{
  ℕ, zero, suc, ◌+◌, ◌-◌, ◌*◌, ◌/◌, ◌<◌, ◌≤◌, ◌≡◌, refl, false, List, [], ◌∷◌, some, arith,
  get_elem?, length, Every, Returns, Returns-bind, ltb, leb, ==_refl,
}
use h4h.Request.{LlmReq, HlmReq, BlkioReq, nr_kpages_in}
use h4h.ReqsPool.{Pool}
use h4h.ReqsPool.Build.{
  pg_start, pg_end, write_start, write_end, write_count, build_llm_req, build_llm_reqs,
  create_write_req,
}
use h4h.ReqsPool.Build.Fill.{taken, IsRequest}
use h4h.ReqsPool.Build.Units.{least, IsUnit}
use h4h.ReqsPool.Build.Llm.{Built, IsLlmReq, build_llm_req-Built}
use h4h.ReqsPool.Build.Shape.{
  IsShape, IsHostReq, host-IsRequest, shape-IsUnit, first_unit, last_unit, write_start-eq,
  write_end-eq, pages_within, pages_from, units_order, write_count-ge, write_count-lt,
}

module _ (pool : Pool) (unit : IsUnit pool) (br : BlkioReq) (ok : IsRequest br) (last : ℕ)
    (whole : pg_end br ≤ last * nr_kpages_in pool.map_unit) (h4h_malloc : ℕ → ℕ → ℕ) where
  -- The first request and the others, counted together
  numbered :
      (n u : ℕ) (new : LlmReq) (news : List LlmReq)
      → u + suc n * (pool.io_unit / pool.map_unit) < last + pool.io_unit / pool.map_unit
      → Built pool br last u new
      → ((k : ℕ)
          → k < n
          → (x : LlmReq) × (get_elem? news k ≡ some x)
            × Built pool br last
                (u
                  + least (pool.io_unit / pool.map_unit) (last - u)
                  + k * (pool.io_unit / pool.map_unit))
                x)
      → (k : ℕ) → k < suc n
      → (x : LlmReq) × (get_elem? (new ∷ news) k ≡ some x)
        × Built pool br last (u + k * (pool.io_unit / pool.map_unit)) x
  numbered n u new news tight first rest zero h =
      let same : u + 0 * (pool.io_unit / pool.map_unit) ≡ u =
        omega (arith, zero-mul (pool.io_unit / pool.map_unit)) in
      (new, refl, rw same first)
  numbered n u new news tight first rest (suc k) h =
      let rate = pool.io_unit / pool.map_unit in
      let one : 1 * rate ≤ n * rate = mul-le-mul_right rate (omega arith) in
      let same : u + suc k * rate ≡ u + least rate (last - u) + k * rate =
        ground (arith, suc-mul n rate, suc-mul k rate, one) in
      rw same (rest k (omega arith))

  -- With `n` requests to go, the first of which starts at unit `u`
  build_llm_reqs-Built :
      (n i u : ℕ) (lrs : List LlmReq)
      → u ≤ last
      → last ≤ u + n * (pool.io_unit / pool.map_unit)
      → u + n * (pool.io_unit / pool.map_unit) < last + pool.io_unit / pool.map_unit
      → n ≤ length lrs
      → Every (λ _. IsLlmReq pool) lrs
      → Returns
          (λ (r : List LlmReq × ℕ).
            (r.1 ≡ taken br (last * nr_kpages_in pool.map_unit))
            × (length r.0 ≡ length lrs)
            × ((k : ℕ)
                → k < n
                → (new : LlmReq) × (get_elem? r.0 k ≡ some new)
                  × Built pool br last (u + k * (pool.io_unit / pool.map_unit)) new))
          (build_llm_reqs pool br
            (last * nr_kpages_in pool.map_unit * 8)
            h4h_malloc
            n
            i
            (u * nr_kpages_in pool.map_unit * 8)
            (taken br (u * nr_kpages_in pool.map_unit))
            lrs)
  unfolding build_llm_reqs
  build_llm_reqs-Built zero i u lrs le reach tight long each =
      let ends : u ≡ last = omega (arith, zero-mul (pool.io_unit / pool.map_unit)) in
      (rw ends refl, refl, λ k h. absurd (omega arith))
  build_llm_reqs-Built (suc n) i u [] le reach tight long each = absurd (omega arith)
  build_llm_reqs-Built (suc n) i u (lr ∷ lrs) le reach tight long each =
      let size = nr_kpages_in pool.map_unit in
      let rate = pool.io_unit / pool.map_unit in
      let more = suc-mul n rate in
      let u' = u + least rate (last - u) in
      let here =
        build_llm_req-Built pool unit br ok last whole (h4h_malloc i) u lr (omega (arith, more))
          (each 0 lr refl) in
      Returns-bind _ _
        (build_llm_req pool br (last * size * 8) (h4h_malloc i) (u * size * 8) (taken br (u * size))
          lr)
        _ here
        λ r _ b.
          rw (b.1, b.2)
            (Returns-bind _ _
              (build_llm_reqs pool br (last * size * 8) h4h_malloc n (suc i) (u' * size * 8)
                (taken br (u' * size)) lrs)
              _
              (build_llm_reqs-Built n (suc i) u' lrs (ground arith) (ground (arith, more))
                (ground (arith, more)) (omega arith) (λ k a e. each (suc k) a e))
              λ s _ t. (t.0, omega (arith, t.1), numbered n u r.0 s.0 tight b.0 t.2))

-- A write of the host as low-level requests: each of them stands for the next mapping units of the
-- range, and there are just as many as the range needs.
pub record Writes (pool : Pool) (br : BlkioReq) (hr : HlmReq) : Type 0 where
  pub covers :
      last_unit pool br ≤ first_unit pool br + hr.nr_llm_reqs * (pool.io_unit / pool.map_unit)
  pub no_more :
      first_unit pool br + hr.nr_llm_reqs * (pool.io_unit / pool.map_unit)
      < last_unit pool br + pool.io_unit / pool.map_unit
  pub each_built :
      (k : ℕ)
      → k < hr.nr_llm_reqs
      → (lr : LlmReq) × (get_elem? hr.llm_reqs k ≡ some lr)
        × Built pool br
            (last_unit pool br)
            (first_unit pool br + k * (pool.io_unit / pool.map_unit))
            lr
  pub none_done : hr.nr_llm_reqs_done ≡ 0
  pub type_kept : hr.req_type ≡ br.bi_rw
  pub host_kept : hr.blkio_req ≡ some br

-- __hlm_reqs_pool_create_write_req in a pool with mapping units of 2^e kernel pages and I/O units of 2^g
-- mapping units, for a request with a vector for each kernel page that it touches, of which no more than
-- 512 I/O units are needed: no bug check stops it. Low-level request k stands for the k-th I/O unit from
-- the first touched mapping unit on, and there are as many as the range needs. In each, a kernel page that
-- the host touches has its vector as data and every other one is a hole backed by memory; each mapping
-- unit of the range has its logical address and any other -1; and the type is that of the host, or the
-- read of a read-modify-write if a write leaves holes in a pool that rewrites in place.
pub create_write_req-Writes :
    (h4h_malloc : ℕ → ℕ → ℕ) (pool : Pool) (e g : ℕ) (br : BlkioReq) (hr : HlmReq)
    → IsShape pool e g
    → IsHostReq br
    → write_count pool br ≤ 512
    → length hr.llm_reqs ≡ 512
    → Every (λ _. IsLlmReq pool) hr.llm_reqs
    → Returns (Writes pool br) (create_write_req h4h_malloc pool br hr)
unfolding create_write_req
create_write_req-Writes h4h_malloc pool e g br hr shape host fits long each =
    let unit = shape-IsUnit br host pool e g shape in
    let ok = host-IsRequest br host in
    let size = nr_kpages_in pool.map_unit in
    let first = first_unit pool br in
    let last = last_unit pool br in
    let whole = pages_within br host pool e g shape in
    let order = units_order br host pool e g shape in
    let before = pages_from br host pool e g shape in
    let start = write_start-eq br host pool e g shape in
    let stop = write_end-eq br host pool e g shape in
    let none_yet : taken br (first * size) ≡ 0 = ground arith in
    let sectors : first * size < last * size = mul-lt-mul_of_pos_right order unit.not_empty in
    let a : leb (write_end pool br) (write_start pool br) ≡ false =
      rw (start, stop) (ground arith) in
    let b : leb (pg_end br) (pg_start br) ≡ false = ground (arith, ok.some_page) in
    let c : ltb 512 (write_count pool br) ≡ false = ground arith in
    let all_used : taken br (last * size) ≡ br.bi_bvec_cnt = ground (arith, ok.each_page) in
    rw (a, b, c, start, stop)
      (Returns-bind _ _
        (build_llm_reqs pool br (last * size * 8) h4h_malloc (write_count pool br) 0
          (first * size * 8) 0 hr.llm_reqs)
        _
        (rw none_yet at (
          build_llm_reqs-Built pool unit br ok last whole h4h_malloc (write_count pool br) 0 first
            hr.llm_reqs (omega arith) (write_count-ge br host pool e g shape)
            (write_count-lt br host pool e g shape) (omega arith) each))
        λ r _ p.
          rw (p.0, all_used, ==_refl br.bi_bvec_cnt)
            (record {
              covers = write_count-ge br host pool e g shape;
              no_more = write_count-lt br host pool e g shape;
              each_built = p.2;
              none_done = refl;
              type_kept = refl;
              host_kept = refl;
            }))
