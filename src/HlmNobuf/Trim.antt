-- ===== src/HlmNobuf/Trim.antt =====
-- A trim of the host on its way through ftl/hlm_reqs_pool.c, ftl/hlm_nobuf.c and ftl/algo/page_ftl.c.
use h4h.Base.{
  ℕ, zero, suc, ◌+◌, ◌*◌, ◌^◌, ◌<◌, ◌≤◌, ◌≡◌, ◌⊎◌, inl, inr, refl, subst, ◌∙◌, Bool-cases, ltb,
  Option, some, arith, Returns, Returns-bind, Returns-mono, ◌>>=◌, inc64, two_steps,
}
use h4h.Params.{DeviceParams}
use h4h.PageFtl.{PageFtl}
use h4h.PageFtl.Ops.{get_ppa, invalidate_lpa}
use h4h.PageFtl.State.{IsFtl}
use h4h.PageFtl.State.Unmap.{Unmaps, nothing_there, invalidate_lpa-Unmaps}
use h4h.Request.{BlkioReq, HlmReq, reqtype_trim, trim_lpa, trim_len, nr_ksectors_in}
use h4h.ReqsPool.{Pool}
use h4h.ReqsPool.Build.{create_trim_req, build_req}
use h4h.ReqsPool.Build.Shape.{IsShape}
use h4h.ReqsPool.Build.Trim.{create_trim_req-within, trim_fits}
use h4h.FtlInf.{FtlInf, LlmInf, ftl_page_ftl}
use h4h.HlmNobuf.{MappingPolicy, trim_loop, make_trim_req, nobuf_make_req}

-- The addresses from `lo` up to `hi` are released one by one.
record Released (p q : PageFtl) (lo hi : ℕ) : Type 0 where
  keeps : IsFtl q
  keeps_np : q.np ≡ p.np
  gone : (l : ℕ) → lo ≤ l → l < hi → get_ppa l q ≡ some nothing_there
  stays : (l : ℕ) → (l < lo) ⊎ (hi ≤ l) → get_ppa l q ≡ get_ppa l p

module _ (do_gc : PageFtl → Option (PageFtl × ℕ)) where
  trim_loop-Released :
      (n lpa : ℕ) (p : PageFtl)
      → IsFtl p
      → lpa + n ≤ p.np.nr_subpages_per_ssd
      → Returns (λ q. Released p q lpa (lpa + n)) (trim_loop (ftl_page_ftl do_gc) n lpa p)
  unfolding trim_loop
  trim_loop-Released zero lpa p ok le = record {
    keeps = ok;
    keeps_np = refl;
    gone = λ l lo hi. absurd (omega arith);
    stays = λ l out. refl;
  }
  trim_loop-Released (suc n) lpa p ok le =
      let small : p.np.nr_subpages_per_ssd < 2 ^ 64 =
        subst (λ (x : DeviceParams). x.nr_subpages_per_ssd < 2 ^ 64) ok.same_np
          ok.abm.geometry.ssd_small in
      let next : inc64 lpa ≡ suc lpa = omega arith in
      Returns-bind (Unmaps p lpa (lpa + 1)) _ (invalidate_lpa lpa 1 p) _
        (invalidate_lpa-Unmaps lpa 1 p ok (omega arith))
        λ r _ u. rw next (
          Returns-mono _ _ (trim_loop (ftl_page_ftl do_gc) n (suc lpa) r.0) (λ q _ d. both r q u d)
            (trim_loop-Released n (suc lpa) r.0 u.unmaps_keeps (rw u.unmaps_np (omega arith))))
    where
      both :
          (r : PageFtl × ℕ) (q : PageFtl)
          → Unmaps p lpa (lpa + 1) r
          → Released r.0 q (suc lpa) (suc lpa + n)
          → Released p q lpa (lpa + suc n)
      both r q u d = record {
        keeps = d.keeps;
        keeps_np = d.keeps_np ∙ u.unmaps_np;
        gone = λ l lo hi. elim (Bool-cases (ltb l (suc lpa))) [
          | inl first ↦ d.stays l (inl (ground arith)) ∙ u.unmapped_reads l lo (ground arith)
          | inr later ↦ d.gone l (ground arith) (omega arith)
        ];
        stays = λ l out. d.stays l (ground arith) ∙ u.other_reads l (ground arith);
      }

-- What a trim of the host leaves behind: `s` was the state of the host, `m` that of the low-level manager.
pub record HostTrimmed {M S : Type 0} (end_req : HlmReq → S → S) (pool : Pool) (br : BlkioReq)
    (p : PageFtl) (m : M) (s : S) (r : PageFtl × M × S × HlmReq × ℕ) : Type 0 where
  pub succeeds : r.4 ≡ 0
  pub nothing_sent : r.1 ≡ m
  pub host_told : r.2 ≡ end_req r.3 s
  pub request_kept : r.3.blkio_req ≡ some br
  pub still_ftl : IsFtl r.0
  pub trimmed :
      (u : ℕ)
      → br.bi_offset ≤ u * nr_ksectors_in pool.map_unit
      → suc u * nr_ksectors_in pool.map_unit ≤ br.bi_offset + br.bi_size
      → get_ppa u r.0 ≡ some nothing_there
  pub others_kept :
      (u : ℕ)
      → (u * nr_ksectors_in pool.map_unit < br.bi_offset)
        ⊎ (br.bi_offset + br.bi_size < suc u * nr_ksectors_in pool.map_unit)
      → get_ppa u r.0 ≡ get_ppa u p

create_trim_req-kept :
    (pool : Pool) (br : BlkioReq) (hr : HlmReq)
    → ((create_trim_req pool br hr).req_type ≡ br.bi_rw)
      × ((create_trim_req pool br hr).blkio_req ≡ some br)
unfolding create_trim_req
create_trim_req-kept pool br hr = (refl, refl)

build_req-trim :
    (h4h_malloc : ℕ → ℕ → ℕ) (pool : Pool) (br : BlkioReq) (hr : HlmReq)
    → br.bi_rw ≡ reqtype_trim
    → build_req h4h_malloc pool br hr ≡ some (create_trim_req pool br hr, 0)
unfolding build_req
build_req-trim h4h_malloc pool br hr e = rw e refl

nobuf_make_req-trim :
    {F M S : Type 0} (ftl : FtlInf F) (llm : LlmInf M) (end_req : HlmReq → S → S)
    (np : DeviceParams) (policy : MappingPolicy) (hr : HlmReq) (f : F) (m : M) (s : S)
    → hr.req_type ≡ reqtype_trim
    → nobuf_make_req ftl llm end_req np policy hr f m s
      ≡ (trim_loop ftl (trim_len hr) (trim_lpa hr) f >>= λ g. some (g, m, end_req hr s, hr, 0))
unfolding nobuf_make_req make_trim_req
nobuf_make_req-trim ftl llm end_req np policy hr f m s e =
    rw e (two_steps (trim_loop ftl (trim_len hr) (trim_lpa hr) f) _ _)

-- An address that is not in a range stands on one side of it.
apart : (lpa len u : ℕ) → ¬ ((lpa ≤ u) × (u < lpa + len)) → (u < lpa) ⊎ (lpa + len ≤ u)
apart lpa len u h = elim (Bool-cases (ltb u lpa)) [
  | inl below ↦ inl (ground arith)
  | inr above ↦ inr (elim (Bool-cases (ltb u (lpa + len))) [
    | inl under ↦ absurd (h (ground arith, ground arith))
    | inr over ↦ ground arith
  ])
]

not_both : (a b c d : ℕ) → (b < a) ⊎ (d < c) → ¬ ((a ≤ b) × (c ≤ d))
not_both a b c d out h = omega arith

-- A trim of the host, built by h4h_hlm_reqs_pool_build_req and carried out by hlm_nobuf_make_req with the
-- page-level FTL in a state that satisfies its invariant, for a range that ends on the device and at
-- sector 2^62 at most, where mapping units are 2^e kernel pages: it runs through, returns 0, keeps the
-- invariant, sends nothing to the low-level manager and tells the host once that the request is done.
-- h4h_page_ftl_get_ppa then finds nothing at each mapping unit that lies wholly in the range, and the same
-- as before at every other.
pub trim-HostTrimmed :
    {M S : Type 0} (llm : LlmInf M) (end_req : HlmReq → S → S)
    (do_gc : PageFtl → Option (PageFtl × ℕ)) (h4h_malloc : ℕ → ℕ → ℕ) (policy : MappingPolicy)
    (pool : Pool) (e g : ℕ) (br : BlkioReq) (hr : HlmReq) (p : PageFtl) (m : M) (s : S)
    → IsShape pool e g
    → br.bi_rw ≡ reqtype_trim
    → br.bi_offset + br.bi_size ≤ 2 ^ 62
    → br.bi_offset + br.bi_size ≤ p.np.nr_subpages_per_ssd * nr_ksectors_in pool.map_unit
    → IsFtl p
    → Returns (HostTrimmed end_req pool br p m s) (
        build_req h4h_malloc pool br hr >>= λ b.
        nobuf_make_req (ftl_page_ftl do_gc) llm end_req p.np policy b.0 p m s)
trim-HostTrimmed llm end_req do_gc h4h_malloc policy pool e g br hr p m s shape is_trim in_range
      fits ok =
    let new = create_trim_req pool br hr in
    let kept = create_trim_req-kept pool br hr in
    let range = trim_fits pool e g shape br in_range hr p.np.nr_subpages_per_ssd fits in
    let type_kept : new.req_type ≡ reqtype_trim = kept.0 ∙ is_trim in
    rw
      (
        build_req-trim h4h_malloc pool br hr is_trim,
        nobuf_make_req-trim (ftl_page_ftl do_gc) llm end_req p.np policy new p m s type_kept,
      )
      (Returns-bind (λ q. Released p q (trim_lpa new) (trim_lpa new + trim_len new)) _
        (trim_loop (ftl_page_ftl do_gc) (trim_len new) (trim_lpa new) p) _
        (trim_loop-Released do_gc (trim_len new) (trim_lpa new) p ok range)
        λ q _ d. record {
          succeeds = refl;
          nothing_sent = refl;
          host_told = refl;
          request_kept = kept.1;
          still_ftl = d.keeps;
          trimmed = λ u lo hi.
              let in_units = (create_trim_req-within pool e g shape br in_range hr u).1 (lo, hi) in
              d.gone u in_units.0 in_units.1;
          others_kept = λ u out. d.stays u (
              apart (trim_lpa new) (trim_len new) u λ h.
                let inside = (create_trim_req-within pool e g shape br in_range hr u).0 h in
                not_both _ _ _ _ out inside);
        })
