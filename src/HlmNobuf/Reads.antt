-- ===== src/HlmNobuf/Reads.antt =====
-- Reads on their way through ftl/hlm_nobuf.c to the FTL of ftl/algo/page_ftl.c.
use h4h.Base.{
  ℕ, zero, suc, ◌<◌, ◌≤◌, ◌≡◌, refl, ap, subst, ◌∙◌, List, [], ◌∷◌, Option, none, some, get_elem?,
  get_elem?_of_lt, length, get_elem?-lt, Every, arith, Returns, Returns-bind, Returns-mono, ◌>>=◌,
  two_steps,
}
use h4h.Params.{DeviceParams}
use h4h.PageFtl.{PhyAddr, PageFtl}
use h4h.PageFtl.Ops.{get_ppa}
use h4h.PageFtl.State.{IsFtl}
use h4h.Request.{LogAddr, LlmReq, HlmReq, KernelPage, kp_stt_data, reqtype_read, reqtype_read_dummy}
use h4h.ReqsPool.Pages.{relocate_kp}
use h4h.FtlInf.{FtlInf, LlmInf, ftl_page_ftl}
use h4h.HlmNobuf.Send.{Accepts, Sent, send_reqs-Sent}
use h4h.HlmNobuf.Lookup.{
  Lookup, hit, miss, get_ppa-Lookup, setup_oob-Filled, Moved, relocate_kp-Moved,
}
use h4h.HlmNobuf.{setup_oob, locate_read, locate, map_llm_req, map_llm_reqs, send_reqs, make_rw_req}

-- A read as the request pool makes it, with arrays that have an entry for each subpage of a page
pub record IsReadReq (np : DeviceParams) (lr : LlmReq) : Type 0 where
  pub plain_read : lr.req_type ≡ reqtype_read
  pub ofs_in : lr.logaddr.ofs < length lr.fmain
  pub pages : np.nr_subpages_per_page ≤ length lr.fmain
  pub lpas : np.nr_subpages_per_page ≤ length lr.logaddr.lpa
  pub oobs : np.nr_subpages_per_page ≤ length lr.foob

-- What becomes of a read: it goes to the page of its data, or it is a dummy.
pub data Place (p : PageFtl) (lpa : ℕ) (old new : LlmReq) : Type 0 where
  found :
      (ppa : PhyAddr) (sp : ℕ) (old_kp new_kp : KernelPage)
      → get_ppa lpa p ≡ some (some (ppa, sp), 0)
      → new.req_type ≡ reqtype_read
      → new.phyaddr ≡ ppa
      → get_elem? old.fmain old.logaddr.ofs ≡ some old_kp
      → get_elem? new.fmain sp ≡ some new_kp
      → new_kp.kp_ptr ≡ old_kp.kp_ptr
      → (old_kp.kp_stt ≡ kp_stt_data → new_kp.kp_stt ≡ kp_stt_data)
      → Place p lpa old new
  missing :
      (o : Option (PhyAddr × ℕ))
      → get_ppa lpa p ≡ some (o, 1)
      → new.req_type ≡ reqtype_read_dummy
      → new.fmain ≡ old.fmain
      → Place p lpa old new

pub record Looked (p : PageFtl) (old new : LlmReq) : Type 0 where
  pub lpa : ℕ
  pub first_lpa : get_elem? old.logaddr.lpa 0 ≡ some lpa
  pub place : Place p lpa old new
  pub spare :
      (j : ℕ) → j < p.np.nr_subpages_per_page → get_elem? new.foob j ≡ get_elem? old.logaddr.lpa j

module _ {F : Type 0} (ftl : FtlInf F) where
  map_llm_req-read :
      (np : DeviceParams) (lr : LlmReq) (f : F) (lpa : ℕ) (r : Option (PhyAddr × ℕ) × ℕ)
      → lr.req_type ≡ reqtype_read
      → get_elem? lr.logaddr.lpa 0 ≡ some lpa
      → ftl.get_ppa lpa f ≡ some r
      → map_llm_req ftl np lr f ≡ (
          locate_read ftl r lr >>= λ l.
          setup_oob np.nr_subpages_per_page 0 l.logaddr.lpa l.foob >>= λ foob.
          some (f, record l { foob = foob }, 0))
  unfolding map_llm_req locate
  map_llm_req-read np lr f lpa r is_read at look =
      rw (is_read, at, look)
        (two_steps (locate_read ftl r (record lr { req_type = reqtype_read })) (λ l. (f, l, 0)) _)

module _ (do_gc : PageFtl → Option (PageFtl × ℕ)) where
  abbrev ftl : FtlInf PageFtl
  ftl = ftl_page_ftl do_gc

  module _ (p : PageFtl) (ok : IsFtl p) where
    -- The request after the lookup, with the spare area to come
    located :
        (lr : LlmReq) (lpa : ℕ) (r : Option (PhyAddr × ℕ) × ℕ)
        → IsReadReq p.np lr
        → get_ppa lpa p ≡ some r
        → Lookup p r
        → Returns
            (λ l.
              (l.logaddr ≡ lr.logaddr)
              × (l.foob ≡ lr.foob)
              × ((foob : List ℕ) → Place p lpa lr (record l { foob = foob })))
            (locate_read ftl r lr)
    located lr lpa r read look (miss o e) =
        rw e (refl, refl, λ foob. missing o (look ∙ ap some e) refl refl)
    located lr lpa r read look (hit ppa sp e inside) = rw e (
        Returns-mono (Moved (record lr { phyaddr = ppa }) sp) _
          (relocate_kp sp (record lr { phyaddr = ppa }))
          (λ l _ m. (
            ap (λ (x : LlmReq). x.logaddr) m.rest_kept,
            ap (λ (x : LlmReq). x.foob) m.rest_kept,
            λ foob.
                found ppa sp m.old_kp m.new_kp (look ∙ ap some e)
                  (ap (λ (x : LlmReq). x.req_type) m.rest_kept ∙ read.plain_read)
                  (ap (λ (x : LlmReq). x.phyaddr) m.rest_kept) m.at_ofs
                  (ap (λ (x : LlmReq). get_elem? x.fmain sp) m.rest_kept ∙ m.at_sp) m.same_ptr
                  m.still_data,
          ))
          (relocate_kp-Moved (record lr { phyaddr = ppa }) sp (omega (arith, read.pages))
            read.ofs_in))

    map_llm_req-Looked :
        (lr : LlmReq)
        → IsReadReq p.np lr
        → Returns (λ r. (r.0 ≡ p) × (r.2 ≡ 0) × Looked p lr r.1) (map_llm_req ftl p.np lr p)
    map_llm_req-Looked lr read =
        let some_subpage : 0 < p.np.nr_subpages_per_page =
          subst (λ (x : DeviceParams). 0 < x.nr_subpages_per_page) ok.same_np
            ok.abm.geometry.subpages_pos in
        let (lpa, at) = get_elem?_of_lt lr.logaddr.lpa 0 (omega (arith, read.lpas)) in
        looked lpa at (get_ppa lpa p) refl (get_ppa-Lookup p lpa ok)
      where
        looked :
            (lpa : ℕ)
            → get_elem? lr.logaddr.lpa 0 ≡ some lpa
            → (o : Option (Option (PhyAddr × ℕ) × ℕ)) → get_ppa lpa p ≡ o
            → Returns (Lookup p) o
            → Returns (λ r. (r.0 ≡ p) × (r.2 ≡ 0) × Looked p lr r.1) (map_llm_req ftl p.np lr p)
        looked lpa at none e h = elim h [ ]
        looked lpa at (some r) e h =
            rw (map_llm_req-read ftl p.np lr p lpa r read.plain_read at e) (
              Returns-bind _ _ (locate_read ftl r lr) _ (located lr lpa r read e h) λ l _ c.
                let lpas : length l.logaddr.lpa ≡ length lr.logaddr.lpa =
                  ap (λ (x : LogAddr). length x.lpa) c.0 in
                let oobs : length l.foob ≡ length lr.foob = ap length c.1 in
                Returns-bind _ _ (setup_oob p.np.nr_subpages_per_page 0 l.logaddr.lpa l.foob) _
                  (setup_oob-Filled p.np.nr_subpages_per_page 0 l.logaddr.lpa l.foob
                    (omega (arith, read.lpas)) (omega (arith, read.oobs)))
                  λ foob _ f. (
                    refl,
                    refl,
                    record {
                      lpa = lpa;
                      first_lpa = at;
                      place = c.2 foob;
                      spare = λ j inside.
                          f.copied j (omega arith) (omega arith)
                          ∙ ap (λ (x : LogAddr). get_elem? x.lpa j) c.0;
                    },
                  ))

    -- What the loop makes of its first `n` requests
    abbrev pub AllLooked : ℕ → List LlmReq → List LlmReq → Type 0
    AllLooked n lrs news =
        (k : ℕ)
        → k < n
        → (old : LlmReq) × (new : LlmReq) × (get_elem? lrs k ≡ some old)
          × (get_elem? news k ≡ some new)
          × Looked p old new

    map_llm_reqs-AllLooked :
        (n : ℕ) (lrs : List LlmReq)
        → n ≤ length lrs
        → Every (λ _. IsReadReq p.np) lrs
        → Returns (λ r. (r.0 ≡ p) × (r.2 ≡ 0) × AllLooked n lrs r.1) (map_llm_reqs ftl p.np n lrs p)
    unfolding map_llm_reqs
    map_llm_reqs-AllLooked zero lrs long each = (refl, refl, λ k h. absurd (omega arith))
    map_llm_reqs-AllLooked (suc n) [] long each = absurd (omega arith)
    map_llm_reqs-AllLooked (suc n) (lr ∷ lrs) long each =
        Returns-bind _ _ (map_llm_req ftl p.np lr p) _ (map_llm_req-Looked lr (each 0 lr refl))
          λ r _ l.
            rw (l.1, l.0)
              (Returns-bind _ _ (map_llm_reqs ftl p.np n lrs p) _
                (map_llm_reqs-AllLooked n lrs (omega arith) (λ k a e. each (suc k) a e))
                λ q _ h. (h.0, h.1, joined r q l.2 h.2))
      where
        joined :
            (r : PageFtl × LlmReq × ℕ) (q : PageFtl × List LlmReq × ℕ)
            → Looked p lr r.1
            → AllLooked n lrs q.1
            → AllLooked (suc n) (lr ∷ lrs) (r.1 ∷ q.1)
        joined r q l h zero inside = (lr, r.1, refl, refl, l)
        joined r q l h (suc k) inside = h k (omega arith)

-- What is sent for a request of reads
pub record ReadsSent {M : Type 0} (llm : LlmInf M) (p : PageFtl) (hr : HlmReq) (m : M)
    (r : PageFtl × M × HlmReq × ℕ) : Type 0 where
  pub succeeds : r.3 ≡ 0
  pub ftl_kept : r.0 ≡ p
  pub request_kept : r.2 ≡ record hr { llm_reqs = r.2.llm_reqs }
  pub sent : Sent llm r.2 m r.1
  pub all_looked :
      (k : ℕ)
      → k < hr.nr_llm_reqs
      → (old : LlmReq) × (new : LlmReq) × (get_elem? hr.llm_reqs k ≡ some old)
        × (get_elem? r.2.llm_reqs k ≡ some new)
        × Looked p old new

covered :
    (p : PageFtl) (lrs : List LlmReq) (n : ℕ) (news : List LlmReq)
    → ((k : ℕ)
        → k < n
        → (old : LlmReq) × (new : LlmReq) × (get_elem? lrs k ≡ some old)
          × (get_elem? news k ≡ some new)
          × Looked p old new)
    → n ≤ length news
covered p lrs zero news h = omega arith
covered p lrs (suc n) news h = let l = h n (omega arith) in get_elem?-lt news n l.3

-- __hlm_nobuf_make_rw_req with the page-level FTL in a state that satisfies its invariant, and with a
-- low-level manager that takes every request, for low-level requests that are all normal reads with an
-- entry for each subpage: it runs through, returns 0, leaves the FTL as it is and hands the requests on, one after
-- the other, or in one call if the manager has a make_reqs, each call returning 0.
-- Each of them is sent to the page where h4h_page_ftl_get_ppa finds its address, with the kernel page that
-- the host reads into at the subpage of the data, or has become a dummy read if nothing is found; its
-- spare area names its logical addresses.
pub make_rw_req-ReadsSent :
    {M : Type 0} (llm : LlmInf M) (do_gc : PageFtl → Option (PageFtl × ℕ)) (p : PageFtl)
    (hr : HlmReq) (m : M)
    → Accepts llm
    → IsFtl p
    → hr.nr_llm_reqs ≤ length hr.llm_reqs
    → Every (λ _. IsReadReq p.np) hr.llm_reqs
    → Returns (ReadsSent llm p hr m) (make_rw_req (ftl_page_ftl do_gc) llm p.np hr p m)
unfolding make_rw_req
make_rw_req-ReadsSent llm do_gc p hr m accepts ok long each =
    Returns-bind _ _ (map_llm_reqs (ftl_page_ftl do_gc) p.np hr.nr_llm_reqs hr.llm_reqs p) _
      (map_llm_reqs-AllLooked do_gc p ok hr.nr_llm_reqs hr.llm_reqs long each)
      λ r _ l. rw l.1 (
        Returns-bind (Sent llm (record hr { llm_reqs = r.1 }) m) _
          (send_reqs llm (record hr { llm_reqs = r.1 }) m) _
          (send_reqs-Sent llm accepts (record hr { llm_reqs = r.1 }) m
            (covered p hr.llm_reqs hr.nr_llm_reqs r.1 l.2))
          λ m' e h. record {
            succeeds = refl;
            ftl_kept = l.0;
            request_kept = refl;
            sent = h;
            all_looked = l.2;
          })
