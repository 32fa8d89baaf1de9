-- ===== src/HlmNobuf/Writes.antt =====
-- Normal writes on their way through ftl/hlm_nobuf.c to the FTL of ftl/algo/page_ftl.c.
use h4h.Base.{
  ℕ, zero, suc, ◌<◌, ◌≤◌, ◌≡◌, refl, ap, subst, ◌∙◌, List, [], ◌∷◌, Option, none, some, get_elem?,
  get_elem?-lt, get_elem?_of_lt, length, Every, ◌==◌, true, false, if◌then◌else◌, arith, Returns,
  Returns-bind, ◌>>=◌,
}
use h4h.Params.{DeviceParams}
use h4h.PageFtl.{PhyAddr, PageFtl}
use h4h.PageFtl.Ops.{get_ppa}
use h4h.PageFtl.State.{IsFtl}
use h4h.Request.{LlmReq, HlmReq, reqtype_write}
use h4h.FtlInf.{FtlInf, LlmInf, ftl_page_ftl}
use h4h.HlmNobuf.Lookup.{Lookup, hit, miss, get_ppa-Lookup, setup_oob-Filled}
use h4h.HlmNobuf.Send.{Accepts, Sent, send_reqs-Sent}
use h4h.HlmNobuf.{setup_oob, locate, map_llm_req, map_llm_reqs, send_reqs, make_rw_req, looked_up}

-- A write as the request pool makes it, with arrays that have an entry for each subpage of a page
pub record IsWriteReq (np : DeviceParams) (lr : LlmReq) : Type 0 where
  pub plain_write : lr.req_type ≡ reqtype_write
  pub lpas : np.nr_subpages_per_page ≤ length lr.logaddr.lpa
  pub oobs : np.nr_subpages_per_page ≤ length lr.foob

-- A write goes to the page where its address is mapped.
pub record Addressed (p : PageFtl) (old new : LlmReq) : Type 0 where
  pub lpa : ℕ
  pub first_lpa : get_elem? old.logaddr.lpa 0 ≡ some lpa
  pub ppa : PhyAddr
  pub sp : ℕ
  pub mapped : get_ppa lpa p ≡ some (some (ppa, sp), 0)
  pub goes_there : new.phyaddr ≡ ppa
  pub same_data : new.fmain ≡ old.fmain
  pub spare :
      (j : ℕ) → j < p.np.nr_subpages_per_page → get_elem? new.foob j ≡ get_elem? old.logaddr.lpa j

-- Its address is not mapped.
pub record Unwritten (p : PageFtl) (old : LlmReq) : Type 0 where
  pub lpa : ℕ
  pub first_lpa : get_elem? old.logaddr.lpa 0 ≡ some lpa
  pub left : Option (PhyAddr × ℕ)
  pub not_found : get_ppa lpa p ≡ some (left, 1)

module _ {F : Type 0} (ftl : FtlInf F) (np : DeviceParams) (lr : LlmReq) (f : F) (lpa : ℕ)
    (e : lr.req_type ≡ reqtype_write) (at : get_elem? lr.logaddr.lpa 0 ≡ some lpa) where
  map_llm_req-mapped :
      (ppa : PhyAddr) (sp : ℕ)
      → ftl.get_ppa lpa f ≡ some (some (ppa, sp), 0)
      → map_llm_req ftl np lr f ≡ (
          setup_oob np.nr_subpages_per_page 0 lr.logaddr.lpa lr.foob >>= λ foob.
          some (f, record lr { phyaddr = ppa; foob = foob }, 0))
  unfolding map_llm_req locate
  map_llm_req-mapped ppa sp look = rw (e, at, look) refl

  map_llm_req-unmapped :
      (o : Option (PhyAddr × ℕ))
      → ftl.get_ppa lpa f ≡ some (o, 1)
      → map_llm_req ftl np lr f ≡ some (f, record lr { phyaddr = looked_up o lr.phyaddr }, 1)
  unfolding map_llm_req locate
  map_llm_req-unmapped o look = rw (e, at, look) refl

module _ (do_gc : PageFtl → Option (PageFtl × ℕ)) (p : PageFtl) (ok : IsFtl p) where
  abbrev ftl : FtlInf PageFtl
  ftl = ftl_page_ftl do_gc

  data OneWrite (lr : LlmReq) (r : PageFtl × LlmReq × ℕ) : Type 0 where
    goes : r.0 ≡ p → r.2 ≡ 0 → Addressed p lr r.1 → OneWrite lr r
    fails : r.0 ≡ p → r.2 ≡ 1 → Unwritten p lr → OneWrite lr r

  map_llm_req-OneWrite :
      (lr : LlmReq) → IsWriteReq p.np lr → Returns (OneWrite lr) (map_llm_req ftl p.np lr p)
  map_llm_req-OneWrite lr write =
      let some_subpage : 0 < p.np.nr_subpages_per_page =
        subst (λ (x : DeviceParams). 0 < x.nr_subpages_per_page) ok.same_np
          ok.abm.geometry.subpages_pos in
      let (lpa, at) = get_elem?_of_lt lr.logaddr.lpa 0 (omega (arith, write.lpas)) in
      looked lpa at (get_ppa lpa p) refl (get_ppa-Lookup p lpa ok)
    where
      placed :
          (lpa : ℕ) (r : Option (PhyAddr × ℕ) × ℕ)
          → get_elem? lr.logaddr.lpa 0 ≡ some lpa
          → get_ppa lpa p ≡ some r
          → Lookup p r
          → Returns (OneWrite lr) (map_llm_req ftl p.np lr p)
      placed lpa r at look (miss o e) =
          rw (map_llm_req-unmapped ftl p.np lr p lpa write.plain_write at o (look ∙ ap some e)) (
            fails refl refl
              (record { lpa = lpa; first_lpa = at; left = o; not_found = look ∙ ap some e }))
      placed lpa r at look (hit ppa sp e inside) =
          rw (map_llm_req-mapped ftl p.np lr p lpa write.plain_write at ppa sp (look ∙ ap some e)) (
            Returns-bind _ (OneWrite lr)
              (setup_oob p.np.nr_subpages_per_page 0 lr.logaddr.lpa lr.foob) _
              (setup_oob-Filled p.np.nr_subpages_per_page 0 lr.logaddr.lpa lr.foob
                (omega (arith, write.lpas)) (omega (arith, write.oobs)))
              λ foob _ f. goes refl refl (record {
                lpa = lpa;
                first_lpa = at;
                ppa = ppa;
                sp = sp;
                mapped = look ∙ ap some e;
                goes_there = refl;
                same_data = refl;
                spare = λ j h. f.copied j (omega arith) (omega arith);
              }))

      looked :
          (lpa : ℕ)
          → get_elem? lr.logaddr.lpa 0 ≡ some lpa
          → (o : Option (Option (PhyAddr × ℕ) × ℕ)) → get_ppa lpa p ≡ o
          → Returns (Lookup p) o
          → Returns (OneWrite lr) (map_llm_req ftl p.np lr p)
      looked lpa at none e h = elim h [ ]
      looked lpa at (some r) e h = placed lpa r at e h

  -- All writes go somewhere, or one of them fails.
  data AllWrites (n : ℕ) (lrs : List LlmReq) (r : PageFtl × List LlmReq × ℕ) : Type 0 where
    all_go :
        r.0 ≡ p
        → r.2 ≡ 0
        → ((k : ℕ)
            → k < n
            → (old : LlmReq) × (new : LlmReq) × (get_elem? lrs k ≡ some old)
              × (get_elem? r.1 k ≡ some new)
              × Addressed p old new)
        → AllWrites n lrs r
    one_fails :
        (k : ℕ) (old : LlmReq)
        → r.0 ≡ p
        → r.2 ≡ 1
        → k < n
        → get_elem? lrs k ≡ some old
        → Unwritten p old
        → AllWrites n lrs r

  map_llm_reqs-AllWrites :
      (n : ℕ) (lrs : List LlmReq)
      → n ≤ length lrs
      → Every (λ _. IsWriteReq p.np) lrs
      → Returns (AllWrites n lrs) (map_llm_reqs ftl p.np n lrs p)
  unfolding map_llm_reqs
  map_llm_reqs-AllWrites zero lrs long each = all_go refl refl (λ k h. absurd (omega arith))
  map_llm_reqs-AllWrites (suc n) [] long each = absurd (omega arith)
  map_llm_reqs-AllWrites (suc n) (lr ∷ lrs) long each =
      Returns-bind (OneWrite lr) _ (map_llm_req ftl p.np lr p) _
        (map_llm_req-OneWrite lr (each 0 lr refl))
        λ r _ w. after (map_llm_reqs-AllWrites n lrs (omega arith) (λ k b e. each (suc k) b e)) r w
    where
      joined :
          (l : LlmReq) (news : List LlmReq)
          → Addressed p lr l
          → ((k : ℕ)
              → k < n
              → (old : LlmReq) × (new : LlmReq) × (get_elem? lrs k ≡ some old)
                × (get_elem? news k ≡ some new)
                × Addressed p old new)
          → (k : ℕ) → k < suc n
          → (old : LlmReq) × (new : LlmReq) × (get_elem? (lr ∷ lrs) k ≡ some old)
            × (get_elem? (l ∷ news) k ≡ some new)
            × Addressed p old new
      joined l news a h zero inside = (lr, l, refl, refl, a)
      joined l news a h (suc k) inside = h k (omega arith)

      later :
          (l : LlmReq) (q : PageFtl × List LlmReq × ℕ)
          → Addressed p lr l
          → AllWrites n lrs q
          → AllWrites (suc n) (lr ∷ lrs) (q.0, l ∷ q.1, q.2)
      later l q a (all_go same ret each) = all_go same ret (joined l q.1 a each)
      later l q a (one_fails k old same ret h at u) =
          one_fails (suc k) old same ret (omega arith) at u

      after :
          Returns (AllWrites n lrs) (map_llm_reqs ftl p.np n lrs p)
          → (r : PageFtl × LlmReq × ℕ) → OneWrite lr r
          → Returns (AllWrites (suc n) (lr ∷ lrs)) (elim (r.2 == 0) [
            | true ↦ map_llm_reqs ftl p.np n lrs r.0 >>= λ q. some (q.0, r.1 ∷ q.1, q.2)
            | false ↦ some (r.0, r.1 ∷ lrs, 1)
          ])
      after rest r (fails same ret u) = rw ret (one_fails 0 lr same refl (omega arith) refl u)
      after rest r (goes same ret a) =
          rw (ret, same)
            (Returns-bind (AllWrites n lrs) _ (map_llm_reqs ftl p.np n lrs p) _ rest
              λ q _ w. later r.1 q a w)

-- What becomes of a request of writes: it is sent, or a write has no place and nothing is sent.
pub data WritesSent {M : Type 0} (llm : LlmInf M) (p : PageFtl) (hr : HlmReq) (m : M)
    (r : PageFtl × M × HlmReq × ℕ) : Type 0 where
  sent :
      r.0 ≡ p
      → r.3 ≡ 0
      → Sent llm r.2 m r.1
      → ((k : ℕ)
          → k < hr.nr_llm_reqs
          → (old : LlmReq) × (new : LlmReq) × (get_elem? hr.llm_reqs k ≡ some old)
            × (get_elem? r.2.llm_reqs k ≡ some new)
            × Addressed p old new)
      → WritesSent llm p hr m r
  refused :
      (k : ℕ) (old : LlmReq)
      → r.0 ≡ p
      → r.3 ≡ 1
      → r.1 ≡ m
      → k < hr.nr_llm_reqs
      → get_elem? hr.llm_reqs k ≡ some old
      → Unwritten p old
      → WritesSent llm p hr m r

-- __hlm_nobuf_make_rw_req with the page-level FTL in a state that satisfies its invariant, and with a
-- low-level manager that takes every request, for low-level requests that are all normal writes with an
-- entry for each subpage: it runs through and leaves the FTL as it is. Either it returns 0 and hands all
-- requests on, one after the other, or in one call if the manager has a make_reqs, each addressed to the page where h4h_page_ftl_get_ppa finds its address, with its data and
-- its logical addresses in the spare area; or it returns 1, hands nothing on, and one of the requests is
-- for an address that is not mapped.
pub make_rw_req-WritesSent :
    {M : Type 0} (llm : LlmInf M) (do_gc : PageFtl → Option (PageFtl × ℕ)) (p : PageFtl)
    (hr : HlmReq) (m : M)
    → Accepts llm
    → IsFtl p
    → hr.nr_llm_reqs ≤ length hr.llm_reqs
    → Every (λ _. IsWriteReq p.np) hr.llm_reqs
    → Returns (WritesSent llm p hr m) (make_rw_req (ftl_page_ftl do_gc) llm p.np hr p m)
unfolding make_rw_req
make_rw_req-WritesSent llm do_gc p hr m accepts ok long each =
    Returns-bind (AllWrites do_gc p ok hr.nr_llm_reqs hr.llm_reqs) _
      (map_llm_reqs (ftl_page_ftl do_gc) p.np hr.nr_llm_reqs hr.llm_reqs p) _
      (map_llm_reqs-AllWrites do_gc p ok hr.nr_llm_reqs hr.llm_reqs long each) λ r _ w. after r w
  where
    filled :
        (n : ℕ) (news : List LlmReq)
        → ((k : ℕ)
            → k < n
            → (old : LlmReq) × (new : LlmReq) × (get_elem? hr.llm_reqs k ≡ some old)
              × (get_elem? news k ≡ some new)
              × Addressed p old new)
        → n ≤ length news
    filled zero news h = omega arith
    filled (suc n) news h = let l = h n (omega arith) in get_elem?-lt news n l.3

    after :
        (r : PageFtl × List LlmReq × ℕ)
        → AllWrites do_gc p ok hr.nr_llm_reqs hr.llm_reqs r
        → Returns (WritesSent llm p hr m) (
            let hr' = record hr { llm_reqs = r.1 } in
            if r.2 == 0
            then (send_reqs llm hr' m >>= λ m'. some (r.0, m', hr', 0))
            else some (r.0, m, hr', 1))
    after r (one_fails k old same ret h at u) = rw ret (refused k old same refl refl h at u)
    after r (all_go same ret each) = rw ret (
        Returns-bind (Sent llm (record hr { llm_reqs = r.1 }) m) _
          (send_reqs llm (record hr { llm_reqs = r.1 }) m) _
          (send_reqs-Sent llm accepts (record hr { llm_reqs = r.1 }) m
            (filled hr.nr_llm_reqs r.1 each))
          λ m' e h. sent same refl h each)
