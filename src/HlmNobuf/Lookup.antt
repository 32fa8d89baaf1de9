-- ===== src/HlmNobuf/Lookup.antt =====
-- The steps of ftl/hlm_nobuf.c on one request: what the FTL of ftl/algo/page_ftl.c answers, the kernel
-- page that goes to its subpage, and the spare area.
use native.Mathlib.Decide.{ℕ_discrete}
use h4h.Base.{
  ℕ, zero, suc, ◌+◌, ◌<◌, ◌≤◌, ◌≡◌, inl, inr, refl, sym, ap, subst, ◌∙◌, Bool-cases, true, leb,
  ==_ne, ◌==◌, List, Option, none, some, get_elem?, set, get_elem?_of_lt, get_elem?-set_self,
  get_elem?-set_ne, length, length-set, arith, Returns, Returns-mono,
}
use h4h.Params.{DeviceParams}
use h4h.PageFtl.{PhyAddr, PageFtl, is_valid}
use h4h.PageFtl.Ops.{get_ppa}
use h4h.PageFtl.State.{IsFtl}
use h4h.Request.{LlmReq, KernelPage, kp_stt_data}
use h4h.ReqsPool.Pages.{relocate_kp}
use h4h.HlmNobuf.{setup_oob}

-- What a lookup gives
pub data Lookup (p : PageFtl) (r : Option (PhyAddr × ℕ) × ℕ) : Type 0 where
  hit :
      (ppa : PhyAddr) (sp : ℕ)
      → r ≡ (some (ppa, sp), 0)
      → sp < p.np.nr_subpages_per_page
      → Lookup p r
  miss : (o : Option (PhyAddr × ℕ)) → r ≡ (o, 1) → Lookup p r

pub get_ppa-Lookup : (p : PageFtl) (lpa : ℕ) → IsFtl p → Returns (Lookup p) (get_ppa lpa p)
unfolding get_ppa
get_ppa-Lookup p lpa ok = elim (Bool-cases (leb p.np.nr_subpages_per_ssd lpa)) [
  | inl beyond ↦ rw beyond (miss none refl)
  | inr inside ↦
      let size =
        ok.table.table_size ∙ ap (λ (x : DeviceParams). x.nr_subpages_per_ssd) ok.same_np in
      let (me, at) = get_elem?_of_lt p.ptr_mapping_table lpa (ground arith) in
      elim (Bool-cases (is_valid me.status)) [
        | inr gone ↦ rw (inside, at, gone) (miss _ refl)
        | inl there ↦
            let mapped = ok.table.mapped lpa me at (ground arith) in
            rw (inside, at, there)
              (hit _ me.sp_off refl (
                subst (λ (x : DeviceParams). me.sp_off < x.nr_subpages_per_page) ok.same_np
                  mapped.place.sub_in))
      ]
]

-- The spare area from entry `j` on is that of the logical addresses.
pub record Filled (j n : ℕ) (lpas foob out : List ℕ) : Type 0 where
  pub same_length : length out ≡ length foob
  pub below : (k : ℕ) → k < j → get_elem? out k ≡ get_elem? foob k
  pub copied : (k : ℕ) → j ≤ k → k < j + n → get_elem? out k ≡ get_elem? lpas k

pub setup_oob-Filled :
    (n j : ℕ) (lpas foob : List ℕ)
    → j + n ≤ length lpas
    → j + n ≤ length foob
    → Returns (Filled j n lpas foob) (setup_oob n j lpas foob)
unfolding setup_oob
setup_oob-Filled zero j lpas foob a b = record {
  same_length = refl;
  below = λ k h. refl;
  copied = λ k lo hi. absurd (omega arith);
}
setup_oob-Filled (suc n) j lpas foob a b =
    let (lpa, at) = get_elem?_of_lt lpas j (omega arith) in
    let (old, there) = get_elem?_of_lt foob j (omega arith) in
    let sized = length-set foob j lpa in
    rw (at, there)
      (Returns-mono (Filled (suc j) n lpas (set foob j lpa)) _
        (setup_oob n (suc j) lpas (set foob j lpa))
        (λ out _ f. record {
          same_length = f.same_length ∙ sized;
          below = λ k h. f.below k (omega arith) ∙ get_elem?-set_ne foob j k lpa (λ e. omega arith);
          copied = λ k lo hi. elim (ℕ_discrete j k) [
            | yes same ↦
                rw (← same)
                  (f.below j (omega arith) ∙ get_elem?-set_self foob j lpa (omega arith) ∙ sym at)
            | no ne ↦ f.copied k (omega arith) (omega arith)
          ];
        })
        (setup_oob-Filled n (suc j) lpas (set foob j lpa) (omega arith) (omega arith)))

-- The kernel page of a request after it has gone to subpage `sp`
pub record Moved (lr : LlmReq) (sp : ℕ) (new : LlmReq) : Type 0 where
  pub fmain : List KernelPage
  pub rest_kept : new ≡ record lr { fmain = fmain }
  pub old_kp : KernelPage
  pub new_kp : KernelPage
  pub at_ofs : get_elem? lr.fmain lr.logaddr.ofs ≡ some old_kp
  pub at_sp : get_elem? fmain sp ≡ some new_kp
  pub same_ptr : new_kp.kp_ptr ≡ old_kp.kp_ptr
  pub still_data : old_kp.kp_stt ≡ kp_stt_data → new_kp.kp_stt ≡ kp_stt_data

pub relocate_kp-Moved :
    (lr : LlmReq) (sp : ℕ)
    → sp < length lr.fmain
    → lr.logaddr.ofs < length lr.fmain
    → Returns (Moved lr sp) (relocate_kp sp lr)
unfolding relocate_kp
relocate_kp-Moved lr sp a b =
    let (old, at) = get_elem?_of_lt lr.fmain lr.logaddr.ofs b in
    let (new, there) = get_elem?_of_lt lr.fmain sp a in
    elim (ℕ_discrete sp lr.logaddr.ofs) [
      | yes same ↦
          let equal : (sp == lr.logaddr.ofs) ≡ true = ground arith in
          rw equal (record {
            fmain = lr.fmain;
            rest_kept = refl;
            old_kp = old;
            new_kp = old;
            at_ofs = at;
            at_sp = rw same at;
            same_ptr = refl;
            still_data = λ d. d;
          })
      | no ne ↦
          rw (==_ne sp lr.logaddr.ofs ne, at, there)
            (record {
              fmain = _;
              rest_kept = refl;
              old_kp = old;
              new_kp = record new { kp_stt = kp_stt_data; kp_ptr = old.kp_ptr };
              at_ofs = at;
              at_sp =
                  get_elem?-set_ne (set lr.fmain sp _) lr.logaddr.ofs sp _ (λ e. ne (sym e))
                  ∙ get_elem?-set_self lr.fmain sp _ a;
              same_ptr = refl;
              still_data = λ _. refl;
            })
    ]
