-- ===== src/FtlInf.antt =====
-- The interfaces of include/h4h_drv.h through which the parts of the driver call each other: the FTL and
-- the low-level memory manager, as records of operations on a state of their own.
use h4h.Base.{ℕ, List, Option, some, Bool}
use h4h.Request.{LlmReq, HlmReq}
use h4h.PageFtl.{PhyAddr, PageFtl, get_free_ppa}
use h4h.PageFtl.Ops.{map_lpa_to_ppa, get_ppa, invalidate_lpa, is_gc_needed}

-- h4h_ftl_inf_t, where `none` for is_gc_needed is NULL. get_ppa gives the address and the subpage that it
-- writes to its arguments, if it writes to them, and the error code.
pub record FtlInf (F : Type 0) : Type 0 where
  pub get_free_ppa : ℕ → F → Option (F × PhyAddr × ℕ)
  pub get_ppa : ℕ → F → Option (Option (PhyAddr × ℕ) × ℕ)
  pub map_lpa_to_ppa : List ℕ → PhyAddr → F → Option (F × ℕ)
  pub invalidate_lpa : ℕ → ℕ → F → Option (F × ℕ)
  pub do_gc : ℕ → F → Option (F × ℕ)
  pub is_gc_needed : Option (ℕ → F → Bool)

-- h4h_llm_inf_t, where `none` for make_reqs is NULL
pub record LlmInf (M : Type 0) : Type 0 where
  pub make_req : LlmReq → M → Option (M × ℕ)
  pub make_reqs : Option (HlmReq → M → Option (M × ℕ))

-- _ftl_page_ftl of ftl/algo/page_ftl.c, whose collector is a parameter
abbrev pub ftl_page_ftl : (PageFtl → Option (PageFtl × ℕ)) → FtlInf PageFtl
ftl_page_ftl page_ftl_do_gc = record {
  get_free_ppa = λ lpa p. h4h.PageFtl.get_free_ppa p;
  get_ppa = λ lpa p. h4h.PageFtl.Ops.get_ppa lpa p;
  map_lpa_to_ppa = λ lpas ppa p. h4h.PageFtl.Ops.map_lpa_to_ppa lpas ppa p;
  invalidate_lpa = λ lpa len p. h4h.PageFtl.Ops.invalidate_lpa lpa len p;
  do_gc = λ lpa p. page_ftl_do_gc p;
  is_gc_needed = some (λ lpa p. h4h.PageFtl.Ops.is_gc_needed p);
}
