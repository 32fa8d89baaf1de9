-- ===== src/ReqsPool/Pages.antt =====
-- The kernel pages of a low-level request (ftl/hlm_reqs_pool.c): how they are reset, backed with memory
-- and moved. The arrays of H4H_MAX_PAGES entries are lists, and an access beyond one is a fault.
use h4h.Base.{
  ℕ, zero, suc, ◌-◌, ◌^◌, List, [], ◌∷◌, map, Option, none, some, get_elem?, set, ◌==◌,
  if◌then◌else◌, ◌>>=◌,
}
use h4h.Request.{kp_stt_hole, kp_stt_data, KernelPage, LogAddr, LlmReq}

-- -1 in an array of logical addresses
abbrev pub no_lpa : ℕ
no_lpa = 2 ^ 64 - 1

abbrev pub reset_page : KernelPage → KernelPage
reset_page kp = record kp { kp_stt = kp_stt_hole; kp_ptr = kp.kp_pad }

-- hlm_reqs_pool_reset_fmain
unfoldable pub reset_fmain : List KernelPage → List KernelPage
reset_fmain = map reset_page

abbrev pub alloc_pad : ℕ → KernelPage → KernelPage
alloc_pad addr kp = elim kp.kp_stt [
  | kp_stt_hole ↦ elim kp.kp_pad [
    | none ↦ record kp { kp_pad = some addr; kp_ptr = some addr }
    | some _ ↦ kp
  ]
  | _ ↦ kp
]

-- hlm_reqs_pool_alloc_fmain_pad from entry `i` on; `h4h_malloc` gives the address of the memory that is
-- allocated for entry `i`.
unfoldable pub alloc_fmain_pad : (ℕ → ℕ) → ℕ → List KernelPage → List KernelPage
alloc_fmain_pad h4h_malloc i [] = []
alloc_fmain_pad h4h_malloc i (kp ∷ kps) =
    alloc_pad (h4h_malloc i) kp ∷ alloc_fmain_pad h4h_malloc (suc i) kps

-- hlm_reqs_pool_reset_logaddr
unfoldable pub reset_logaddr : LogAddr → LogAddr
reset_logaddr a = record { lpa = map (λ _. no_lpa) a.lpa; ofs = 0 }

-- A write to an array of the request, which must have the entry
abbrev pub store {ℓ} : {A : Type ℓ} → List A → ℕ → A → Option (List A)
store xs i v = get_elem? xs i >>= λ _. some (set xs i v)

-- hlm_reqs_pool_relocate_kp
unfoldable pub relocate_kp : ℕ → LlmReq → Option LlmReq
relocate_kp new_sp_ofs lr = if new_sp_ofs == lr.logaddr.ofs then some lr else do
  old ← get_elem? lr.fmain lr.logaddr.ofs
  new ← get_elem? lr.fmain new_sp_ofs
  let moved = set lr.fmain new_sp_ofs (record new { kp_stt = kp_stt_data; kp_ptr = old.kp_ptr })
  some (record lr { fmain = set moved lr.logaddr.ofs (reset_page old) })

-- hlm_reqs_pool_allocate_llm_reqs: the entries of `n` requests have no memory of their own yet.
abbrev allocate_llm_reqs : ℕ → List LlmReq → Option (List LlmReq)
allocate_llm_reqs zero lrs = some lrs
allocate_llm_reqs (suc n) [] = none
allocate_llm_reqs (suc n) (lr ∷ lrs) = allocate_llm_reqs n lrs >>= λ rest.
    some
      (record lr { fmain = map (λ (kp : KernelPage). record kp { kp_pad = none }) lr.fmain } ∷ rest)
