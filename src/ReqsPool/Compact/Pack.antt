-- ===== src/ReqsPool/Compact/Pack.antt =====
-- hlm_reqs_pool_write_compaction of ftl/hlm_reqs_pool.c as a whole.
use native.Mathlib.Nat.{div-eq_of_lt-le, add-mul}
use h4h.Base.{
  ℕ, zero, suc, ◌+◌, ◌*◌, ◌/◌, ◌<◌, ◌≤◌, ◌≡◌, refl, sym, ap, subst, ◌∙◌, List, [], ◌∷◌, map, Option,
  none, some, arith, get_elem?, get_elem?_of_lt, get_elem?-lt, get_elem?-map-some, length,
  length-map, Every, Returns, Returns-bind, some-inj, none-ne-some,
}
use h4h.Params.{DeviceParams}
use h4h.Request.{KernelPage, kp_stt_hole, LlmReq}
use h4h.ReqsPool.Pages.{reset_page, reset_fmain, alloc_pad, alloc_fmain_pad}
use h4h.ReqsPool.Build.Llm.{get_elem?-alloc_fmain_pad}
use h4h.ReqsPool.Compact.{HlmReqGc, each_fmain, copy_reqs, gc_size, write_compaction}
use h4h.ReqsPool.Compact.Slots.{look, look_inv, Kept, kept_all, HasSlots}
use h4h.ReqsPool.Compact.Copy.{Filled, Blank, Packed, Copied, copy_reqs-Copied}

-- What a loop on the kernel pages of all requests does
record Mapped (f : ℕ → List KernelPage → List KernelPage) (i : ℕ) (lrs news : List LlmReq)
    : Type 0 where
  same_length : length news ≡ length lrs
  each_new :
      (k : ℕ) (lr : LlmReq)
      → get_elem? lrs k ≡ some lr
      → get_elem? news k ≡ some (record lr { fmain = f (i + k) lr.fmain })

each_fmain-Mapped :
    (f : ℕ → List KernelPage → List KernelPage) (n i : ℕ) (lrs : List LlmReq)
    → length lrs ≡ n
    → Returns (Mapped f i lrs) (each_fmain f n i lrs)
unfolding each_fmain
each_fmain-Mapped f zero i [] e = record { same_length = refl; each_new = λ k lr h. cc (h) }
each_fmain-Mapped f zero i (lr ∷ lrs) e = absurd (omega arith)
each_fmain-Mapped f (suc n) i [] e = absurd (omega arith)
each_fmain-Mapped f (suc n) i (lr ∷ lrs) e =
    Returns-bind (Mapped f (suc i) lrs) (Mapped f i (lr ∷ lrs)) (each_fmain f n (suc i) lrs) _
      (each_fmain-Mapped f n (suc i) lrs (omega arith))
      λ rest _ m. record { same_length = ap suc m.same_length; each_new = later rest m }
  where
    later :
        (rest : List LlmReq)
        → Mapped f (suc i) lrs rest
        → (k : ℕ) (a : LlmReq) → get_elem? (lr ∷ lrs) k ≡ some a
        → get_elem? (record lr { fmain = f i lr.fmain } ∷ rest) k
          ≡ some (record a { fmain = f (i + k) a.fmain })
    later rest m zero a h = let same : i + 0 ≡ i = omega arith in rw (same, ← some-inj h) refl
    later rest m (suc k) a h =
        let same : i + suc k ≡ suc i + k = omega arith in rw same (m.each_new k a h)

-- A hole that is backed by memory
pub record Padded (lrs : List LlmReq) (l k : ℕ) : Type 0 where
  pub pad : ℕ
  pub lpa : Option ℕ
  pub oob : Option ℕ
  pub there :
      look lrs l k
      ≡ some (record { kp_stt = kp_stt_hole; kp_ptr = some pad; kp_pad = some pad }, lpa, oob)

-- The data of the source stands in the target, in order and with no gap; what is left over is holes.
pub record Compacted (np : DeviceParams) (src dst : HlmReqGc) : Type 0 where
  pub counted :
      dst.nr_llm_reqs
      ≡ suc (length (kept_all np.nr_subpages_per_page src.llm_reqs) / np.nr_subpages_per_page)
  pub filled :
      (l k : ℕ) (x : Kept)
      → k < np.nr_subpages_per_page
      → get_elem? (kept_all np.nr_subpages_per_page src.llm_reqs) (l * np.nr_subpages_per_page + k)
        ≡ some x
      → Filled dst.llm_reqs l k x
  pub padded :
      (l k : ℕ)
      → l < gc_size np
      → k < np.nr_subpages_per_page
      → length (kept_all np.nr_subpages_per_page src.llm_reqs) ≤ l * np.nr_subpages_per_page + k
      → Padded dst.llm_reqs l k

module _ (n subpages : ℕ) where
  reset-Packed :
      (lrs news : List LlmReq)
      → length lrs ≡ n
      → Every (λ _. HasSlots subpages) lrs
      → Mapped (λ _. reset_fmain) 0 lrs news
      → Packed n subpages [] news
  unfolding reset_fmain look
  reset-Packed lrs news sized has m = record {
    sized = m.same_length ∙ sized;
    each = λ k a e.
        let inside : k < length lrs = rw (← m.same_length) (get_elem?-lt news k e) in
        let (lr, at_k) = get_elem?_of_lt lrs k inside in
        let slots = has k lr at_k in
        let same : record lr { fmain = map reset_page lr.fmain } ≡ a =
          some-inj (sym (m.each_new k lr at_k) ∙ e) in
        subst (HasSlots subpages) same (record {
          pages = rw (length-map reset_page lr.fmain) slots.pages;
          lpas = slots.lpas;
          oobs = slots.oobs;
        });
    filled = λ l k x h e. absurd (none-ne-some e);
    blank = λ l k hl hk h.
        let (lr, e) = get_elem?_of_lt lrs l (omega (arith, sized)) in
        let slots = has l lr e in
        let (kp, at_k) = get_elem?_of_lt lr.fmain k (omega (arith, slots.pages)) in
        record {
          pad = kp.kp_pad;
          lpa = get_elem? lr.logaddr.lpa k;
          oob = get_elem? lr.foob k;
          there = rw (m.each_new l lr e, get_elem?-map-some reset_page lr.fmain k kp at_k) refl;
        };
  }

  look-alloc :
      (h4h_malloc : ℕ → ℕ → ℕ) (lrs news : List LlmReq) (l k : ℕ) {kp : KernelPage}
      {lpa oob : Option ℕ}
      → Mapped (λ i. alloc_fmain_pad (h4h_malloc i) 0) 0 lrs news
      → look lrs l k ≡ some (kp, lpa, oob)
      → look news l k ≡ some (alloc_pad (h4h_malloc (0 + l) (0 + k)) kp, lpa, oob)
  unfolding look
  look-alloc h4h_malloc lrs news l k m e =
      let (lr, there, at_k, lpa_is, oob_is) = look_inv lrs l k e in
      rw
        (
          m.each_new l lr there,
          get_elem?-alloc_fmain_pad (h4h_malloc (0 + l)) 0 lr.fmain k _ at_k,
          lpa_is,
          oob_is,
        )
        refl

  -- Backing the holes with memory leaves the data as it is.
  alloc_Filled :
      (h4h_malloc : ℕ → ℕ → ℕ) (lrs news : List LlmReq) (l k : ℕ) (x : Kept)
      → Mapped (λ i. alloc_fmain_pad (h4h_malloc i) 0) 0 lrs news
      → Filled lrs l k x
      → Filled news l k x
  alloc_Filled h4h_malloc lrs news l k x m f = record {
    pad = f.pad;
    there = look-alloc h4h_malloc lrs news l k m f.there;
  }

  alloc_Padded :
      (h4h_malloc : ℕ → ℕ → ℕ) (lrs news : List LlmReq) (l k : ℕ)
      → Mapped (λ i. alloc_fmain_pad (h4h_malloc i) 0) 0 lrs news
      → Blank lrs l k
      → Padded news l k
  alloc_Padded h4h_malloc lrs news l k m b =
      backed b.pad (look-alloc h4h_malloc lrs news l k m b.there)
    where
      backed :
          (pad : Option ℕ)
          → look news l k
            ≡ some (
              alloc_pad
                  (h4h_malloc (0 + l) (0 + k))
                  (record { kp_stt = kp_stt_hole; kp_ptr = pad; kp_pad = pad }),
              b.lpa,
              b.oob,
            )
          → Padded news l k
      backed none e = record { pad = _; lpa = b.lpa; oob = b.oob; there = e }
      backed (some a) e = record { pad = a; lpa = b.lpa; oob = b.oob; there = e }

-- hlm_reqs_pool_write_compaction, for a source and a target of one request for each page of a block of
-- each parallel unit, with arrays that have an entry for each subpage: it accesses nothing out of range.
-- With the data entries of the source in the order of requests and entries, entry k of request l of the
-- target holds the data with number l * nr_subpages_per_page + k, its logical address and its spare area;
-- every entry from their number on is a hole backed by memory; and nr_llm_reqs is the number of requests
-- that the data fill, plus one.
pub write_compaction-Compacted :
    (h4h_malloc : ℕ → ℕ → ℕ) (np : DeviceParams) (dst src : HlmReqGc)
    → 0 < np.nr_subpages_per_page
    → length dst.llm_reqs ≡ gc_size np
    → length src.llm_reqs ≡ gc_size np
    → Every (λ _. HasSlots np.nr_subpages_per_page) dst.llm_reqs
    → Every (λ _. HasSlots np.nr_subpages_per_page) src.llm_reqs
    → Returns (Compacted np src) (write_compaction h4h_malloc np dst src)
unfolding write_compaction
write_compaction-Compacted h4h_malloc np dst src some_subpage dst_size src_size has_dst has_src =
    let n = gc_size np in
    let subpages = np.nr_subpages_per_page in
    Returns-bind (Mapped (λ _. reset_fmain) 0 dst.llm_reqs) _
      (each_fmain (λ _. reset_fmain) n 0 dst.llm_reqs) _
      (each_fmain-Mapped (λ _. reset_fmain) n 0 dst.llm_reqs dst_size)
      λ blank _ m.
        Returns-bind (Copied n subpages (kept_all subpages src.llm_reqs)) _
          (copy_reqs subpages n src.llm_reqs
            (record { reqs = blank; dst_loop = 0; dst_kp = 0; nr_llm_reqs = 1 }))
          _
          (copy_reqs-Copied n subpages n src.llm_reqs [] _ src_size has_src (omega arith) (record {
            packed = reset-Packed n subpages dst.llm_reqs blank dst_size has_dst m;
            next = omega arith;
            in_req = some_subpage;
            counted = refl;
          }))
          λ c _ d.
            Returns-bind (Mapped (λ i. alloc_fmain_pad (h4h_malloc i) 0) 0 c.reqs) _
              (each_fmain (λ i. alloc_fmain_pad (h4h_malloc i) 0) n 0 c.reqs) _
              (each_fmain-Mapped (λ i. alloc_fmain_pad (h4h_malloc i) 0) n 0 c.reqs d.packed.sized)
              λ news _ a. record {
                counted =
                    d.counted
                    ∙ ap suc (
                        sym (
                          div-eq_of_lt-le subpages (omega (arith, d.next))
                            (omega (arith, d.next, add-mul c.dst_loop 1 subpages, d.in_req))));
                filled = λ l k x h e.
                    alloc_Filled n subpages h4h_malloc c.reqs news l k x a
                      (d.packed.filled l k x h e);
                padded = λ l k hl h e.
                    alloc_Padded n subpages h4h_malloc c.reqs news l k a
                      (d.packed.blank l k hl h e);
              }
