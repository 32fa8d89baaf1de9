-- ===== src/PageFtl/State/Start.antt =====
-- h4h_page_ftl_create of ftl/algo/page_ftl.c.
use native.Mathlib.Nat.{mod-eq_of_lt}
use h4h.Base.{
  ℕ, ◌*◌, ◌+◌, ◌^◌, ◌<◌, ◌≡◌, ◌≢◌, refl, ap, ◌∙◌, Bool-cases, inl, inr, true, none, some, arith,
  get_elem?, get_elem?_of_lt, replicate, length-replicate, Returns, Returns-bind, mul64, leb,
}
use h4h.Params.{DeviceParams, IsGeometry}
use h4h.Abm.{Abm, Block, clean, abm_create}
use h4h.PageFtl.Take.{NonePrepared}
use h4h.Abm.Valid.Create.{abm_create-Created}
use h4h.PageFtl.{
  valid, MappingEntry, PageFtl, unmapped, create_mapping_table, punits, get_active_blocks,
  page_ftl_create,
}
use h4h.PageFtl.Ops.{get_ppa}
use h4h.PageFtl.State.{IsTable, IsFtl}
use h4h.PageFtl.State.Alloc.{Renewed, get_active_blocks-Renewed}
use h4h.PageFtl.State.Turn.{
  get-replicate, punits_small, punits_pos, length-punits, Renewed-IsActive, Renewed-FreshAt,
}

-- The active block of a new device: nothing was written to it.
pub record FirstBlock (p : PageFtl) (channel chip : ℕ) : Type 0 where
  pub index : ℕ
  pub block : Block
  pub pointer : get_elem? p.ac_bab (channel * p.np.nr_chips_per_channel + chip) ≡ some (some index)
  pub there : get_elem? p.bai.blocks index ≡ some block
  pub is_clean : block.status ≡ clean
  pub on_channel : block.channel_no ≡ channel
  pub on_chip : block.chip_no ≡ chip
  pub unwritten : block.offset ≡ 0
  pub unerased : block.erase_count ≡ 0
  pub no_invalid : block.nr_invalid_subpages ≡ 0

pub record Started (np : DeviceParams) (p : PageFtl) : Type 0 where
  pub is_ftl : IsFtl p
  pub for_device : p.np ≡ np
  pub first_unit : p.curr_puid ≡ 0
  pub first_page : p.curr_page_ofs ≡ 0
  pub first_blocks :
      (channel chip : ℕ)
      → channel < p.np.nr_channels
      → chip < p.np.nr_chips_per_channel
      → FirstBlock p channel chip
  pub nothing_mapped : (lpa : ℕ) → Returns (λ q. q.1 ≡ 1) (get_ppa lpa p)

module _ (np : DeviceParams) (g : IsGeometry np) where
  nr_punits_eq :
      mul64 np.nr_chips_per_channel np.nr_channels ≡ np.nr_channels * np.nr_chips_per_channel
  nr_punits_eq =
      let comm : np.nr_chips_per_channel * np.nr_channels
          ≡ np.nr_channels * np.nr_chips_per_channel =
        omega arith in
      rw comm (
        mod-eq_of_lt {n = np.nr_channels * np.nr_chips_per_channel} {m = 2 ^ 64}
          (punits_small np g))

  blank-IsTable : (bai : Abm) → bai.np ≡ np → IsTable bai (create_mapping_table np)
  unfolding create_mapping_table
  blank-IsTable bai e = record {
    table_size = rw e (length-replicate _ unmapped);
    mapped = λ l f at st. absurd (never l f at st);
    separate = λ l m f h at at' st st' same. absurd (never l f at st);
  }
    where
      never :
          (l : ℕ) (f : MappingEntry)
          → get_elem? (replicate np.nr_subpages_per_ssd unmapped) l ≡ some f
          → f.status ≢ valid
      never l f at st =
          let one = get-replicate np.nr_subpages_per_ssd unmapped f l at in
          let bad_status = ap (λ (x : MappingEntry). x.status) one ∙ st in ground arith

  created_np : (abm_create np true).np ≡ np
  unfolding abm_create
  created_np = refl

  created-NonePrepared : NonePrepared (abm_create np true)
  unfolding abm_create
  created-NonePrepared = refl

  -- No address is found in the table of a new device.
  blank_reads :
      (p : PageFtl) (lpa : ℕ)
      → p.np ≡ np
      → p.ptr_mapping_table ≡ create_mapping_table np
      → Returns (λ q. q.1 ≡ 1) (get_ppa lpa p)
  unfolding get_ppa create_mapping_table
  blank_reads p lpa same blank = elim (Bool-cases (leb p.np.nr_subpages_per_ssd lpa)) [
    | inl over ↦ rw over refl
    | inr inside ↦
        let size = ap (λ (x : DeviceParams). x.nr_subpages_per_ssd) same in
        let lt : lpa < np.nr_subpages_per_ssd = ground arith in
        let (e, at) =
          get_elem?_of_lt (replicate np.nr_subpages_per_ssd unmapped) lpa
            (rw length-replicate lt) in
        let one = get-replicate np.nr_subpages_per_ssd unmapped e lpa at in
        rw (inside, blank, at, ← one) refl
  ]

  -- h4h_page_ftl_create on any device geometry runs through without a bug check; if it succeeds, the
  -- state satisfies the invariant, and the next page to be given out is the first page of the first
  -- parallel unit. Every parallel unit has an active block of its own chip, which is clean, never
  -- erased, has its offset at 0 and no invalid subpage, and h4h_page_ftl_get_ppa finds no logical
  -- address.
  pub page_ftl_create-Started :
      Returns (λ (r : PageFtl × ℕ). r.1 ≡ 0 → Started np r.0) (page_ftl_create np)
  unfolding page_ftl_create
  page_ftl_create-Started =
      let bab = replicate (mul64 np.nr_chips_per_channel np.nr_channels) none in
      let made = abm_create-Created np true g in
      Returns-bind (Renewed (abm_create np true) bab (punits np) 0)
        (λ (r : PageFtl × ℕ). r.1 ≡ 0 → Started np r.0)
        (get_active_blocks (punits np) 0 (abm_create np true) bab) _
        (get_active_blocks-Renewed (punits np) 0 (abm_create np true) bab made.is_valid
          created-NonePrepared
          (rw (length-replicate, length-punits np g, nr_punits_eq) (omega arith)))
        λ r eq w ok. record {
          is_ftl = record {
            abm = w.still_valid;
            same_np = w.renews_np ∙ created_np;
            none_prepared = w.still_none_prepared;
            punits_eq = nr_punits_eq;
            puid_in = rw nr_punits_eq (punits_pos np g);
            page_in = g.pages_pos;
            active = Renewed-IsActive np g (abm_create np true) bab r w ok;
            table = blank-IsTable r.0 (w.renews_np ∙ created_np);
          };
          for_device = refl;
          first_unit = refl;
          first_page = refl;
          first_blocks = λ c h hc hh.
              let f = Renewed-FreshAt np g (abm_create np true) bab r w ok c h hc hh in
              let fresh = made.all_fresh f.fresh_index f.fresh_block f.was_there in
              record {
                index = f.fresh_index;
                block = record f.fresh_block { status = clean };
                pointer = f.fresh_pointer;
                there = f.now_clean;
                is_clean = refl;
                on_channel = f.fresh_channel;
                on_chip = f.fresh_chip;
                unwritten = fresh.unwritten;
                unerased = fresh.unerased;
                no_invalid = fresh.no_invalid;
              };
          nothing_mapped = λ lpa. blank_reads _ lpa refl refl;
        }
