-- ===== src/PageFtl/State/Read.antt =====
-- h4h_page_ftl_get_ppa of ftl/algo/page_ftl.c after h4h_page_ftl_map_lpa_to_ppa.
use h4h.Base.{
  ℕ, ◌<◌, ◌≡◌, ◌≢◌, refl, sym, ap, subst, ◌∙◌, ◌^◌, false, [], ◌∷◌, some, arith, get_elem?, set,
  get_elem?_of_lt, get_elem?-set_self, get_elem?-set_ne, get_elem?-lt, Returns, Returns-bind, ◌==◌,
  leb, if◌then◌else◌, ◌>>=◌,
}
use h4h.Params.{DeviceParams}
use h4h.Abm.{Abm}
use h4h.PageFtl.{PhyAddr, is_valid, invalid_addr, MappingEntry, PageFtl, get_punit_id}
use h4h.PageFtl.Ops.{invalidate_entry, mapped_to, map_subpage, map_loop, map_lpa_to_ppa, get_ppa}
use h4h.PageFtl.State.{IsFtl}
use h4h.PageFtl.State.Maps.{release}

-- The address `a` with the number of its parallel unit computed anew
abbrev pub at_punit : DeviceParams → PhyAddr → PhyAddr
unfolding get_punit_id
at_punit np a = record a { punit_id = get_punit_id np a.channel_no a.chip_no }

-- The mapping of one address has changed, and only that.
pub record Remaps (p : PageFtl) (lpa : ℕ) (a : PhyAddr) (r : PageFtl × ℕ) : Type 0 where
  pub succeeds : r.1 ≡ 0
  pub reads_back : get_ppa lpa r.0 ≡ some (some (at_punit p.np a, 0), 0)
  pub other_reads : (l : ℕ) → l ≢ lpa → get_ppa l r.0 ≡ get_ppa l p

module _ (p : PageFtl) (lpa : ℕ) (a : PhyAddr) (bai : Abm) (me : MappingEntry)
    (at : get_elem? p.ptr_mapping_table lpa ≡ some me) where
  remapped :
      lpa < p.np.nr_subpages_per_ssd
      → Remaps p lpa a (
        record p { bai = bai; ptr_mapping_table = set p.ptr_mapping_table lpa (mapped_to a 0 me) },
        0,
      )
  unfolding get_ppa
  remapped lt =
      let inside : leb p.np.nr_subpages_per_ssd lpa ≡ false = ground arith in
      record {
        succeeds = refl;
        reads_back =
            rw
              (
                inside,
                get_elem?-set_self p.ptr_mapping_table lpa (mapped_to a 0 me)
                    (get_elem?-lt p.ptr_mapping_table lpa at),
              )
              refl;
        other_reads = λ l ne.
            rw (get_elem?-set_ne p.ptr_mapping_table lpa l (mapped_to a 0 me) (λ e. ne (sym e)))
              refl;
      }

-- On a device with one subpage to a page, as get_default_device_params makes it, and on a state that
-- satisfies the invariant: h4h_page_ftl_map_lpa_to_ppa of one address inside the logical space
-- returns 0, h4h_page_ftl_get_ppa then returns that page and subpage 0 for the address, and what it
-- returns for every other address is as before.
pub map_lpa_to_ppa-Remaps :
    (lpa : ℕ) (a : PhyAddr) (p : PageFtl)
    → IsFtl p
    → p.np.nr_subpages_per_page ≡ 1
    → lpa < p.np.nr_subpages_per_ssd
    → Returns (Remaps p lpa a) (map_lpa_to_ppa (lpa ∷ []) a p)
unfolding map_lpa_to_ppa map_subpage map_loop
map_lpa_to_ppa-Remaps lpa a p ok one lt =
    let size = ok.table.table_size ∙ ap (λ (x : DeviceParams). x.nr_subpages_per_ssd) ok.same_np in
    let small : p.np.nr_subpages_per_ssd < 2 ^ 64 =
      subst (λ (x : DeviceParams). x.nr_subpages_per_ssd < 2 ^ 64) ok.same_np
        ok.abm.geometry.ssd_small in
    let (me, at) = get_elem?_of_lt p.ptr_mapping_table lpa (omega arith) in
    let real : (lpa == invalid_addr) ≡ false = ground arith in
    let inside : leb p.np.nr_subpages_per_ssd lpa ≡ false = ground arith in
    let step : map_lpa_to_ppa (lpa ∷ []) a p
        ≡ (map_subpage a 0 lpa p >>= λ (q, ret). if ret == 0 then some (q, 0) else some (q, ret)) =
      rw one refl in
    rw (step, real, inside, at)
      (Returns-bind (Remaps p lpa a) (Remaps p lpa a)
        ((if is_valid me.status then invalidate_entry me p.bai else some p.bai) >>= λ bai. some (
          record p {
            bai = bai;
            ptr_mapping_table = set p.ptr_mapping_table lpa (mapped_to a 0 me);
          },
          0,
        ))
        _
        (Returns-bind _ (Remaps p lpa a)
          (if is_valid me.status then invalidate_entry me p.bai else some p.bai) _
          (release p.bai ok.abm p.ptr_mapping_table ok.table lpa me at)
          λ bai e r. remapped p lpa a bai me at lt)
        λ r e m.
          rw m.succeeds
            (record { succeeds = refl; reads_back = m.reads_back; other_reads = m.other_reads }))
