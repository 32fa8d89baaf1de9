-- ===== src/PageFtl/State/Next.antt =====
-- The end of h4h_page_ftl_get_free_ppa of ftl/algo/page_ftl.c: whose turn is next.
use native.Mathlib.Nat.{mod-eq_of_lt, mod-lt, div-lt_iff_lt-mul}
use h4h.Base.{
  ℕ, zero, suc, ◌+◌, ◌-◌, ◌*◌, ◌^◌, ◌<◌, ◌≤◌, ◌≡◌, refl, sym, ap, subst, ◌∙◌, true, Bool-cases, inl,
  inr, List, Option, some, arith, get_elem?, length, get_elem?-lt, Returns, Returns-bind, ◌==◌,
  if◌then◌else◌, inc64,
}
use h4h.Params.{DeviceParams, IsGeometry}
use h4h.Abm.{Abm}
use h4h.Abm.Geometry.{index_lt, le-mul_left}
use h4h.PageFtl.{
  valid, MappingEntry, PageFtl, punits, get_active_blocks, curr_channel, curr_chip, curr_index,
  next_punit,
}
use h4h.PageFtl.State.{IsTable, IsFtl, SamePlace, IsLive, IsMapped-at}
use h4h.PageFtl.State.Alloc.{Renewed, get_active_blocks-Renewed}
use h4h.PageFtl.State.Turn.{punits_small, length-punits, Renewed-IsActive, Renewed-FreshAt}
use h4h.PageFtl.State.Fresh.{FreshAt}

last_index : (n m : ℕ) → 0 < n → 0 < m → (n - 1) * m + (m - 1) + 1 ≡ n * m
last_index zero m h k = absurd (omega arith)
last_index (suc n) zero h k = absurd (omega arith)
last_index (suc n) (suc m) h k =
    let a : suc n - 1 ≡ n = omega arith in
    let b : suc m - 1 ≡ m = omega arith in rw (a, b) (omega arith)

-- Whose turn is next: the next parallel unit, the next page of every active block, or the first page of
-- new active blocks, which were free before.
pub data Turn (p p' : PageFtl) (ret : ℕ) : Type 0 where
  next_unit :
      suc p.curr_puid < p.nr_punits
      → p' ≡ record p { curr_puid = suc p.curr_puid }
      → ret ≡ 0
      → Turn p p' ret
  next_page :
      suc p.curr_puid ≡ p.nr_punits
      → suc p.curr_page_ofs < p.np.nr_pages_per_block
      → p' ≡ record p { curr_puid = 0; curr_page_ofs = suc p.curr_page_ofs }
      → ret ≡ 0
      → Turn p p' ret
  new_blocks :
      suc p.curr_puid ≡ p.nr_punits
      → suc p.curr_page_ofs ≡ p.np.nr_pages_per_block
      → p'.curr_puid ≡ 0
      → (ret ≡ 0 → p'.curr_page_ofs ≡ 0)
      → (ret ≡ 0
          → (c h : ℕ) → c < p.np.nr_channels
          → h < p.np.nr_chips_per_channel
          → FreshAt p.bai p'.bai p'.ac_bab c h (c * p.np.nr_chips_per_channel + h))
      → Turn p p' ret

-- What the turn to the next parallel unit leaves
pub record Turned (p : PageFtl) (r : PageFtl × ℕ) : Type 0 where
  pub turned_np : r.0.np ≡ p.np
  pub turned_table : r.0.ptr_mapping_table ≡ p.ptr_mapping_table
  pub turned_keeps : r.1 ≡ 0 → IsFtl r.0
  pub turned_turn : Turn p r.0 r.1

module _ (p : PageFtl) (ok : IsFtl p) where
  geometry : IsGeometry p.np
  geometry = subst IsGeometry ok.same_np ok.abm.geometry

  pub small_punits : p.nr_punits < 2 ^ 64
  small_punits = rw ok.punits_eq (punits_small p.np geometry)

  pub channel_in : curr_channel p < p.np.nr_channels
  channel_in = mod-lt p.curr_puid geometry.channels_pos

  pub chip_in : curr_chip p < p.np.nr_chips_per_channel
  chip_in =
      let comm : p.np.nr_channels * p.np.nr_chips_per_channel
          ≡ p.np.nr_chips_per_channel * p.np.nr_channels =
        omega arith in
      (div-lt_iff_lt-mul {k = p.np.nr_channels} {x = p.curr_puid} {y = p.np.nr_chips_per_channel}
          geometry.channels_pos).1
        (subst (λ x. p.curr_puid < x) (ok.punits_eq ∙ comm) ok.puid_in)

  pub index_exact : curr_index p ≡ curr_channel p * p.np.nr_chips_per_channel + curr_chip p
  index_exact = mod-eq_of_lt (
      omega (
        arith,
        index_lt p.np.nr_chips_per_channel (curr_channel p) (curr_chip p) p.np.nr_channels
            channel_in chip_in,
        punits_small p.np geometry,
      ))

  pages_small : p.np.nr_pages_per_block < 2 ^ 32
  pages_small = omega (
    arith,
    geometry.sub_block,
    geometry.block_small,
    le-mul_left p.np.nr_subpages_per_page p.np.nr_pages_per_block geometry.subpages_pos,
  )

  bab_long : length (punits p.np) ≤ length p.ac_bab
  bab_long =
      let g = geometry in
      let k =
        (p.np.nr_channels - 1) * p.np.nr_chips_per_channel + (p.np.nr_chips_per_channel - 1) in
      let a =
        ok.active (p.np.nr_channels - 1) (p.np.nr_chips_per_channel - 1)
          (omega (arith, g.channels_pos)) (omega (arith, g.chips_pos)) in
      let last = last_index p.np.nr_channels p.np.nr_chips_per_channel g.channels_pos g.chips_pos in
      omega (arith, length-punits p.np g, last, get_elem?-lt p.ac_bab k a.pointer)

  pub kept_table :
      (bai : Abm)
      → bai.np ≡ p.bai.np
      → ((j off : ℕ) → IsLive p.bai j off → IsLive bai j off)
      → IsTable bai p.ptr_mapping_table
  kept_table bai e stays = record {
    table_size = ok.table.table_size ∙ ap (λ (x : DeviceParams). x.nr_subpages_per_ssd) (sym e);
    mapped = λ l f g st.
        let old = ok.table.mapped l f g st in
        IsMapped-at bai p.bai.np f e old.place (stays _ _ old.live);
    separate =
        subst
          (λ (np : DeviceParams).
            (l m : ℕ) (x y : MappingEntry)
            → get_elem? p.ptr_mapping_table l ≡ some x
            → get_elem? p.ptr_mapping_table m ≡ some y
            → x.status ≡ valid
            → y.status ≡ valid
            → SamePlace np x y
            → l ≡ m)
          (sym e) ok.table.separate;
  }

  -- Only the two numbers of the turn change.
  moved_on :
      (puid ofs : ℕ)
      → puid < p.nr_punits
      → ofs < p.np.nr_pages_per_block
      → IsFtl (record p { curr_puid = puid; curr_page_ofs = ofs })
  moved_on puid ofs a b = record {
    abm = ok.abm;
    same_np = ok.same_np;
    none_prepared = ok.none_prepared;
    punits_eq = ok.punits_eq;
    puid_in = a;
    page_in = b;
    active = ok.active;
    table = ok.table;
  }

  renewed :
      (r : Abm × List (Option ℕ) × ℕ)
      → Renewed p.bai p.ac_bab (punits p.np) 0 r
      → r.2 ≡ 0
      → IsFtl (record p {
        curr_puid = 0;
        bai = r.0;
        ac_bab = r.1;
        curr_page_ofs = if r.2 == 0 then 0 else inc64 p.curr_page_ofs;
      })
  renewed r w e =
      let test : (r.2 == 0) ≡ true = ground arith in
      record {
        abm = w.still_valid;
        same_np = w.renews_np ∙ ok.same_np;
        none_prepared = w.still_none_prepared;
        punits_eq = ok.punits_eq;
        puid_in = omega (arith, ok.puid_in);
        page_in = rw test geometry.pages_pos;
        active = Renewed-IsActive p.np geometry p.bai p.ac_bab r w e;
        table = kept_table r.0 w.renews_np w.live_stays;
      }

  pub next_punit-Turned : Returns (Turned p) (next_punit p)
  unfolding next_punit
  next_punit-Turned =
      let unit_exact =
        mod-eq_of_lt {n = p.curr_puid + 1} {m = 2 ^ 64} (omega (arith, small_punits, ok.puid_in)) in
      let page_exact =
        mod-eq_of_lt {n = p.curr_page_ofs + 1} {m = 2 ^ 64}
          (omega (arith, pages_small, ok.page_in)) in
      elim (Bool-cases (inc64 p.curr_puid == p.nr_punits)) [
        | inl round ↦ elim (Bool-cases (inc64 p.curr_page_ofs == p.np.nr_pages_per_block)) [
          | inl full ↦
              rw (round, full)
                (Returns-bind (Renewed p.bai p.ac_bab (punits p.np) 0) (Turned p)
                  (get_active_blocks (punits p.np) 0 p.bai p.ac_bab) _
                  (get_active_blocks-Renewed (punits p.np) 0 p.bai p.ac_bab ok.abm ok.none_prepared
                    (omega (arith, bab_long)))
                  λ r eq w. record {
                    turned_np = refl;
                    turned_table = refl;
                    turned_keeps = renewed r w;
                    turned_turn =
                        new_blocks (ground arith) (ground arith) refl (λ e. rw e refl)
                          (Renewed-FreshAt p.np geometry p.bai p.ac_bab r w);
                  })
          | inr part ↦
              let exact =
                mod-eq_of_lt {n = p.curr_page_ofs + 1} {m = 2 ^ 64}
                  (omega (arith, pages_small, ok.page_in)) in
              rw (round, part)
                (record {
                  turned_np = refl;
                  turned_table = refl;
                  turned_keeps = λ e.
                      moved_on 0 (inc64 p.curr_page_ofs) (omega (arith, ok.puid_in))
                        (ground (arith, ok.page_in));
                  turned_turn =
                      next_page (ground arith) (ground (arith, ok.page_in))
                        (rw exact
                          (ap (λ n. record p { curr_puid = 0; curr_page_ofs = n }) (omega arith)))
                        refl;
                })
        ]
        | inr next ↦
            let exact =
              mod-eq_of_lt {n = p.curr_puid + 1} {m = 2 ^ 64}
                (omega (arith, small_punits, ok.puid_in)) in
            rw next (record {
              turned_np = refl;
              turned_table = refl;
              turned_keeps = λ e.
                  moved_on (inc64 p.curr_puid) p.curr_page_ofs (ground (arith, ok.puid_in))
                    ok.page_in;
              turned_turn =
                  next_unit (ground (arith, ok.puid_in))
                    (rw exact (ap (λ n. record p { curr_puid = n }) (omega arith))) refl;
            })
      ]
