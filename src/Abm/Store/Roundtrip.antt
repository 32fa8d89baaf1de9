-- ===== src/Abm/Store/Roundtrip.antt =====
-- h4h_abm_load of ftl/algo/abm.c after h4h_abm_store and a fresh h4h_abm_create, as at a restart.
use h4h.Base.{
  ◌+◌, ◌<◌, ◌≤◌, ◌≡◌, ◌^◌, inr, refl, sym, ap, subst, ◌∙◌, true, List, some, map, arith, get_elem?,
  get_elem?-map, length, length-map, Returns, Every, count, tally,
}
use h4h.Params.{DeviceParams, IsGeometry}
use h4h.Abm.{Abm, Block, abm_create, create_block, create_blocks, create_pst, same_list}
use h4h.Abm.Listed.{place}
use h4h.Abm.Valid.{IsBlock, IsValid}
use h4h.Abm.Valid.Create.{abm_create-Created, length-create_blocks, get-create_blocks}
use h4h.Abm.Store.{abm_store, relink_blocks, abm_load}
use h4h.Abm.Store.Reload.{
  no_offset, HasTable, Roomy, relink_all, relink_outside, relink_inside, read_written,
}

fresh_tables :
    (np : DeviceParams)
    → Every (λ i c. HasTable c × (c.offset ≡ 0)) (create_blocks np true 0 np.nr_blocks_per_ssd)
unfolding create_block
fresh_tables np i c at =
    subst (λ (x : Block). HasTable x × (x.offset ≡ 0)) (sym (get-create_blocks np true 0 _ i at))
      ((create_pst np, refl), refl)

-- The state of the start of the second loop
abbrev emptied : Abm → List Block → Abm
emptied bai blocks = record bai {
  blocks = blocks;
  nr_free_blks = 0;
  nr_free_blks_prepared = 0;
  nr_clean_blks = 0;
  nr_dirty_blks = 0;
  nr_bad_blks = 0;
}

module _ (bai fresh : Abm) (valid : IsValid bai) (valid0 : IsValid fresh)
    (same : fresh.np ≡ bai.np) where
  kept : List Block
  kept = map no_offset bai.blocks

  length-kept : length kept ≡ length bai.blocks
  unfolding kept
  length-kept = length-map no_offset bai.blocks

  roomy : Roomy (emptied fresh kept) (length kept)
  roomy =
      let lt : 0 + length kept < 2 ^ 64 = omega (arith, length-kept, valid.counted.small) in
      record { room_free = lt; room_prepared = lt; room_clean = lt; room_dirty = lt; room_bad = lt }

  same_size : length fresh.blocks ≡ length kept
  same_size =
      valid0.sized
      ∙ ap (λ (x : DeviceParams). x.nr_blocks_per_ssd) same
      ∙ sym valid.sized
      ∙ sym length-kept

  reloaded-IsValid : IsValid (relink_blocks kept 0 (emptied fresh kept))
  unfolding kept
  reloaded-IsValid =
      let r = relink_all kept 0 (emptied fresh kept) roomy in
      let np = r.same_np ∙ same in
      record {
        geometry = subst IsGeometry (sym np) valid.geometry;
        sized =
            ap length r.same_blocks
            ∙ length-kept
            ∙ valid.sized
            ∙ ap (λ (x : DeviceParams). x.nr_blocks_per_ssd) (sym np);
        counted = record {
          total = r.same_total ∙ valid0.counted.total ∙ same_size ∙ ap length (sym r.same_blocks);
          small = rw r.same_blocks (omega (arith, length-kept, valid.counted.small));
          counts_free = rw r.same_blocks (omega (arith, r.counts_free));
          counts_prepared = rw r.same_blocks (omega (arith, r.counts_prepared));
          counts_clean = rw r.same_blocks (omega (arith, r.counts_clean));
          counts_dirty = rw r.same_blocks (omega (arith, r.counts_dirty));
          counts_bad = rw r.same_blocks (omega (arith, r.counts_bad));
        };
        listed = record {
          placed = λ i b at head channel chip.
              let there = subst (λ (x : List Block). get_elem? x i ≡ some b) r.same_blocks at in
              let e : 0 + i ≡ i = omega arith in
              subst
                (λ j.
                  count j ((relink_blocks kept 0 (emptied fresh kept)).lists head channel chip)
                  ≡ tally (same_list (place b.status) b.channel_no b.chip_no head channel chip))
                e (relink_inside head channel chip kept 0 (emptied fresh kept) i b roomy there);
          no_other = λ i head channel chip far.
              let far' : length kept ≤ i = rw (← ap length r.same_blocks) far in
              relink_outside head channel chip kept 0 (emptied fresh kept) i roomy
                (inr (omega arith))
              ∙ valid0.listed.no_other i head channel chip (omega (arith, same_size));
        };
        each = λ i b at.
            let there = subst (λ (x : List Block). get_elem? x i ≡ some b) r.same_blocks at in
            let (c, old, eq) = get_elem?-map no_offset bai.blocks i there in
            let k = valid.each i c old in
            subst (λ (x : DeviceParams). IsBlock x i b) (sym np)
              (subst (IsBlock bai.np i) (sym eq) (record {
                in_channel = k.in_channel;
                in_chip = k.in_chip;
                in_block = k.in_block;
                table_size = k.table_size;
                table_marks = k.table_marks;
                bounded = k.bounded;
                agrees = k.agrees;
              }));
      }

-- What a restart leaves, against the state that was stored
pub record Reloaded (bai bai' : Abm) : Type 0 where
  pub reload_valid : IsValid bai'
  pub reload_blocks : bai'.blocks ≡ map no_offset bai.blocks
  pub reload_np : bai'.np ≡ bai.np

-- h4h_abm_store of a valid state with a page status table in every block, then h4h_abm_create and
-- h4h_abm_load of that file: loading runs through, every block is as it was but for its offset, which
-- is 0, and the invariant holds: the lists and the counters are built anew to fit the blocks.
pub abm_load-store :
    (bai : Abm)
    → IsValid bai
    → Every (λ i b. HasTable b) bai.blocks
    → Returns (Reloaded bai) (abm_load (abm_store bai) (abm_create bai.np true))
unfolding abm_load abm_store abm_create kept
abm_load-store bai valid tables =
    let fresh = abm_create bai.np true in
    let valid0 = (abm_create-Created bai.np true valid.geometry).is_valid in
    let long : length (create_blocks bai.np true 0 bai.np.nr_blocks_per_ssd) ≡ length bai.blocks =
      length-create_blocks bai.np true 0 bai.np.nr_blocks_per_ssd ∙ sym valid.sized in
    rw
      (read_written (create_blocks bai.np true 0 bai.np.nr_blocks_per_ssd) bai.blocks long
        (fresh_tables bai.np) tables)
      (let r =
          relink_all (kept bai fresh valid valid0 refl) 0
            (emptied fresh (kept bai fresh valid valid0 refl))
            (roomy bai fresh valid valid0 refl) in
        record {
          reload_valid = reloaded-IsValid bai fresh valid valid0 refl;
          reload_blocks = r.same_blocks;
          reload_np = r.same_np;
        })
