-- ===== src/PageFtl/State/Give.antt =====
-- h4h_page_ftl_get_free_ppa of ftl/algo/page_ftl.c gives out the pages in turn.
use h4h.Base.{
  ℕ, ◌+◌, ◌*◌, ◌/◌, ◌%◌, ◌≡◌, refl, true, false, some, arith, get_elem?, Returns, Returns-bind,
  ◌==◌, ==_refl, leb,
}
use h4h.Abm.{Block}
use h4h.PageFtl.{
  PhyAddr, PageFtl, curr_channel, curr_chip, curr_index, active_block, page_address, next_punit,
  get_free_ppa,
}
use h4h.PageFtl.State.{InUse, IsFtl}
use h4h.PageFtl.State.Next.{Turn, Turned, channel_in, chip_in, index_exact, next_punit-Turned}

-- What the call gives, and what it leaves: the address names the active block whose turn it is, at the
-- page whose turn it is.
pub record Gave (p : PageFtl) (r : PageFtl × PhyAddr × ℕ) : Type 0 where
  pub index : ℕ
  pub block : Block
  pub pointer :
      get_elem? p.ac_bab (
        p.curr_puid % p.np.nr_channels * p.np.nr_chips_per_channel + p.curr_puid / p.np.nr_channels)
      ≡ some (some index)
  pub block_there : get_elem? p.bai.blocks index ≡ some block
  pub block_in_use : InUse block.status
  pub at_channel : r.1.channel_no ≡ p.curr_puid % p.np.nr_channels
  pub at_chip : r.1.chip_no ≡ p.curr_puid / p.np.nr_channels
  pub at_block : r.1.block_no ≡ block.block_no
  pub at_page : r.1.page_no ≡ p.curr_page_ofs
  pub at_punit :
      r.1.punit_id
      ≡ p.curr_puid % p.np.nr_channels * p.np.nr_chips_per_channel + p.curr_puid / p.np.nr_channels
  pub turn : Turn p r.0 r.2
  pub keeps_np : r.0.np ≡ p.np
  pub keeps_table : r.0.ptr_mapping_table ≡ p.ptr_mapping_table
  pub keeps : r.2 ≡ 0 → IsFtl r.0

module _ (p : PageFtl) (ok : IsFtl p) where
  -- h4h_page_ftl_get_free_ppa on a state that satisfies the invariant runs through without a bug check.
  -- It gives page curr_page_ofs of the active block of the channel and the chip whose turn it is, with
  -- the number of that parallel unit, changes no mapping, and, if it returns 0, keeps the invariant: it
  -- can be called again. The turn goes to the next parallel unit; after the last one, to the first unit
  -- and the next page; and after the last page, if the call returns 0, to the first page of new active
  -- blocks, one for each unit on its own chip, which were free and are now clean.
  pub get_free_ppa-Gave : Returns (Gave p) (get_free_ppa p)
  unfolding get_free_ppa active_block page_address
  get_free_ppa-Gave =
      let a = ok.active (curr_channel p) (curr_chip p) (channel_in p ok) (chip_in p ok) in
      let pointer : get_elem? p.ac_bab (curr_index p) ≡ some (some a.index) =
        rw (index_exact p ok) a.pointer in
      let on_channel : (a.block.channel_no == curr_channel p) ≡ true =
        rw (a.on_channel, ==_refl (curr_channel p)) refl in
      let on_chip : (a.block.chip_no == curr_chip p) ≡ true =
        rw (a.on_chip, ==_refl (curr_chip p)) refl in
      let inside : leb p.np.nr_pages_per_block p.curr_page_ofs ≡ false =
        ground (arith, ok.page_in) in
      rw (pointer, a.block_there, on_channel, on_chip, inside)
        (Returns-bind (Turned p) (Gave p) (next_punit p) _ (next_punit-Turned p ok) λ r e t.
          record {
            index = a.index;
            block = a.block;
            pointer = a.pointer;
            block_there = a.block_there;
            block_in_use = a.in_use;
            at_channel = a.on_channel;
            at_chip = a.on_chip;
            at_block = refl;
            at_page = refl;
            at_punit = rw (a.on_channel, a.on_chip) (index_exact p ok);
            turn = t.turned_turn;
            keeps_np = t.turned_np;
            keeps_table = t.turned_table;
            keeps = t.turned_keeps;
          })
