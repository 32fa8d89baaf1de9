-- ===== src/PageFtl/State/GiveMany.antt =====
-- h4h_page_ftl_get_free_ppas of ftl/algo/page_ftl.c gives out pages of one active block.
use h4h.Base.{ℕ, ◌+◌, ◌*◌, ◌/◌, ◌%◌, ◌≡◌, Option, some, get_elem?}
use h4h.Abm.{Block}
use h4h.PageFtl.{PhyAddr, PageFtl}
use h4h.PageFtl.Ops.{take_pages}
use h4h.PageFtl.State.{IsFtl}
use h4h.PageFtl.State.Advance.{Advance}

-- What the call gives: pages of the active block whose turn it is, from its offset on
pub record GaveMany (p : PageFtl) (size : ℕ) (r : PageFtl × PhyAddr × Option ℕ) : Type 0 where
  pub keeps : IsFtl r.0
  pub at_channel : r.1.channel_no ≡ p.curr_puid % p.np.nr_channels
  pub at_chip : r.1.chip_no ≡ p.curr_puid / p.np.nr_channels
  pub start_block : Block
  pub start_index : ℕ
  pub start_pointer :
      get_elem? p.ac_bab (
        p.curr_puid % p.np.nr_channels * p.np.nr_chips_per_channel + p.curr_puid / p.np.nr_channels)
      ≡ some (some start_index)
  pub start_there : get_elem? p.bai.blocks start_index ≡ some start_block
  pub at_block : r.1.block_no ≡ start_block.block_no
  pub at_page : r.1.page_no ≡ start_block.offset
  pub advance :
      Advance p
        (p.curr_puid % p.np.nr_channels)
        (p.curr_puid / p.np.nr_channels)
        start_index
        start_block
        (take_pages p.np start_block size).0
        (take_pages p.np start_block size).1
        r.0
        r.2
