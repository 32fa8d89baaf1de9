-- ===== src/NoFtl.antt =====
-- ftl/algo/no_ftl.c: the FTL for devices that map addresses themselves cuts a logical address into the
-- parts of a physical one. `ilog2` is that of linux/log2.h.
pub mod Slices
use Prim.Native.Nat.{bit_and}
use h4h.Base.{ℕ, ◌+◌, ◌/◌, ◌^◌, dec64}
use h4h.Params.{DeviceParams}
use h4h.PageFtl.{PhyAddr, get_punit_id}

-- The bits of an address from bit `shift` on, under the mask of a size that is a power of two
abbrev pub slice : ℕ → ℕ → ℕ → ℕ
slice lpa shift size = bit_and (lpa / 2 ^ shift) (dec64 size)

-- h4h_no_ftl_get_ppa; it returns 0.
unfoldable pub no_ftl_get_ppa : (ℕ → ℕ) → DeviceParams → ℕ → PhyAddr × ℕ
no_ftl_get_ppa ilog2 np lpa = (
  record {
    punit_id = get_punit_id np channel chip;
    channel_no = channel;
    chip_no = chip;
    block_no = slice lpa (ilog2 np.nr_pages_per_block) np.nr_blocks_per_chip;
    page_no = bit_and lpa (dec64 np.nr_pages_per_block);
  },
  0,
)
  where
    channel : ℕ
    channel =
        slice lpa
          (ilog2 np.nr_chips_per_channel
            + ilog2 np.nr_blocks_per_chip
            + ilog2 np.nr_pages_per_block)
          np.nr_channels

    chip : ℕ
    chip =
        slice lpa (ilog2 np.nr_blocks_per_chip + ilog2 np.nr_pages_per_block)
          np.nr_chips_per_channel

-- h4h_no_ftl_get_free_ppa
unfoldable pub no_ftl_get_free_ppa : (ℕ → ℕ) → DeviceParams → ℕ → PhyAddr × ℕ
unfolding no_ftl_get_ppa
no_ftl_get_free_ppa ilog2 np lpa = no_ftl_get_ppa ilog2 np lpa
