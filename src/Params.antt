-- ===== src/Params.antt =====
-- include/params.h and devices/common/dev_params.c: the geometry of a device.
pub mod Derived
use h4h.Base.{
  ℕ, ◌+◌, ◌*◌, ◌/◌, ◌<◌, ◌≡◌, ◌^◌, Bool, true, false, not, Option, some, ◌>>◌, bug_on, ◌==◌, mul64,
}

-- The module parameters that the geometry is computed from; `int`s, taken non-negative.
pub record UserParams : Type 0 where
  pub param_nr_channels : ℕ
  pub param_nr_chips_per_channel : ℕ
  pub param_nr_blocks_per_chip : ℕ
  pub param_nr_pages_per_block : ℕ
  pub param_page_main_size : ℕ

-- h4h_device_params_t, less the timings and the device type, which no modelled code reads.
pub record DeviceParams : Type 0 where
  pub nr_channels : ℕ
  pub nr_chips_per_channel : ℕ
  pub nr_blocks_per_chip : ℕ
  pub nr_pages_per_block : ℕ
  pub page_main_size : ℕ
  pub device_capacity_in_byte : ℕ
  pub nr_blocks_per_channel : ℕ
  pub nr_blocks_per_ssd : ℕ
  pub nr_chips_per_ssd : ℕ
  pub nr_pages_per_ssd : ℕ
  pub nr_subpages_per_block : ℕ
  pub nr_subpages_per_page : ℕ
  pub nr_subpages_per_ssd : ℕ

abbrev pub kernel_page_size : ℕ
kernel_page_size = 4096

abbrev pub h4h_max_pages : ℕ
h4h_max_pages = 1

-- The sizes, computed from the user's parameters and the number of subpages in a page.
unfoldable pub derive_params : UserParams → ℕ → DeviceParams
derive_params u subpages = record {
  nr_channels = u.param_nr_channels;
  nr_chips_per_channel = u.param_nr_chips_per_channel;
  nr_blocks_per_chip = u.param_nr_blocks_per_chip;
  nr_pages_per_block = u.param_nr_pages_per_block;
  page_main_size = u.param_page_main_size;
  device_capacity_in_byte = capacity;
  nr_blocks_per_channel = mul64 u.param_nr_chips_per_channel u.param_nr_blocks_per_chip;
  nr_blocks_per_ssd = blocks;
  nr_chips_per_ssd = mul64 u.param_nr_channels u.param_nr_chips_per_channel;
  nr_pages_per_ssd = pages;
  nr_subpages_per_block = mul64 subpages u.param_nr_pages_per_block;
  nr_subpages_per_page = subpages;
  nr_subpages_per_ssd = mul64 subpages pages;
}
  where
    blocks : ℕ
    blocks =
        mul64 (mul64 u.param_nr_channels u.param_nr_chips_per_channel) u.param_nr_blocks_per_chip

    pages : ℕ
    pages = mul64 u.param_nr_pages_per_block blocks

    capacity : ℕ
    capacity =
        mul64
          (mul64
            (mul64 (mul64 (0 + u.param_nr_channels) u.param_nr_chips_per_channel)
              u.param_nr_blocks_per_chip)
            u.param_nr_pages_per_block)
          u.param_page_main_size

-- get_default_device_params; the flag is USE_NEW_RMW.
unfoldable pub get_default_device_params : Bool → UserParams → Option DeviceParams
unfolding derive_params
get_default_device_params true u = do
  let subpages = u.param_page_main_size / kernel_page_size
  bug_on (not (subpages == h4h_max_pages))
  some (derive_params u subpages)
get_default_device_params false u = some (derive_params u 1)

-- What the other parts rely on: no size is zero, the derived sizes are the products of the others,
-- a block fits the 32-bit counter of its invalid subpages, and the device the 64-bit ones.
pub record IsGeometry (np : DeviceParams) : Type 0 where
  pub channels_pos : 0 < np.nr_channels
  pub chips_pos : 0 < np.nr_chips_per_channel
  pub blocks_pos : 0 < np.nr_blocks_per_chip
  pub pages_pos : 0 < np.nr_pages_per_block
  pub subpages_pos : 0 < np.nr_subpages_per_page
  pub per_channel : np.nr_blocks_per_channel ≡ np.nr_chips_per_channel * np.nr_blocks_per_chip
  pub per_ssd : np.nr_blocks_per_ssd ≡ np.nr_channels * np.nr_blocks_per_channel
  pub chips_per_ssd : np.nr_chips_per_ssd ≡ np.nr_channels * np.nr_chips_per_channel
  pub pages_per_ssd : np.nr_pages_per_ssd ≡ np.nr_pages_per_block * np.nr_blocks_per_ssd
  pub sub_block : np.nr_subpages_per_block ≡ np.nr_subpages_per_page * np.nr_pages_per_block
  pub sub_ssd : np.nr_subpages_per_ssd ≡ np.nr_subpages_per_page * np.nr_pages_per_ssd
  pub block_small : np.nr_subpages_per_block < 2 ^ 32
  pub ssd_small : np.nr_subpages_per_ssd < 2 ^ 64
