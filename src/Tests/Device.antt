-- ===== src/Tests/Device.antt =====
-- A device of two channels with one chip of two blocks of two pages each, as ftl/algo/page_ftl.c and
-- ftl/algo/abm.c start on it.
use h4h.Base.{ℕ, ◌≡◌, refl, subst, true, some, arith, Returns}
use h4h.Params.{DeviceParams, IsGeometry}
use h4h.Abm.{
  abm_create, create_blocks, create_block, create_pst, link_blocks, list_add_tail, list_del,
  get_channel_ofs, get_chip_ofs, get_block_ofs, check_status,
}
use h4h.Abm.Ops.{
  get_free_block_prepare, prepare_loop, prepare_block, get_free_block_commit, move_block,
}
use h4h.Abm.Valid.{IsValid}
use h4h.Abm.Valid.Create.{Created, abm_create-Created}
use h4h.PageFtl.{
  PageFtl, page_ftl_create, get_active_blocks, take_free_block, punits, punits_from, chips_from,
  create_mapping_table,
}
use h4h.PageFtl.State.{IsFtl}
use h4h.PageFtl.State.Start.{Started, page_ftl_create-Started}

abbrev pub two_channels : DeviceParams
two_channels = record {
  nr_channels = 2;
  nr_chips_per_channel = 1;
  nr_blocks_per_chip = 2;
  nr_pages_per_block = 2;
  page_main_size = 4096;
  device_capacity_in_byte = 32768;
  nr_blocks_per_channel = 2;
  nr_blocks_per_ssd = 4;
  nr_chips_per_ssd = 2;
  nr_pages_per_ssd = 8;
  nr_subpages_per_block = 2;
  nr_subpages_per_page = 1;
  nr_subpages_per_ssd = 8;
}

pub two_channels-IsGeometry : IsGeometry two_channels
two_channels-IsGeometry = record {
  channels_pos = omega arith;
  chips_pos = omega arith;
  blocks_pos = omega arith;
  pages_pos = omega arith;
  subpages_pos = omega arith;
  per_channel = refl;
  per_ssd = refl;
  chips_per_ssd = refl;
  pages_per_ssd = refl;
  sub_block = refl;
  sub_ssd = refl;
  block_small = omega arith;
  ssd_small = omega arith;
}

pub created-IsValid : IsValid (abm_create two_channels true)
created-IsValid = (abm_create-Created two_channels true two_channels-IsGeometry).is_valid

-- Creation succeeds, and this is the state that it leaves.
unfoldable pub created : (p : PageFtl) × (page_ftl_create two_channels ≡ some (p, 0))
unfolding page_ftl_create get_active_blocks take_free_block get_free_block_prepare prepare_loop
    prepare_block check_status get_free_block_commit move_block list_add_tail list_del punits
    punits_from chips_from create_mapping_table abm_create create_blocks create_block create_pst
    link_blocks get_channel_ofs get_chip_ofs get_block_ofs
created = (_, refl)

unfoldable pub start : PageFtl
unfolding created
start = created.0

pub start-IsFtl : IsFtl start
unfolding start
start-IsFtl =
    (subst (Returns (λ (r : PageFtl × ℕ). r.1 ≡ 0 → Started two_channels r.0)) created.1
      (page_ftl_create-Started two_channels two_channels-IsGeometry) refl).is_ftl

page_ftl_create-Started_example :
    Returns (λ (r : PageFtl × ℕ). r.1 ≡ 0 → Started two_channels r.0) (page_ftl_create two_channels)
page_ftl_create-Started_example = page_ftl_create-Started two_channels two_channels-IsGeometry

abm_create-Created_example : Created two_channels true (abm_create two_channels true)
abm_create-Created_example = abm_create-Created two_channels true two_channels-IsGeometry
