-- ===== src/Tests/Blocks.antt =====
-- ftl/algo/abm.c and devices/common/dev_params.c on the device of Device.antt.
use h4h.Base.{
  ℕ, zero, suc, Option, ◌+◌, ◌*◌, ◌≡◌, ◌⊎◌, subst, some-inj, none-ne-some, Every, refl, inl, true,
  false, [], ◌∷◌, none, some, arith, Returns,
}
use h4h.Params.{UserParams, derive_params, get_default_device_params}
use h4h.Params.Derived.{Fits, IsSized, get_default_device_params-IsSized}
use h4h.Abm.{
  Abm, Block, clean, head_free, head_dirty, abm_create, create_block, create_blocks, create_pst,
  get_block_idx, get_channel_ofs, get_chip_ofs, get_block_ofs,
}
use h4h.Abm.Ops.{erase_block, dirtied, set_to_dirty_block, invalidate_page, get_free_block_prepare}
use h4h.Abm.Outcome.{moved}
use h4h.Abm.Valid.Calls.{Ends}
use h4h.Abm.Valid.Erase.{Erased, erase_block-Erased}
use h4h.Abm.Valid.Api.{Found, set_to_dirty_block-Ends, Marks, invalidate_page-Marks}
use h4h.Abm.Valid.Prepare.{Prepared, get_free_block_prepare-Prepared}
use h4h.Abm.Ops.{get_free_block_rollback}
use h4h.Abm.Store.{abm_store, abm_load}
use h4h.Abm.Store.Reload.{HasTable}
use h4h.Abm.Store.Roundtrip.{Reloaded, abm_load-store}
use h4h.PageFtl.Undo.{prepare-rollback}
use h4h.PageFtl.{take_free_block}
use h4h.PageFtl.Take.{Taking, take_free_block-Taking}
use h4h.Tests.Device.{two_channels, created-IsValid, start, created, start-IsFtl}

abbrev default_params : UserParams
default_params = record {
  param_nr_channels = 16;
  param_nr_chips_per_channel = 4;
  param_nr_blocks_per_chip = 128;
  param_nr_pages_per_block = 32;
  param_page_main_size = 4096;
}

default_params-Fits : Fits default_params
default_params-Fits = record {
  channels = omega arith;
  chips = omega arith;
  blocks = omega arith;
  pages = omega arith;
  bytes = omega arith;
  block_small = omega arith;
  ssd_small = omega arith;
}

get_default_device_params-IsSized_example : IsSized default_params (derive_params default_params 1)
unfolding get_default_device_params
get_default_device_params-IsSized_example =
    get_default_device_params-IsSized true default_params default_params-Fits refl

abbrev all_free : Abm
all_free = abm_create two_channels true

second_block-Found : Found all_free 0 0 1 (create_block two_channels true 1)
unfolding abm_create create_blocks create_block create_pst get_block_idx get_channel_ofs
    get_chip_ofs get_block_ofs
second_block-Found = record {
  here = refl;
  index_small = omega arith;
  found_channel = refl;
  found_chip = refl;
  found_block = refl;
}

erase_block-Erased_example :
    Returns
      (Erased all_free (get_block_idx two_channels 0 0 1) (create_block two_channels true 1) true)
      (erase_block 0 0 1 true all_free)
unfolding abm_create
erase_block-Erased_example =
    erase_block-Erased all_free created-IsValid 0 0 1 (create_block two_channels true 1)
      second_block-Found true

set_to_dirty_block-Ends_example :
    Returns
      (Ends all_free
        (get_block_idx two_channels 0 0 1)
        (dirtied all_free (create_block two_channels true 1))
        (moved
          (get_block_idx two_channels 0 0 1)
          (create_block two_channels true 1)
          head_dirty
          all_free.lists))
      (set_to_dirty_block 0 0 1 all_free)
unfolding abm_create
set_to_dirty_block-Ends_example =
    set_to_dirty_block-Ends all_free created-IsValid 0 0 1 (create_block two_channels true 1)
      second_block-Found

get_free_block_prepare-Prepared_example :
    Returns
      (Prepared all_free (all_free.lists head_free 1 0) none)
      (get_free_block_prepare 1 0 all_free)
get_free_block_prepare-Prepared_example =
    get_free_block_prepare-Prepared all_free created-IsValid 1 0

take_free_block-Taking_example : Returns (Taking all_free 1 0) (take_free_block 1 0 all_free)
unfolding abm_create
take_free_block-Taking_example = take_free_block-Taking all_free created-IsValid 1 0 refl

-- The active block of channel 0 after creation
abbrev active : Block
active = record {
  status = clean;
  channel_no = 0;
  chip_no = 0;
  block_no = 0;
  erase_count = 0;
  nr_invalid_subpages = 0;
  pst = some (false ∷ false ∷ []);
  offset = 0;
}

active-Found : Found start.bai 0 0 0 active
unfolding start created get_block_idx
active-Found = record {
  here = refl;
  index_small = omega arith;
  found_channel = refl;
  found_chip = refl;
  found_block = refl;
}

invalidate_page-Marks_example :
    Returns
      (Marks start.bai (get_block_idx two_channels 0 0 0) (false ∷ false ∷ []) (1 * 1 + 0))
      (invalidate_page 0 0 0 1 0 start.bai)
unfolding start created
invalidate_page-Marks_example =
    invalidate_page-Marks start.bai 0 0 0 1 0 active (false ∷ false ∷ []) start-IsFtl.abm
      active-Found (omega arith) (omega arith) (inl refl) refl

prepare-rollback_example :
    Returns
      (λ (r : Abm × Option ℕ).
        (r ≡ (all_free, none))
        ⊎ ((i : ℕ) × (r.1 ≡ some i)
            × Returns (λ bai2. bai2 ≡ all_free) (get_free_block_rollback i r.0)))
      (get_free_block_prepare 1 0 all_free)
unfolding abm_create
prepare-rollback_example = prepare-rollback all_free created-IsValid 1 0 refl

start_tables : Every (λ i b. HasTable b) start.bai.blocks
unfolding start created create_block create_pst
start_tables zero b at = subst HasTable (some-inj at) (false ∷ false ∷ [], refl)
start_tables (suc zero) b at = subst HasTable (some-inj at) (false ∷ false ∷ [], refl)
start_tables (suc (suc zero)) b at = subst HasTable (some-inj at) (false ∷ false ∷ [], refl)
start_tables (suc (suc (suc zero))) b at = subst HasTable (some-inj at) (false ∷ false ∷ [], refl)
start_tables (suc (suc (suc (suc i)))) b at = absurd (none-ne-some at)

abm_load-store_example :
    Returns (Reloaded start.bai) (abm_load (abm_store start.bai) (abm_create start.bai.np true))
abm_load-store_example = abm_load-store start.bai start-IsFtl.abm start_tables
