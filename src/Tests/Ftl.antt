-- ===== src/Tests/Ftl.antt =====
-- ftl/algo/page_ftl.c on the device of Device.antt.
use h4h.Base.{
  ℕ, zero, suc, ◌+◌, ◌*◌, ◌<◌, ◌≤◌, ◌≡◌, ◌↔◌, inl, subst, refl, ap, ◌∙◌, ◌==◌, if◌then◌else◌, true,
  [], ◌∷◌, none, some, arith, Returns,
}
use h4h.Abm.Ops.{invalidate_page}
use h4h.Abm.{get_block_idx, Block, clean, dirty}
use h4h.PageFtl.{PhyAddr, PageFtl, MappingEntry, unmapped, get_free_ppa, next_punit}
use h4h.PageFtl.Ops.{
  map_loop, map_subpage, map_lpa_to_ppa, invalidate_lpa, is_gc_needed, take_pages, victim_selection,
  victim_loop, victim_selection_greedy, greedy_loop,
}
use h4h.PageFtl.State.{IsFtl, IsLive}
use h4h.PageFtl.State.Turn.{get-replicate}
use h4h.PageFtl.State.Write.{IsFresh, map_lpa_to_ppa-IsFtl}
use h4h.PageFtl.State.Read.{Remaps, map_lpa_to_ppa-Remaps}
use h4h.PageFtl.State.Unmap.{Unmaps, invalidate_lpa-Unmaps}
use h4h.PageFtl.State.Give.{Gave, get_free_ppa-Gave}
use h4h.PageFtl.Greedy.{victim_selection_greedy-eq}
use h4h.PageFtl.Victim.{Selected, victim_selection-Selected, is_gc_needed_iff, take_pages_fit}
use h4h.Tests.Device.{start, created, start-IsFtl, two_channels}

abbrev first_page : PhyAddr
first_page = record { punit_id = 0; channel_no = 0; chip_no = 0; block_no = 0; page_no = 0 }

start_np : start.np ≡ two_channels
unfolding start created
start_np = refl

first_page-IsLive : IsLive start.bai 0 0
unfolding start created
first_page-IsLive = record {
  block = _;
  table = _;
  block_there = refl;
  in_use = inl refl;
  has_table = refl;
  unmarked = refl;
}

first_page-IsFresh : IsFresh start.np start.bai start.ptr_mapping_table first_page 0
unfolding start created get_block_idx
first_page-IsFresh zero lo hi = (
  record {
    addr = (omega arith, omega arith, omega arith);
    page_in = omega arith;
    sub_in = omega arith;
  },
  (λ l e at st sb.
      let one = get-replicate 8 unmapped e l at in
      let other = ap (λ (x : MappingEntry). x.status) one ∙ st in ground arith),
  first_page-IsLive,
)
first_page-IsFresh (suc j) lo hi = absurd (omega arith)

map_lpa_to_ppa-IsFtl_example :
    Returns (λ (r : PageFtl × ℕ). IsFtl r.0) (map_lpa_to_ppa (3 ∷ []) first_page start)
unfolding start created
map_lpa_to_ppa-IsFtl_example =
    map_lpa_to_ppa-IsFtl (3 ∷ []) first_page start start-IsFtl first_page-IsFresh (omega arith)
      (omega arith)

map_lpa_to_ppa-Remaps_example :
    Returns (Remaps start 3 first_page) (map_lpa_to_ppa (3 ∷ []) first_page start)
unfolding start created
map_lpa_to_ppa-Remaps_example =
    map_lpa_to_ppa-Remaps 3 first_page start start-IsFtl refl (omega arith)

-- The state after logical page 3 is written to that page
unfoldable pub written : (p : PageFtl) × (map_lpa_to_ppa (3 ∷ []) first_page start ≡ some (p, 0))
unfolding start created map_lpa_to_ppa map_loop map_subpage
written = (_, refl)

pub written-IsFtl : IsFtl written.0
written-IsFtl = subst (Returns (λ (r : PageFtl × ℕ). IsFtl r.0)) written.1 (
    map_lpa_to_ppa-IsFtl (3 ∷ []) first_page start start-IsFtl first_page-IsFresh
      (rw start_np (omega arith)) (rw start_np (omega arith)))

invalidate_lpa-Unmaps_example : Returns (Unmaps written.0 3 (3 + 2)) (invalidate_lpa 3 2 written.0)
unfolding written start created
invalidate_lpa-Unmaps_example = invalidate_lpa-Unmaps 3 2 written.0 written-IsFtl (omega arith)

get_free_ppa-Gave_example : Returns (Gave start) (get_free_ppa start)
get_free_ppa-Gave_example = get_free_ppa-Gave start start-IsFtl

-- Four pages are given out after that write, which fills the first active blocks.
unfoldable step1 : (r : PageFtl × PhyAddr × ℕ) × (get_free_ppa written.0 ≡ some r)
unfolding written start created get_free_ppa next_punit
step1 = (_, refl)

unfoldable step2 : (r : PageFtl × PhyAddr × ℕ) × (get_free_ppa step1.0.0 ≡ some r)
unfolding step1 written start created get_free_ppa next_punit
step2 = (_, refl)

unfoldable step3 : (r : PageFtl × PhyAddr × ℕ) × (get_free_ppa step2.0.0 ≡ some r)
unfolding step2 step1 written start created get_free_ppa next_punit
step3 = (_, refl)

unfoldable step4 : (r : PageFtl × PhyAddr × ℕ) × (get_free_ppa step3.0.0 ≡ some r)
unfolding step3 step2 step1 written start created get_free_ppa next_punit
step4 = (_, refl)

after_step :
    (p : PageFtl) (r : PageFtl × PhyAddr × ℕ)
    → IsFtl p
    → get_free_ppa p ≡ some r
    → r.2 ≡ 0
    → IsFtl r.0
after_step p r ok e ret = (subst (Returns (Gave p)) e (get_free_ppa-Gave p ok)).keeps ret

step4-IsFtl : IsFtl step4.0.0
unfolding step4 step3 step2 step1
step4-IsFtl =
    after_step step3.0.0 step4.0
      (after_step step2.0.0 step3.0
        (after_step step1.0.0 step2.0 (after_step written.0 step1.0 written-IsFtl step1.1 refl)
          step2.1 refl)
        step3.1 refl)
      step4.1 refl

-- Then logical page 3 is trimmed, so that the full block 0 is dirty.
unfoldable trimmed : (r : PageFtl × ℕ) × (invalidate_lpa 3 1 step4.0.0 ≡ some r)
unfolding step4 step3 step2 step1 written start created invalidate_lpa invalidate_page
trimmed = (_, refl)

trimmed-IsFtl : IsFtl trimmed.0.0
unfolding step4 step3 step2 step1 written start created
trimmed-IsFtl =
    (subst (Returns (Unmaps step4.0.0 3 (3 + 1))) trimmed.1
      (invalidate_lpa-Unmaps 3 1 step4.0.0 step4-IsFtl (omega arith))).unmaps_keeps

trimmed_inside : (0 < trimmed.0.0.np.nr_channels) × (0 < trimmed.0.0.np.nr_chips_per_channel)
unfolding trimmed step4 step3 step2 step1 written start created
trimmed_inside = (omega arith, omega arith)

victim_selection-Selected_example :
    Returns
      (Selected trimmed.0.0 trimmed-IsFtl 0 0 trimmed_inside.0 trimmed_inside.1)
      (victim_selection 0 0 trimmed.0.0)
victim_selection-Selected_example =
    victim_selection-Selected trimmed.0.0 trimmed-IsFtl 0 0 trimmed_inside.0 trimmed_inside.1

-- The selection takes that block.
victim_test : victim_selection 0 0 trimmed.0.0 ≡ some (some 0)
unfolding trimmed step4 step3 step2 step1 written start created victim_selection victim_loop
victim_test = refl

is_gc_needed_iff_example :
    (is_gc_needed start ≡ true) ↔ (start.bai.nr_free_blks * 100 < 3 * start.bai.nr_total_blks)
unfolding start created
is_gc_needed_iff_example = is_gc_needed_iff start start-IsFtl.abm (omega arith)

-- A used block, one with one invalid subpage of four, and one with three
abbrev used_block : ℕ → ℕ → Block
used_block block_no invalid = record {
  status = if invalid == 0 then clean else dirty;
  channel_no = 0;
  chip_no = 0;
  block_no = block_no;
  erase_count = 0;
  nr_invalid_subpages = invalid;
  pst = none;
  offset = 0;
}

abbrev used_state : PageFtl
used_state = record start {
  np = record two_channels { nr_subpages_per_block = 4 };
  bai = record start.bai {
    np = record two_channels { nr_subpages_per_block = 4 };
    blocks = used_block 0 0 ∷ used_block 1 1 ∷ used_block 2 3 ∷ [];
    lists = λ head channel chip. 1 ∷ 2 ∷ [];
  };
  ac_bab = some 0 ∷ [];
}

victim_selection_greedy-eq_example :
    victim_selection_greedy 0 0 used_state ≡ victim_selection 0 0 used_state
victim_selection_greedy-eq_example =
    victim_selection_greedy-eq used_state 0 0 0 (used_block 0 0) refl refl refl
      ((used_block 1 1, refl, λ e. omega arith), ((used_block 2 3, refl, λ e. omega arith), tt))

-- The greedy selection takes the block with one invalid subpage, not the one with three.
greedy_test : victim_selection_greedy 0 0 used_state ≡ some (some 1)
unfolding victim_selection_greedy greedy_loop
greedy_test = refl

take_pages_fit_example :
    let (offset, given) = take_pages two_channels (used_block 0 0) 5 in
    (offset ≡ 0 + given) × (offset ≤ 2) × (given ≤ 5) × (given < 5 → offset ≡ 2)
take_pages_fit_example =
    take_pages_fit two_channels (used_block 0 0) 5 (omega arith) (omega arith) (omega arith)
