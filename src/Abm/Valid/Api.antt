-- ===== src/Abm/Valid/Api.antt =====
-- The functions of abm.c that take an address, on a valid state and an address inside the device.
use h4h.Base.{
  ℕ, ◌+◌, ◌*◌, ◌<◌, ◌≡◌, ◌≢◌, ◌^◌, refl, sym, ap, Bool, true, false, List, some, arith, get_elem?,
  get_elem?-lt, get_elem?_of_lt, set, Returns, Returns-mono, ◌==◌, ◌⊎◌, if◌then◌else◌,
  get_elem?-set_self, get_elem?-set_ne, set-get_elem?, ◌∙◌, inl, inr, Bool-cases, some-inj, tally,
  count_p-set,
}
use native.Mathlib.Nat.{mod-eq_of_lt}
use h4h.Abm.{
  Abm, Block, BlkStatus, clean, dirty, free_prepare, is_status, head_dirty, get_block_idx,
  get_block,
}
use h4h.Abm.Geometry.{IsBlockAddr, get_block_idx_inverse, index_lt}
use h4h.Abm.Ops.{
  find_block, dirtied, set_to_dirty_block, invalidate_page, invalidate_found, marked, mark_invalid,
}
use h4h.Abm.Counters.{count_status}
use h4h.Abm.Outcome.{moved}
use h4h.Abm.Valid.{IsValid}
use h4h.Abm.Valid.Calls.{Ends, dirty_found-Ends, mark_invalid-Ends}

-- The address leads to a block of the device.
pub record Found (bai : Abm) (channel_no chip_no block_no : ℕ) (b : Block) : Type 0 where
  pub here : get_elem? bai.blocks (get_block_idx bai.np channel_no chip_no block_no) ≡ some b
  pub index_small : get_block_idx bai.np channel_no chip_no block_no < bai.np.nr_blocks_per_ssd
  pub found_channel : b.channel_no ≡ channel_no
  pub found_chip : b.chip_no ≡ chip_no
  pub found_block : b.block_no ≡ block_no

module _ (bai : Abm) (valid : IsValid bai) (channel_no chip_no block_no : ℕ)
    (addr : IsBlockAddr bai.np channel_no chip_no block_no) where
  -- Every address inside the device leads to the block that carries it.
  pub address-Found : (b : Block) × Found bai channel_no chip_no block_no b
  address-Found =
      let inv = get_block_idx_inverse bai.np valid.geometry channel_no chip_no block_no addr in
      let (b, at) =
        get_elem?_of_lt bai.blocks (get_block_idx bai.np channel_no chip_no block_no)
          (rw valid.sized inv.0) in
      let k = valid.each _ b at in
      (
        b,
        record {
          here = at;
          index_small = inv.0;
          found_channel = k.in_channel ∙ inv.1;
          found_chip = k.in_chip ∙ inv.2;
          found_block = k.in_block ∙ inv.3;
        },
      )

module _ (bai : Abm) (valid : IsValid bai) (channel_no chip_no block_no : ℕ) (b : Block)
    (found : Found bai channel_no chip_no block_no b) where
  pub find_block-eq :
      find_block bai channel_no chip_no block_no
      ≡ some (some (get_block_idx bai.np channel_no chip_no block_no, b))
  unfolding find_block
  find_block-eq = ground (arith, found)

  get_block-eq :
      get_block bai channel_no chip_no block_no
      ≡ some (get_block_idx bai.np channel_no chip_no block_no)
  unfolding get_block
  get_block-eq = ground (arith, found)

  -- h4h_abm_set_to_dirty_block marks every subpage of that block invalid and moves it to the tail of
  -- the dirty list of its chip, whatever its status was.
  pub set_to_dirty_block-Ends :
      Returns
        (Ends bai
          (get_block_idx bai.np channel_no chip_no block_no)
          (dirtied bai b)
          (moved (get_block_idx bai.np channel_no chip_no block_no) b head_dirty bai.lists))
        (set_to_dirty_block channel_no chip_no block_no bai)
  unfolding set_to_dirty_block
  set_to_dirty_block-Ends = rw find_block-eq (dirty_found-Ends bai valid _ b found.here)

in_use-tally :
    (st : BlkStatus) → (st ≡ clean) ⊎ (st ≡ dirty) → tally (is_status st free_prepare) ≡ 0
in_use-tally st (inl e) = rw e
in_use-tally st (inr e) = rw e

-- Marks one subpage of the block at `i` invalid, and leaves the other blocks alone.
pub record Marks (bai : Abm) (i : ℕ) (t : List Bool) (off : ℕ) (bai' : Abm) : Type 0 where
  pub still_valid : IsValid bai'
  pub after : Block
  pub after_there : get_elem? bai'.blocks i ≡ some after
  pub after_table : after.pst ≡ some (set t off true)
  pub after_in_use : (after.status ≡ clean) ⊎ (after.status ≡ dirty)
  pub after_channel :
      (b : Block) → get_elem? bai.blocks i ≡ some b → after.channel_no ≡ b.channel_no
  pub after_chip : (b : Block) → get_elem? bai.blocks i ≡ some b → after.chip_no ≡ b.chip_no
  pub marks_np : bai'.np ≡ bai.np
  pub marks_prepared : bai'.nr_free_blks_prepared ≡ bai.nr_free_blks_prepared
  pub others : (j : ℕ) → i ≢ j → get_elem? bai'.blocks j ≡ get_elem? bai.blocks j

module _ (bai : Abm) (valid : IsValid bai) (i : ℕ) (b : Block)
    (at : get_elem? bai.blocks i ≡ some b) (t : List Bool) (has : b.pst ≡ some t) (off : ℕ)
    (in_use : (b.status ≡ clean) ⊎ (b.status ≡ dirty)) where
  mark_again : get_elem? t off ≡ some true → Marks bai i t off bai
  mark_again m = record {
    still_valid = valid;
    after = b;
    after_there = at;
    after_table = rw (set-get_elem? t off true m) has;
    after_in_use = in_use;
    after_channel = λ c g. ap (λ (x : Block). x.channel_no) (some-inj (sym at ∙ g));
    after_chip = λ c g. ap (λ (x : Block). x.chip_no) (some-inj (sym at ∙ g));
    marks_np = refl;
    marks_prepared = refl;
    others = λ j ne. refl;
  }

  marked_in_use : ((marked t off b).status ≡ clean) ⊎ ((marked t off b).status ≡ dirty)
  marked_in_use = elim (Bool-cases (b.nr_invalid_subpages == 0)) [
    | inl first ↦ rw first (inr refl)
    | inr later ↦ rw later in_use
  ]

  mark_first :
      get_elem? t off ≡ some false → Returns (Marks bai i t off) (mark_invalid i b t off bai)
  mark_first m =
      Returns-mono _ (Marks bai i t off) (mark_invalid i b t off bai)
        (λ bai' e ends. record {
          still_valid = ends.0;
          after = marked t off b;
          after_there =
              rw ends.1.new_blocks
                (get_elem?-set_self bai.blocks i _ (get_elem?-lt bai.blocks i at));
          after_table = refl;
          after_in_use = marked_in_use;
          after_channel = λ c g. ap (λ (x : Block). x.channel_no) (some-inj (sym at ∙ g));
          after_chip = λ c g. ap (λ (x : Block). x.chip_no) (some-inj (sym at ∙ g));
          marks_np = ends.1.same_np;
          marks_prepared = omega (
            arith,
            ends.0.counted.counts_prepared,
            ap (count_status free_prepare) ends.1.new_blocks,
            valid.counted.counts_prepared,
            count_p-set (λ (x : Block). is_status x.status free_prepare) bai.blocks i
                (marked t off b) at,
            in_use-tally b.status in_use,
            in_use-tally (marked t off b).status marked_in_use,
          );
          others = λ j ne. rw ends.1.new_blocks (get_elem?-set_ne bai.blocks i j _ ne);
        })
        (mark_invalid-Ends bai valid i b at t off has m in_use)

  invalidate_found-Marks :
      off < bai.np.nr_subpages_per_block
      → Returns (Marks bai i t off) (invalidate_found i b off bai)
  unfolding invalidate_found
  invalidate_found-Marks h =
      let (m, e) = get_elem?_of_lt t off (rw ((valid.each i b at).table_size t has) h) in
      rw (has, e) (go m e)
    where
      go :
          (m : Bool)
          → get_elem? t off ≡ some m
          → Returns (Marks bai i t off) (if m then some bai else mark_invalid i b t off bai)
      go true e = mark_again e
      go false e = mark_first e

subpage-lt :
    (bai : Abm) (page_no subpage_no : ℕ)
    → IsValid bai
    → page_no < bai.np.nr_pages_per_block
    → subpage_no < bai.np.nr_subpages_per_page
    → page_no * bai.np.nr_subpages_per_page + subpage_no < bai.np.nr_subpages_per_block
subpage-lt bai page_no subpage_no valid hp hs = omega (
  arith,
  valid.geometry.sub_block,
  index_lt bai.np.nr_subpages_per_page page_no subpage_no bai.np.nr_pages_per_block hp hs,
)

-- No check of h4h_abm_invalidate_page fires at a subpage inside a block.
invalidate_page-eq :
    (bai : Abm) (channel_no chip_no block_no page_no subpage_no : ℕ) (b : Block)
    → IsValid bai
    → Found bai channel_no chip_no block_no b
    → page_no < bai.np.nr_pages_per_block
    → subpage_no < bai.np.nr_subpages_per_page
    → invalidate_page channel_no chip_no block_no page_no subpage_no bai
      ≡ invalidate_found
          (get_block_idx bai.np channel_no chip_no block_no)
          b
          (page_no * bai.np.nr_subpages_per_page + subpage_no)
          bai
unfolding invalidate_page
invalidate_page-eq bai channel_no chip_no block_no page_no subpage_no b valid found hp hs =
    let lt = subpage-lt bai page_no subpage_no valid hp hs in
    let exact =
      mod-eq_of_lt {n = page_no * bai.np.nr_subpages_per_page + subpage_no} {m = 2 ^ 64}
        (omega (arith, lt, valid.geometry.block_small)) in
    rw exact (ground (arith, found, lt))

-- h4h_abm_invalidate_page at a subpage inside a clean or dirty block that has a page status table: it
-- runs through without a bug check, keeps the invariant, and marks exactly that subpage of that
-- block invalid, whether it was so before or not.
pub invalidate_page-Marks :
    (bai : Abm) (channel_no chip_no block_no page_no subpage_no : ℕ) (b : Block) (t : List Bool)
    → IsValid bai
    → Found bai channel_no chip_no block_no b
    → page_no < bai.np.nr_pages_per_block
    → subpage_no < bai.np.nr_subpages_per_page
    → (b.status ≡ clean) ⊎ (b.status ≡ dirty)
    → b.pst ≡ some t
    → Returns
        (Marks bai
          (get_block_idx bai.np channel_no chip_no block_no)
          t
          (page_no * bai.np.nr_subpages_per_page + subpage_no))
        (invalidate_page channel_no chip_no block_no page_no subpage_no bai)
unfolding invalidate_page
invalidate_page-Marks bai channel_no chip_no block_no page_no subpage_no b t valid found hp hs
      in_use has =
    rw (invalidate_page-eq bai channel_no chip_no block_no page_no subpage_no b valid found hp hs) (
      invalidate_found-Marks bai valid _ b found.here t has _ in_use
        (subpage-lt bai page_no subpage_no valid hp hs))
