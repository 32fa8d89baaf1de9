-- ===== src/PageFtl/Greedy.antt =====
-- __h4h_page_ftl_victim_selection_greedy of ftl/algo/page_ftl.c against the plain selection.
use h4h.Base.{
  ℕ, ◌+◌, ◌*◌, ◌%◌, ◌^◌, ◌≡◌, ◌≢◌, inl, inr, refl, false, Bool-cases, List, [], ◌∷◌, none, some,
  arith, get_elem?, All, ◌==◌, ltb,
}
use h4h.Abm.{Abm, Block, head_dirty}
use h4h.PageFtl.{PageFtl}
use h4h.PageFtl.Ops.{victim_loop, victim_selection, greedy_loop, victim_selection_greedy}

-- The walk of the greedy selection, where the active block `k` has no invalid subpage and no block of
-- the list is wholly invalid
module _ (bai : Abm) (k : ℕ) (act : Block) (at : get_elem? bai.blocks k ≡ some act)
    (none_invalid : act.nr_invalid_subpages ≡ 0) where
  abbrev pub PartlyInvalid : ℕ → Type 0
  PartlyInvalid i =
      (b : Block) × (get_elem? bai.blocks i ≡ some b)
      × (b.nr_invalid_subpages ≢ bai.np.nr_subpages_per_block)

  greedy_stays :
      (xs : List ℕ) (j : ℕ)
      → All PartlyInvalid xs
      → PartlyInvalid j
      → greedy_loop bai (some k) xs (some j) ≡ some (some j)
  unfolding greedy_loop
  greedy_stays [] j h hj = refl
  greedy_stays (i ∷ xs) j ((b, ab, part), h) (best, aj, pj) =
      let ih = greedy_stays xs j h (best, aj, pj) in
      elim (Bool-cases (k == i)) [
        | inl skip ↦ rw (skip, ih) refl
        | inr keep ↦
            let full : (b.nr_invalid_subpages == bai.np.nr_subpages_per_block) ≡ false =
              ground arith in
            let less : ltb best.nr_invalid_subpages act.nr_invalid_subpages ≡ false =
              ground arith in
            rw (keep, ab, full, aj, at, less, ih) refl
      ]

  greedy_first :
      (xs : List ℕ)
      → All PartlyInvalid xs
      → greedy_loop bai (some k) xs none ≡ some (victim_loop (some k) xs)
  unfolding greedy_loop victim_loop
  greedy_first [] h = refl
  greedy_first (i ∷ xs) ((b, ab, part), h) = elim (Bool-cases (k == i)) [
    | inl skip ↦ rw (skip, greedy_first xs h) refl
    | inr keep ↦
        let full : (b.nr_invalid_subpages == bai.np.nr_subpages_per_block) ≡ false = ground arith in
        rw (keep, ab, full, greedy_stays xs i h (b, ab, part)) refl
  ]

-- __h4h_page_ftl_victim_selection_greedy, where the active block of the chip has no invalid subpage and
-- every block of its dirty list has a subpage that is not invalid, makes the same choice as
-- __h4h_page_ftl_victim_selection: the first dirty block that is not active, however many invalid
-- subpages the others have.
pub victim_selection_greedy-eq :
    (p : PageFtl) (channel chip k : ℕ) (act : Block)
    → get_elem? p.ac_bab ((channel * p.np.nr_chips_per_channel + chip) % 2 ^ 64) ≡ some (some k)
    → get_elem? p.bai.blocks k ≡ some act
    → act.nr_invalid_subpages ≡ 0
    → All
        (λ i.
          (b : Block) × (get_elem? p.bai.blocks i ≡ some b)
          × (b.nr_invalid_subpages ≢ p.bai.np.nr_subpages_per_block))
        (p.bai.lists head_dirty channel chip)
    → victim_selection_greedy channel chip p ≡ victim_selection channel chip p
unfolding victim_selection_greedy victim_selection
victim_selection_greedy-eq p channel chip k act pointer at zero_invalid part =
    rw pointer (greedy_first p.bai k act at zero_invalid (p.bai.lists head_dirty channel chip) part)
