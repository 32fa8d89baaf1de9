-- ===== src/PageFtl/Undo.antt =====
-- A block of ftl/algo/abm.c that is prepared and not needed is given back by the rollback.
use h4h.Base.{
  ℕ, ◌≡◌, ◌⊎◌, inl, inr, refl, sym, ap, ◌∙◌, List, Option, none, some, get_elem?, get_elem?-lt,
  get_elem?-set_self, set, set-set, set-get_elem?, length, Returns, Returns-mono,
}
use h4h.Abm.{Abm, Block, BlkStatus, free, free_prepare, clean, dirty, bad}
use h4h.Abm.Ops.{get_free_block_prepare, get_free_block_rollback}
use h4h.Abm.Counters.{count_status}
use h4h.Abm.Valid.{IsValid}
use h4h.Abm.Valid.Calls.{Ends, get_free_block_rollback-Ends}
use h4h.Abm.Valid.Prepare.{taken, exhausted, last_of, get_free_block_prepare-Prepared}
use h4h.PageFtl.Take.{NonePrepared, in_range, unfree_empty}

-- On valid states the blocks and the lists determine the counters.
same_abm :
    (a b : Abm)
    → IsValid a
    → IsValid b
    → a.np ≡ b.np
    → a.blocks ≡ b.blocks
    → a.lists ≡ b.lists
    → a ≡ b
same_abm a b va vb np blocks lists =
    let count : (st : BlkStatus) → count_status st a.blocks ≡ count_status st b.blocks =
      λ st. ap (count_status st) blocks in
    let total : a.nr_total_blks ≡ b.nr_total_blks =
      va.counted.total ∙ ap length blocks ∙ sym vb.counted.total in
    let nr_free : a.nr_free_blks ≡ b.nr_free_blks =
      va.counted.counts_free ∙ count free ∙ sym vb.counted.counts_free in
    let nr_prepared : a.nr_free_blks_prepared ≡ b.nr_free_blks_prepared =
      va.counted.counts_prepared ∙ count free_prepare ∙ sym vb.counted.counts_prepared in
    let nr_clean : a.nr_clean_blks ≡ b.nr_clean_blks =
      va.counted.counts_clean ∙ count clean ∙ sym vb.counted.counts_clean in
    let nr_dirty : a.nr_dirty_blks ≡ b.nr_dirty_blks =
      va.counted.counts_dirty ∙ count dirty ∙ sym vb.counted.counts_dirty in
    let nr_bad : a.nr_bad_blks ≡ b.nr_bad_blks =
      va.counted.counts_bad ∙ count bad ∙ sym vb.counted.counts_bad in
    λ i. record {
      np = np i;
      blocks = blocks i;
      lists = lists i;
      nr_total_blks = total i;
      nr_free_blks = nr_free i;
      nr_free_blks_prepared = nr_prepared i;
      nr_clean_blks = nr_clean i;
      nr_dirty_blks = nr_dirty i;
      nr_bad_blks = nr_bad i;
    }

module _ (bai : Abm) (valid : IsValid bai) where
  free_again : (b : Block) → b.status ≡ free → record b { status = free } ≡ b
  free_again b e = λ i. record b { status = sym e i }

  undone :
      (i : ℕ) (b : Block) (bai1 : Abm)
      → get_elem? bai.blocks i ≡ some b
      → b.status ≡ free
      → Ends bai i (record b { status = free_prepare }) bai.lists bai1
      → Returns (λ bai2. bai2 ≡ bai) (get_free_block_rollback i bai1)
  undone i b bai1 at st (v1, o1) =
      let at1 : get_elem? bai1.blocks i ≡ some (record b { status = free_prepare }) =
        rw o1.new_blocks (get_elem?-set_self bai.blocks i _ (get_elem?-lt bai.blocks i at)) in
      Returns-mono _ (λ bai2. bai2 ≡ bai) (get_free_block_rollback i bai1)
        (λ bai2 e ends.
          same_abm bai2 bai ends.0 valid (ends.1.same_np ∙ o1.same_np)
            (ends.1.new_blocks
              ∙ ap (λ (x : List Block). set x i (record b { status = free })) o1.new_blocks
              ∙ set-set bai.blocks i _ _
              ∙ ap (set bai.blocks i) (free_again b st)
              ∙ set-get_elem? bai.blocks i b at)
            (ends.1.new_lists ∙ o1.new_lists))
        (get_free_block_rollback-Ends bai1 v1 i _ at1 refl)

  -- On a valid state with no block prepared, h4h_abm_get_free_block_prepare either returns NULL and
  -- changes nothing, or returns a block for which h4h_abm_get_free_block_rollback runs through without
  -- a bug check and restores exactly the state before: blocks, lists and counters.
  pub prepare-rollback :
      (channel chip : ℕ)
      → NonePrepared bai
      → Returns
          (λ (r : Abm × Option ℕ).
            (r ≡ (bai, none))
            ⊎ ((i : ℕ) × (r.1 ≡ some i)
                × Returns (λ bai2. bai2 ≡ bai) (get_free_block_rollback i r.0)))
          (get_free_block_prepare channel chip bai)
  prepare-rollback channel chip z =
      Returns-mono _
        (λ (r : Abm × Option ℕ).
          (r ≡ (bai, none))
          ⊎ ((i : ℕ) × (r.1 ≡ some i)
              × Returns (λ bai2. bai2 ≡ bai) (get_free_block_rollback i r.0)))
        (get_free_block_prepare channel chip bai)
        (λ r e p. elim p [
          | taken pre i post b split unfree at st ri ends ↦ inr (i, ri, undone i b r.0 at st ends)
          | exhausted all same ↦
              let none_left =
                unfree_empty bai valid channel chip _ refl (in_range bai valid channel chip) all
                  z in
              inl (same ∙ ap (λ (xs : List ℕ). (bai, last_of none xs)) none_left)
        ])
        (get_free_block_prepare-Prepared bai valid channel chip)
