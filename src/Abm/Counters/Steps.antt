-- ===== src/Abm/Counters/Steps.antt =====
-- Every operation keeps the counters right, and none of its bug checks on them fires.
use h4h.Base.{
  ℕ, ◌+◌, ◌<◌, ◌≡◌, ◌^◌, refl, Bool, true, false, List, some, arith, get_elem?, get_elem?-lt,
  get_elem?-set_self, if◌then◌else◌, set, ==_refl, ==_iff, inc64, dec64, inc32, ltb, Returns-bind,
  Returns, tally, length, count_p-set, count_p_pos, length-set, Bool-cases, inl, inr, ◌==◌,
}
use h4h.Abm.{
  status_code, Abm, Block, BlkStatus, free, free_prepare, clean, dirty, bad, is_status, head_dirty,
}
use h4h.Abm.Counters.{IsCounted, count_status, count_total, check_status-IsCounted}
use h4h.Abm.Ops.{
  update_block, prepare_block, get_free_block_rollback, get_free_block_commit, leave_status,
  retire_or_free, erase_found, dirty_found, enter_dirty, marked, mark_invalid, clean_to_dirty,
  move_block,
}

abbrev status_is : BlkStatus → Block → Bool
status_is st b = is_status b.status st

-- What writing a block at a valid index does to the five counts and to their sum.
record Moves (bs : List Block) (i : ℕ) (b v : Block) : Type 0 where
  same_length : length (set bs i v) ≡ length bs
  moves_free :
      count_status free (set bs i v) + tally (status_is free b)
      ≡ count_status free bs + tally (status_is free v)
  moves_prepared :
      count_status free_prepare (set bs i v) + tally (status_is free_prepare b)
      ≡ count_status free_prepare bs + tally (status_is free_prepare v)
  moves_clean :
      count_status clean (set bs i v) + tally (status_is clean b)
      ≡ count_status clean bs + tally (status_is clean v)
  moves_dirty :
      count_status dirty (set bs i v) + tally (status_is dirty b)
      ≡ count_status dirty bs + tally (status_is dirty v)
  moves_bad :
      count_status bad (set bs i v) + tally (status_is bad b)
      ≡ count_status bad bs + tally (status_is bad v)
  before :
      count_status free bs
        + count_status free_prepare bs
        + count_status clean bs
        + count_status dirty bs
        + count_status bad bs
      ≡ length bs

set-Moves : (bs : List Block) (i : ℕ) (b v : Block) → get_elem? bs i ≡ some b → Moves bs i b v
set-Moves bs i b v e = record {
  same_length = length-set bs i v;
  moves_free = count_p-set (status_is free) bs i v e;
  moves_prepared = count_p-set (status_is free_prepare) bs i v e;
  moves_clean = count_p-set (status_is clean) bs i v e;
  moves_dirty = count_p-set (status_is dirty) bs i v e;
  moves_bad = count_p-set (status_is bad) bs i v e;
  before = count_total bs;
}

-- prepare: the block goes from free to prepared.
pub prepare_block-IsCounted :
    (bai : Abm) (i : ℕ) (b : Block)
    → IsCounted bai
    → get_elem? bai.blocks i ≡ some b
    → b.status ≡ free
    → Returns IsCounted (prepare_block i b bai)
unfolding prepare_block
prepare_block-IsCounted bai i b v e h =
    rw (check_status-IsCounted bai v)
      (ground (arith, set-Moves bai.blocks i b (record b { status = free_prepare }) e))

-- rollback: the block goes back to free.
pub get_free_block_rollback-IsCounted :
    (bai : Abm) (i : ℕ) (b : Block)
    → IsCounted bai
    → get_elem? bai.blocks i ≡ some b
    → b.status ≡ free_prepare
    → Returns IsCounted (get_free_block_rollback i bai)
unfolding get_free_block_rollback
get_free_block_rollback-IsCounted bai i b v e h = ground (
  arith,
  check_status-IsCounted bai v,
  set-Moves bai.blocks i b (record b { status = free }) e,
  count_p_pos (status_is free_prepare) bai.blocks i e,
)

-- commit: the block becomes clean.
pub get_free_block_commit-IsCounted :
    (bai : Abm) (i : ℕ) (b : Block)
    → IsCounted bai
    → get_elem? bai.blocks i ≡ some b
    → b.status ≡ free_prepare
    → Returns IsCounted (get_free_block_commit i bai)
unfolding get_free_block_commit
get_free_block_commit-IsCounted bai i b v e h = ground (
  arith,
  check_status-IsCounted bai v,
  set-Moves bai.blocks i b (record b { status = clean }) e,
  count_p_pos (status_is free_prepare) bai.blocks i e,
)

-- A block leaves its status and enters another: what the counters must show before and after.
record Crosses (bai : Abm) (i : ℕ) (b v : Block) : Type 0 where
  moves : Moves bai.blocks i b v
  present : 0 < count_status b.status bai.blocks

Crosses-at : (bai : Abm) (i : ℕ) (b v : Block) → get_elem? bai.blocks i ≡ some b → Crosses bai i b v
Crosses-at bai i b v e = record {
  moves = set-Moves bai.blocks i b v e;
  present = count_p_pos (status_is b.status) bai.blocks i e (==_refl (status_code b.status));
}

-- The counters in the middle of an erase: the old status is left and the new one entered.
middle-IsCounted :
    (bai : Abm) (i : ℕ) (b : Block) (st : BlkStatus) (is_bad : Bool)
    → IsCounted bai
    → get_elem? bai.blocks i ≡ some b
    → b.status ≡ st
    → Returns (λ bai1. IsCounted (retire_or_free i b is_bad bai1)) (leave_status st bai)
unfolding leave_status retire_or_free
middle-IsCounted bai i b free true v e h =
    ground (arith, Crosses-at bai i b (record b { status = bad }) e)
middle-IsCounted bai i b st true v e h =
    ground (arith, Crosses-at bai i b (record b { status = bad }) e)
middle-IsCounted bai i b free false v e h =
    ground (arith, Crosses-at bai i b (record b { status = free }) e)
middle-IsCounted bai i b st false v e h =
    ground (arith, Crosses-at bai i b (record b { status = free }) e)

-- An update that keeps the status keeps the counters.
pub same_status-IsCounted :
    (bai : Abm) (i : ℕ) (b v : Block)
    → IsCounted bai
    → get_elem? bai.blocks i ≡ some b
    → v.status ≡ b.status
    → IsCounted (update_block i v bai)
same_status-IsCounted bai i b w v e h = ground (arith, set-Moves bai.blocks i b w e)

-- A counter that goes down moves no block.
pub leave_status-blocks :
    (st : BlkStatus) (bai bai1 : Abm)
    → leave_status st bai ≡ some bai1
    → (bai1.blocks ≡ bai.blocks) × (bai1.np ≡ bai.np) × (bai1.lists ≡ bai.lists)
unfolding leave_status
leave_status-blocks free bai bai1 e = ground arith
leave_status-blocks st bai bai1 e = ground arith

-- The block as it stands in the middle of an erase.
retire_or_free-get :
    (bai : Abm) (i : ℕ) (b : Block) (is_bad : Bool)
    → i < length bai.blocks
    → get_elem? (retire_or_free i b is_bad bai).blocks i
      ≡ some (record b { status = if is_bad then bad else free })
unfolding retire_or_free
retire_or_free-get bai i b true h = get_elem?-set_self bai.blocks i _ h
retire_or_free-get bai i b false h = get_elem?-set_self bai.blocks i _ h

-- erase: none of its bug checks fires, and the counters are right again at its end.
pub erase_found-IsCounted :
    (bai : Abm) (i : ℕ) (b : Block) (is_bad : Bool)
    → IsCounted bai
    → get_elem? bai.blocks i ≡ some b
    → Returns IsCounted (erase_found i b is_bad bai)
unfolding erase_found
erase_found-IsCounted bai i b is_bad v e = rw (check_status-IsCounted bai v) (
    Returns-bind _ IsCounted (leave_status b.status bai) _
      (middle-IsCounted bai i b b.status is_bad v e refl)
      λ bai1 le w. rw (check_status-IsCounted _ w) (
        same_status-IsCounted _ i _ _ w
          (retire_or_free-get bai1 i b is_bad
            (rw ((leave_status-blocks b.status bai bai1 le).0) (get_elem?-lt bai.blocks i e)))
          refl))

-- The counters in the middle of h4h_abm_set_to_dirty_block.
middle_dirty-IsCounted :
    (bai : Abm) (i : ℕ) (b : Block) (st : BlkStatus)
    → IsCounted bai
    → get_elem? bai.blocks i ≡ some b
    → b.status ≡ st
    → Returns (λ bai1. IsCounted (enter_dirty i b bai1)) (leave_status st bai)
unfolding leave_status enter_dirty
middle_dirty-IsCounted bai i b free v e h =
    ground (arith, Crosses-at bai i b (record b { status = dirty }) e)
middle_dirty-IsCounted bai i b st v e h =
    ground (arith, Crosses-at bai i b (record b { status = dirty }) e)

-- set to dirty: none of its bug checks fires, and the counters are right again at its end.
pub dirty_found-IsCounted :
    (bai : Abm) (i : ℕ) (b : Block)
    → IsCounted bai
    → get_elem? bai.blocks i ≡ some b
    → Returns IsCounted (dirty_found i b bai)
unfolding dirty_found
dirty_found-IsCounted bai i b v e = rw (check_status-IsCounted bai v) (
    Returns-bind _ IsCounted (leave_status b.status bai) _
      (middle_dirty-IsCounted bai i b b.status v e refl)
      λ bai1 le w. rw (check_status-IsCounted _ w) (
        same_status-IsCounted _ i _ _ w
          (get_elem?-set_self bai1.blocks i _
            (rw ((leave_status-blocks b.status bai bai1 le).0) (get_elem?-lt bai.blocks i e)))
          refl))

-- A clean block is on its counter, so the counters of clean and dirty blocks both move.
pub clean_to_dirty-eq :
    (bai : Abm) (i : ℕ) (b : Block)
    → IsCounted bai
    → get_elem? bai.blocks i ≡ some b
    → b.status ≡ clean
    → clean_to_dirty i b bai
      ≡ some (record (move_block i b head_dirty bai) {
        nr_clean_blks = dec64 bai.nr_clean_blks;
        nr_dirty_blks = inc64 bai.nr_dirty_blks;
      })
unfolding clean_to_dirty
clean_to_dirty-eq bai i b v e h =
    rw (h, check_status-IsCounted bai v) (ground (arith, v, Crosses-at bai i b b e))

-- invalidate: a block that had no invalid subpage must be clean, and becomes dirty.
pub mark_invalid-IsCounted :
    (bai : Abm) (i : ℕ) (b : Block) (table : List Bool) (pst_off : ℕ)
    → IsCounted bai
    → get_elem? bai.blocks i ≡ some b
    → (b.nr_invalid_subpages ≡ 0 → b.status ≡ clean)
    → b.nr_invalid_subpages < bai.np.nr_subpages_per_block
    → bai.np.nr_subpages_per_block < 2 ^ 32
    → Returns IsCounted (mark_invalid i b table pst_off bai)
unfolding mark_invalid
mark_invalid-IsCounted bai i b table pst_off v e h room small =
    elim (Bool-cases (b.nr_invalid_subpages == 0)) [
      | inl none_yet ↦
          let st = h ((==_iff _ _).0 none_yet) in
          rw (none_yet, clean_to_dirty-eq bai i b v e st, in_range)
            (ground (arith, none_yet, Crosses-at bai i b (marked table pst_off b) e))
      | inr some_before ↦
          rw (some_before, in_range)
            (ground (arith, some_before, Crosses-at bai i b (marked table pst_off b) e))
    ]
  where
    in_range : ltb bai.np.nr_subpages_per_block (inc32 b.nr_invalid_subpages) ≡ false
    in_range = ground arith
