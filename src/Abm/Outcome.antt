-- ===== src/Abm/Outcome.antt =====
-- What each operation of abm.c leaves behind: one block rewritten, and its place in the lists.
use h4h.Base.{
  ℕ, ◌≡◌, Bool, true, false, List, some, arith, get_elem?, set, if◌then◌else◌, set-set, ◌==◌,
  Bool-cases, inl, inr,
}
use h4h.Abm.{
  Abm, Block, free, free_prepare, clean, dirty, bad, Lists, ListHead, head_free, head_clean,
  head_dirty, head_bad, list_add_tail, list_del,
}
use h4h.Abm.Ops.{
  prepare_block, get_free_block_rollback, get_free_block_commit, erased, erase_found, dirtied,
  dirty_found, marked, mark_invalid,
}

-- The lists after a block has moved to the tail of a list of its chip.
abbrev pub moved : ℕ → Block → ListHead → Lists → Lists
moved i b head lists = list_add_tail i head b.channel_no b.chip_no (list_del i lists)

pub record Becomes (bai : Abm) (i : ℕ) (v : Block) (ls : Lists) (bai' : Abm) : Type 0 where
  pub same_np : bai'.np ≡ bai.np
  pub new_blocks : bai'.blocks ≡ set bai.blocks i v
  pub new_lists : bai'.lists ≡ ls

pub prepare_block-Becomes :
    (bai bai' : Abm) (i : ℕ) (b : Block)
    → prepare_block i b bai ≡ some bai'
    → Becomes bai i (record b { status = free_prepare }) bai.lists bai'
unfolding prepare_block
prepare_block-Becomes bai bai' i b e = ground arith

pub get_free_block_commit-Becomes :
    (bai bai' : Abm) (i : ℕ) (b : Block)
    → get_elem? bai.blocks i ≡ some b
    → get_free_block_commit i bai ≡ some bai'
    → Becomes bai i (record b { status = clean }) (moved i b head_clean bai.lists) bai'
unfolding get_free_block_commit
get_free_block_commit-Becomes bai bai' i b g e = ground arith

abbrev pub home : Bool → ListHead
home true = head_bad
home false = head_free

pub erase_found-Becomes :
    (bai bai' : Abm) (i : ℕ) (b : Block) (is_bad : Bool)
    → erase_found i b is_bad bai ≡ some bai'
    → Becomes bai i (erased bai is_bad b) (moved i b (home is_bad) bai.lists) bai'
unfolding erase_found
erase_found-Becomes bai bai' i b true e =
    ground (arith, set-set bai.blocks i (record b { status = bad }) (erased bai true b))
erase_found-Becomes bai bai' i b false e =
    ground (arith, set-set bai.blocks i (record b { status = free }) (erased bai false b))

pub rollback-Becomes :
    (bai bai' : Abm) (i : ℕ) (b : Block)
    → get_elem? bai.blocks i ≡ some b
    → get_free_block_rollback i bai ≡ some bai'
    → Becomes bai i (record b { status = free }) bai.lists bai'
unfolding get_free_block_rollback
rollback-Becomes bai bai' i b g e = ground arith

pub dirty_found-Becomes :
    (bai bai' : Abm) (i : ℕ) (b : Block)
    → dirty_found i b bai ≡ some bai'
    → Becomes bai i (dirtied bai b) (moved i b head_dirty bai.lists) bai'
unfolding dirty_found
dirty_found-Becomes bai bai' i b e =
    ground (arith, set-set bai.blocks i (record b { status = dirty }) (dirtied bai b))

-- Only the first invalid subpage of a block moves it.
abbrev pub marked_lists : ℕ → Block → Lists → Lists
marked_lists i b ls = if b.nr_invalid_subpages == 0 then moved i b head_dirty ls else ls

pub mark_invalid-Becomes :
    (bai bai' : Abm) (i : ℕ) (b : Block) (table : List Bool) (pst_off : ℕ)
    → mark_invalid i b table pst_off bai ≡ some bai'
    → Becomes bai i (marked table pst_off b) (marked_lists i b bai.lists) bai'
unfolding mark_invalid
mark_invalid-Becomes bai bai' i b table off e = elim (Bool-cases (b.nr_invalid_subpages == 0)) [
  | inl first ↦ ground (arith, first)
  | inr later ↦ ground (arith, later)
]
