-- ===== src/Abm/Ops.antt =====
-- The operations of ftl/algo/abm.c that change state. A result `none` is a bug check that fired.
use h4h.Base.{
  ℕ, ◌+◌, ◌*◌, ◌%◌, ◌^◌, Bool, true, false, ◌||◌, not, List, [], ◌∷◌, Option, none, some, ◌==◌, ltb,
  leb, if◌then◌else◌, ◌>>=◌, ◌>>◌, bug_on, get_elem?, set, replicate, inc64, dec64, inc32,
}
use h4h.Abm.{
  Abm, Block, BlkStatus, free, free_prepare, clean, dirty, bad, is_status, ListHead, head_free,
  head_clean, head_dirty, head_bad, list_add_tail, list_del, get_block_idx, get_block, check_status,
}

abbrev pub update_block : ℕ → Block → Abm → Abm
update_block i blk bai = record bai { blocks = set bai.blocks i blk }

-- `list_del` and then `list_add_tail` to a list of the block's own chip
unfoldable pub move_block : ℕ → Block → ListHead → Abm → Abm
unfolding list_add_tail list_del
move_block i blk head bai = record bai {
  lists = list_add_tail i head blk.channel_no blk.chip_no (list_del i bai.lists);
}

-- The body of the loop in h4h_abm_get_free_block_prepare when it meets a free block
unfoldable pub prepare_block : ℕ → Block → Abm → Option Abm
unfolding check_status
prepare_block i blk bai = do
  check_status bai
  some (record (update_block i (record blk { status = free_prepare }) bai) {
    nr_free_blks = dec64 bai.nr_free_blks;
    nr_free_blks_prepared = inc64 bai.nr_free_blks_prepared;
  })

-- The loop: `blk` is the block that the previous round left in the variable of that name.
unfoldable pub prepare_loop : List ℕ → Option ℕ → Abm → Option (Abm × Option ℕ)
unfolding prepare_block
prepare_loop [] blk bai = some (bai, blk)
prepare_loop (i ∷ rest) blk bai =
    let next = prepare_loop rest (some i) bai in
    (get_elem? bai.blocks i >>= λ b.
    if is_status b.status free
    then (prepare_block i b bai >>= λ bai'. some (bai', some i))
    else next)

-- h4h_abm_get_free_block_prepare
unfoldable pub get_free_block_prepare : ℕ → ℕ → Abm → Option (Abm × Option ℕ)
unfolding prepare_loop
get_free_block_prepare channel_no chip_no bai =
    prepare_loop (bai.lists head_free channel_no chip_no) none bai

-- h4h_abm_get_free_block_rollback
unfoldable pub get_free_block_rollback : ℕ → Abm → Option Abm
unfolding check_status
get_free_block_rollback i bai = do
  blk ← get_elem? bai.blocks i
  bug_on (not (is_status blk.status free_prepare))
  bug_on (bai.nr_free_blks_prepared == 0)
  check_status bai
  some (record (update_block i (record blk { status = free }) bai) {
    nr_free_blks_prepared = dec64 bai.nr_free_blks_prepared;
    nr_free_blks = inc64 bai.nr_free_blks;
  })

-- h4h_abm_get_free_block_commit
unfoldable pub get_free_block_commit : ℕ → Abm → Option Abm
unfolding check_status move_block
get_free_block_commit i bai = do
  blk ← get_elem? bai.blocks i
  bug_on (not (is_status blk.status free_prepare))
  bug_on (bai.nr_free_blks_prepared == 0)
  check_status bai
  some (record (move_block i blk head_clean (update_block i (record blk { status = clean }) bai)) {
    nr_free_blks_prepared = dec64 bai.nr_free_blks_prepared;
    nr_clean_blks = inc64 bai.nr_clean_blks;
  })

-- The chain of tests, in the erase and in the set-to-dirty function, that takes a block of this
-- status off its counter. The last branch of the source, for no status at all, has no case here.
unfoldable pub leave_status : BlkStatus → Abm → Option Abm
leave_status clean bai = do
  bug_on (bai.nr_clean_blks == 0)
  some (record bai { nr_clean_blks = dec64 bai.nr_clean_blks })
leave_status dirty bai = do
  bug_on (bai.nr_dirty_blks == 0)
  some (record bai { nr_dirty_blks = dec64 bai.nr_dirty_blks })
leave_status free bai = do
  bug_on (bai.nr_free_blks == 0)
  some (record bai { nr_free_blks = dec64 bai.nr_free_blks })
leave_status free_prepare bai = do
  bug_on (bai.nr_free_blks_prepared == 0)
  some (record bai { nr_free_blks_prepared = dec64 bai.nr_free_blks_prepared })
leave_status bad bai = do
  bug_on (bai.nr_bad_blks == 0)
  some (record bai { nr_bad_blks = dec64 bai.nr_bad_blks })

-- h4h_memset over a page status table, where the block has one
abbrev pub fill_pst : Bool → ℕ → Option (List Bool) → Option (List Bool)
fill_pst mark n none = none
fill_pst mark n (some table) = some (replicate n mark)

-- The rest of h4h_abm_erase_block, once the counter of the old status is down
unfoldable pub retire_or_free : ℕ → Block → Bool → Abm → Abm
unfolding move_block
retire_or_free i blk true bai = record (move_block i blk head_bad bai) {
  nr_bad_blks = inc64 bai.nr_bad_blks;
  blocks = set bai.blocks i (record blk { status = bad });
}
retire_or_free i blk false bai = record (move_block i blk head_free bai) {
  nr_free_blks = inc64 bai.nr_free_blks;
  blocks = set bai.blocks i (record blk { status = free });
}

abbrev pub erased : Abm → Bool → Block → Block
erased bai is_bad blk = record blk {
  status = if is_bad then bad else free;
  erase_count = inc32 blk.erase_count;
  nr_invalid_subpages = 0;
  pst = fill_pst false bai.np.nr_subpages_per_block blk.pst;
}

-- The block that both functions below look up: `none` inside is an early return with an error.
unfoldable pub find_block : Abm → ℕ → ℕ → ℕ → Option (Option (ℕ × Block))
unfolding get_block_idx
find_block bai channel_no chip_no block_no =
    let i = get_block_idx bai.np channel_no chip_no block_no in
    if leb bai.np.nr_blocks_per_ssd i
    then some none
    else (get_elem? bai.blocks i >>= λ blk.
        if not (blk.channel_no == channel_no)
          || (not (blk.chip_no == chip_no) || not (blk.block_no == block_no))
        then some none
        else some (some (i, blk)))

-- h4h_abm_erase_block, from the status checks on
unfoldable pub erase_found : ℕ → Block → Bool → Abm → Option Abm
unfolding check_status leave_status retire_or_free
erase_found i blk is_bad bai = do
  check_status bai
  bai1 ← leave_status blk.status bai
  let bai2 = retire_or_free i blk is_bad bai1
  check_status bai2
  some (update_block i (erased bai is_bad blk) bai2)

-- h4h_abm_erase_block
unfoldable pub erase_block : ℕ → ℕ → ℕ → Bool → Abm → Option Abm
unfolding find_block erase_found
erase_block channel_no chip_no block_no is_bad bai = do
  found ← find_block bai channel_no chip_no block_no
  elim found [ none ↦ some bai | some (i, blk) ↦ erase_found i blk is_bad bai ]

abbrev pub dirtied : Abm → Block → Block
dirtied bai blk = record blk {
  status = dirty;
  nr_invalid_subpages = bai.np.nr_subpages_per_block % 2 ^ 32;
  pst = fill_pst true bai.np.nr_subpages_per_block blk.pst;
}

-- The middle of h4h_abm_set_to_dirty_block: to the dirty list, its counter and its status.
unfoldable pub enter_dirty : ℕ → Block → Abm → Abm
unfolding move_block
enter_dirty i blk bai = record (move_block i blk head_dirty bai) {
  nr_dirty_blks = inc64 bai.nr_dirty_blks;
  blocks = set bai.blocks i (record blk { status = dirty });
}

-- h4h_abm_set_to_dirty_block, from the status checks on
unfoldable pub dirty_found : ℕ → Block → Abm → Option Abm
unfolding check_status leave_status enter_dirty
dirty_found i blk bai = do
  check_status bai
  bai1 ← leave_status blk.status bai
  let bai2 = enter_dirty i blk bai1
  check_status bai2
  some (update_block i (dirtied bai blk) bai2)

-- h4h_abm_set_to_dirty_block
unfoldable pub set_to_dirty_block : ℕ → ℕ → ℕ → Abm → Option Abm
unfolding find_block dirty_found
set_to_dirty_block channel_no chip_no block_no bai = do
  found ← find_block bai channel_no chip_no block_no
  elim found [ none ↦ some bai | some (i, blk) ↦ dirty_found i blk bai ]

-- The inner part of h4h_abm_invalidate_page that turns a clean block into a dirty one
unfoldable pub clean_to_dirty : ℕ → Block → Abm → Option Abm
unfolding check_status move_block
clean_to_dirty i b bai = do
  bug_on (not (is_status b.status clean))
  let bai1 = move_block i b head_dirty bai
  if ltb 0 bai.nr_clean_blks
      then (do
        bug_on (bai.nr_clean_blks == 0)
        check_status bai
        some (record bai1 {
          nr_clean_blks = dec64 bai.nr_clean_blks;
          nr_dirty_blks = inc64 bai.nr_dirty_blks;
        }))
      else some bai1

abbrev pub marked : List Bool → ℕ → Block → Block
marked table pst_off b = record b {
  status = if b.nr_invalid_subpages == 0 then dirty else b.status;
  pst = some (set table pst_off true);
  nr_invalid_subpages = inc32 b.nr_invalid_subpages;
}

-- h4h_abm_invalidate_page on a block with a page status table, at a valid subpage
unfoldable pub mark_invalid : ℕ → Block → List Bool → ℕ → Abm → Option Abm
unfolding clean_to_dirty
mark_invalid i b table pst_off bai = do
  bai1 ← if b.nr_invalid_subpages == 0 then clean_to_dirty i b bai else some bai
  bug_on (ltb bai.np.nr_subpages_per_block (inc32 b.nr_invalid_subpages))
  some (update_block i (marked table pst_off b) bai1)

-- h4h_abm_invalidate_page, once the block is found and the numbers are checked
unfoldable pub invalidate_found : ℕ → Block → ℕ → Abm → Option Abm
unfolding mark_invalid
invalidate_found i b pst_off bai = elim b.pst [
  | none ↦ some bai
  | some table ↦ get_elem? table pst_off >>= λ invalid.
      if invalid then some bai else mark_invalid i b table pst_off bai
]

-- h4h_abm_invalidate_page
unfoldable pub invalidate_page : ℕ → ℕ → ℕ → ℕ → ℕ → Abm → Option Abm
unfolding get_block invalidate_found
invalidate_page channel_no chip_no block_no page_no subpage_no bai = do
  i ← get_block bai channel_no chip_no block_no
  bug_on (leb bai.np.nr_pages_per_block page_no)
  b ← get_elem? bai.blocks i
  bug_on (not (b.channel_no == channel_no))
  bug_on (not (b.chip_no == chip_no))
  bug_on (not (b.block_no == block_no))
  bug_on (leb bai.np.nr_subpages_per_page subpage_no)
  let pst_off = (page_no * bai.np.nr_subpages_per_page + subpage_no) % 2 ^ 64
  bug_on (leb bai.np.nr_subpages_per_block pst_off)
  invalidate_found i b pst_off bai
