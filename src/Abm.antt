-- ===== src/Abm.antt =====
-- ftl/algo/abm.h and ftl/algo/abm.c: the block manager's state, and how blocks are named.
-- A pointer to a block is its index in `blocks`. The four families of intrusive lists hold indices.
pub mod Geometry
pub mod Ops
pub mod Counters
pub mod Outcome
pub mod Listed
pub mod Valid
pub mod Store
use h4h.Base.{
  ℕ, zero, suc, ◌+◌, ◌*◌, ◌/◌, ◌%◌, ◌^◌, Bool, true, false, ◌&&◌, not, List, [], ◌∷◌, ◌++◌, Option,
  none, some, ◌==◌, leb, if◌then◌else◌, ◌>>=◌, ◌>>◌, bug_on, get_elem?, replicate, erase, add64,
}
use h4h.Params.{DeviceParams}

-- enum H4H_ABM_BLK_STATUS
pub data BlkStatus : Type 0 where
  free free_prepare clean dirty bad : BlkStatus

-- The value that C compares.
abbrev pub status_code : BlkStatus → ℕ
status_code free = 0
status_code free_prepare = 1
status_code clean = 2
status_code dirty = 3
status_code bad = 4

abbrev pub is_status : BlkStatus → BlkStatus → Bool
is_status a b = status_code a == status_code b

-- h4h_abm_block_t. In a page status table `true` is H4H_ABM_SUBPAGE_INVALID.
pub record Block : Type 0 where
  pub status : BlkStatus
  pub channel_no : ℕ
  pub chip_no : ℕ
  pub block_no : ℕ
  pub erase_count : ℕ
  pub nr_invalid_subpages : ℕ
  pub pst : Option (List Bool)
  pub offset : ℕ

-- list_head_free, list_head_clean, list_head_dirty and list_head_bad
pub data ListHead : Type 0 where
  head_free head_clean head_dirty head_bad : ListHead

abbrev pub head_code : ListHead → ℕ
head_code head_free = 0
head_code head_clean = 1
head_code head_dirty = 2
head_code head_bad = 3

abbrev pub Lists : Type 0
Lists = ListHead → ℕ → ℕ → List ℕ

-- h4h_abm_info_t
pub record Abm : Type 0 where
  pub np : DeviceParams
  pub blocks : List Block
  pub lists : Lists
  pub nr_total_blks : ℕ
  pub nr_free_blks : ℕ
  pub nr_free_blks_prepared : ℕ
  pub nr_clean_blks : ℕ
  pub nr_dirty_blks : ℕ
  pub nr_bad_blks : ℕ

-- INIT_LIST_HEAD on every head
abbrev pub no_lists : Lists
no_lists head channel chip = []

abbrev pub same_list : ListHead → ℕ → ℕ → ListHead → ℕ → ℕ → Bool
same_list head channel chip head' channel' chip' =
    head_code head == head_code head' && (channel == channel' && chip == chip')

-- list_add_tail
unfoldable pub list_add_tail : ℕ → ListHead → ℕ → ℕ → Lists → Lists
list_add_tail i head channel chip lists head' channel' chip' =
    if same_list head channel chip head' channel' chip'
    then lists head' channel' chip' ++ (i ∷ [])
    else lists head' channel' chip'

-- list_del unlinks a block from whichever list holds it.
unfoldable pub list_del : ℕ → Lists → Lists
list_del i lists head channel chip = erase i (lists head channel chip)

-- __get_channel_ofs, __get_chip_ofs, __get_block_ofs
unfoldable pub get_channel_ofs : DeviceParams → ℕ → ℕ
get_channel_ofs np blk_idx = blk_idx / np.nr_blocks_per_channel

unfoldable pub get_chip_ofs : DeviceParams → ℕ → ℕ
get_chip_ofs np blk_idx = (blk_idx % np.nr_blocks_per_channel) / np.nr_blocks_per_chip

unfoldable pub get_block_ofs : DeviceParams → ℕ → ℕ
get_block_ofs np blk_idx = blk_idx % np.nr_blocks_per_chip

-- __get_block_idx, in 64-bit arithmetic
unfoldable pub get_block_idx : DeviceParams → ℕ → ℕ → ℕ → ℕ
get_block_idx np channel_no chip_no block_no =
    (channel_no * np.nr_blocks_per_channel + chip_no * np.nr_blocks_per_chip + block_no) % 2 ^ 64

-- __h4h_abm_check_status
unfoldable pub check_status : Abm → Option (Unit {0})
check_status bai = bug_on (
    not (
      bai.nr_total_blks
      == (bai.nr_free_blks + bai.nr_free_blks_prepared + bai.nr_clean_blks + bai.nr_dirty_blks
          + bai.nr_bad_blks)
        % 2 ^ 64))

-- __h4h_abm_create_pst
unfoldable pub create_pst : DeviceParams → List Bool
create_pst np = replicate np.nr_subpages_per_block false

unfoldable pub create_block : DeviceParams → Bool → ℕ → Block
unfolding create_pst get_channel_ofs get_chip_ofs get_block_ofs
create_block np use_pst loop = record {
  status = free;
  channel_no = get_channel_ofs np loop;
  chip_no = get_chip_ofs np loop;
  block_no = get_block_ofs np loop;
  erase_count = 0;
  nr_invalid_subpages = 0;
  pst = if use_pst then some (create_pst np) else none;
  offset = 0;
}

-- The loop over `blocks`, from `loop` on for `rounds` blocks.
unfoldable pub create_blocks : DeviceParams → Bool → ℕ → ℕ → List Block
create_blocks np use_pst loop zero = []
create_blocks np use_pst loop (suc rounds) =
    create_block np use_pst loop ∷ create_blocks np use_pst (suc loop) rounds

-- The loop that links every block, in order, into the free list of its chip.
unfoldable pub link_blocks : List Block → ℕ → Lists → Lists
link_blocks [] loop lists = lists
link_blocks (b ∷ bs) loop lists =
    link_blocks bs (suc loop) (list_add_tail loop head_free b.channel_no b.chip_no lists)

-- h4h_abm_create, where every allocation succeeds
unfoldable pub abm_create : DeviceParams → Bool → Abm
abm_create np use_pst = record {
  np = np;
  blocks = blocks;
  lists = link_blocks blocks 0 no_lists;
  nr_total_blks = np.nr_blocks_per_ssd;
  nr_free_blks = np.nr_blocks_per_ssd;
  nr_free_blks_prepared = 0;
  nr_clean_blks = 0;
  nr_dirty_blks = 0;
  nr_bad_blks = 0;
}
  where
    blocks : List Block
    blocks = create_blocks np use_pst 0 np.nr_blocks_per_ssd

-- h4h_abm_get_block; `none` is the NULL of an index out of range.
unfoldable pub get_block : Abm → ℕ → ℕ → ℕ → Option ℕ
unfolding get_block_idx
get_block bai channel_no chip_no block_no =
    let blk_idx = get_block_idx bai.np channel_no chip_no block_no in
    if leb bai.np.nr_blocks_per_ssd blk_idx then none else some blk_idx
