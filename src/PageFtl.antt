-- ===== src/PageFtl.antt =====
-- ftl/algo/page_ftl.c: the page-level FTL over the block manager, less garbage collection.
-- A pointer to a block is an index; `none` in an array of such pointers is NULL.
pub mod Ops
pub mod Take
pub mod Undo
pub mod State
pub mod Victim
pub mod Greedy
use h4h.Base.{
  ℕ, zero, suc, ◌+◌, ◌*◌, ◌-◌, ◌/◌, ◌%◌, ◌^◌, Bool, true, false, not, List, [], ◌∷◌, ◌++◌, Option,
  none, some, ◌==◌, ltb, leb, if◌then◌else◌, ◌>>=◌, ◌>>◌, bug_on, get_elem?, set, replicate, add64,
  mul64, inc64,
}
use h4h.Params.{DeviceParams}
use h4h.Abm.{Abm, Block, abm_create}
use h4h.Abm.Ops.{get_free_block_prepare, get_free_block_commit, invalidate_page, update_block}

-- h4h_phyaddr_t
pub record PhyAddr : Type 0 where
  pub punit_id : ℕ
  pub channel_no : ℕ
  pub chip_no : ℕ
  pub block_no : ℕ
  pub page_no : ℕ

-- enum H4H_PFTL_PAGE_STATUS
pub data PageStatus : Type 0 where
  not_allocated valid invalid : PageStatus

abbrev pub is_valid : PageStatus → Bool
is_valid valid = true
is_valid _ = false

-- PFTL_PAGE_INVALID_ADDR, which is also the logical address -1 as a 64-bit pattern
abbrev pub invalid_addr : ℕ
invalid_addr = 2 ^ 64 - 1

-- h4h_page_mapping_entry_t
pub record MappingEntry : Type 0 where
  pub status : PageStatus
  pub phyaddr : PhyAddr
  pub sp_off : ℕ

-- h4h_page_ftl_private_t with the device parameters that every function looks up beside it. The
-- request buffers of garbage collection are not state: each collection fills them afresh.
pub record PageFtl : Type 0 where
  pub np : DeviceParams
  pub bai : Abm
  pub ptr_mapping_table : List MappingEntry
  pub nr_punits : ℕ
  pub nr_punits_pages : ℕ
  pub curr_puid : ℕ
  pub curr_page_ofs : ℕ
  pub ac_bab : List (Option ℕ)

abbrev pub unmapped : MappingEntry
unmapped = record {
  status = not_allocated;
  phyaddr = record {
    punit_id = 0;
    channel_no = invalid_addr;
    chip_no = invalid_addr;
    block_no = invalid_addr;
    page_no = invalid_addr;
  };
  sp_off = 255;
}

-- __h4h_page_ftl_create_mapping_table
unfoldable pub create_mapping_table : DeviceParams → List MappingEntry
create_mapping_table np = replicate np.nr_subpages_per_ssd unmapped

-- The pairs (channel, chip) in the order of the two nested loops over them
unfoldable pub chips_from : ℕ → ℕ → ℕ → List (ℕ × ℕ)
chips_from i j zero = []
chips_from i j (suc rounds) = (i, j) ∷ chips_from i (suc j) rounds

unfoldable pub punits_from : ℕ → ℕ → ℕ → List (ℕ × ℕ)
unfolding chips_from
punits_from nr_chips i zero = []
punits_from nr_chips i (suc rounds) = chips_from i 0 nr_chips ++ punits_from nr_chips (suc i) rounds

unfoldable pub punits : DeviceParams → List (ℕ × ℕ)
unfolding punits_from
punits np = punits_from np.nr_chips_per_channel 0 np.nr_channels

-- h4h_abm_get_free_block_prepare and, if it returns a block, h4h_abm_get_free_block_commit
unfoldable pub take_free_block : ℕ → ℕ → Abm → Option (Abm × Option ℕ)
take_free_block channel_no chip_no bai =
    get_free_block_prepare channel_no chip_no bai >>= λ (bai1, blk). elim blk [
      | none ↦ some (bai1, none)
      | some i ↦ get_free_block_commit i bai1 >>= λ bai2. some (bai2, some i)
    ]

-- __h4h_page_ftl_get_active_blocks: `pos` counts the increments of `bab`; the number is the result.
unfoldable pub get_active_blocks :
    List (ℕ × ℕ) → ℕ → Abm → List (Option ℕ) → Option (Abm × List (Option ℕ) × ℕ)
unfolding take_free_block
get_active_blocks [] pos bai bab = some (bai, bab, 0)
get_active_blocks ((i, j) ∷ rest) pos bai bab = take_free_block i j bai >>= λ (bai', blk).
    let bab' = set bab pos blk in
    let next = get_active_blocks rest (suc pos) bai' bab' in
    elim blk [ none ↦ some (bai', bab', 1) | some b ↦ next ]

-- h4h_page_ftl_create, where every allocation succeeds; the flag is its result.
unfoldable pub page_ftl_create : DeviceParams → Option (PageFtl × ℕ)
unfolding get_active_blocks punits create_mapping_table
page_ftl_create np = do
  let nr_punits = mul64 np.nr_chips_per_channel np.nr_channels
  (bai, bab, ret) ← get_active_blocks (punits np) 0 (abm_create np true) (replicate nr_punits none)
  some (
    record {
      np = np;
      bai = bai;
      ptr_mapping_table = create_mapping_table np;
      nr_punits = nr_punits;
      nr_punits_pages = mul64 nr_punits np.nr_pages_per_block;
      curr_puid = 0;
      curr_page_ofs = 0;
      ac_bab = bab;
    },
    ret,
  )

-- H4H_GET_PUNIT_ID
unfoldable pub get_punit_id : DeviceParams → ℕ → ℕ → ℕ
get_punit_id np channel_no chip_no = (channel_no * np.nr_chips_per_channel + chip_no) % 2 ^ 64

-- The place of the active block of the current parallel unit in `ac_bab`
abbrev pub curr_channel : PageFtl → ℕ
curr_channel p = p.curr_puid % p.np.nr_channels

abbrev pub curr_chip : PageFtl → ℕ
curr_chip p = p.curr_puid / p.np.nr_channels

abbrev pub curr_index : PageFtl → ℕ
curr_index p = (curr_channel p * p.np.nr_chips_per_channel + curr_chip p) % 2 ^ 64

-- Dereferencing a pointer that may be NULL or outside its array stops the run.
abbrev pub deref {ℓ} : {A : Type ℓ} → Option (Option A) → Option A
deref none = none
deref (some x) = x

unfoldable pub active_block : PageFtl → Option (ℕ × Block)
active_block p = do
  i ← deref (get_elem? p.ac_bab (curr_index p))
  b ← get_elem? p.bai.blocks i
  some (i, b)

unfoldable pub page_address : PageFtl → Block → ℕ → PhyAddr
unfolding get_punit_id
page_address p b page = record {
  punit_id = get_punit_id p.np b.channel_no b.chip_no;
  channel_no = b.channel_no;
  chip_no = b.chip_no;
  block_no = b.block_no;
  page_no = page;
}

-- The end of h4h_page_ftl_get_free_ppa: to the next parallel unit, and to new active blocks when
-- every page of the present ones is given out
unfoldable pub next_punit : PageFtl → Option (PageFtl × ℕ)
unfolding get_active_blocks punits
next_punit p =
    if inc64 p.curr_puid == p.nr_punits
    then (let q = record p { curr_puid = 0; curr_page_ofs = inc64 p.curr_page_ofs } in
        if q.curr_page_ofs == p.np.nr_pages_per_block
        then (get_active_blocks (punits p.np) 0 p.bai p.ac_bab >>= λ (bai, bab, ret). some (
          record q {
            bai = bai;
            ac_bab = bab;
            curr_page_ofs = if ret == 0 then 0 else q.curr_page_ofs;
          },
          ret,
        ))
        else some (q, 0))
    else some (record p { curr_puid = inc64 p.curr_puid }, 0)

-- h4h_page_ftl_get_free_ppa
unfoldable pub get_free_ppa : PageFtl → Option (PageFtl × PhyAddr × ℕ)
unfolding active_block page_address next_punit
get_free_ppa p = do
  (i, b) ← active_block p
  let ppa = page_address p b p.curr_page_ofs
  bug_on (not (ppa.channel_no == curr_channel p))
  bug_on (not (ppa.chip_no == curr_chip p))
  bug_on (leb p.np.nr_pages_per_block ppa.page_no)
  (p', ret) ← next_punit p
  some (p', ppa, ret)
