-- ===== src/PageFtl/Ops.antt =====
-- The rest of the FTL interface in ftl/algo/page_ftl.c: sequential allocation, the mapping table, and
-- the choice of blocks to collect.
use h4h.Base.{
  ℕ, zero, suc, ◌+◌, ◌*◌, ◌-◌, ◌/◌, ◌%◌, ◌^◌, Bool, true, false, List, [], ◌∷◌, Option, none, some,
  ◌==◌, ltb, leb, if◌then◌else◌, ◌>>=◌, get_elem?, set, add64, mul64,
}
use h4h.Params.{DeviceParams}
use h4h.Abm.{Abm, Block, head_dirty}
use h4h.Abm.Ops.{invalidate_page, update_block}
use h4h.PageFtl.{
  PhyAddr, valid, invalid, is_valid, invalid_addr, MappingEntry, PageFtl, take_free_block,
  get_punit_id, curr_channel, curr_chip, curr_index, deref, active_block, page_address,
}

-- What h4h_page_ftl_get_free_ppas takes of the active block: the 16-bit offset and the size
unfoldable pub take_pages : DeviceParams → Block → ℕ → ℕ × ℕ
take_pages np b size =
    if ltb np.nr_pages_per_block (add64 b.offset size)
    then (np.nr_pages_per_block % 2 ^ 16, (np.nr_pages_per_block + 2 ^ 64 - b.offset) % 2 ^ 32)
    else ((b.offset + size) % 2 ^ 16, size)

-- A full active block makes room for a new one, and the turn goes to the next parallel unit.
unfoldable pub renew_active : PageFtl → Option (PageFtl × Bool)
unfolding take_free_block
renew_active p = take_free_block (curr_channel p) (curr_chip p) p.bai >>= λ (bai, blk). elim blk [
  | none ↦ some (record p { bai = bai }, false)
  | some i ↦ some (
    record p {
      bai = bai;
      ac_bab = set p.ac_bab (curr_index p) (some i);
      curr_puid = add64 p.curr_puid 1 % p.nr_punits;
    },
    true,
  )
]

-- h4h_page_ftl_get_free_ppas: the first address and how many pages follow from it; `none` for the
-- size is -1.
unfoldable pub get_free_ppas : ℕ → PageFtl → Option (PageFtl × PhyAddr × Option ℕ)
unfolding active_block page_address take_pages renew_active
get_free_ppas size p = do
  (i, b) ← active_block p
  let start_ppa = page_address p b b.offset
  let (offset, ret_size) = take_pages p.np b size
  let q = record p { bai = update_block i (record b { offset = offset }) p.bai }
  (if offset == p.np.nr_pages_per_block
      then (renew_active q >>= λ (q', found).
          some (q', start_ppa, if found then some ret_size else none))
      else some (q, start_ppa, some ret_size))

-- h4h_abm_invalidate_page at the place that a mapping entry names
unfoldable pub invalidate_entry : MappingEntry → Abm → Option Abm
invalidate_entry me bai =
    invalidate_page me.phyaddr.channel_no me.phyaddr.chip_no me.phyaddr.block_no me.phyaddr.page_no
      me.sp_off bai

-- The entry that points at subpage `k` of a page; its punit_id is left as it was.
abbrev pub mapped_to : PhyAddr → ℕ → MappingEntry → MappingEntry
mapped_to phyaddr k me = record {
  status = valid;
  phyaddr = record me.phyaddr {
    channel_no = phyaddr.channel_no;
    chip_no = phyaddr.chip_no;
    block_no = phyaddr.block_no;
    page_no = phyaddr.page_no;
  };
  sp_off = k % 2 ^ 8;
}

-- One round of the loop in h4h_page_ftl_map_lpa_to_ppa, for the logical address `lpa` of subpage `k`.
-- The number is 1 if the function returns there.
unfoldable pub map_subpage : PhyAddr → ℕ → ℕ → PageFtl → Option (PageFtl × ℕ)
unfolding invalidate_entry
map_subpage phyaddr k lpa p =
    if lpa == invalid_addr
    then (invalidate_page phyaddr.channel_no phyaddr.chip_no phyaddr.block_no phyaddr.page_no k
          p.bai
        >>= λ bai. some (record p { bai = bai }, 0))
    else if leb p.np.nr_subpages_per_ssd lpa
    then some (p, 1)
    else (get_elem? p.ptr_mapping_table lpa >>= λ me.
        (if is_valid me.status then invalidate_entry me p.bai else some p.bai) >>= λ bai. some (
          record p {
            bai = bai;
            ptr_mapping_table = set p.ptr_mapping_table lpa (mapped_to phyaddr k me);
          },
          0,
        ))

unfoldable pub map_loop : PhyAddr → List ℕ → ℕ → ℕ → PageFtl → Option (PageFtl × ℕ)
unfolding map_subpage
map_loop phyaddr lpas k zero p = some (p, 0)
map_loop phyaddr lpas k (suc rounds) p = do
  lpa ← get_elem? lpas k
  (q, ret) ← map_subpage phyaddr k lpa p
  let rest = map_loop phyaddr lpas (suc k) rounds q
  if ret == 0 then rest else some (q, ret)

-- h4h_page_ftl_map_lpa_to_ppa; `lpas` is the array of the logical address.
unfoldable pub map_lpa_to_ppa : List ℕ → PhyAddr → PageFtl → Option (PageFtl × ℕ)
unfolding map_loop
map_lpa_to_ppa lpas phyaddr p = map_loop phyaddr lpas 0 p.np.nr_subpages_per_page p

-- h4h_page_ftl_get_ppa: the address, the subpage and the result; `none` where it returns early and
-- writes nothing.
unfoldable pub get_ppa : ℕ → PageFtl → Option (Option (PhyAddr × ℕ) × ℕ)
unfolding get_punit_id
get_ppa lpa p =
    if leb p.np.nr_subpages_per_ssd lpa
    then some (none, 1)
    else (get_elem? p.ptr_mapping_table lpa >>= λ me.
        if is_valid me.status
        then some (
          some (
            record me.phyaddr {
              punit_id = get_punit_id p.np me.phyaddr.channel_no me.phyaddr.chip_no;
            },
            me.sp_off,
          ),
          0,
        )
        else some (
          some (record { punit_id = 0; channel_no = 0; chip_no = 0; block_no = 0; page_no = 0 }, 0),
          1,
        ))

-- One round of the loop in h4h_page_ftl_invalidate_lpa
unfoldable pub unmap_entry : ℕ → PageFtl → Option PageFtl
unfolding invalidate_entry
unmap_entry lpa p = do
  me ← get_elem? p.ptr_mapping_table lpa
  if is_valid me.status
      then (invalidate_entry me p.bai >>= λ bai. some (record p {
        bai = bai;
        ptr_mapping_table = set p.ptr_mapping_table lpa (record me { status = invalid });
      }))
      else some p

unfoldable pub unmap_loop : ℕ → ℕ → PageFtl → Option PageFtl
unfolding unmap_entry
unmap_loop lpa zero p = some p
unmap_loop lpa (suc rounds) p = do q ← unmap_entry lpa p; unmap_loop (suc lpa) rounds q

-- h4h_page_ftl_invalidate_lpa; the sum is taken in 64 bits, and the loop runs up to it.
unfoldable pub invalidate_lpa : ℕ → ℕ → PageFtl → Option (PageFtl × ℕ)
unfolding unmap_loop
invalidate_lpa lpa len p =
    if ltb p.np.nr_subpages_per_ssd (add64 lpa len)
    then some (p, 1)
    else (unmap_loop lpa (add64 lpa len - lpa) p >>= λ q. some (q, 0))

-- h4h_page_ftl_is_gc_needed
unfoldable pub is_gc_needed : PageFtl → Bool
is_gc_needed p = leb (mul64 p.bai.nr_free_blks 100 / p.bai.nr_total_blks) 2

abbrev pub same_ptr : Option ℕ → ℕ → Bool
same_ptr none i = false
same_ptr (some j) i = j == i

-- The walk in __h4h_page_ftl_victim_selection: the first dirty block that is not the active one
unfoldable pub victim_loop : Option ℕ → List ℕ → Option ℕ
victim_loop a [] = none
victim_loop a (b ∷ rest) = if same_ptr a b then victim_loop a rest else some b

-- __h4h_page_ftl_victim_selection
unfoldable pub victim_selection : ℕ → ℕ → PageFtl → Option (Option ℕ)
unfolding victim_loop
victim_selection channel_no chip_no p =
    get_elem? p.ac_bab ((channel_no * p.np.nr_chips_per_channel + chip_no) % 2 ^ 64) >>= λ a.
    some (victim_loop a (p.bai.lists head_dirty channel_no chip_no))

-- The walk in __h4h_page_ftl_victim_selection_greedy. The last test compares the count of the active
-- block, not that of the block at hand, with the best block so far.
unfoldable pub greedy_loop : Abm → Option ℕ → List ℕ → Option ℕ → Option (Option ℕ)
greedy_loop bai a [] v = some v
greedy_loop bai a (i ∷ rest) v =
    let skip = greedy_loop bai a rest v in
    let take = greedy_loop bai a rest (some i) in
    if same_ptr a i
    then skip
    else (get_elem? bai.blocks i >>= λ b.
        if b.nr_invalid_subpages == bai.np.nr_subpages_per_block then some (some i) else elim v [
          | none ↦ take
          | some j ↦ do
            best ← get_elem? bai.blocks j
            act ← deref (some a) >>= (λ k. get_elem? bai.blocks k)
            if ltb best.nr_invalid_subpages act.nr_invalid_subpages then take else skip
        ])

-- __h4h_page_ftl_victim_selection_greedy
unfoldable pub victim_selection_greedy : ℕ → ℕ → PageFtl → Option (Option ℕ)
unfolding greedy_loop
victim_selection_greedy channel_no chip_no p =
    get_elem? p.ac_bab ((channel_no * p.np.nr_chips_per_channel + chip_no) % 2 ^ 64) >>= λ a.
    greedy_loop p.bai a (p.bai.lists head_dirty channel_no chip_no) none
