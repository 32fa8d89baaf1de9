-- ===== src/Abm/Valid.antt =====
-- The invariant of the block manager, and that each step on a found block keeps it.
pub mod Create
pub mod Prepare
pub mod Calls
pub mod Api
pub mod Erase
use native.Mathlib.Nat.{mod-eq_of_lt}
use h4h.Base.{
  ℕ, ◌+◌, ◌<◌, ◌≤◌, ◌≡◌, ◌^◌, ◌%◌, refl, sym, ap, subst, Bool, true, false, List, Option, none,
  some, arith, get_elem?, get_elem?-lt, set, length, length-set, length-replicate, replicate,
  count_p, count_p-set, count_p-replicate, Every, Every-set, Returns, Returns-mono, if◌then◌else◌,
  ◌==◌, Bool-cases, ==_iff, inl, inr, ◌⊎◌,
}
use h4h.Params.{DeviceParams, IsGeometry}
use h4h.Abm.{
  Abm, Block, BlkStatus, free, free_prepare, clean, dirty, bad, Lists, head_clean, head_free,
  get_channel_ofs, get_chip_ofs, get_block_ofs,
}
use h4h.Abm.Counters.{IsCounted}
use h4h.Abm.Listed.{IsListed, place, moved-IsListed, set-IsListed}
use h4h.Abm.Outcome.{Becomes, moved}

-- How many subpages of a block in this status may be invalid.
abbrev pub Agrees : BlkStatus → ℕ → Type 0
Agrees free n = n ≡ 0
Agrees free_prepare n = n ≡ 0
Agrees clean n = n ≡ 0
Agrees dirty n = 0 < n
Agrees bad n = n ≡ 0

-- The number of marks in a page status table
abbrev pub count_marks : List Bool → ℕ
count_marks = count_p (λ x. x)

-- The block at index `i`: its address is that of its index, its page status table has an entry for
-- each subpage and as many marks as the block counts, and its status agrees with that count.
pub record IsBlock (np : DeviceParams) (i : ℕ) (b : Block) : Type 0 where
  pub in_channel : b.channel_no ≡ get_channel_ofs np i
  pub in_chip : b.chip_no ≡ get_chip_ofs np i
  pub in_block : b.block_no ≡ get_block_ofs np i
  pub table_size : (t : List Bool) → b.pst ≡ some t → length t ≡ np.nr_subpages_per_block
  pub table_marks : (t : List Bool) → b.pst ≡ some t → count_marks t ≡ b.nr_invalid_subpages
  pub bounded : b.nr_invalid_subpages ≤ np.nr_subpages_per_block
  pub agrees : Agrees b.status b.nr_invalid_subpages

pub record IsValid (bai : Abm) : Type 0 where
  pub geometry : IsGeometry bai.np
  pub sized : length bai.blocks ≡ bai.np.nr_blocks_per_ssd
  pub counted : IsCounted bai
  pub listed : IsListed bai.blocks bai.lists
  pub each : Every (IsBlock bai.np) bai.blocks

-- A new block at a found index, with its place in the lists, keeps the rest of the invariant.
pub Becomes-IsValid :
    (bai bai' : Abm) (i : ℕ) (v : Block) (ls : Lists)
    → IsValid bai
    → IsCounted bai'
    → Becomes bai i v ls bai'
    → IsListed (set bai.blocks i v) ls
    → IsBlock bai.np i v
    → IsValid bai'
Becomes-IsValid bai bai' i v ls valid c o l new = record {
  geometry = rw o.same_np valid.geometry;
  sized = rw (o.new_blocks, o.same_np, length-set) valid.sized;
  counted = c;
  listed = rw (o.new_blocks, o.new_lists) l;
  each = rw (o.new_blocks, o.same_np) (Every-set (IsBlock bai.np) bai.blocks i v valid.each new);
}
