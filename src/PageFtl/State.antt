-- ===== src/PageFtl/State.antt =====
-- The invariant of the page-level FTL: its active blocks are in use, and each mapped logical page has
-- a live subpage of its own.
pub mod Maps
pub mod Write
pub mod Unmap
pub mod Read
pub mod Alloc
pub mod Turn
pub mod Fresh
pub mod Next
pub mod Advance
pub mod Start
pub mod Give
pub mod GiveMany
pub mod Reoffset
use h4h.Base.{
  ℕ, zero, suc, ◌+◌, ◌*◌, ◌<◌, ◌≤◌, ◌≡◌, ◌≢◌, ◌⊎◌, inl, inr, refl, sym, ap, subst, ◌∙◌, Bool, true,
  false, List, Option, none, some, arith, get_elem?, set, length, Every, get_elem?-set_ne,
  get_elem?-set_self, get_elem?-lt, some-inj, none-ne-some, Returns, Returns-mono, ==_iff,
}
use native.Mathlib.Decide.{ℕ_discrete}
use h4h.Params.{DeviceParams}
use h4h.Abm.{Abm, Block, BlkStatus, clean, dirty, get_block_idx}
use h4h.Abm.Geometry.{IsBlockAddr}
use h4h.Abm.Valid.{IsBlock, IsValid}
use h4h.Abm.Valid.Api.{Found, Marks, address-Found, invalidate_page-Marks}
use h4h.PageFtl.{PhyAddr, PageStatus, valid, MappingEntry, PageFtl}
use h4h.Abm.Ops.{invalidate_page}
use h4h.PageFtl.Take.{NonePrepared}

abbrev pub InUse : BlkStatus → Type 0
InUse st = (st ≡ clean) ⊎ (st ≡ dirty)

-- A subpage of a block in use that is not marked invalid
pub record IsLive (bai : Abm) (i off : ℕ) : Type 0 where
  pub block : Block
  pub table : List Bool
  pub block_there : get_elem? bai.blocks i ≡ some block
  pub in_use : InUse block.status
  pub has_table : block.pst ≡ some table
  pub unmarked : get_elem? table off ≡ some false

-- The block and the offset in its page status table that an address names
abbrev pub block_of : DeviceParams → PhyAddr → ℕ
block_of np a = get_block_idx np a.channel_no a.chip_no a.block_no

abbrev pub offset_of : DeviceParams → PhyAddr → ℕ → ℕ
offset_of np a sp = a.page_no * np.nr_subpages_per_page + sp

pub record IsPlace (np : DeviceParams) (a : PhyAddr) (sp : ℕ) : Type 0 where
  pub addr : IsBlockAddr np a.channel_no a.chip_no a.block_no
  pub page_in : a.page_no < np.nr_pages_per_block
  pub sub_in : sp < np.nr_subpages_per_page

pub record IsMapped (bai : Abm) (me : MappingEntry) : Type 0 where
  pub place : IsPlace bai.np me.phyaddr me.sp_off
  pub live : IsLive bai (block_of bai.np me.phyaddr) (offset_of bai.np me.phyaddr me.sp_off)

-- The device parameters do not change under an operation.
pub IsMapped-at :
    (bai : Abm) (np : DeviceParams) (me : MappingEntry)
    → bai.np ≡ np
    → IsPlace np me.phyaddr me.sp_off
    → IsLive bai (block_of np me.phyaddr) (offset_of np me.phyaddr me.sp_off)
    → IsMapped bai me
IsMapped-at bai np me e pl live = record {
  place = subst (λ (x : DeviceParams). IsPlace x me.phyaddr me.sp_off) (sym e) pl;
  live =
      subst
        (λ (x : DeviceParams).
          IsLive bai (block_of x me.phyaddr) (offset_of x me.phyaddr me.sp_off))
        (sym e) live;
}

-- Two entries name one subpage.
pub record SamePlace (np : DeviceParams) (e f : MappingEntry) : Type 0 where
  pub same_block : block_of np e.phyaddr ≡ block_of np f.phyaddr
  pub same_offset : offset_of np e.phyaddr e.sp_off ≡ offset_of np f.phyaddr f.sp_off

pub record ActiveAt (bai : Abm) (bab : List (Option ℕ)) (channel chip k : ℕ) : Type 0 where
  pub index : ℕ
  pub block : Block
  pub pointer : get_elem? bab k ≡ some (some index)
  pub block_there : get_elem? bai.blocks index ≡ some block
  pub on_channel : block.channel_no ≡ channel
  pub on_chip : block.chip_no ≡ chip
  pub in_use : InUse block.status

abbrev pub IsActive : DeviceParams → Abm → List (Option ℕ) → Type 0
IsActive np bai bab =
    (channel chip : ℕ)
    → channel < np.nr_channels
    → chip < np.nr_chips_per_channel
    → ActiveAt bai bab channel chip (channel * np.nr_chips_per_channel + chip)

-- The mapping table against the blocks
pub record IsTable (bai : Abm) (table : List MappingEntry) : Type 0 where
  pub table_size : length table ≡ bai.np.nr_subpages_per_ssd
  pub mapped : Every (λ lpa me. me.status ≡ valid → IsMapped bai me) table
  pub separate :
      (l m : ℕ) (e f : MappingEntry)
      → get_elem? table l ≡ some e
      → get_elem? table m ≡ some f
      → e.status ≡ valid
      → f.status ≡ valid
      → SamePlace bai.np e f
      → l ≡ m

pub record IsFtl (p : PageFtl) : Type 0 where
  pub abm : IsValid p.bai
  pub same_np : p.bai.np ≡ p.np
  pub none_prepared : NonePrepared p.bai
  pub punits_eq : p.nr_punits ≡ p.np.nr_channels * p.np.nr_chips_per_channel
  pub puid_in : p.curr_puid < p.nr_punits
  pub page_in : p.curr_page_ofs < p.np.nr_pages_per_block
  pub active : IsActive p.np p.bai p.ac_bab
  pub table : IsTable p.bai p.ptr_mapping_table

-- What a mark changes: the marked subpage dies, and every other subpage and every active block stays.
module _ (bai bai' : Abm) (i off : ℕ) (t : List Bool) (b : Block)
    (at : get_elem? bai.blocks i ≡ some b) (has : b.pst ≡ some t) (m : Marks bai i t off bai') where
  pub Marks-IsLive : (j off' : ℕ) → (i ≡ j → off ≢ off') → IsLive bai j off' → IsLive bai' j off'
  Marks-IsLive j off' apart l = elim (ℕ_discrete i j) [
    | yes e ↦ record {
      block = m.after;
      table = set t off true;
      block_there = rw (← e) m.after_there;
      in_use = m.after_in_use;
      has_table = m.after_table;
      unmarked =
          let there = rw (← e) at l.block_there in
          let one = some-inj (sym at ∙ there) in
          let same_table = some-inj (sym has ∙ ap (λ (x : Block). x.pst) one ∙ l.has_table) in
          rw (get_elem?-set_ne t off off' true (apart e), same_table) l.unmarked;
    }
    | no ne ↦ record {
      block = l.block;
      table = l.table;
      block_there = m.others j ne ∙ l.block_there;
      in_use = l.in_use;
      has_table = l.has_table;
      unmarked = l.unmarked;
    }
  ]

  pub Marks-ActiveAt :
      (bab : List (Option ℕ)) (channel chip k : ℕ)
      → ActiveAt bai bab channel chip k
      → ActiveAt bai' bab channel chip k
  Marks-ActiveAt bab channel chip k a = elim (ℕ_discrete i a.index) [
    | yes e ↦
        let old = rw (← e) at a.block_there in
        record {
          index = i;
          block = m.after;
          pointer = rw e a.pointer;
          block_there = m.after_there;
          on_channel = m.after_channel a.block old ∙ a.on_channel;
          on_chip = m.after_chip a.block old ∙ a.on_chip;
          in_use = m.after_in_use;
        }
    | no ne ↦ record {
      index = a.index;
      block = a.block;
      pointer = a.pointer;
      block_there = m.others a.index ne ∙ a.block_there;
      on_channel = a.on_channel;
      on_chip = a.on_chip;
      in_use = a.in_use;
    }
  ]

-- Invalidating a live subpage runs through, and only that subpage dies.
pub record Kills (bai : Abm) (i off : ℕ) (bai' : Abm) : Type 0 where
  pub still_valid : IsValid bai'
  pub kills_np : bai'.np ≡ bai.np
  pub kills_prepared : bai'.nr_free_blks_prepared ≡ bai.nr_free_blks_prepared
  pub still_live : (j off' : ℕ) → (i ≡ j → off ≢ off') → IsLive bai j off' → IsLive bai' j off'
  pub still_active :
      (bab : List (Option ℕ)) (channel chip k : ℕ)
      → ActiveAt bai bab channel chip k
      → ActiveAt bai' bab channel chip k

module _ (bai : Abm) (ok : IsValid bai) (a : PhyAddr) (sp : ℕ) (place : IsPlace bai.np a sp)
    (live : IsLive bai (block_of bai.np a) (offset_of bai.np a sp)) where
  pub invalidate_live :
      Returns
        (Kills bai (block_of bai.np a) (offset_of bai.np a sp))
        (invalidate_page a.channel_no a.chip_no a.block_no a.page_no sp bai)
  invalidate_live =
      let (b, found) = address-Found bai ok a.channel_no a.chip_no a.block_no place.addr in
      let one : live.block ≡ b = some-inj (sym live.block_there ∙ found.here) in
      let has = ap (λ (x : Block). x.pst) (sym one) ∙ live.has_table in
      let used = subst (λ (x : Block). InUse x.status) one live.in_use in
      Returns-mono _ (Kills bai (block_of bai.np a) (offset_of bai.np a sp)) _
        (λ bai' e m. record {
          still_valid = m.still_valid;
          kills_np = m.marks_np;
          kills_prepared = m.marks_prepared;
          still_live = Marks-IsLive bai bai' _ _ live.table b found.here has m;
          still_active = Marks-ActiveAt bai bai' _ _ live.table b found.here has m;
        })
        (invalidate_page-Marks bai a.channel_no a.chip_no a.block_no a.page_no sp b live.table ok
          found place.page_in place.sub_in used has)
