-- ===== src/PageFtl/State/Fresh.antt =====
-- A free block taken, as ftl/algo/page_ftl.c takes one, and what that leaves as it was.
use h4h.Base.{
  ℕ, ◌<◌, ◌≡◌, ◌≢◌, inl, refl, sym, ap, subst, ◌∙◌, List, Option, some, arith, get_elem?, set,
  length, get_elem?-lt, get_elem?-set_self, get_elem?-set_ne, some-inj,
}
use native.Mathlib.Decide.{ℕ_discrete}
use h4h.Abm.{Abm, Block, BlkStatus, free, clean}
use h4h.PageFtl.Take.{Took}
use h4h.PageFtl.State.{InUse, IsLive, ActiveAt}

pub free-not-InUse : (st : BlkStatus) → st ≡ free → ¬ InUse st
free-not-InUse st e u = ground arith

module _ (bai bai' : Abm) (channel chip i : ℕ) (b : Block)
    (t : Took bai channel chip i b bai') where
  pub block_stays :
      (j : ℕ) (c : Block)
      → get_elem? bai.blocks j ≡ some c
      → InUse c.status
      → get_elem? bai'.blocks j ≡ some c
  block_stays j c at used = elim (ℕ_discrete i j) [
    | yes e ↦
        let here : get_elem? bai.blocks i ≡ some c = rw e at in
        let one : b ≡ c = some-inj (sym t.was_there ∙ here) in
        absurd
          (free-not-InUse c.status (subst (λ (x : Block). x.status ≡ free) one t.was_free) used)
    | no ne ↦ rw t.ends.1.new_blocks (get_elem?-set_ne bai.blocks i j _ ne ∙ at)
  ]

  pub Took-IsLive : (j off : ℕ) → IsLive bai j off → IsLive bai' j off
  Took-IsLive j off l = record {
    block = l.block;
    table = l.table;
    block_there = block_stays j l.block l.block_there l.in_use;
    in_use = l.in_use;
    has_table = l.has_table;
    unmarked = l.unmarked;
  }

  module _ (bab : List (Option ℕ)) (pos : ℕ) where
    pub Took-ActiveAt :
        (c h k : ℕ) → k ≢ pos → ActiveAt bai bab c h k → ActiveAt bai' (set bab pos (some i)) c h k
    Took-ActiveAt c h k ne a = record {
      index = a.index;
      block = a.block;
      pointer = get_elem?-set_ne bab pos k (some i) (λ e. ne (sym e)) ∙ a.pointer;
      block_there = block_stays a.index a.block a.block_there a.in_use;
      on_channel = a.on_channel;
      on_chip = a.on_chip;
      in_use = a.in_use;
    }

    pub Took-ActiveAt_new : pos < length bab → ActiveAt bai' (set bab pos (some i)) channel chip pos
    Took-ActiveAt_new lt = record {
      index = i;
      block = record b { status = clean };
      pointer = get_elem?-set_self bab pos (some i) lt;
      block_there =
          rw t.ends.1.new_blocks
            (get_elem?-set_self bai.blocks i _ (get_elem?-lt bai.blocks i t.was_there));
      on_channel = t.at_channel;
      on_chip = t.at_chip;
      in_use = inl refl;
    }

-- The active block of the unit at `k` was free in the blocks of `bai`, and is now clean in those of `bai'`.
pub record FreshAt (bai bai' : Abm) (bab : List (Option ℕ)) (channel chip k : ℕ) : Type 0 where
  pub fresh_index : ℕ
  pub fresh_block : Block
  pub fresh_pointer : get_elem? bab k ≡ some (some fresh_index)
  pub was_there : get_elem? bai.blocks fresh_index ≡ some fresh_block
  pub was_free : fresh_block.status ≡ free
  pub fresh_channel : fresh_block.channel_no ≡ channel
  pub fresh_chip : fresh_block.chip_no ≡ chip
  pub now_clean : get_elem? bai'.blocks fresh_index ≡ some (record fresh_block { status = clean })

module _ (bai bai' : Abm) (channel chip i : ℕ) (b : Block)
    (t : Took bai channel chip i b bai') where
  -- A block that is free after one was taken was free before.
  pub free_before :
      (j : ℕ) (c : Block)
      → get_elem? bai'.blocks j ≡ some c
      → c.status ≡ free
      → get_elem? bai.blocks j ≡ some c
  free_before j c at is_free = elim (ℕ_discrete i j) [
    | yes e ↦
        let here : get_elem? bai'.blocks i ≡ some (record b { status = clean }) =
          rw t.ends.1.new_blocks
            (get_elem?-set_self bai.blocks i _ (get_elem?-lt bai.blocks i t.was_there)) in
        let there : get_elem? bai'.blocks i ≡ some c = rw e at in
        let one : record b { status = clean } ≡ c = some-inj (sym here ∙ there) in
        let st : clean ≡ free = ap (λ (x : Block). x.status) one ∙ is_free in
        absurd (free-not-InUse clean st (inl refl))
    | no ne ↦ sym (get_elem?-set_ne bai.blocks i j _ ne) ∙ rw t.ends.1.new_blocks at at
  ]
