-- ===== src/PageFtl/State/Reoffset.antt =====
-- The blocks of ftl/algo/page_ftl.c when the offset of one of them changes.
use native.Mathlib.Decide.{ℕ_discrete}
use h4h.Base.{
  ℕ, ◌≡◌, refl, sym, subst, ◌∙◌, List, Option, some, arith, get_elem?, set, count_p-set,
  get_elem?-lt, get_elem?-set_self, get_elem?-set_ne, some-inj, length-set,
}
use h4h.Abm.{Abm, Block, BlkStatus, free, free_prepare, clean, dirty, bad, is_status}
use h4h.Abm.Ops.{update_block}
use h4h.Abm.Counters.{count_status}
use h4h.Abm.Listed.{set-IsListed}
use h4h.Abm.Valid.{IsValid, Becomes-IsValid}
use h4h.PageFtl.State.{InUse, IsLive, ActiveAt}

module _ (bai : Abm) (valid : IsValid bai) (i : ℕ) (b : Block)
    (at : get_elem? bai.blocks i ≡ some b) (o : ℕ) where
  same_count :
      (st : BlkStatus)
      → count_status st (set bai.blocks i (record b { offset = o })) ≡ count_status st bai.blocks
  same_count st = omega (
    arith,
    count_p-set (λ (c : Block). is_status c.status st) bai.blocks i (record b { offset = o }) at,
  )

  pub reoffset-IsValid : IsValid (update_block i (record b { offset = o }) bai)
  reoffset-IsValid =
      let c = valid.counted in
      Becomes-IsValid bai (update_block i (record b { offset = o }) bai) i (record b { offset = o })
        bai.lists valid
        (record {
          total = rw length-set c.total;
          small = rw length-set c.small;
          counts_free = c.counts_free ∙ sym (same_count free);
          counts_prepared = c.counts_prepared ∙ sym (same_count free_prepare);
          counts_clean = c.counts_clean ∙ sym (same_count clean);
          counts_dirty = c.counts_dirty ∙ sym (same_count dirty);
          counts_bad = c.counts_bad ∙ sym (same_count bad);
        })
        (record { same_np = refl; new_blocks = refl; new_lists = refl })
        (set-IsListed bai.blocks bai.lists i b _ valid.listed at refl refl refl)
        (ground (arith, valid.each i b at))

  pub reoffset-IsLive :
      (j off : ℕ) → IsLive bai j off → IsLive (update_block i (record b { offset = o }) bai) j off
  reoffset-IsLive j off l = elim (ℕ_discrete i j) [
    | yes e ↦
        let one : l.block ≡ b = some-inj (sym l.block_there ∙ rw (← e) at) in
        record {
          block = record b { offset = o };
          table = l.table;
          block_there = rw (← e) (get_elem?-set_self bai.blocks i _ (get_elem?-lt bai.blocks i at));
          in_use = subst (λ (x : Block). InUse x.status) one l.in_use;
          has_table = subst (λ (x : Block). x.pst ≡ some l.table) one l.has_table;
          unmarked = l.unmarked;
        }
    | no ne ↦ record {
      block = l.block;
      table = l.table;
      block_there = get_elem?-set_ne bai.blocks i j _ ne ∙ l.block_there;
      in_use = l.in_use;
      has_table = l.has_table;
      unmarked = l.unmarked;
    }
  ]

  pub reoffset-ActiveAt :
      (bab : List (Option ℕ)) (c h k : ℕ)
      → ActiveAt bai bab c h k
      → ActiveAt (update_block i (record b { offset = o }) bai) bab c h k
  reoffset-ActiveAt bab c h k a = elim (ℕ_discrete i a.index) [
    | yes e ↦
        let one : a.block ≡ b = some-inj (sym a.block_there ∙ rw (← e) at) in
        record {
          index = a.index;
          block = record b { offset = o };
          pointer = a.pointer;
          block_there = rw (← e) (get_elem?-set_self bai.blocks i _ (get_elem?-lt bai.blocks i at));
          on_channel = subst (λ (x : Block). x.channel_no ≡ c) one a.on_channel;
          on_chip = subst (λ (x : Block). x.chip_no ≡ h) one a.on_chip;
          in_use = subst (λ (x : Block). InUse x.status) one a.in_use;
        }
    | no ne ↦ record {
      index = a.index;
      block = a.block;
      pointer = a.pointer;
      block_there = get_elem?-set_ne bai.blocks i a.index _ ne ∙ a.block_there;
      on_channel = a.on_channel;
      on_chip = a.on_chip;
      in_use = a.in_use;
    }
  ]
