-- ===== src/Abm/Valid/Erase.antt =====
-- h4h_abm_erase_block of abm.c, on a valid state and an address inside the device.
use h4h.Base.{==_refl, erase, ◌++◌, ◌∷◌, []}
use h4h.Abm.{ListHead, Lists, head_code, same_list, list_add_tail, list_del}
use h4h.Base.{
  ℕ, ◌+◌, ◌≡◌, ◌≢◌, ◌^◌, refl, ap, Bool, true, false, List, some, get_elem?, get_elem?-lt, Returns,
  Returns-mono, get_elem?-set_self, get_elem?-set_ne, ◌∙◌, ◌%◌, replicate,
}
use h4h.Abm.{Abm, Block, free, bad, get_block_idx}
use h4h.Abm.Ops.{erased, erase_block, erase_found}
use h4h.Abm.Outcome.{moved, home}
use h4h.Abm.Valid.{IsValid}
use h4h.Abm.Valid.Calls.{Ends, erase_found-Ends}
use h4h.Abm.Valid.Api.{Found, find_block-eq}

-- What an erase leaves: the block at `i`, which was `b`, is free or retired, and no other has changed.
pub record Erased (bai : Abm) (i : ℕ) (b : Block) (is_bad : Bool) (bai' : Abm) : Type 0 where
  pub keeps_valid : IsValid bai'
  pub erased_block : Block
  pub erased_there : get_elem? bai'.blocks i ≡ some erased_block
  pub if_bad : is_bad ≡ true → erased_block.status ≡ bad
  pub if_good : is_bad ≡ false → erased_block.status ≡ free
  pub one_more : erased_block.erase_count ≡ (b.erase_count + 1) % 2 ^ 32
  pub none_invalid : erased_block.nr_invalid_subpages ≡ 0
  pub clear_table :
      (t : List Bool)
      → b.pst ≡ some t
      → erased_block.pst ≡ some (replicate bai.np.nr_subpages_per_block false)
  pub same_channel : erased_block.channel_no ≡ b.channel_no
  pub same_chip : erased_block.chip_no ≡ b.chip_no
  pub same_block : erased_block.block_no ≡ b.block_no
  pub same_offset : erased_block.offset ≡ b.offset
  pub other_blocks : (j : ℕ) → i ≢ j → get_elem? bai'.blocks j ≡ get_elem? bai.blocks j
  pub at_tail :
      bai'.lists (home is_bad) b.channel_no b.chip_no
      ≡ erase i (bai.lists (home is_bad) b.channel_no b.chip_no) ++ (i ∷ [])
  pub other_lists :
      (head : ListHead) (channel chip : ℕ)
      → same_list (home is_bad) b.channel_no b.chip_no head channel chip ≡ false
      → bai'.lists head channel chip ≡ erase i (bai.lists head channel chip)
  pub erased_np : bai'.np ≡ bai.np

erased-Erased :
    (bai bai' : Abm) (i : ℕ) (b : Block) (is_bad : Bool)
    → get_elem? bai.blocks i ≡ some b
    → Ends bai i (erased bai is_bad b) (moved i b (home is_bad) bai.lists) bai'
    → Erased bai i b is_bad bai'
unfolding list_add_tail list_del
erased-Erased bai bai' i b is_bad at ends = record {
  keeps_valid = ends.0;
  erased_block = erased bai is_bad b;
  erased_there =
      rw ends.1.new_blocks (get_elem?-set_self bai.blocks i _ (get_elem?-lt bai.blocks i at));
  if_bad = λ e. rw e refl;
  if_good = λ e. rw e refl;
  one_more = refl;
  none_invalid = refl;
  clear_table = λ t e. rw e refl;
  same_channel = refl;
  same_chip = refl;
  same_block = refl;
  same_offset = refl;
  other_blocks = λ j ne. rw ends.1.new_blocks (get_elem?-set_ne bai.blocks i j _ ne);
  at_tail =
      ap (λ (ls : Lists). ls (home is_bad) b.channel_no b.chip_no) ends.1.new_lists
      ∙ rw (==_refl (head_code (home is_bad)), ==_refl b.channel_no, ==_refl b.chip_no) refl;
  other_lists = λ head channel chip ne.
      ap (λ (ls : Lists). ls head channel chip) ends.1.new_lists ∙ rw ne refl;
  erased_np = ends.1.same_np;
}

module _ (bai : Abm) (valid : IsValid bai) (channel_no chip_no block_no : ℕ) (b : Block)
    (found : Found bai channel_no chip_no block_no b) where
  -- h4h_abm_erase_block finds the block at the address, runs through without a bug check, keeps the
  -- invariant, and leaves just that block free, or bad if it is to be retired, at the tail of its
  -- list, with one erase more in its 32-bit count, no invalid subpage and a clear page status table.
  -- Its address and its offset, and every other block, stay as they are.
  pub erase_block-Erased :
      (is_bad : Bool)
      → Returns
          (Erased bai (get_block_idx bai.np channel_no chip_no block_no) b is_bad)
          (erase_block channel_no chip_no block_no is_bad bai)
  unfolding erase_block
  erase_block-Erased is_bad = rw (find_block-eq bai valid channel_no chip_no block_no b found) (
      Returns-mono _ (Erased bai (get_block_idx bai.np channel_no chip_no block_no) b is_bad)
        (erase_found (get_block_idx bai.np channel_no chip_no block_no) b is_bad bai)
        (λ bai' e ends. erased-Erased bai bai' _ b is_bad found.here ends)
        (erase_found-Ends bai valid _ b found.here is_bad))
