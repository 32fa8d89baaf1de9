-- ===== src/Abm/Store.antt =====
-- h4h_abm_store and h4h_abm_load of ftl/algo/abm.c: the blocks in a file, and the lists built from them.
-- A file is the sequence of what was written for each block, and reading gives what was written at the
-- same place. Opening the file succeeds.
pub mod Reload
pub mod Roundtrip
use h4h.Base.{ℕ, suc, ◌+◌, ◌%◌, ◌^◌, Bool, List, [], ◌∷◌, Option, none, some, map, ◌>>=◌, inc64}
use h4h.Abm.{
  Abm, Block, BlkStatus, free, free_prepare, clean, dirty, bad, head_free, head_clean, head_dirty,
  head_bad,
}
use h4h.Abm.Ops.{move_block}

-- What the file holds for one block; without a page status table there is a gap.
pub record BlockImage : Type 0 where
  pub image_status : BlkStatus
  pub image_channel_no : ℕ
  pub image_chip_no : ℕ
  pub image_block_no : ℕ
  pub image_erase_count : ℕ
  pub image_nr_invalid_subpages : ℕ
  pub image_pst : Option (List Bool)

unfoldable pub write_block : Block → BlockImage
write_block b = record {
  image_status = b.status;
  image_channel_no = b.channel_no;
  image_chip_no = b.chip_no;
  image_block_no = b.block_no;
  image_erase_count = b.erase_count;
  image_nr_invalid_subpages = b.nr_invalid_subpages;
  image_pst = b.pst;
}

-- h4h_abm_store
unfoldable pub abm_store : Abm → List BlockImage
unfolding write_block
abm_store bai = map write_block bai.blocks

-- A table is read where the block in memory has one; what a gap would give is not known.
unfoldable pub read_pst : Option (List Bool) → Option (List Bool) → Option (Option (List Bool))
read_pst none image = some none
read_pst (some t) none = none
read_pst (some t) (some u) = some (some u)

unfoldable pub read_block : Block → BlockImage → Option Block
unfolding read_pst
read_block b image = read_pst b.pst image.image_pst >>= λ table. some (record b {
  status = image.image_status;
  channel_no = image.image_channel_no;
  chip_no = image.image_chip_no;
  block_no = image.image_block_no;
  erase_count = image.image_erase_count;
  nr_invalid_subpages = image.image_nr_invalid_subpages;
  pst = table;
})

-- The first loop of h4h_abm_load; the file must not be shorter than the array of blocks.
unfoldable pub read_blocks : List Block → List BlockImage → Option (List Block)
unfolding read_block
read_blocks [] images = some []
read_blocks (b ∷ bs) [] = none
read_blocks (b ∷ bs) (image ∷ images) = do
  c ← read_block b image
  cs ← read_blocks bs images
  some (c ∷ cs)

-- One round of the second loop: the list and the counter of the block's status
unfoldable pub relink_block : BlkStatus → ℕ → Block → Abm → Abm
unfolding move_block
relink_block free i b bai = record (move_block i b head_free bai) {
  nr_free_blks = inc64 bai.nr_free_blks;
}
relink_block free_prepare i b bai = record (move_block i b head_free bai) {
  nr_free_blks_prepared = inc64 bai.nr_free_blks_prepared;
}
relink_block clean i b bai = record (move_block i b head_clean bai) {
  nr_clean_blks = inc64 bai.nr_clean_blks;
}
relink_block dirty i b bai = record (move_block i b head_dirty bai) {
  nr_dirty_blks = inc64 bai.nr_dirty_blks;
}
relink_block bad i b bai = record (move_block i b head_bad bai) {
  nr_bad_blks = inc64 bai.nr_bad_blks;
}

unfoldable pub relink_blocks : List Block → ℕ → Abm → Abm
unfolding relink_block
relink_blocks [] i bai = bai
relink_blocks (b ∷ bs) i bai = relink_blocks bs (suc i) (relink_block b.status i b bai)

-- h4h_abm_load
unfoldable pub abm_load : List BlockImage → Abm → Option Abm
unfolding read_blocks relink_blocks
abm_load images bai = read_blocks bai.blocks images >>= λ blocks. some (
    relink_blocks blocks 0 (record bai {
      blocks = blocks;
      nr_free_blks = 0;
      nr_free_blks_prepared = 0;
      nr_clean_blks = 0;
      nr_dirty_blks = 0;
      nr_bad_blks = 0;
    }))
