-- ===== src/Abm/Store/Reload.antt =====
-- Loading the file that was stored gives back the blocks, and lists and counters that fit them.
use h4h.Base.{
  ℕ, zero, suc, ◌+◌, ◌<◌, ◌≤◌, ◌≡◌, ◌⊎◌, inl, ◌^◌, refl, ap, ◌∙◌, Bool, false, List, [], ◌∷◌, some,
  map, arith, get_elem?, length, count, tally, ◌==◌, ==_refl, ==_ne, some-inj, Every,
}
use h4h.Abm.{
  Abm, Block, BlkStatus, free, free_prepare, clean, dirty, bad, Lists, ListHead, same_list,
}
use h4h.Abm.Counters.{count_status}
use h4h.Abm.Listed.{place, count-moved}
use h4h.Abm.Outcome.{moved}
use h4h.Abm.Store.{write_block, read_pst, read_block, read_blocks, relink_block, relink_blocks}

-- The offset of a block is not stored.
abbrev pub no_offset : Block → Block
no_offset b = record b { offset = 0 }

abbrev pub HasTable : Block → Type 0
HasTable b = (t : List Bool) × (b.pst ≡ some t)

-- What relinking keeps and counts
pub record Relinked (bs : List Block) (bai bai' : Abm) : Type 0 where
  pub same_np : bai'.np ≡ bai.np
  pub same_blocks : bai'.blocks ≡ bai.blocks
  pub same_total : bai'.nr_total_blks ≡ bai.nr_total_blks
  pub counts_free : bai'.nr_free_blks ≡ bai.nr_free_blks + count_status free bs
  pub counts_prepared :
      bai'.nr_free_blks_prepared ≡ bai.nr_free_blks_prepared + count_status free_prepare bs
  pub counts_clean : bai'.nr_clean_blks ≡ bai.nr_clean_blks + count_status clean bs
  pub counts_dirty : bai'.nr_dirty_blks ≡ bai.nr_dirty_blks + count_status dirty bs
  pub counts_bad : bai'.nr_bad_blks ≡ bai.nr_bad_blks + count_status bad bs

-- No counter wraps while `n` more blocks are counted.
pub record Roomy (bai : Abm) (n : ℕ) : Type 0 where
  pub room_free : bai.nr_free_blks + n < 2 ^ 64
  pub room_prepared : bai.nr_free_blks_prepared + n < 2 ^ 64
  pub room_clean : bai.nr_clean_blks + n < 2 ^ 64
  pub room_dirty : bai.nr_dirty_blks + n < 2 ^ 64
  pub room_bad : bai.nr_bad_blks + n < 2 ^ 64

relink_one :
    (st : BlkStatus) (i : ℕ) (b : Block) (bai : Abm) (n : ℕ)
    → b.status ≡ st
    → Roomy bai (suc n)
    → Relinked (b ∷ []) bai (relink_block st i b bai)
      × Roomy (relink_block st i b bai) n
      × ((relink_block st i b bai).lists ≡ moved i b (place st) bai.lists)
unfolding relink_block
relink_one free i b bai n e r = ground arith
relink_one free_prepare i b bai n e r = ground arith
relink_one clean i b bai n e r = ground arith
relink_one dirty i b bai n e r = ground arith
relink_one bad i b bai n e r = ground arith

pub relink_all :
    (bs : List Block) (i : ℕ) (bai : Abm)
    → Roomy bai (length bs)
    → Relinked bs bai (relink_blocks bs i bai)
unfolding relink_blocks
relink_all [] i bai r = record {
  same_np = refl;
  same_blocks = refl;
  same_total = refl;
  counts_free = omega arith;
  counts_prepared = omega arith;
  counts_clean = omega arith;
  counts_dirty = omega arith;
  counts_bad = omega arith;
}
relink_all (b ∷ bs) i bai r =
    let (one, room, ls) = relink_one b.status i b bai (length bs) refl r in
    let rest = relink_all bs (suc i) (relink_block b.status i b bai) room in
    record {
      same_np = rest.same_np ∙ one.same_np;
      same_blocks = rest.same_blocks ∙ one.same_blocks;
      same_total = rest.same_total ∙ one.same_total;
      counts_free = omega (arith, rest.counts_free, one.counts_free);
      counts_prepared = omega (arith, rest.counts_prepared, one.counts_prepared);
      counts_clean = omega (arith, rest.counts_clean, one.counts_clean);
      counts_dirty = omega (arith, rest.counts_dirty, one.counts_dirty);
      counts_bad = omega (arith, rest.counts_bad, one.counts_bad);
    }

module _ (head : ListHead) (channel chip : ℕ) where
  pub relink_outside :
      (bs : List Block) (i : ℕ) (bai : Abm) (j : ℕ)
      → Roomy bai (length bs)
      → (j < i) ⊎ (i + length bs ≤ j)
      → count j ((relink_blocks bs i bai).lists head channel chip)
        ≡ count j (bai.lists head channel chip)
  unfolding relink_blocks
  relink_outside [] i bai j r h = refl
  relink_outside (b ∷ bs) i bai j r h =
      let (one, room, ls) = relink_one b.status i b bai (length bs) refl r in
      let apart : (j == i) ≡ false = ==_ne j i (λ e. omega arith) in
      relink_outside bs (suc i) (relink_block b.status i b bai) j room (omega arith)
      ∙ ap (λ (x : Lists). count j (x head channel chip)) ls
      ∙ count-moved i j b (place b.status) bai.lists head channel chip
      ∙ rw apart refl

  pub relink_inside :
      (bs : List Block) (i : ℕ) (bai : Abm) (k : ℕ) (b : Block)
      → Roomy bai (length bs)
      → get_elem? bs k ≡ some b
      → count (i + k) ((relink_blocks bs i bai).lists head channel chip)
        ≡ tally (same_list (place b.status) b.channel_no b.chip_no head channel chip)
  unfolding relink_blocks
  relink_inside [] i bai k b r at = ground arith
  relink_inside (c ∷ bs) i bai zero b r at =
      let (one, room, ls) = relink_one c.status i c bai (length bs) refl r in
      let e : i + zero ≡ i = omega arith in
      rw (e, ← some-inj at)
        (relink_outside bs (suc i) (relink_block c.status i c bai) i room (inl (omega arith))
          ∙ ap (λ (x : Lists). count i (x head channel chip)) ls
          ∙ count-moved i i c (place c.status) bai.lists head channel chip
          ∙ rw (==_refl i) refl)
  relink_inside (c ∷ bs) i bai (suc k) b r at =
      let (one, room, ls) = relink_one c.status i c bai (length bs) refl r in
      let e : i + suc k ≡ suc i + k = omega arith in
      rw e (relink_inside bs (suc i) (relink_block c.status i c bai) k b room at)

-- What was written is read, into blocks that have their tables.
pub read_written :
    (fresh bs : List Block)
    → length fresh ≡ length bs
    → Every (λ i c. HasTable c × (c.offset ≡ 0)) fresh
    → Every (λ i b. HasTable b) bs
    → read_blocks fresh (map write_block bs) ≡ some (map no_offset bs)
unfolding read_blocks read_block read_pst write_block
read_written [] [] e f h = refl
read_written [] (b ∷ bs) e f h = absurd (omega arith)
read_written (c ∷ cs) [] e f h = absurd (omega arith)
read_written (c ∷ cs) (b ∷ bs) e f h =
    let ((t, ct), zero_offset) = f 0 c refl in
    let (u, bt) = h 0 b refl in
    let rest =
      read_written cs bs (omega arith) (λ i x at. f (suc i) x at) (λ i x at. h (suc i) x at) in
    rw (rest, ct, bt, zero_offset) refl
