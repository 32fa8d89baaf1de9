-- ===== src/Abm/Counters.antt =====
-- The five counters of h4h_abm_info_t against the statuses of the blocks.
pub mod Steps
use h4h.Base.{
  ℕ, ◌+◌, ◌-◌, ◌*◌, ◌%◌, ◌^◌, ◌<◌, ◌≤◌, ◌≡◌, refl, Bool, true, false, List, [], ◌∷◌, Option, some,
  arith, get_elem?, set, length, count_p, count_p-set, count_p_pos, length-set, tally, inc64, dec64,
  ◌==◌,
}
use h4h.Abm.{Abm, Block, BlkStatus, free, free_prepare, clean, dirty, bad, is_status, check_status}

abbrev pub count_status : BlkStatus → List Block → ℕ
count_status st = count_p (λ b. is_status b.status st)

-- The counters hold the number of blocks of each status.
pub record IsCounted (bai : Abm) : Type 0 where
  pub total : bai.nr_total_blks ≡ length bai.blocks
  pub small : length bai.blocks < 2 ^ 64
  pub counts_free : bai.nr_free_blks ≡ count_status free bai.blocks
  pub counts_prepared : bai.nr_free_blks_prepared ≡ count_status free_prepare bai.blocks
  pub counts_clean : bai.nr_clean_blks ≡ count_status clean bai.blocks
  pub counts_dirty : bai.nr_dirty_blks ≡ count_status dirty bai.blocks
  pub counts_bad : bai.nr_bad_blks ≡ count_status bad bai.blocks

pub status_total :
    (st : BlkStatus)
    → tally (is_status st free)
        + tally (is_status st free_prepare)
        + tally (is_status st clean)
        + tally (is_status st dirty)
        + tally (is_status st bad)
      ≡ 1
status_total free = refl
status_total free_prepare = refl
status_total clean = refl
status_total dirty = refl
status_total bad = refl

-- Every block has exactly one of the five statuses.
pub count_total :
    (bs : List Block)
    → count_status free bs
        + count_status free_prepare bs
        + count_status clean bs
        + count_status dirty bs
        + count_status bad bs
      ≡ length bs
count_total [] = refl
count_total (b ∷ bs) = omega (arith, status_total b.status, count_total bs)

-- So the sum that __h4h_abm_check_status computes is the number of blocks.
pub check_status-IsCounted : (bai : Abm) → IsCounted bai → check_status bai ≡ some tt
unfolding check_status
check_status-IsCounted bai v = ground (arith, count_total bai.blocks)
