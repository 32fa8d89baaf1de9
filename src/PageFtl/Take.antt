-- ===== src/PageFtl/Take.antt =====
-- Taking a free block for writing: prepare and commit at once, as every caller in page_ftl.c does.
use h4h.Base.{
  ℕ, ◌<◌, ◌≡◌, ◌⊎◌, inl, inr, refl, ap, ◌∙◌, List, [], ◌∷◌, Option, none, some, arith, get_elem?,
  count, count-append, count_p-set, count_p_pos, All, Returns, Returns-mono, Returns-bind,
  get_elem?-lt, get_elem?_of_lt, get_elem?-set_self, set-set, length, ==_refl, All-lt_of_count,
}
use h4h.Abm.{Abm, Block, free, free_prepare, clean, head_free, head_clean, is_status}
use h4h.Abm.Ops.{get_free_block_prepare, get_free_block_commit}
use h4h.Abm.Outcome.{Becomes, moved}
use h4h.Abm.Valid.{IsValid}
use h4h.Abm.Valid.Calls.{Ends, get_free_block_commit-Ends}
use h4h.Abm.Valid.Prepare.{taken, exhausted, NotFree, get_free_block_prepare-Prepared}
use h4h.PageFtl.{take_free_block}

-- No block is held between the two calls.
abbrev pub NonePrepared : Abm → Type 0
NonePrepared bai = bai.nr_free_blks_prepared ≡ 0

-- Block `i` of this chip went from free to clean, and nothing else changed.
pub record Took (bai : Abm) (channel chip i : ℕ) (b : Block) (bai' : Abm) : Type 0 where
  pub was_there : get_elem? bai.blocks i ≡ some b
  pub was_free : b.status ≡ free
  pub at_channel : b.channel_no ≡ channel
  pub at_chip : b.chip_no ≡ chip
  pub ends : Ends bai i (record b { status = clean }) (moved i b head_clean bai.lists) bai'
  pub none_prepared : NonePrepared bai'

pub data Taking (bai : Abm) (channel chip : ℕ) (r : Abm × Option ℕ) : Type 0 where
  empty : bai.lists head_free channel chip ≡ [] → r ≡ (bai, none) → Taking bai channel chip r
  took :
      (i : ℕ) (b : Block) → r.1 ≡ some i → Took bai channel chip i b r.0 → Taking bai channel chip r

module _ (bai : Abm) (valid : IsValid bai) where
  -- What stands in the free list of a chip is a block of that chip, free or prepared.
  listed_at :
      (channel chip i : ℕ) (b : Block)
      → 0 < count i (bai.lists head_free channel chip)
      → get_elem? bai.blocks i ≡ some b
      → (b.channel_no ≡ channel)
        × (b.chip_no ≡ chip)
        × ((b.status ≡ free) ⊎ (b.status ≡ free_prepare))
  listed_at channel chip i b n at =
      ground (arith, valid.listed.placed i b at head_free channel chip)

  pub in_range :
      (channel chip : ℕ) → All (λ i. i < length bai.blocks) (bai.lists head_free channel chip)
  in_range channel chip =
      All-lt_of_count (length bai.blocks) _
        (λ i h. valid.listed.no_other i head_free channel chip h)

  -- With no block prepared, a list without a free block is empty.
  pub unfree_empty :
      (channel chip : ℕ) (xs : List ℕ)
      → bai.lists head_free channel chip ≡ xs
      → All (λ i. i < length bai.blocks) xs
      → All (NotFree bai) xs
      → NonePrepared bai
      → xs ≡ []
  unfree_empty channel chip [] e lt all none_p = refl
  unfree_empty channel chip (x ∷ rest) e lt all none_p =
      let (b, at) = get_elem?_of_lt bai.blocks x lt.0 in
      let held : 0 < count x (bai.lists head_free channel chip) = rw (e, ==_refl x) (omega arith) in
      elim (listed_at channel chip x b held at).2 [
        | inl f ↦ absurd (all.0 b at f)
        | inr p ↦ absurd (
            omega (
              arith,
              none_p,
              valid.counted.counts_prepared,
              count_p_pos (λ (c : Block). is_status c.status free_prepare) bai.blocks x at
                  (rw p refl),
            ))
      ]

  -- The two steps on a free block come to one: it is clean, at the tail of the clean list.
  joined :
      (i : ℕ) (b : Block) (bai1 bai2 : Abm)
      → Becomes bai i (record b { status = free_prepare }) bai.lists bai1
      → Ends bai1 i (record b { status = clean }) (moved i b head_clean bai1.lists) bai2
      → Ends bai i (record b { status = clean }) (moved i b head_clean bai.lists) bai2
  joined i b bai1 bai2 o e = (
    e.0,
    record {
      same_np = e.1.same_np ∙ o.same_np;
      new_blocks = e.1.new_blocks ∙ rw o.new_blocks (set-set bai.blocks i _ _);
      new_lists = rw (← o.new_lists) e.1.new_lists;
    },
  )

  NonePrepared-set :
      (i : ℕ) (b : Block) (bai' : Abm)
      → NonePrepared bai
      → get_elem? bai.blocks i ≡ some b
      → b.status ≡ free
      → Ends bai i (record b { status = clean }) (moved i b head_clean bai.lists) bai'
      → NonePrepared bai'
  NonePrepared-set i b bai' z at st e = ground (
    arith,
    e.0.counted.counts_prepared,
    e.1.new_blocks,
    valid.counted.counts_prepared,
    count_p-set (λ (c : Block). is_status c.status free_prepare) bai.blocks i
        (record b { status = clean }) at,
  )

  commit_taken :
      (channel chip i : ℕ) (b : Block) (bai1 : Abm)
      → NonePrepared bai
      → get_elem? bai.blocks i ≡ some b
      → b.status ≡ free
      → b.channel_no ≡ channel
      → b.chip_no ≡ chip
      → Ends bai i (record b { status = free_prepare }) bai.lists bai1
      → Returns (Took bai channel chip i b) (get_free_block_commit i bai1)
  commit_taken channel chip i b bai1 z at st ec eh (v1, o1) =
      let at1 : get_elem? bai1.blocks i ≡ some (record b { status = free_prepare }) =
        rw o1.new_blocks (get_elem?-set_self bai.blocks i _ (get_elem?-lt bai.blocks i at)) in
      Returns-mono _ (Took bai channel chip i b) (get_free_block_commit i bai1)
        (λ bai2 e ends.
          let all = joined i b bai1 bai2 o1 ends in
          record {
            was_there = at;
            was_free = st;
            at_channel = ec;
            at_chip = eh;
            ends = all;
            none_prepared = NonePrepared-set i b bai2 z at st all;
          })
        (get_free_block_commit-Ends bai1 v1 i _ at1 refl)

  -- On a valid state with no block prepared, taking a block of a chip runs through without a bug
  -- check. If the free list of the chip is empty it returns NULL and changes nothing; otherwise it
  -- returns a free block of that chip, which is now clean and in the clean list, and nothing else
  -- has changed.
  pub take_free_block-Taking :
      (channel chip : ℕ)
      → NonePrepared bai
      → Returns (Taking bai channel chip) (take_free_block channel chip bai)
  unfolding take_free_block
  take_free_block-Taking channel chip z =
      Returns-bind _ (Taking bai channel chip) (get_free_block_prepare channel chip bai) _
        (get_free_block_prepare-Prepared bai valid channel chip)
        λ r e p. elim p [
          | taken pre i post b split unfree at st ri ends ↦
              let held : 0 < count i (bai.lists head_free channel chip) =
                rw (split, count-append i pre (i ∷ post), ==_refl i) (omega arith) in
              let place_of = listed_at channel chip i b held at in
              rw ri (
                Returns-bind _ (Taking bai channel chip) (get_free_block_commit i r.0) _
                  (commit_taken channel chip i b r.0 z at st place_of.0 place_of.1 ends)
                  (λ bai2 e2 t. took i b refl t))
          | exhausted all same ↦
              let none_left = unfree_empty channel chip _ refl (in_range channel chip) all z in
              let kept : r.0 ≡ bai = ap (λ (x : Abm × Option ℕ). x.0) same in
              rw (same, none_left) (empty none_left (rw kept))
        ]
