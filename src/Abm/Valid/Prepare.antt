-- ===== src/Abm/Valid/Prepare.antt =====
-- h4h_abm_get_free_block_prepare: the first free block of a chip, or what is left when there is none.
use h4h.Base.{
  ℕ, ◌<◌, ◌≡◌, ◌≢◌, refl, ap, true, false, List, [], ◌∷◌, ◌++◌, Option, none, some, arith,
  get_elem?, get_elem?_of_lt, length, Returns, Returns-mono, Returns-bind, All, All-lt_of_count,
  Bool-cases, inl, inr,
}
use h4h.Abm.{Abm, Block, BlkStatus, free, free_prepare, head_free, is_status}
use h4h.Abm.Ops.{prepare_block, prepare_loop, get_free_block_prepare}
use h4h.Abm.Counters.Steps.{prepare_block-IsCounted}
use h4h.Abm.Listed.{set-IsListed}
use h4h.Abm.Outcome.{prepare_block-Becomes}
use h4h.Abm.Valid.{IsValid, Becomes-IsValid}
use h4h.Abm.Valid.Calls.{Ends}

abbrev pub NotFree : Abm → ℕ → Type 0
NotFree bai i = (b : Block) → get_elem? bai.blocks i ≡ some b → b.status ≢ free

-- What the variable `blk` holds after a walk to the end of the list.
abbrev pub last_of : Option ℕ → List ℕ → Option ℕ
last_of blk [] = blk
last_of blk (i ∷ rest) = last_of (some i) rest

-- The two ways in which the walk over a list ends.
pub data Prepared (bai : Abm) (list : List ℕ) (blk : Option ℕ) (r : Abm × Option ℕ) : Type 0 where
  taken :
      (pre : List ℕ) (i : ℕ) (post : List ℕ) (b : Block)
      → list ≡ pre ++ (i ∷ post)
      → All (NotFree bai) pre
      → get_elem? bai.blocks i ≡ some b
      → b.status ≡ free
      → r.1 ≡ some i
      → Ends bai i (record b { status = free_prepare }) bai.lists r.0
      → Prepared bai list blk r
  exhausted : All (NotFree bai) list → r ≡ (bai, last_of blk list) → Prepared bai list blk r

-- A block before the list that is not free changes neither way.
Prepared-cons :
    (bai : Abm) (i : ℕ) (rest : List ℕ) (blk : Option ℕ) (r : Abm × Option ℕ)
    → NotFree bai i
    → Prepared bai rest (some i) r
    → Prepared bai (i ∷ rest) blk r
Prepared-cons bai i rest blk r n (taken pre j post b e all at st is_j ends) =
    taken (i ∷ pre) j post b (ap (◌∷◌ i) e) (n, all) at st is_j ends
Prepared-cons bai i rest blk r n (exhausted all e) = exhausted (n, all) e

status_free : (st : BlkStatus) → is_status st free ≡ true → st ≡ free
status_free st e = ground arith

module _ (bai : Abm) (valid : IsValid bai) where
  prepare_block-Ends :
      (i : ℕ) (b : Block)
      → get_elem? bai.blocks i ≡ some b
      → b.status ≡ free
      → Returns (Ends bai i (record b { status = free_prepare }) bai.lists) (prepare_block i b bai)
  prepare_block-Ends i b at st =
      Returns-mono _ (Ends bai i _ bai.lists) (prepare_block i b bai)
        (λ bai' e c.
          let o = prepare_block-Becomes bai bai' i b e in
          (
            Becomes-IsValid bai bai' i _ _ valid c o
                (set-IsListed bai.blocks bai.lists i b _ valid.listed at refl refl (rw st))
                (ground (arith, valid.each i b at)),
            o,
          ))
        (prepare_block-IsCounted bai i b valid.counted at st)

  other_free :
      (i : ℕ) (b : Block)
      → get_elem? bai.blocks i ≡ some b
      → is_status b.status free ≡ false
      → NotFree bai i
  other_free i b at other b' at' st = ground arith

  prepare_loop-Prepared :
      (list : List ℕ) (blk : Option ℕ)
      → All (λ i. i < length bai.blocks) list
      → Returns (Prepared bai list blk) (prepare_loop list blk bai)
  unfolding prepare_loop
  prepare_loop-Prepared [] blk h = exhausted tt refl
  prepare_loop-Prepared (i ∷ rest) blk h =
      let ih = prepare_loop-Prepared rest (some i) h.1 in
      let (b, at) = get_elem?_of_lt bai.blocks i h.0 in
      rw at (elim (Bool-cases (is_status b.status free)) [
        | inl is_free ↦ rw is_free (
            let st = status_free b.status is_free in
            Returns-bind _ (Prepared bai (i ∷ rest) blk) (prepare_block i b bai) _
              (prepare_block-Ends i b at st)
              (λ bai' e ends. taken [] i rest b refl tt at st refl ends))
        | inr other ↦ rw other (
            Returns-mono _ (Prepared bai (i ∷ rest) blk) (prepare_loop rest (some i) bai)
              (λ r e p. Prepared-cons bai i rest blk r (other_free i b at other) p) ih)
      ])

  -- h4h_abm_get_free_block_prepare runs through without a bug check on a valid state. Either it takes
  -- the first free block of the chip's free list, which becomes prepared and changes nothing else, and
  -- returns it; or the list has no free block, nothing changes, and it returns the last entry of the
  -- list, NULL only if the list is empty.
  pub get_free_block_prepare-Prepared :
      (channel_no chip_no : ℕ)
      → Returns
          (Prepared bai (bai.lists head_free channel_no chip_no) none)
          (get_free_block_prepare channel_no chip_no bai)
  unfolding get_free_block_prepare
  get_free_block_prepare-Prepared channel_no chip_no =
      prepare_loop-Prepared (bai.lists head_free channel_no chip_no) none (
        All-lt_of_count (length bai.blocks) _
          (λ i h. valid.listed.no_other i head_free channel_no chip_no h))
