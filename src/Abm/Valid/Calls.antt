-- ===== src/Abm/Valid/Calls.antt =====
-- The operations of abm.c on valid states: none stops at a bug check, each keeps the invariant, and
-- each leaves behind exactly the change that it is for.
use native.Mathlib.Nat.{mod-eq_of_lt}
use h4h.Base.{
  ℕ, ◌<◌, ◌≡◌, ◌^◌, ◌%◌, refl, sym, Bool, true, false, List, Option, some, arith, get_elem?, set,
  length-set, length-replicate, replicate, count_p-set, count_p-replicate, count_p-replicate_all,
  count_p-lt-length, inc32, ◌≢◌, Returns, Returns-mono, if◌then◌else◌, ◌==◌, Bool-cases, inl, inr,
  ◌⊎◌, some-inj,
}
use h4h.Abm.{Abm, Block, free, free_prepare, clean, dirty, bad, Lists, head_clean, head_dirty}
use h4h.Abm.Ops.{
  get_free_block_rollback, get_free_block_commit, erased, erase_found, dirtied, dirty_found, marked,
  mark_invalid, fill_pst,
}
use h4h.Abm.Geometry.{block_subpages_pos}
use h4h.Abm.Counters.{IsCounted}
use h4h.Abm.Counters.Steps.{
  get_free_block_rollback-IsCounted, get_free_block_commit-IsCounted, erase_found-IsCounted,
  dirty_found-IsCounted, mark_invalid-IsCounted,
}
use h4h.Abm.Listed.{IsListed, moved-IsListed, set-IsListed}
use h4h.Abm.Outcome.{
  Becomes, moved, marked_lists, home, rollback-Becomes, get_free_block_commit-Becomes,
  erase_found-Becomes, dirty_found-Becomes, mark_invalid-Becomes,
}
use h4h.Abm.Valid.{Agrees, count_marks, IsBlock, IsValid, Becomes-IsValid}

-- A step that ends well, with the block at `i` now `v` and the lists now `ls`.
abbrev pub Ends : Abm → ℕ → Block → Lists → Abm → Type 0
Ends bai i v ls bai' = IsValid bai' × Becomes bai i v ls bai'

module _ (bai : Abm) (valid : IsValid bai) (i : ℕ) (b : Block)
    (at : get_elem? bai.blocks i ≡ some b) where
  old : IsBlock bai.np i b
  old = valid.each i b at

  -- The facts of a step join to the invariant.
  ends :
      (v : Block) (ls : Lists) (r : Option Abm)
      → Returns IsCounted r
      → ((bai' : Abm) → r ≡ some bai' → Becomes bai i v ls bai')
      → IsListed (set bai.blocks i v) ls
      → IsBlock bai.np i v
      → Returns (Ends bai i v ls) r
  ends v ls r c o l new =
      Returns-mono IsCounted (Ends bai i v ls) r
        (λ bai' e k. (Becomes-IsValid bai bai' i v ls valid k (o bai' e) l new, o bai' e)) c

  -- rollback turns a prepared block back into a free one.
  pub get_free_block_rollback-Ends :
      b.status ≡ free_prepare
      → Returns (Ends bai i (record b { status = free }) bai.lists) (get_free_block_rollback i bai)
  get_free_block_rollback-Ends st =
      ends _ _ _ (get_free_block_rollback-IsCounted bai i b valid.counted at st)
        (λ bai' e. rollback-Becomes bai bai' i b at e)
        (set-IsListed bai.blocks bai.lists i b _ valid.listed at refl refl (rw st))
        (ground (arith, old))

  -- commit turns a prepared block into a clean one, at the tail of the clean list of its chip.
  pub get_free_block_commit-Ends :
      b.status ≡ free_prepare
      → Returns
          (Ends bai i (record b { status = clean }) (moved i b head_clean bai.lists))
          (get_free_block_commit i bai)
  get_free_block_commit-Ends st =
      ends _ _ _ (get_free_block_commit-IsCounted bai i b valid.counted at st)
        (λ bai' e. get_free_block_commit-Becomes bai bai' i b at e)
        (moved-IsListed bai.blocks bai.lists i b _ valid.listed at refl refl) (ground (arith, old))

  fill_size :
      (mark : Bool) (t : List Bool)
      → fill_pst mark bai.np.nr_subpages_per_block b.pst ≡ some t
      → t ≡ replicate bai.np.nr_subpages_per_block mark
  fill_size mark t e = ground arith

  -- erase makes the block free, or retires it, with one erase more and no invalid subpage.
  pub erase_found-Ends :
      (is_bad : Bool)
      → Returns
          (Ends bai i (erased bai is_bad b) (moved i b (home is_bad) bai.lists))
          (erase_found i b is_bad bai)
  erase_found-Ends is_bad =
      ends _ _ _ (erase_found-IsCounted bai i b is_bad valid.counted at)
        (λ bai' e. erase_found-Becomes bai bai' i b is_bad e)
        (elim is_bad
          as (λ x. IsListed (set bai.blocks i (erased bai x b)) (moved i b (home x) bai.lists)) [
            | true ↦ moved-IsListed bai.blocks bai.lists i b _ valid.listed at refl refl
            | false ↦ moved-IsListed bai.blocks bai.lists i b _ valid.listed at refl refl
          ])
        (record {
          in_channel = old.in_channel;
          in_chip = old.in_chip;
          in_block = old.in_block;
          table_size = λ t e. rw (fill_size false t e) (length-replicate _ _);
          table_marks = λ t e. rw (fill_size false t e) (count_p-replicate _ _ _ refl);
          bounded = omega arith;
          agrees = elim is_bad as (λ x. Agrees (if x then bad else free) 0) [
            | true ↦ refl
            | false ↦ refl
          ];
        })

  fits : bai.np.nr_subpages_per_block % 2 ^ 32 ≡ bai.np.nr_subpages_per_block
  fits = mod-eq_of_lt valid.geometry.block_small

  -- set to dirty marks every subpage of the block invalid.
  pub dirty_found-Ends :
      Returns (Ends bai i (dirtied bai b) (moved i b head_dirty bai.lists)) (dirty_found i b bai)
  dirty_found-Ends =
      ends _ _ _ (dirty_found-IsCounted bai i b valid.counted at)
        (λ bai' e. dirty_found-Becomes bai bai' i b e)
        (moved-IsListed bai.blocks bai.lists i b _ valid.listed at refl refl)
        (record {
          in_channel = old.in_channel;
          in_chip = old.in_chip;
          in_block = old.in_block;
          table_size = λ t e. rw (fill_size true t e) (length-replicate _ _);
          table_marks = λ t e.
              rw (fill_size true t e, count_p-replicate_all (λ (x : Bool). x) _ _ refl) (sym fits);
          bounded = omega (arith, valid.geometry.block_small);
          agrees = rw fits (block_subpages_pos bai.np valid.geometry);
        })

  -- A block in use that has no invalid subpage is clean.
  in_use-clean :
      (b.status ≡ clean) ⊎ (b.status ≡ dirty) → b.nr_invalid_subpages ≡ 0 → b.status ≡ clean
  in_use-clean (inl c) e = c
  in_use-clean (inr d) e = ground (arith, old)

  in_use-Agrees :
      (b.status ≡ clean) ⊎ (b.status ≡ dirty) → b.nr_invalid_subpages ≢ 0 → b.status ≡ dirty
  in_use-Agrees (inl c) e = ground (arith, old)
  in_use-Agrees (inr d) e = d

  module _ (table : List Bool) (off : ℕ) (has : b.pst ≡ some table)
      (valid_sub : get_elem? table off ≡ some false)
      (in_use : (b.status ≡ clean) ⊎ (b.status ≡ dirty)) where
    room : b.nr_invalid_subpages < bai.np.nr_subpages_per_block
    room = omega (
      arith,
      old.table_size table has,
      old.table_marks table has,
      count_p-lt-length (λ (x : Bool). x) table off valid_sub refl,
    )

    counts_on : count_marks (set table off true) ≡ inc32 b.nr_invalid_subpages
    counts_on = omega (
      arith,
      count_p-set (λ (x : Bool). x) table off true valid_sub,
      old.table_marks table has,
      room,
      valid.geometry.block_small,
    )

    marked-IsListed : IsListed (set bai.blocks i (marked table off b)) (marked_lists i b bai.lists)
    marked-IsListed = elim (Bool-cases (b.nr_invalid_subpages == 0)) [
      | inl first ↦ rw first (
          moved-IsListed bai.blocks bai.lists i b (record (marked table off b) { status = dirty })
            valid.listed at refl refl)
      | inr later ↦ rw later (
          set-IsListed bai.blocks bai.lists i b (record (marked table off b) { status = b.status })
            valid.listed at refl refl refl)
    ]

    marked-Agrees :
        Agrees
          (if b.nr_invalid_subpages == 0 then dirty else b.status)
          (inc32 b.nr_invalid_subpages)
    marked-Agrees = elim (Bool-cases (b.nr_invalid_subpages == 0)) [
      | inl first ↦ rw first (omega (arith, room, valid.geometry.block_small))
      | inr later ↦
          rw (later, in_use-Agrees in_use (λ z. ground arith))
            (omega (arith, room, valid.geometry.block_small))
    ]

    -- Marking a subpage that was not invalid: the block is dirty from its first mark on.
    pub mark_invalid-Ends :
        Returns
          (Ends bai i (marked table off b) (marked_lists i b bai.lists))
          (mark_invalid i b table off bai)
    mark_invalid-Ends =
        ends _ _ _
          (mark_invalid-IsCounted bai i b table off valid.counted at (in_use-clean in_use) room
            valid.geometry.block_small)
          (λ bai' e. mark_invalid-Becomes bai bai' i b table off e) marked-IsListed
          (record {
            in_channel = old.in_channel;
            in_chip = old.in_chip;
            in_block = old.in_block;
            table_size = λ t e. rw (← some-inj e) (rw length-set (old.table_size table has));
            table_marks = λ t e. rw (← some-inj e) counts_on;
            bounded = omega (arith, room, valid.geometry.block_small);
            agrees = marked-Agrees;
          })
