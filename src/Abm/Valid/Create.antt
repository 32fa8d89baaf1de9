-- ===== src/Abm/Valid/Create.antt =====
-- h4h_abm_create builds a valid state in which every block is free.
use native.Mathlib.Nat.{add-zero}
use Prim.Native.Nat.add
use h4h.Base.{
  ℕ, zero, suc, ◌+◌, ◌*◌, ◌<◌, ◌≤◌, ◌≡◌, ◌≢◌, ◌⊎◌, inl, inr, refl, sym, ap, subst, Bool, true,
  false, List, [], ◌∷◌, some, arith, get_elem?, length, length-replicate, count_p-replicate, count,
  count-append, replicate, tally, Bool-cases, some-inj, none-ne-some,
}
use h4h.Params.{DeviceParams, IsGeometry}
use h4h.Abm.{
  Abm, create_pst, Block, BlkStatus, free, free_prepare, clean, dirty, bad, is_status, Lists,
  ListHead, head_free, no_lists, same_list, list_add_tail, create_block, create_blocks, link_blocks,
  abm_create,
}
use h4h.Abm.Geometry.{blocks_small}
use h4h.Abm.Counters.{count_status}
use h4h.Abm.Valid.{IsBlock, IsValid}

module _ (np : DeviceParams) (use_pst : Bool) where
  pub length-create_blocks : (k n : ℕ) → length (create_blocks np use_pst k n) ≡ n
  unfolding create_blocks
  length-create_blocks k zero = refl
  length-create_blocks k (suc n) = ap suc (length-create_blocks (suc k) n)

  pub get-create_blocks :
      (k n i : ℕ) {b : Block}
      → get_elem? (create_blocks np use_pst k n) i ≡ some b
      → b ≡ create_block np use_pst (k + i)
  unfolding create_blocks
  get-create_blocks k zero i e = ground arith
  get-create_blocks k (suc n) zero e = rw add-zero (sym (some-inj e))
  get-create_blocks k (suc n) (suc i) {b} e =
      subst (λ j. b ≡ create_block np use_pst j) (omega arith) (get-create_blocks (suc k) n i e)

  count-create_blocks :
      (st : BlkStatus) (k n : ℕ)
      → count_status st (create_blocks np use_pst k n) ≡ n * tally (is_status free st)
  unfolding create_blocks create_block
  count-create_blocks st k zero = omega arith
  count-create_blocks st k (suc n) = omega (arith, count-create_blocks st (suc k) n)

-- Linking one block adds it to one list, and no other block.
module _ (i k : ℕ) (head : ListHead) (channel chip : ℕ) (ls : Lists) (head' : ListHead)
    (channel' chip' : ℕ) where
  count-list_add_tail_ne :
      i ≢ k
      → count i (list_add_tail k head channel chip ls head' channel' chip')
        ≡ count i (ls head' channel' chip')
  unfolding list_add_tail
  count-list_add_tail_ne ne = elim (Bool-cases (same_list head channel chip head' channel' chip')) [
    | inl here ↦ rw here (ground (arith, ne, count-append i (ls head' channel' chip') (k ∷ [])))
    | inr there ↦ rw there
  ]

  count-list_add_tail_self :
      i ≡ k
      → count i (list_add_tail k head channel chip ls head' channel' chip')
        ≡ count i (ls head' channel' chip')
          + tally (same_list head channel chip head' channel' chip')
  unfolding list_add_tail
  count-list_add_tail_self e =
      elim (Bool-cases (same_list head channel chip head' channel' chip')) [
        | inl here ↦ rw here (ground (arith, e, count-append i (ls head' channel' chip') (k ∷ [])))
        | inr there ↦ rw there (omega arith)
      ]

module _ (head : ListHead) (channel chip : ℕ) where
  link_outside :
      (bs : List Block) (loop : ℕ) (ls : Lists) (i : ℕ)
      → (i < loop) ⊎ (loop + length bs ≤ i)
      → count i (link_blocks bs loop ls head channel chip) ≡ count i (ls head channel chip)
  unfolding link_blocks
  link_outside [] loop ls i h = refl
  link_outside (b ∷ bs) loop ls i h = omega (
    arith,
    link_outside bs (suc loop) (list_add_tail loop head_free b.channel_no b.chip_no ls) i
        (omega arith),
    count-list_add_tail_ne i loop head_free b.channel_no b.chip_no ls head channel chip
        (λ e. omega arith),
  )

  link_inside :
      (bs : List Block) (loop : ℕ) (ls : Lists) (j : ℕ) (b : Block)
      → get_elem? bs j ≡ some b
      → count (loop + j) (link_blocks bs loop ls head channel chip)
        ≡ count (loop + j) (ls head channel chip)
          + tally (same_list head_free b.channel_no b.chip_no head channel chip)
  unfolding link_blocks
  link_inside [] loop ls j b e = ground arith
  link_inside (x ∷ bs) loop ls zero b e =
      rw (add-zero, ← some-inj e)
        (omega (
          arith,
          link_outside bs (suc loop) (list_add_tail loop head_free x.channel_no x.chip_no ls) loop
              (inl (omega arith)),
          count-list_add_tail_self loop loop head_free x.channel_no x.chip_no ls head channel chip
              refl,
        ))
  link_inside (x ∷ bs) loop ls (suc j) b e =
      let p : loop + suc j ≡ suc loop + j = omega arith in
      rw p (
        omega (
          arith,
          link_inside bs (suc loop) (list_add_tail loop head_free x.channel_no x.chip_no ls) j b e,
          count-list_add_tail_ne (suc loop + j) loop head_free x.channel_no x.chip_no ls head
              channel chip (λ q. omega arith),
        ))

create_block-IsBlock :
    (np : DeviceParams) (use_pst : Bool) (i : ℕ) → IsBlock np i (create_block np use_pst i)
unfolding create_block
create_block-IsBlock np true i = record {
  in_channel = refl;
  in_chip = refl;
  in_block = refl;
  table_size = λ t e. rw (← some-inj e) (length-replicate _ _);
  table_marks = λ t e. rw (← some-inj e) (count_p-replicate _ _ _ refl);
  bounded = omega arith;
  agrees = refl;
}
create_block-IsBlock np false i = record {
  in_channel = refl;
  in_chip = refl;
  in_block = refl;
  table_size = λ t e. absurd (none-ne-some e);
  table_marks = λ t e. absurd (none-ne-some e);
  bounded = omega arith;
  agrees = refl;
}

create-IsValid :
    (np : DeviceParams) (use_pst : Bool) → IsGeometry np → IsValid (abm_create np use_pst)
unfolding abm_create create_block
create-IsValid np use_pst g = record {
  geometry = g;
  sized = length-create_blocks np use_pst 0 np.nr_blocks_per_ssd;
  counted = record {
    total = sym (length-create_blocks np use_pst 0 np.nr_blocks_per_ssd);
    small = rw length-create_blocks (blocks_small np g);
    counts_free = omega (arith, count-create_blocks np use_pst free 0 np.nr_blocks_per_ssd);
    counts_prepared =
        omega (arith, count-create_blocks np use_pst free_prepare 0 np.nr_blocks_per_ssd);
    counts_clean = omega (arith, count-create_blocks np use_pst clean 0 np.nr_blocks_per_ssd);
    counts_dirty = omega (arith, count-create_blocks np use_pst dirty 0 np.nr_blocks_per_ssd);
    counts_bad = omega (arith, count-create_blocks np use_pst bad 0 np.nr_blocks_per_ssd);
  };
  listed = record {
    placed = λ i b e head channel chip.
        let made = ap (λ (x : Block). x.status) (get-create_blocks np use_pst 0 _ i e) in
        let linked = rw add.zero at (link_inside head channel chip _ 0 no_lists i b e) in
        rw made (omega (arith, linked));
    no_other =
        λ i head channel chip h. link_outside head channel chip _ 0 no_lists i (inr (omega arith));
  };
  each = λ i b e.
      let made = rw add.zero at (get-create_blocks np use_pst 0 _ i e) in
      subst (IsBlock np i) (sym made) (create_block-IsBlock np use_pst i);
}

-- A block that was never written or erased
pub record IsFresh (np : DeviceParams) (use_pst : Bool) (b : Block) : Type 0 where
  pub is_free : b.status ≡ free
  pub unerased : b.erase_count ≡ 0
  pub unwritten : b.offset ≡ 0
  pub no_invalid : b.nr_invalid_subpages ≡ 0
  pub no_marks :
      (t : List Bool)
      → b.pst ≡ some t
      → (use_pst ≡ true) × (t ≡ replicate np.nr_subpages_per_block false)

-- The blocks of a new device
pub record Created (np : DeviceParams) (use_pst : Bool) (bai : Abm) : Type 0 where
  pub is_valid : IsValid bai
  pub for_device : bai.np ≡ np
  pub all_fresh : (i : ℕ) (b : Block) → get_elem? bai.blocks i ≡ some b → IsFresh np use_pst b

create_block-IsFresh :
    (np : DeviceParams) (use_pst : Bool) (i : ℕ) → IsFresh np use_pst (create_block np use_pst i)
unfolding create_block create_pst
create_block-IsFresh np true i = record {
  is_free = refl;
  unerased = refl;
  unwritten = refl;
  no_invalid = refl;
  no_marks = λ t e. (refl, sym (some-inj e));
}
create_block-IsFresh np false i = record {
  is_free = refl;
  unerased = refl;
  unwritten = refl;
  no_invalid = refl;
  no_marks = λ t e. absurd (none-ne-some e);
}

-- h4h_abm_create, on any device geometry and with or without page status tables, makes as many
-- blocks as the device has, each with its own address and in the free list of its chip, and the
-- counters say so: the invariant holds from the start. Every block is free, was never erased, has its
-- offset at 0 and no invalid subpage, neither counted nor marked in a table.
pub abm_create-Created :
    (np : DeviceParams) (use_pst : Bool)
    → IsGeometry np
    → Created np use_pst (abm_create np use_pst)
unfolding abm_create
abm_create-Created np use_pst g = record {
  is_valid = create-IsValid np use_pst g;
  for_device = refl;
  all_fresh = λ i b e.
      subst (IsFresh np use_pst) (sym (get-create_blocks np use_pst 0 _ i e))
        (create_block-IsFresh np use_pst (0 + i));
}
