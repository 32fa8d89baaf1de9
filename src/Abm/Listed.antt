-- ===== src/Abm/Listed.antt =====
-- The intrusive lists of abm.c: each block stands once in the list of its status and chip, and in
-- no other list.
use h4h.Base.{
  ℕ, ◌≤◌, ◌≡◌, sym, List, [], ◌∷◌, some, arith, get_elem?, get_elem?-lt, get_elem?-set, set, length,
  length-set, count, count-append, count-erase, erase, tally, Every, Every-set, if◌then◌else◌, ◌==◌,
  Bool-cases, ==_refl, ==_ne, inl, inr,
}
use h4h.Abm.{
  Block, BlkStatus, free, free_prepare, clean, dirty, bad, Lists, ListHead, head_free, head_clean,
  head_dirty, head_bad, list_add_tail, list_del, same_list,
}
use h4h.Abm.Outcome.{moved}

-- A prepared block stays in the free list.
abbrev pub place : BlkStatus → ListHead
place free = head_free
place free_prepare = head_free
place clean = head_clean
place dirty = head_dirty
place bad = head_bad

abbrev pub IsPlaced : Lists → ℕ → Block → Type 0
IsPlaced ls i b =
    (head : ListHead) (channel chip : ℕ)
    → count i (ls head channel chip)
      ≡ tally (same_list (place b.status) b.channel_no b.chip_no head channel chip)

pub record IsListed (bs : List Block) (ls : Lists) : Type 0 where
  pub placed : Every (IsPlaced ls) bs
  pub no_other :
      (i : ℕ) (head : ListHead) (channel chip : ℕ)
      → length bs ≤ i
      → count i (ls head channel chip) ≡ 0

pub count-moved :
    (i j : ℕ) (b : Block) (head : ListHead) (ls : Lists) (head' : ListHead) (channel chip : ℕ)
    → count j (moved i b head ls head' channel chip) ≡ (
        if j == i
        then tally (same_list head b.channel_no b.chip_no head' channel chip)
        else count j (ls head' channel chip))
unfolding list_add_tail list_del
count-moved i j b head ls head' channel chip =
    elim (Bool-cases (same_list head b.channel_no b.chip_no head' channel chip)) [
      | inl here ↦ rw here (
          ground (
            arith,
            here,
            count-append j (erase i (ls head' channel chip)) (i ∷ []),
            count-erase j i (ls head' channel chip),
          ))
      | inr there ↦ rw there (ground (arith, there, count-erase j i (ls head' channel chip)))
    ]

-- The block moves to the list where its new status belongs.
pub moved-IsListed :
    (bs : List Block) (ls : Lists) (i : ℕ) (b v : Block)
    → IsListed bs ls
    → get_elem? bs i ≡ some b
    → v.channel_no ≡ b.channel_no
    → v.chip_no ≡ b.chip_no
    → IsListed (set bs i v) (moved i b (place v.status) ls)
moved-IsListed bs ls i b v l e ec eh = record {
  placed = λ j a g head channel chip. elim (get_elem?-set bs i j v g) [
    | inl (p, q) ↦
        rw (q, ← p, count-moved i i b (place v.status) ls head channel chip, ==_refl i, ec, eh)
    | inr (p, q) ↦
        rw (count-moved i j b (place v.status) ls head channel chip, ==_ne j i (λ x. p (sym x)))
          (l.placed j a q head channel chip)
  ];
  no_other = λ j head channel chip h.
      let outside = rw length-set at h in
      rw
        (
          count-moved i j b (place v.status) ls head channel chip,
          ==_ne j i (λ x. omega (arith, get_elem?-lt bs i e, outside, x)),
        )
        (l.no_other j head channel chip outside);
}

-- A block that keeps its list may change in other ways.
pub set-IsListed :
    (bs : List Block) (ls : Lists) (i : ℕ) (b v : Block)
    → IsListed bs ls
    → get_elem? bs i ≡ some b
    → v.channel_no ≡ b.channel_no
    → v.chip_no ≡ b.chip_no
    → place v.status ≡ place b.status
    → IsListed (set bs i v) ls
set-IsListed bs ls i b v l e ec eh es = record {
  placed =
      Every-set (IsPlaced ls) bs i v l.placed
        λ head channel chip. rw (ec, eh, es) (l.placed i b e head channel chip);
  no_other = λ j head channel chip h. l.no_other j head channel chip (rw length-set at h);
}
