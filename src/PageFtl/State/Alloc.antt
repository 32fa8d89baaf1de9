-- ===== src/PageFtl/State/Alloc.antt =====
-- __h4h_page_ftl_get_active_blocks of ftl/algo/page_ftl.c: a new active block for every parallel unit.
use h4h.Base.{
  ℕ, zero, suc, ◌+◌, ◌<◌, ◌≤◌, ◌≡◌, inl, refl, ap, subst, ◌∙◌, List, [], ◌∷◌, Option, none, some,
  arith, get_elem?, set, length, length-set, get_elem?-lt, get_elem?-set_self, get_elem?-set_ne,
  some-inj, none-ne-some, Returns, Returns-mono, Returns-bind,
}
use h4h.Abm.{Abm, Block, clean}
use h4h.Abm.Valid.{IsValid}
use h4h.PageFtl.{take_free_block, get_active_blocks}
use h4h.PageFtl.Take.{NonePrepared, Took, empty, took, take_free_block-Taking}
use h4h.PageFtl.State.{InUse, IsLive, ActiveAt}
use h4h.PageFtl.State.Fresh.{
  FreshAt, block_stays, free_before, Took-IsLive, Took-ActiveAt, Took-ActiveAt_new,
}

-- What the loop does from position `pos` on
pub record Renewed (bai : Abm) (bab : List (Option ℕ)) (ps : List (ℕ × ℕ)) (pos : ℕ)
    (r : Abm × List (Option ℕ) × ℕ) : Type 0 where
  pub still_valid : IsValid r.0
  pub still_none_prepared : NonePrepared r.0
  pub renews_np : r.0.np ≡ bai.np
  pub live_stays : (j off : ℕ) → IsLive bai j off → IsLive r.0 j off
  pub before_stays : (c h k : ℕ) → k < pos → ActiveAt bai bab c h k → ActiveAt r.0 r.1 c h k
  pub all_active :
      r.2 ≡ 0 → (k c h : ℕ) → get_elem? ps k ≡ some (c, h) → ActiveAt r.0 r.1 c h (pos + k)
  pub pointer_stays : (k : ℕ) → k < pos → get_elem? r.1 k ≡ get_elem? bab k
  pub used_stays :
      (j : ℕ) (c : Block)
      → get_elem? bai.blocks j ≡ some c
      → InUse c.status
      → get_elem? r.0.blocks j ≡ some c
  pub all_fresh :
      r.2 ≡ 0 → (k c h : ℕ) → get_elem? ps k ≡ some (c, h) → FreshAt bai r.0 r.1 c h (pos + k)

-- One block taken, and the rest of the loop
after_one :
    (i j : ℕ) (rest : List (ℕ × ℕ)) (pos : ℕ) (bai : Abm) (bab : List (Option ℕ)) (bai1 : Abm)
    (n : ℕ) (b : Block) (t : Took bai i j n b bai1) (s : Abm × List (Option ℕ) × ℕ)
    → pos + length ((i, j) ∷ rest) ≤ length bab
    → Renewed bai1 (set bab pos (some n)) rest (suc pos) s
    → Renewed bai bab ((i, j) ∷ rest) pos s
after_one i j rest pos bai bab bai1 n b t s le w = record {
  still_valid = w.still_valid;
  still_none_prepared = w.still_none_prepared;
  renews_np = w.renews_np ∙ t.ends.1.same_np;
  live_stays = λ j' off l. w.live_stays j' off (Took-IsLive bai bai1 i j n b t j' off l);
  before_stays = λ c h k lt a.
      w.before_stays c h k (omega arith)
        (Took-ActiveAt bai bai1 i j n b t bab pos c h k (λ (e : k ≡ pos). omega arith) a);
  all_active = all;
  pointer_stays = λ k lt.
      w.pointer_stays k (omega arith)
      ∙ get_elem?-set_ne bab pos k (some n) (λ (e : pos ≡ k). omega arith);
  used_stays = λ j' c at used. w.used_stays j' c (block_stays bai bai1 i j n b t j' c at used) used;
  all_fresh = fresh;
}
  where
    fresh :
        s.2 ≡ 0
        → (k c h : ℕ) → get_elem? ((i, j) ∷ rest) k ≡ some (c, h)
        → FreshAt bai s.0 s.1 c h (pos + k)
    fresh ret zero c h g =
        let e : (i, j) ≡ (c, h) = some-inj g in
        subst (λ (x : ℕ × ℕ). FreshAt bai s.0 s.1 x.0 x.1 (pos + 0)) e
          (subst (λ x. FreshAt bai s.0 s.1 i j x) (omega arith)
            (record {
              fresh_index = n;
              fresh_block = b;
              fresh_pointer =
                  w.pointer_stays pos (omega arith)
                  ∙ get_elem?-set_self bab pos (some n) (omega arith);
              was_there = t.was_there;
              was_free = t.was_free;
              fresh_channel = t.at_channel;
              fresh_chip = t.at_chip;
              now_clean =
                  w.used_stays n (record b { status = clean })
                    (rw t.ends.1.new_blocks
                      (get_elem?-set_self bai.blocks n _ (get_elem?-lt bai.blocks n t.was_there)))
                    (inl refl);
            }))
    fresh ret (suc k) c h g =
        let f = w.all_fresh ret k c h g in
        subst (λ x. FreshAt bai s.0 s.1 c h x) (omega arith)
          (record {
            fresh_index = f.fresh_index;
            fresh_block = f.fresh_block;
            fresh_pointer = f.fresh_pointer;
            was_there =
                free_before bai bai1 i j n b t f.fresh_index f.fresh_block f.was_there f.was_free;
            was_free = f.was_free;
            fresh_channel = f.fresh_channel;
            fresh_chip = f.fresh_chip;
            now_clean = f.now_clean;
          })

    all :
        s.2 ≡ 0
        → (k c h : ℕ) → get_elem? ((i, j) ∷ rest) k ≡ some (c, h)
        → ActiveAt s.0 s.1 c h (pos + k)
    all ret zero c h g =
        let new = Took-ActiveAt_new bai bai1 i j n b t bab pos (omega arith) in
        let here = w.before_stays i j pos (omega arith) new in
        let e : (i, j) ≡ (c, h) = some-inj g in
        subst (λ (x : ℕ × ℕ). ActiveAt s.0 s.1 x.0 x.1 (pos + 0)) e
          (subst (λ x. ActiveAt s.0 s.1 i j x) (omega arith) here)
    all ret (suc k) c h g =
        subst (λ x. ActiveAt s.0 s.1 c h x) (omega arith) (w.all_active ret k c h g)

pub get_active_blocks-Renewed :
    (ps : List (ℕ × ℕ)) (pos : ℕ) (bai : Abm) (bab : List (Option ℕ))
    → IsValid bai
    → NonePrepared bai
    → pos + length ps ≤ length bab
    → Returns (Renewed bai bab ps pos) (get_active_blocks ps pos bai bab)
unfolding get_active_blocks
get_active_blocks-Renewed [] pos bai bab ok z le = record {
  still_valid = ok;
  still_none_prepared = z;
  renews_np = refl;
  live_stays = λ j off l. l;
  before_stays = λ c h k lt a. a;
  all_active = λ e k c h g. absurd (none-ne-some g);
  pointer_stays = λ k lt. refl;
  used_stays = λ j c at used. at;
  all_fresh = λ e k c h g. absurd (none-ne-some g);
}
get_active_blocks-Renewed ((i, j) ∷ rest) pos bai bab ok z le =
    Returns-bind _ (Renewed bai bab ((i, j) ∷ rest) pos) (take_free_block i j bai) _
      (take_free_block-Taking bai ok i j z)
      λ r eq t. elim t [
        | empty e same ↦
            rw
              (
                ap (λ (x : Abm × Option ℕ). x.1) same,
                ap (λ (x : Abm × Option ℕ). x.0) same,
                ap (λ (x : Abm × Option ℕ). x.1) same,
              )
              (record {
                still_valid = ok;
                still_none_prepared = z;
                renews_np = refl;
                live_stays = λ j' off l. l;
                before_stays = λ c h k lt a. record {
                  index = a.index;
                  block = a.block;
                  pointer = get_elem?-set_ne bab pos k none (λ p. omega arith) ∙ a.pointer;
                  block_there = a.block_there;
                  on_channel = a.on_channel;
                  on_chip = a.on_chip;
                  in_use = a.in_use;
                };
                all_active = λ p. absurd (omega arith);
                pointer_stays = λ k lt. get_elem?-set_ne bab pos k none (λ p. omega arith);
                used_stays = λ j' c at used. at;
                all_fresh = λ p. absurd (omega arith);
              })
        | took n b is_n t' ↦
            rw (is_n, is_n)
              (Returns-mono _ (Renewed bai bab ((i, j) ∷ rest) pos)
                (get_active_blocks rest (suc pos) r.0 (set bab pos (some n)))
                (λ s eq' w. after_one i j rest pos bai bab r.0 n b t' s le w)
                (get_active_blocks-Renewed rest (suc pos) r.0 (set bab pos (some n)) t'.ends.0
                  t'.none_prepared (rw length-set (omega arith))))
      ]
