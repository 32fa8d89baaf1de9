-- ===== src/PageFtl/Victim.antt =====
-- When ftl/algo/page_ftl.c collects garbage, which block it takes, and how many pages a request gets.
use native.Mathlib.Nat.{mod-eq_of_lt, div-lt_iff_lt-mul}
use h4h.Base.{
  ℕ, ◌+◌, ◌*◌, ◌%◌, ◌^◌, ◌<◌, ◌≤◌, ◌≡◌, ◌≢◌, ◌↔◌, inl, inr, sym, subst, ◌∙◌, true, false,
  Bool-cases, List, [], ◌∷◌, ◌++◌, All, All-mono, ap, refl, Option, none, some, arith, get_elem?,
  get_elem?_of_lt, length, count, count_p-le-length, some-inj, none-ne-some, Returns, ==_refl,
}
use h4h.Params.{DeviceParams, IsGeometry}
use native.Mathlib.Decide.{dec_lt}
use h4h.Abm.{Abm, Block, free, dirty, head_dirty, is_status}
use h4h.Abm.Geometry.{le-mul_left, index_lt}
use h4h.PageFtl.State.{IsFtl}
use h4h.PageFtl.State.Turn.{punits_small}
use h4h.Abm.Valid.{IsValid}
use h4h.PageFtl.{PageFtl}
use h4h.PageFtl.Ops.{take_pages, is_gc_needed, same_ptr, victim_loop, victim_selection}

-- h4h_page_ftl_get_free_ppas, for an active block with `offset` pages given out, on a device with fewer
-- than 2^16 pages to a block: the pages it gives follow each other and fit the block, they are at most
-- as many as were asked for, and they are fewer only if they fill the block.
pub take_pages_fit :
    (np : DeviceParams) (b : Block) (size : ℕ)
    → b.offset ≤ np.nr_pages_per_block
    → np.nr_pages_per_block < 2 ^ 16
    → size < 2 ^ 32
    → let (offset, given) = take_pages np b size in
      (offset ≡ b.offset + given)
      × (offset ≤ np.nr_pages_per_block)
      × (given ≤ size)
      × (given < size → offset ≡ np.nr_pages_per_block)
unfolding take_pages
take_pages_fit np b size le small size_small = ground arith

module _ (bai : Abm) (ok : IsValid bai) where
  free-le-total : bai.nr_free_blks ≤ bai.nr_total_blks
  free-le-total = omega (
    arith,
    ok.counted.counts_free,
    ok.counted.total,
    count_p-le-length (λ (c : Block). is_status c.status free) bai.blocks,
  )

  total_pos : 0 < bai.nr_total_blks
  total_pos =
      let g = ok.geometry in
      omega (
        arith,
        ok.counted.total,
        ok.sized,
        g.per_ssd,
        g.per_channel,
        le-mul_left bai.np.nr_channels bai.np.nr_blocks_per_channel g.channels_pos,
        le-mul_left bai.np.nr_chips_per_channel bai.np.nr_blocks_per_chip g.chips_pos,
        g.blocks_pos,
      )

-- h4h_page_ftl_is_gc_needed on a valid state of fewer than 2^50 blocks: collection is needed exactly
-- when less than three in a hundred of the blocks are free.
pub is_gc_needed_iff :
    (p : PageFtl)
    → IsValid p.bai
    → p.bai.nr_total_blks < 2 ^ 50
    → (is_gc_needed p ≡ true) ↔ (p.bai.nr_free_blks * 100 < 3 * p.bai.nr_total_blks)
unfolding is_gc_needed
is_gc_needed_iff p ok small =
    let le = free-le-total p.bai ok in
    let pos = total_pos p.bai ok in
    let exact = mod-eq_of_lt {n = p.bai.nr_free_blks * 100} {m = 2 ^ 64} (omega arith) in
    let law =
      div-lt_iff_lt-mul {k = p.bai.nr_total_blks} {x = p.bai.nr_free_blks * 100} {y = 3} pos in
    rw exact ((λ e. law.0 (ground arith)), (λ h. let q = law.1 h in ground arith))

same_ptr-none : (a : Option ℕ) (i : ℕ) → same_ptr a i ≡ false → a ≢ some i
same_ptr-none none i h e = none-ne-some e
same_ptr-none (some j) i h e = let p = some-inj e in ground arith

-- The chosen block is in the list and is not the active one.
victim_in :
    (a : Option ℕ) (xs : List ℕ) (v : ℕ)
    → victim_loop a xs ≡ some v
    → (0 < count v xs) × (a ≢ some v)
unfolding victim_loop
victim_in a [] v e = absurd (none-ne-some e)
victim_in a (x ∷ xs) v e = elim (Bool-cases (same_ptr a x)) [
  | inl skip ↦
      let later : victim_loop a xs ≡ some v = rw skip at e in
      let ih = victim_in a xs v later in (omega (arith, ih.0), ih.1)
  | inr keep ↦
      let here : some x ≡ some v = rw keep at e in
      let one : x ≡ v = some-inj here in
      (rw (one, ==_refl v) (omega arith), subst (λ y. a ≢ some y) one (same_ptr-none a x keep))
]

-- What the loop gives: the first entry that is not the active block, or nothing if there is none.
data FirstOther (a : Option ℕ) (xs : List ℕ) (o : Option ℕ) : Type 0 where
  no_other : All (λ x. a ≡ some x) xs → o ≡ none → FirstOther a xs o
  first_other :
      (v : ℕ) (before after : List ℕ)
      → o ≡ some v
      → xs ≡ before ++ v ∷ after
      → All (λ x. a ≡ some x) before
      → FirstOther a xs o

same_ptr-some : (a : Option ℕ) (i : ℕ) → same_ptr a i ≡ true → a ≡ some i
same_ptr-some none i h = ground arith
same_ptr-some (some j) i h = ground arith

victim_loop-FirstOther : (a : Option ℕ) (xs : List ℕ) → FirstOther a xs (victim_loop a xs)
unfolding victim_loop
victim_loop-FirstOther a [] = no_other tt refl
victim_loop-FirstOther a (x ∷ xs) = elim (Bool-cases (same_ptr a x)) [
  | inr keep ↦ rw keep (first_other x [] xs refl refl tt)
  | inl skip ↦
      let here = same_ptr-some a x skip in
      rw skip (elim (victim_loop-FirstOther a xs) [
        | no_other all e ↦ no_other (here, all) e
        | first_other v before after e split all ↦
            first_other v (x ∷ before) after e (ap (λ ys. x ∷ ys) split) (here, all)
      ])
]

-- A dirty block of the chip that is not the active one
pub record IsVictim (p : PageFtl) (channel chip v : ℕ) : Type 0 where
  pub block : Block
  pub block_there : get_elem? p.bai.blocks v ≡ some block
  pub is_dirty : block.status ≡ dirty
  pub on_channel : block.channel_no ≡ channel
  pub on_chip : block.chip_no ≡ chip
  pub not_active : get_elem? p.ac_bab (channel * p.np.nr_chips_per_channel + chip) ≢ some (some v)

module _ (p : PageFtl) (ok : IsFtl p) (channel chip : ℕ) (hc : channel < p.np.nr_channels)
    (hh : chip < p.np.nr_chips_per_channel) where
  IsVictim-at :
      (v : ℕ)
      → 0 < count v (p.bai.lists head_dirty channel chip)
      → get_elem? p.ac_bab (channel * p.np.nr_chips_per_channel + chip) ≢ some (some v)
      → IsVictim p channel chip v
  IsVictim-at v listed ne =
      let inside : v < length p.bai.blocks = elim (dec_lt v (length p.bai.blocks)) [
        | yes y ↦ y
        | no n ↦
            absurd (omega (arith, ok.abm.listed.no_other v head_dirty channel chip (omega arith)))
      ] in
      let (b, at) = get_elem?_of_lt p.bai.blocks v inside in
      let place_of = ok.abm.listed.placed v b at head_dirty channel chip in
      record {
        block = b;
        block_there = at;
        is_dirty = ground arith;
        on_channel = ground arith;
        on_chip = ground arith;
        not_active = ne;
      }

  pointer_of :
      (a : Option ℕ) × (get_elem? p.ac_bab (channel * p.np.nr_chips_per_channel + chip) ≡ some a)
  pointer_of = let act = ok.active channel chip hc hh in (some act.index, act.pointer)

  unit_exact :
      (channel * p.np.nr_chips_per_channel + chip) % 2 ^ 64
      ≡ channel * p.np.nr_chips_per_channel + chip
  unit_exact = mod-eq_of_lt (
      omega (
        arith,
        index_lt p.np.nr_chips_per_channel channel chip p.np.nr_channels hc hh,
        punits_small p.np (subst IsGeometry ok.same_np ok.abm.geometry),
      ))

  -- Which block is selected: the first of the dirty list that is not the active block, or NULL if the list
  -- has none.
  pub data Selected (o : Option ℕ) : Type 0 where
    nothing_to_take :
        o ≡ none
        → All
            (λ x. get_elem? p.ac_bab (channel * p.np.nr_chips_per_channel + chip) ≡ some (some x))
            (p.bai.lists head_dirty channel chip)
        → Selected o
    takes :
        (v : ℕ) (before after : List ℕ)
        → o ≡ some v
        → p.bai.lists head_dirty channel chip ≡ before ++ v ∷ after
        → All
            (λ x. get_elem? p.ac_bab (channel * p.np.nr_chips_per_channel + chip) ≡ some (some x))
            before
        → IsVictim p channel chip v
        → Selected o

  -- __h4h_page_ftl_victim_selection on a state that satisfies the invariant, for a chip of the device:
  -- it runs through, and returns the first block of the dirty list of that chip that is not the active
  -- one, which is a dirty block of that chip, or NULL if the list holds no block but the active one.
  pub victim_selection-Selected : Returns Selected (victim_selection channel chip p)
  unfolding victim_selection
  victim_selection-Selected =
      let (a, at) = pointer_of in
      rw (unit_exact, at)
        (elim (victim_loop-FirstOther a (p.bai.lists head_dirty channel chip)) [
          | no_other all e ↦ nothing_to_take e (
              All-mono _ _ (p.bai.lists head_dirty channel chip) (λ x q. at ∙ ap (λ y. some y) q)
                all)
          | first_other v before after e split all ↦
              let (h, ne) = victim_in a (p.bai.lists head_dirty channel chip) v e in
              takes v before after e split
                (All-mono _ _ before (λ x q. at ∙ ap (λ y. some y) q) all)
                (IsVictim-at v h (λ q. ne (some-inj (sym at ∙ q))))
        ])
