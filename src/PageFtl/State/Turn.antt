-- ===== src/PageFtl/State/Turn.antt =====
-- The parallel units of ftl/algo/page_ftl.c, in the order in which they get their active blocks.
use h4h.Base.{
  ℕ, zero, suc, ◌+◌, ◌*◌, ◌^◌, ◌<◌, ◌≡◌, refl, ap, subst, ◌∙◌, List, [], ◌∷◌, ◌++◌, Option, some,
  arith, get_elem?, replicate, length, length-append, some-inj,
}
use h4h.Params.{DeviceParams, IsGeometry}
use h4h.Abm.{Abm}
use h4h.Abm.Geometry.{blocks_small, le-mul_left}
use h4h.PageFtl.{chips_from, punits_from, punits}
use h4h.PageFtl.State.{IsActive, ActiveAt}
use h4h.PageFtl.State.Alloc.{Renewed}
use h4h.PageFtl.State.Fresh.{FreshAt}

length-chips_from : (i j n : ℕ) → length (chips_from i j n) ≡ n
unfolding chips_from
length-chips_from i j zero = refl
length-chips_from i j (suc n) = ap suc (length-chips_from i (suc j) n)

get-chips_from : (i j n k : ℕ) → k < n → get_elem? (chips_from i j n) k ≡ some (i, j + k)
unfolding chips_from
get-chips_from i j zero k lt = absurd (omega arith)
get-chips_from i j (suc n) zero lt = ap (λ x. some (i, x)) (omega arith)
get-chips_from i j (suc n) (suc k) lt =
    get-chips_from i (suc j) n k (omega arith) ∙ ap (λ x. some (i, x)) (omega arith)

get-append_left :
    {A : Type 0} (xs ys : List A) (k : ℕ) → k < length xs → get_elem? (xs ++ ys) k ≡ get_elem? xs k
get-append_left [] ys k lt = absurd (omega arith)
get-append_left (x ∷ xs) ys zero lt = refl
get-append_left (x ∷ xs) ys (suc k) lt = get-append_left xs ys k (omega arith)

get-append_right :
    {A : Type 0} (xs ys : List A) (k : ℕ) → get_elem? (xs ++ ys) (length xs + k) ≡ get_elem? ys k
get-append_right [] ys k = let e : 0 + k ≡ k = omega arith in rw e refl
get-append_right (x ∷ xs) ys k =
    let e : suc (length xs) + k ≡ suc (length xs + k) = omega arith in
    rw e (get-append_right xs ys k)

length-punits_from : (m i n : ℕ) → length (punits_from m i n) ≡ n * m
unfolding punits_from
length-punits_from m i zero = omega arith
length-punits_from m i (suc n) = omega (
  arith,
  length-append (chips_from i 0 m) (punits_from m (suc i) n),
  length-chips_from i 0 m,
  length-punits_from m (suc i) n,
)

-- Chip `h` of channel `c` stands at `c * m + h`.
get-punits_from :
    (m i n c h : ℕ) → c < n → h < m → get_elem? (punits_from m i n) (c * m + h) ≡ some (i + c, h)
unfolding punits_from
get-punits_from m i zero c h lc lh = absurd (omega arith)
get-punits_from m i (suc n) zero h lc lh =
    let e : 0 * m + h ≡ h = omega arith in
    let e' : (i, 0 + h) ≡ (i + 0, h) =
      let p : 0 + h ≡ h = omega arith in
      let q : i ≡ i + 0 = omega arith in ap (λ (x : ℕ). (i, x)) p ∙ ap (λ (x : ℕ). (x, h)) q in
    rw e (
      get-append_left (chips_from i 0 m) (punits_from m (suc i) n) h (rw length-chips_from lh)
      ∙ get-chips_from i 0 m h lh
      ∙ ap (λ (x : ℕ × ℕ). some x) e')
get-punits_from m i (suc n) (suc c) h lc lh =
    let e : suc c * m + h ≡ length (chips_from i 0 m) + (c * m + h) =
      rw length-chips_from (omega arith) in
    rw e (
      get-append_right (chips_from i 0 m) (punits_from m (suc i) n) (c * m + h)
      ∙ get-punits_from m (suc i) n c h (omega arith) lh
      ∙ ap (λ x. some (x, h)) (omega arith))

pub get-replicate :
    {A : Type 0} (n : ℕ) (a b : A) (i : ℕ) → get_elem? (replicate n a) i ≡ some b → a ≡ b
get-replicate zero a b i h = ground arith
get-replicate (suc n) a b zero h = some-inj h
get-replicate (suc n) a b (suc i) h = get-replicate n a b i h

module _ (np : DeviceParams) (g : IsGeometry np) where
  pub punits_small : np.nr_channels * np.nr_chips_per_channel < 2 ^ 64
  punits_small =
      let a =
        le-mul_left np.nr_blocks_per_chip (np.nr_channels * np.nr_chips_per_channel) g.blocks_pos in
      let assoc : np.nr_channels * (np.nr_chips_per_channel * np.nr_blocks_per_chip)
          ≡ np.nr_channels * np.nr_chips_per_channel * np.nr_blocks_per_chip =
        omega arith in
      let total : np.nr_blocks_per_ssd
          ≡ np.nr_channels * np.nr_chips_per_channel * np.nr_blocks_per_chip =
        rw (g.per_ssd, g.per_channel) assoc in
      omega (arith, a, total, blocks_small np g)

  pub punits_pos : 0 < np.nr_channels * np.nr_chips_per_channel
  punits_pos =
      omega (arith, le-mul_left np.nr_chips_per_channel np.nr_channels g.chips_pos, g.channels_pos)

  pub length-punits : length (punits np) ≡ np.nr_channels * np.nr_chips_per_channel
  unfolding punits
  length-punits = length-punits_from np.nr_chips_per_channel 0 np.nr_channels

  -- With every pair of the loop served, each parallel unit has its active block.
  pub Renewed-IsActive :
      (bai : Abm) (bab : List (Option ℕ)) (r : Abm × List (Option ℕ) × ℕ)
      → Renewed bai bab (punits np) 0 r
      → r.2 ≡ 0
      → IsActive np r.0 r.1
  unfolding punits
  Renewed-IsActive bai bab r w ok c h hc hh =
      let m = np.nr_chips_per_channel in
      let e : 0 + c ≡ c = omega arith in
      let at : get_elem? (punits_from m 0 np.nr_channels) (c * m + h) ≡ some (c, h) =
        get-punits_from m 0 np.nr_channels c h hc hh ∙ ap (λ x. some (x, h)) e in
      subst (λ k. ActiveAt r.0 r.1 c h k) (omega arith) (w.all_active ok (c * m + h) c h at)

  -- And each of them was free before.
  pub Renewed-FreshAt :
      (bai : Abm) (bab : List (Option ℕ)) (r : Abm × List (Option ℕ) × ℕ)
      → Renewed bai bab (punits np) 0 r
      → r.2 ≡ 0
      → (c h : ℕ) → c < np.nr_channels
      → h < np.nr_chips_per_channel
      → FreshAt bai r.0 r.1 c h (c * np.nr_chips_per_channel + h)
  unfolding punits
  Renewed-FreshAt bai bab r w ok c h hc hh =
      let m = np.nr_chips_per_channel in
      let e : 0 + c ≡ c = omega arith in
      let at : get_elem? (punits_from m 0 np.nr_channels) (c * m + h) ≡ some (c, h) =
        get-punits_from m 0 np.nr_channels c h hc hh ∙ ap (λ x. some (x, h)) e in
      subst (λ k. FreshAt bai r.0 r.1 c h k) (omega arith) (w.all_fresh ok (c * m + h) c h at)
