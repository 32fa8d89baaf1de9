-- ===== src/Abm/Geometry.antt =====
-- How abm.c numbers blocks: the index of a block and its channel, chip and block numbers.
use native.Mathlib.Nat.{
  mod-eq_of_lt, div-add-mod', mod-lt, mul-add-mod_self_right, add_assoc, mul_assoc,
}
use h4h.Base.{ℕ, ◌+◌, ◌*◌, ◌/◌, ◌%◌, ◌^◌, ◌<◌, ◌≤◌, ◌≡◌, ap, ◌∙◌, sym, arith}
use h4h.Params.{DeviceParams, IsGeometry}
use h4h.Abm.{get_channel_ofs, get_chip_ofs, get_block_ofs, get_block_idx}

-- Division undoes a product with a small remainder.
div-mul-add : (m q r : ℕ) → r < m → (q * m + r) / m ≡ q
div-mul-add m q r h = grind arith

mod-mul-add : (m q r : ℕ) → r < m → (q * m + r) % m ≡ r
mod-mul-add m q r h = grind arith

pub index_lt : (m q r n : ℕ) → q < n → r < m → q * m + r < n * m
index_lt m q r n h k = grind arith

div_lt : (m i n : ℕ) → i < n * m → i / m < n
div_lt m i n h = grind arith

pub le-mul_left : (a b : ℕ) → 0 < a → b ≤ a * b
le-mul_left a b h = grind arith

-- The address of a block stands inside the device.
abbrev pub IsBlockAddr : DeviceParams → ℕ → ℕ → ℕ → Type 0
IsBlockAddr np channel chip block =
    (channel < np.nr_channels) × (chip < np.nr_chips_per_channel) × (block < np.nr_blocks_per_chip)

module _ (np : DeviceParams) (g : IsGeometry np) where
  open np use {
    nr_channels, nr_chips_per_channel, nr_blocks_per_chip, nr_blocks_per_channel, nr_blocks_per_ssd,
    nr_pages_per_block, nr_subpages_per_page,
  }

  -- Block numbers fit 64 bits.
  pub blocks_small : nr_blocks_per_ssd < 2 ^ 64
  blocks_small = grind (
    arith,
    g.sub_ssd,
    g.pages_per_ssd,
    g.ssd_small,
    le-mul_left nr_subpages_per_page (nr_pages_per_block * nr_blocks_per_ssd) g.subpages_pos,
    le-mul_left nr_pages_per_block nr_blocks_per_ssd g.pages_pos,
  )

  pub channel_blocks_pos : 0 < nr_blocks_per_channel
  channel_blocks_pos = omega (
    arith,
    g.per_channel,
    le-mul_left nr_chips_per_channel nr_blocks_per_chip g.chips_pos,
    g.blocks_pos,
  )

  pub block_subpages_pos : 0 < np.nr_subpages_per_block
  block_subpages_pos = omega (
    arith,
    g.sub_block,
    le-mul_left nr_subpages_per_page nr_pages_per_block g.subpages_pos,
    g.pages_pos,
  )

  in_chip :
      (chip block : ℕ)
      → chip < nr_chips_per_channel
      → block < nr_blocks_per_chip
      → chip * nr_blocks_per_chip + block < nr_blocks_per_channel
  in_chip chip block h k =
      rw g.per_channel (index_lt nr_blocks_per_chip chip block nr_chips_per_channel h k)

  -- The sum that gives the index does not wrap.
  exact :
      (channel chip block : ℕ)
      → IsBlockAddr np channel chip block
      → get_block_idx np channel chip block
        ≡ channel * nr_blocks_per_channel + (chip * nr_blocks_per_chip + block)
  unfolding get_block_idx
  exact channel chip block (hc, hk, hb) =
      let inside = in_chip chip block hk hb in
      let below =
        index_lt nr_blocks_per_channel channel (chip * nr_blocks_per_chip + block) nr_channels hc
          inside in
      ap (λ (n : ℕ). n % 2 ^ 64) (add_assoc _ _ _)
      ∙ mod-eq_of_lt (omega (arith, below, g.per_ssd, blocks_small))

  -- Whole channels do not change the number of a block in its chip.
  same_rest :
      (channel rest : ℕ)
      → (channel * nr_blocks_per_channel + rest) % nr_blocks_per_chip ≡ rest % nr_blocks_per_chip
  same_rest channel rest = rw g.per_channel (
      ap (λ (n : ℕ). (n + rest) % nr_blocks_per_chip)
        (sym (mul_assoc channel nr_chips_per_channel nr_blocks_per_chip))
      ∙ mul-add-mod_self_right (channel * nr_chips_per_channel) nr_blocks_per_chip rest)

  -- An address inside the device has an index below the number of blocks, without wrap-around, and
  -- its numbers are found again from the index.
  pub get_block_idx_inverse :
      (channel chip block : ℕ)
      → IsBlockAddr np channel chip block
      → let i = get_block_idx np channel chip block in
        (i < nr_blocks_per_ssd)
        × (get_channel_ofs np i ≡ channel)
        × (get_chip_ofs np i ≡ chip)
        × (get_block_ofs np i ≡ block)
  unfolding get_block_idx get_channel_ofs get_chip_ofs get_block_ofs
  get_block_idx_inverse channel chip block (hc, hk, hb) =
      rw (exact channel chip block (hc, hk, hb)) (
        rw g.per_ssd (index_lt nr_blocks_per_channel channel rest nr_channels hc inside),
        div-mul-add nr_blocks_per_channel channel rest inside,
        rw (mod-mul-add nr_blocks_per_channel channel rest inside)
            (div-mul-add nr_blocks_per_chip chip block hb),
        same_rest channel rest ∙ mod-mul-add nr_blocks_per_chip chip block hb,
      )
    where
      rest : ℕ
      rest = chip * nr_blocks_per_chip + block

      inside : rest < nr_blocks_per_channel
      inside = in_chip chip block hk hb

  -- Every index below the number of blocks is the index of one address inside the device: the
  -- channel, chip and block numbers that are computed for it lie in range and lead back to it.
  pub get_block_idx_ofs :
      (i : ℕ)
      → i < nr_blocks_per_ssd
      → IsBlockAddr np (get_channel_ofs np i) (get_chip_ofs np i) (get_block_ofs np i)
        × (get_block_idx np (get_channel_ofs np i) (get_chip_ofs np i) (get_block_ofs np i) ≡ i)
  unfolding get_channel_ofs get_chip_ofs get_block_ofs
  get_block_idx_ofs i h = (addr, exact _ _ _ addr ∙ whole)
    where
      rest : ℕ
      rest = i % nr_blocks_per_channel

      inside : rest < nr_blocks_per_channel
      inside = mod-lt i channel_blocks_pos

      same : i % nr_blocks_per_chip ≡ rest % nr_blocks_per_chip
      same =
          ap (λ (n : ℕ). n % nr_blocks_per_chip) (sym (div-add-mod' i nr_blocks_per_channel))
          ∙ same_rest (i / nr_blocks_per_channel) rest

      addr :
          IsBlockAddr np
            (i / nr_blocks_per_channel)
            (rest / nr_blocks_per_chip)
            (i % nr_blocks_per_chip)
      addr = (
        div_lt nr_blocks_per_channel i nr_channels (rw (← g.per_ssd) h),
        div_lt nr_blocks_per_chip rest nr_chips_per_channel (rw (← g.per_channel) inside),
        mod-lt i g.blocks_pos,
      )

      whole :
          i / nr_blocks_per_channel * nr_blocks_per_channel
            + (rest / nr_blocks_per_chip * nr_blocks_per_chip + i % nr_blocks_per_chip)
          ≡ i
      whole =
          omega (
            arith,
            same,
            div-add-mod' rest nr_blocks_per_chip,
            div-add-mod' i nr_blocks_per_channel,
          )
