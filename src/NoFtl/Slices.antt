-- ===== src/NoFtl/Slices.antt =====
-- The parts that ftl/algo/no_ftl.c cuts an address into, on a device whose sizes are powers of two.
use native.Mathlib.Nat.{
  mod-lt, mod-eq_of_lt, one-le-pow, pow-le-pow_right, div-add-mod', div-div-eq-div-mul,
  div-lt_iff_lt-mul,
}
use Prim.Native.Nat.{bit_and}
use h4h.Base.{ℕ, ◌+◌, ◌-◌, ◌*◌, ◌/◌, ◌%◌, ◌^◌, ◌<◌, ◌≤◌, ◌≡◌, refl, sym, ap, ◌∙◌, arith, dec64}
use h4h.Base.Bits.{bit_and_low}
use h4h.Request.Align.{two_pow_add}
use h4h.Params.{DeviceParams}
use h4h.PageFtl.{get_punit_id}
use h4h.NoFtl.{slice, no_ftl_get_ppa}

-- The sizes of the device are powers of two, as the masks of the code need them.
pub record IsPowers (np : DeviceParams) (a b c d : ℕ) : Type 0 where
  pub channels : np.nr_channels ≡ 2 ^ a
  pub chips : np.nr_chips_per_channel ≡ 2 ^ b
  pub blocks : np.nr_blocks_per_chip ≡ 2 ^ c
  pub pages : np.nr_pages_per_block ≡ 2 ^ d
  pub small : a + b + c + d ≤ 63

mask-eq : (k : ℕ) → k ≤ 63 → dec64 (2 ^ k) ≡ 2 ^ k - 1
mask-eq k h =
    let one : 1 ≤ 2 ^ k = one-le-pow k 2 (omega arith) in
    let top : 2 ^ k ≤ 2 ^ 63 = pow-le-pow_right (omega arith) {i = k} {j = 63} h in omega arith

slice-eq : (lpa s k : ℕ) → k ≤ 63 → slice lpa s (2 ^ k) ≡ (lpa / 2 ^ s) % 2 ^ k
slice-eq lpa s k h = rw (mask-eq k h) (bit_and_low k (lpa / 2 ^ s))

-- The places of an address, by rows: the mixed-radix number of the four parts
pub record Places (np : DeviceParams) (lpa channel chip block page : ℕ) : Type 0 where
  pub channel_in : channel < np.nr_channels
  pub chip_in : chip < np.nr_chips_per_channel
  pub block_in : block < np.nr_blocks_per_chip
  pub page_in : page < np.nr_pages_per_block
  pub whole :
      ((channel * np.nr_chips_per_channel + chip) * np.nr_blocks_per_chip + block)
          * np.nr_pages_per_block
        + page
      ≡ lpa

divided : (lpa s k : ℕ) → lpa / 2 ^ (s + k) ≡ lpa / 2 ^ s / 2 ^ k
divided lpa s k = rw (← two_pow_add s k) (sym (div-div-eq-div-mul lpa (2 ^ s) (2 ^ k)))

module _ (ilog2 : ℕ → ℕ) (log : (k : ℕ) → ilog2 (2 ^ k) ≡ k) (np : DeviceParams) (a b c d : ℕ)
    (p : IsPowers np a b c d) (lpa : ℕ) where
  abbrev rest : ℕ
  rest = lpa / 2 ^ d

  abbrev rest' : ℕ
  rest' = rest / 2 ^ c

  log_pages : ilog2 np.nr_pages_per_block ≡ d
  log_pages = ap ilog2 p.pages ∙ log d

  log_blocks : ilog2 np.nr_blocks_per_chip ≡ c
  log_blocks = ap ilog2 p.blocks ∙ log c

  log_chips : ilog2 np.nr_chips_per_channel ≡ b
  log_chips = ap ilog2 p.chips ∙ log b

  page-eq : bit_and lpa (dec64 np.nr_pages_per_block) ≡ lpa % 2 ^ d
  page-eq = rw (p.pages, mask-eq d (omega (arith, p.small))) (bit_and_low d lpa)

  block-eq : slice lpa (ilog2 np.nr_pages_per_block) np.nr_blocks_per_chip ≡ rest % 2 ^ c
  block-eq = rw (log_pages, p.blocks) (slice-eq lpa d c (omega (arith, p.small)))

  chip-eq :
      slice lpa (ilog2 np.nr_blocks_per_chip + ilog2 np.nr_pages_per_block) np.nr_chips_per_channel
      ≡ rest' % 2 ^ b
  chip-eq =
      let swap : c + d ≡ d + c = omega arith in
      rw (log_blocks, log_pages, p.chips)
        (slice-eq lpa (c + d) b (omega (arith, p.small))
          ∙ ap (λ x. x % 2 ^ b) (ap (λ x. lpa / 2 ^ x) swap ∙ divided lpa d c))

  module _
      (inside : lpa
        < np.nr_channels * np.nr_chips_per_channel * np.nr_blocks_per_chip
          * np.nr_pages_per_block) where
    chips_below : rest' < np.nr_channels * np.nr_chips_per_channel
    chips_below =
        let below : rest < np.nr_channels * np.nr_chips_per_channel * np.nr_blocks_per_chip =
          (div-lt_iff_lt-mul (one-le-pow d 2 (omega arith))).1 (rw (← p.pages) inside) in
        (div-lt_iff_lt-mul (one-le-pow c 2 (omega arith))).1 (rw (← p.blocks) below)

    channels_below : rest' / 2 ^ b < 2 ^ a
    channels_below =
        (div-lt_iff_lt-mul (one-le-pow b 2 (omega arith))).1
          (rw (← p.chips, ← p.channels) chips_below)

    channel-eq :
        slice lpa
          (ilog2 np.nr_chips_per_channel
            + ilog2 np.nr_blocks_per_chip
            + ilog2 np.nr_pages_per_block)
          np.nr_channels
        ≡ rest' / 2 ^ b
    channel-eq =
        let swap : b + c + d ≡ d + c + b = omega arith in
        let depth : lpa / 2 ^ (b + c + d) ≡ rest' / 2 ^ b =
          ap (λ x. lpa / 2 ^ x) swap
          ∙ divided lpa (d + c) b
          ∙ ap (λ x. x / 2 ^ b) (divided lpa d c) in
        rw (log_chips, log_blocks, log_pages, p.channels)
          (slice-eq lpa (b + c + d) a (omega (arith, p.small))
            ∙ ap (λ x. x % 2 ^ a) depth
            ∙ mod-eq_of_lt channels_below)

    parts-Places : Places np lpa (rest' / 2 ^ b) (rest' % 2 ^ b) (rest % 2 ^ c) (lpa % 2 ^ d)
    parts-Places = record {
      channel_in = rw p.channels channels_below;
      chip_in = rw p.chips (mod-lt rest' (one-le-pow b 2 (omega arith)));
      block_in = rw p.blocks (mod-lt rest (one-le-pow c 2 (omega arith)));
      page_in = rw p.pages (mod-lt lpa (one-le-pow d 2 (omega arith)));
      whole =
          rw
            (
              p.chips,
              p.blocks,
              p.pages,
              div-add-mod' rest' (2 ^ b),
              div-add-mod' rest (2 ^ c),
              div-add-mod' lpa (2 ^ d),
            )
            refl;
    }

    unit_fits : rest' / 2 ^ b * np.nr_chips_per_channel + rest' % 2 ^ b < 2 ^ 64
    unit_fits =
        let top : 2 ^ (a + b) ≤ 2 ^ 63 =
          pow-le-pow_right (omega arith) {i = a + b} {j = 63} (omega (arith, p.small)) in
        let below : rest' < 2 ^ (a + b) =
          rw (← two_pow_add a b, ← p.channels, ← p.chips) chips_below in
        rw (p.chips, div-add-mod' rest' (2 ^ b)) (omega (arith, below, top))

-- h4h_no_ftl_get_ppa on a device whose four sizes are powers of two with a product of at most 2^63, with
-- an ilog2 that is exact on powers of two: each part of the physical address of a logical address inside
-- the device is below its size, the logical address is found again from the parts, which are its digits
-- to the base of the four sizes, and punit_id is the number of the chip.
pub no_ftl_get_ppa-Places :
    (ilog2 : ℕ → ℕ) (np : DeviceParams) (a b c d lpa : ℕ)
    → ((k : ℕ) → ilog2 (2 ^ k) ≡ k)
    → IsPowers np a b c d
    → lpa < np.nr_channels * np.nr_chips_per_channel * np.nr_blocks_per_chip * np.nr_pages_per_block
    → (let ppa = (no_ftl_get_ppa ilog2 np lpa).0 in
        Places np lpa ppa.channel_no ppa.chip_no ppa.block_no ppa.page_no
        × (ppa.punit_id ≡ ppa.channel_no * np.nr_chips_per_channel + ppa.chip_no))
unfolding no_ftl_get_ppa get_punit_id
no_ftl_get_ppa-Places ilog2 np a b c d lpa log p inside =
    rw
      (
        channel-eq ilog2 log np a b c d p lpa inside,
        chip-eq ilog2 log np a b c d p lpa,
        block-eq ilog2 log np a b c d p lpa,
        page-eq ilog2 log np a b c d p lpa,
      )
      (
        parts-Places ilog2 log np a b c d p lpa inside,
        mod-eq_of_lt (unit_fits ilog2 log np a b c d p lpa inside),
      )
