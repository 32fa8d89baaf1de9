-- ===== src/Params/Derived.antt =====
-- The derived sizes of a device are the products that their names promise.
use native.Mathlib.Nat.{mod-eq_of_lt}
use Prim.Native.Nat.add
use h4h.Base.{
  inl, inr, sym, ap, ◌∙◌, ◌==◌, ==_iff, none-ne-some, ℕ, ◌*◌, ◌<◌, ◌≤◌, ◌≡◌, ◌^◌, refl, subst, Bool,
  true, false, Bool-cases, some, some-inj, arith, mul64, ◌/◌,
}
use h4h.Params.{
  UserParams, DeviceParams, derive_params, get_default_device_params, IsGeometry, kernel_page_size,
  h4h_max_pages,
}

le-mul_pos : (a b : ℕ) → 0 < b → a ≤ a * b
le-mul_pos a b h = grind arith

mul-pos : (a b : ℕ) → 0 < a → 0 < b → 0 < a * b
mul-pos a b h k = grind arith

-- A product that stays small under a positive factor does not wrap.
mul64-eq : (a b c : ℕ) → 0 < c → a * b * c < 2 ^ 64 → mul64 a b ≡ a * b
mul64-eq a b c h fit = mod-eq_of_lt (omega (arith, le-mul_pos (a * b) c h))

-- The parameters are positive, and what they multiply to fits its word.
pub record Fits (u : UserParams) : Type 0 where
  pub channels : 0 < u.param_nr_channels
  pub chips : 0 < u.param_nr_chips_per_channel
  pub blocks : 0 < u.param_nr_blocks_per_chip
  pub pages : 0 < u.param_nr_pages_per_block
  pub bytes : 0 < u.param_page_main_size
  pub block_small : u.param_nr_pages_per_block < 2 ^ 32
  pub ssd_small :
      u.param_nr_channels * u.param_nr_chips_per_channel * u.param_nr_blocks_per_chip
        * u.param_nr_pages_per_block * u.param_page_main_size
      < 2 ^ 64

module _ (u : UserParams) (fits : Fits u) where
  open u use {
    param_nr_channels as c, param_nr_chips_per_channel as k, param_nr_blocks_per_chip as b,
    param_nr_pages_per_block as p, param_page_main_size as s,
  }

  chips-exact : mul64 c k ≡ c * k
  chips-exact =
      mul64-eq c k (b * p * s) (mul-pos (b * p) s (mul-pos b p fits.blocks fits.pages) fits.bytes)
        (omega (arith, fits.ssd_small))

  channel-exact : mul64 k b ≡ k * b
  channel-exact =
      mul64-eq k b (c * p * s) (mul-pos (c * p) s (mul-pos c p fits.channels fits.pages) fits.bytes)
        (omega (arith, fits.ssd_small))

  blocks-exact : mul64 (mul64 c k) b ≡ c * k * b
  blocks-exact = rw chips-exact (
      mul64-eq (c * k) b (p * s) (mul-pos p s fits.pages fits.bytes)
        (omega (arith, fits.ssd_small)))

  pages-exact : mul64 p (mul64 (mul64 c k) b) ≡ p * (c * k * b)
  pages-exact =
      rw blocks-exact (mul64-eq p (c * k * b) s fits.bytes (omega (arith, fits.ssd_small)))

  capacity-exact : mul64 (mul64 (mul64 (mul64 c k) b) p) s ≡ mul64 p (mul64 (mul64 c k) b) * s
  capacity-exact =
      rw (pages-exact, blocks-exact)
        (rw (mul64-eq (c * k * b) p s fits.bytes fits.ssd_small)
          (omega (arith, mod-eq_of_lt fits.ssd_small)))

  pages-small : p * (c * k * b) < 2 ^ 64
  pages-small = omega (arith, le-mul_pos (c * k * b * p) s fits.bytes, fits.ssd_small)

  derive_params-IsGeometry : IsGeometry (derive_params u 1)
  unfolding derive_params
  derive_params-IsGeometry = record {
    channels_pos = fits.channels;
    chips_pos = fits.chips;
    blocks_pos = fits.blocks;
    pages_pos = fits.pages;
    subpages_pos = omega arith;
    per_channel = channel-exact;
    per_ssd = rw (blocks-exact, channel-exact) (omega arith);
    chips_per_ssd = chips-exact;
    pages_per_ssd = rw (pages-exact, blocks-exact) refl;
    sub_block = omega (arith, fits.block_small);
    sub_ssd = rw pages-exact (omega (arith, pages-small));
    block_small = omega (arith, fits.block_small);
    ssd_small = omega arith;
  }

-- The sizes that a device reports are exact, and its capacity is what its pages hold.
abbrev pub IsSized : UserParams → DeviceParams → Type 0
IsSized u np =
    IsGeometry np
    × (np.device_capacity_in_byte ≡ np.nr_pages_per_ssd * u.param_page_main_size)
    × (np.nr_channels ≡ u.param_nr_channels)
    × (np.nr_chips_per_channel ≡ u.param_nr_chips_per_channel)
    × (np.nr_blocks_per_chip ≡ u.param_nr_blocks_per_chip)
    × (np.nr_pages_per_block ≡ u.param_nr_pages_per_block)
    × (np.page_main_size ≡ u.param_page_main_size)
    × (np.nr_subpages_per_page ≡ 1)

derive_params-IsSized : (u : UserParams) → Fits u → IsSized u (derive_params u 1)
unfolding derive_params
derive_params-IsSized u fits = (
  derive_params-IsGeometry u fits,
  rw add.zero (capacity-exact u fits),
  refl,
  refl,
  refl,
  refl,
  refl,
  refl,
)

-- Whenever the parameters are positive and fit their words, the device parameters that come back,
-- with or without USE_NEW_RMW, hold the numbers of channels, chips per channel, blocks per chip and
-- pages per block and the page size that they were given, with one subpage in a page, the exact
-- products of these numbers, without wrap-around, and a capacity in bytes that is the number of pages
-- times the page size.
pub get_default_device_params-IsSized :
    (rmw : Bool) (u : UserParams) {np : DeviceParams}
    → Fits u
    → get_default_device_params rmw u ≡ some np
    → IsSized u np
unfolding get_default_device_params
get_default_device_params-IsSized false u fits e =
    subst (IsSized u) (some-inj e) (derive_params-IsSized u fits)
get_default_device_params-IsSized true u fits e =
    elim (Bool-cases (u.param_page_main_size / kernel_page_size == h4h_max_pages)) [
      | inl one ↦
          subst (IsSized u)
            (ap (derive_params u) (sym ((==_iff _ _).0 one)) ∙ some-inj (rw one at e))
            (derive_params-IsSized u fits)
      | inr other ↦ absurd (none-ne-some (rw other at e))
    ]
