-- ===== src/Base/Bits.antt =====
-- `&` with a mask of low ones or of low zeros, as arithmetic.
use Prim.Native.Nat.{
  ℕ, zero, suc, ◌+◌, ◌-◌, ◌*◌, ◌/◌, ◌%◌, ◌^◌, ◌≤◌, ◌<◌, min, bit_and, digits, bit_and-bitwise,
}
use mathlib.Core.Path.{◌≡◌, refl, ap, ◌∙◌}
use native.Mathlib.Nat.{
  pow-suc, one-le-pow, div-add-mod, mod-lt, mod-eq_of_lt, mul-add-mod_self_right, mul_comm,
  mul_assoc, mul_left_comm, one-mul, div-one, div-div-eq-div-mul,
}
use native.Mathlib.Omega.{arith}

-- The digits of `a` end the recursion that `bit_and` stands for: more fuel changes nothing.
abbrev both_digits : ℕ → ℕ → ℕ → ℕ
both_digits = digits (λ b. zero) min

both_digits_enough : (m n a b : ℕ) → a ≤ m → a ≤ n → both_digits m a b ≡ both_digits n a b
both_digits_enough zero zero a b p q = refl
both_digits_enough zero (suc n) zero b p q = refl
both_digits_enough (suc m) zero zero b p q = refl
both_digits_enough (suc m) (suc n) zero b p q = refl
both_digits_enough zero n (suc a) b p q = absurd (omega arith)
both_digits_enough m zero (suc a) b p q = absurd (omega arith)
both_digits_enough (suc m) (suc n) (suc a) b p q =
    rw (both_digits_enough m n (suc a / 2) (b / 2) (omega arith) (omega arith))

-- The lowest digit, and the digits above it
bit_and_halves : (a b : ℕ) → bit_and a b ≡ 2 * bit_and (a / 2) (b / 2) + min (a % 2) (b % 2)
bit_and_halves zero b = omega (arith, bit_and-bitwise 0 b, bit_and-bitwise 0 (b / 2))
bit_and_halves (suc a) b = omega (
  arith,
  bit_and-bitwise (suc a) b,
  bit_and-bitwise (suc a / 2) (b / 2),
  both_digits_enough (suc a / 2) a (suc a / 2) (b / 2) (omega arith) (omega arith),
)

none_below : (n a : ℕ) → a ≤ n → bit_and a 0 ≡ 0
none_below n zero h = bit_and-bitwise 0 0
none_below zero (suc a) h = absurd (omega arith)
none_below (suc n) (suc a) h =
    omega (arith, bit_and_halves (suc a) 0, none_below n (suc a / 2) (omega arith))

-- The remainder by `2 * t`, from the lowest digit and the remainder of the half
mod_half : (a t : ℕ) → 0 < t → a % (2 * t) ≡ 2 * ((a / 2) % t) + a % 2
mod_half a t pos =
    let q = a / 2 / t in
    let r = (a / 2) % t in
    let split : t * q + r ≡ a / 2 = div-add-mod (a / 2) t in
    let small : r < t = mod-lt (a / 2) pos in
    let whole : a ≡ q * (2 * t) + (2 * r + a % 2) =
      omega (arith, split, mul_comm t q, mul_left_comm q 2 t) in
    ap (λ x. x % (2 * t)) whole
    ∙ mul-add-mod_self_right q (2 * t) (2 * r + a % 2)
    ∙ mod-eq_of_lt (omega arith)

-- `a & (2^k - 1)`
pub bit_and_low : (k a : ℕ) → bit_and a (2 ^ k - 1) ≡ a % 2 ^ k
bit_and_low zero a = omega (arith, none_below a a (omega arith))
bit_and_low (suc k) a =
    let one : 1 ≤ 2 ^ k = one-le-pow k 2 (omega arith) in
    let double : 2 ^ suc k ≡ 2 * 2 ^ k = omega (arith, pow-suc 2 k) in
    let half : (2 * 2 ^ k - 1) / 2 ≡ 2 ^ k - 1 = omega arith in
    let rest : bit_and (a / 2) ((2 * 2 ^ k - 1) / 2) ≡ (a / 2) % 2 ^ k =
      rw half (bit_and_low k (a / 2)) in
    rw (double, mod_half a (2 ^ k) one) (omega (arith, bit_and_halves a (2 * 2 ^ k - 1), rest))

-- `a & ~(2^k - 1)`, where the mask has `m` ones above the `k` zeros
pub bit_and_high : (k m a : ℕ) → bit_and a (2 ^ k * (2 ^ m - 1)) ≡ 2 ^ k * ((a / 2 ^ k) % 2 ^ m)
bit_and_high zero m a = rw (one-mul, div-one, one-mul) (bit_and_low m a)
bit_and_high (suc k) m a =
    let double : 2 ^ suc k ≡ 2 * 2 ^ k = omega (arith, pow-suc 2 k) in
    let mask = 2 ^ k * (2 ^ m - 1) in
    let half : (2 * mask) / 2 ≡ mask = omega arith in
    let rest : bit_and (a / 2) ((2 * mask) / 2) ≡ 2 ^ k * ((a / 2 / 2 ^ k) % 2 ^ m) =
      rw half (bit_and_high k m (a / 2)) in
    rw (double, mul_assoc, ← div-div-eq-div-mul a 2 (2 ^ k), mul_assoc)
      (omega (arith, bit_and_halves a (2 * mask), rest))
