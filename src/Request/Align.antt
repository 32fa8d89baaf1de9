-- ===== src/Request/Align.antt =====
-- H4H_ALIGN_DOWN and H4H_ALIGN_UP of include/h4h_drv.h by a power of two, as arithmetic.
use native.Mathlib.Nat.{
  mod-eq_of_lt, pow-suc, one-le-pow, mul_assoc, mul_comm, mul-one, mul-suc, div-lt_iff_lt-mul,
}
use h4h.Base.{ℕ, zero, suc, ◌+◌, ◌-◌, ◌*◌, ◌/◌, ◌%◌, ◌^◌, ◌<◌, ◌≤◌, ◌≡◌, refl, ap, ◌∙◌, arith}
use h4h.Base.Bits.{bit_and_high}
use h4h.Request.{align_down, align_up, not_below}

pub two_pow_add : (k m : ℕ) → 2 ^ k * 2 ^ m ≡ 2 ^ (k + m)
two_pow_add k zero = rw (mul-one (2 ^ k)) (ap (λ x. 2 ^ x) (omega arith))
two_pow_add k (suc m) =
    let next : k + suc m ≡ suc (k + m) = omega arith in
    rw (next, pow-suc 2 m, pow-suc 2 (k + m), ← mul_assoc (2 ^ k) (2 ^ m) 2, two_pow_add k m) refl

whole_word : (k : ℕ) → k < 64 → 2 ^ k * 2 ^ (64 - k) ≡ 2 ^ 64
whole_word k h = two_pow_add k (64 - k) ∙ ap (λ x. 2 ^ x) {x = k + (64 - k)} {y = 64} (omega arith)

one_less : (a b : ℕ) → 1 ≤ b → a * (b - 1) + a ≡ a * b
one_less a zero h = absurd (omega arith)
one_less a (suc b) h = let e : suc b - 1 ≡ b = omega arith in rw (e, mul-suc a b) refl

mask_split : (k : ℕ) → k < 64 → not_below (2 ^ k) ≡ 2 ^ k * (2 ^ (64 - k) - 1)
mask_split k h =
    let whole = whole_word k h in
    let one : 1 ≤ 2 ^ k = one-le-pow k 2 (omega arith) in
    let one' : 1 ≤ 2 ^ (64 - k) = one-le-pow (64 - k) 2 (omega arith) in
    let expand : 2 ^ k * (2 ^ (64 - k) - 1) + 2 ^ k ≡ 2 ^ k * 2 ^ (64 - k) =
      one_less (2 ^ k) (2 ^ (64 - k)) one' in
    omega (arith, whole, expand, one)

pub align_down-eq : (k a : ℕ) → k < 64 → a < 2 ^ 64 → align_down a (2 ^ k) ≡ 2 ^ k * (a / 2 ^ k)
unfolding align_down
align_down-eq k a h small =
    let one : 1 ≤ 2 ^ k = one-le-pow k 2 (omega arith) in
    let fits : a / 2 ^ k < 2 ^ (64 - k) =
      (div-lt_iff_lt-mul one).1 (rw (mul_comm (2 ^ (64 - k)) (2 ^ k), whole_word k h) small) in
    rw (mask_split k h) (bit_and_high k (64 - k) a ∙ ap (λ x. 2 ^ k * x) (mod-eq_of_lt fits))

pub align_up-eq :
    (k a : ℕ)
    → k < 64
    → a + 2 ^ k ≤ 2 ^ 64
    → align_up a (2 ^ k) ≡ 2 ^ k * ((a + (2 ^ k - 1)) / 2 ^ k)
unfolding align_up
align_up-eq k a h small =
    let one : 1 ≤ 2 ^ k = one-le-pow k 2 (omega arith) in
    let exact : (a + (2 ^ k + (2 ^ 64 - 1))) % 2 ^ 64 ≡ a + (2 ^ k - 1) = omega (arith, one) in
    rw exact (unfold align_down in align_down-eq k (a + (2 ^ k - 1)) h (omega (arith, one)))
