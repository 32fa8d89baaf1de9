-- ===== src/Base/Grid.antt =====
-- Rows and columns of an array that is stored row by row.
use Prim.Native.Nat.{ℕ, ◌+◌, ◌*◌, ◌%◌, ◌<◌}
use mathlib.Core.Path.{◌≡◌, sym, ap, ◌∙◌}
use native.Mathlib.Nat.{
  mod-eq_of_lt, mul-add-mod_self_right, eq_of_mul-eq-mul_right, lt_of_mul-lt-mul_right,
}
use native.Mathlib.Omega.{arith}

-- A row and a column are found again from the place in the array.
pub unit_inj : (m c h c' h' : ℕ) → h < m → h' < m → c * m + h ≡ c' * m + h' → (c ≡ c') × (h ≡ h')
unit_inj m c h c' h' lt lt' e =
    let same : h ≡ h' =
      sym (mod-eq_of_lt lt)
      ∙ sym (mul-add-mod_self_right c m h)
      ∙ ap (λ x. x % m) e
      ∙ mul-add-mod_self_right c' m h'
      ∙ mod-eq_of_lt lt' in
    (eq_of_mul-eq-mul_right m (omega arith) c c' (omega arith), same)

pub row-lt : (m n c h : ℕ) → c * m + h < n * m → c < n
row-lt m n c h lt = lt_of_mul-lt-mul_right m (omega arith)
