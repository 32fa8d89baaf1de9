-- ===== src/Base/Lists.antt =====
-- Lists measured and indexed by native numbers, under the library's names, and lists of indices.
use Prim.Native.Nat.{ℕ, zero, suc, ◌+◌, ◌<◌, ◌≤◌}
use mathlib.Core.Path.{◌≡◌, refl, ap, sym, subst}
use mathlib.Core.Logic.{◌≢◌, ◌⊎◌, inl, inr}
use mathlib.Core.Bool.{Bool, true, false}
use mathlib.Core.List.{List, [], ◌∷◌, ◌++◌}
use mathlib.Core.Option.{Option, none, some}
use native.Mathlib.Omega.{arith}
use native.Mathlib.Decide.{dec_lt}
use h4h.Base.Tests.{◌==◌, if◌then◌else◌, tally}

module _ {ℓ} {A : Type ℓ} where
  abbrev pub length : List A → ℕ
  length [] = 0
  length (x ∷ xs) = suc (length xs)

  abbrev pub get_elem? : List A → ℕ → Option A
  get_elem? [] i = none
  get_elem? (x ∷ xs) zero = some x
  get_elem? (x ∷ xs) (suc i) = get_elem? xs i

  -- A write out of bounds changes nothing.
  abbrev pub set : List A → ℕ → A → List A
  set [] i v = []
  set (x ∷ xs) zero v = v ∷ xs
  set (x ∷ xs) (suc i) v = x ∷ set xs i v

  abbrev pub replicate : ℕ → A → List A
  replicate zero a = []
  replicate (suc n) a = a ∷ replicate n a

  -- How many entries pass a test.
  abbrev pub count_p : (A → Bool) → List A → ℕ
  count_p p [] = 0
  count_p p (x ∷ xs) = tally (p x) + count_p p xs

  pub length-append : (xs ys : List A) → length (xs ++ ys) ≡ length xs + length ys
  length-append [] ys = omega arith
  length-append (x ∷ xs) ys = omega (arith, length-append xs ys)

  pub length-set : (xs : List A) (i : ℕ) (v : A) → length (set xs i v) ≡ length xs
  length-set [] i v = refl
  length-set (x ∷ xs) zero v = refl
  length-set (x ∷ xs) (suc i) v = ap suc (length-set xs i v)

  pub length-replicate : (n : ℕ) (a : A) → length (replicate n a) ≡ n
  length-replicate zero a = refl
  length-replicate (suc n) a = ap suc (length-replicate n a)

  pub get_elem?-lt : (xs : List A) (i : ℕ) {a : A} → get_elem? xs i ≡ some a → i < length xs
  get_elem?-lt [] i h = ground arith
  get_elem?-lt (x ∷ xs) zero h = omega arith
  get_elem?-lt (x ∷ xs) (suc i) h = omega (arith, get_elem?-lt xs i h)

  pub get_elem?_of_lt : (xs : List A) (i : ℕ) → i < length xs → (a : A) × (get_elem? xs i ≡ some a)
  get_elem?_of_lt [] i h = elim h [ ]
  get_elem?_of_lt (x ∷ xs) zero h = (x, refl)
  get_elem?_of_lt (x ∷ xs) (suc i) h = get_elem?_of_lt xs i (omega arith)

  pub get_elem?-set_self :
      (xs : List A) (i : ℕ) (v : A) → i < length xs → get_elem? (set xs i v) i ≡ some v
  get_elem?-set_self [] i v h = elim h [ ]
  get_elem?-set_self (x ∷ xs) zero v h = refl
  get_elem?-set_self (x ∷ xs) (suc i) v h = get_elem?-set_self xs i v (omega arith)

  pub get_elem?-set_ne :
      (xs : List A) (i j : ℕ) (v : A) → i ≢ j → get_elem? (set xs i v) j ≡ get_elem? xs j
  get_elem?-set_ne [] i j v h = refl
  get_elem?-set_ne (x ∷ xs) zero zero v h = absurd (h refl)
  get_elem?-set_ne (x ∷ xs) zero (suc j) v h = refl
  get_elem?-set_ne (x ∷ xs) (suc i) zero v h = refl
  get_elem?-set_ne (x ∷ xs) (suc i) (suc j) v h = get_elem?-set_ne xs i j v (λ e. h (ap suc e))

  -- An update moves one entry from its old test to its new one.
  pub count_p-set :
      (p : A → Bool) (xs : List A) (i : ℕ) (v : A) {a : A}
      → get_elem? xs i ≡ some a
      → count_p p (set xs i v) + tally (p a) ≡ count_p p xs + tally (p v)
  count_p-set p [] i v h = ground arith
  count_p-set p (x ∷ xs) zero v h = ground arith
  count_p-set p (x ∷ xs) (suc i) v h = omega (arith, count_p-set p xs i v h)

  pub count_p-replicate :
      (p : A → Bool) (n : ℕ) (a : A) → p a ≡ false → count_p p (replicate n a) ≡ 0
  count_p-replicate p zero a h = refl
  count_p-replicate p (suc n) a h = ground (arith, count_p-replicate p n a h)

  pub count_p-le-length : (p : A → Bool) (xs : List A) → count_p p xs ≤ length xs
  count_p-le-length p [] = omega arith
  count_p-le-length p (x ∷ xs) = ground (arith, count_p-le-length p xs)

  pub count_p-replicate_all :
      (p : A → Bool) (n : ℕ) (a : A) → p a ≡ true → count_p p (replicate n a) ≡ n
  count_p-replicate_all p zero a h = refl
  count_p-replicate_all p (suc n) a h = ground (arith, count_p-replicate_all p n a h)

  -- An entry that fails the test leaves room below the length.
  pub count_p-lt-length :
      (p : A → Bool) (xs : List A) (i : ℕ) {a : A}
      → get_elem? xs i ≡ some a
      → p a ≡ false
      → count_p p xs < length xs
  count_p-lt-length p [] i h t = ground arith
  count_p-lt-length p (x ∷ xs) zero h t = ground (arith, count_p-le-length p xs)
  count_p-lt-length p (x ∷ xs) (suc i) h t = ground (arith, count_p-lt-length p xs i h t)

  pub count_p_pos :
      (p : A → Bool) (xs : List A) (i : ℕ) {a : A}
      → get_elem? xs i ≡ some a
      → p a ≡ true
      → 0 < count_p p xs
  count_p_pos p [] i h t = ground arith
  count_p_pos p (x ∷ xs) zero h t = ground arith
  count_p_pos p (x ∷ xs) (suc i) h t = omega (arith, count_p_pos p xs i h t)

-- The list without an index, and how often it holds one.
abbrev pub erase : ℕ → List ℕ → List ℕ
erase i [] = []
erase i (j ∷ js) = let rest = erase i js in if i == j then rest else j ∷ rest

abbrev pub count : ℕ → List ℕ → ℕ
count i [] = 0
count i (j ∷ js) = tally (i == j) + count i js

pub count-append : (i : ℕ) (xs ys : List ℕ) → count i (xs ++ ys) ≡ count i xs + count i ys
count-append i [] ys = omega arith
count-append i (x ∷ xs) ys = omega (arith, count-append i xs ys)

pub count-erase :
    (i j : ℕ) (xs : List ℕ) → count i (erase j xs) ≡ (if i == j then 0 else count i xs)
count-erase i j [] = ground arith
count-erase i j (x ∷ xs) = ground (arith, count-erase i j xs)

-- Each entry satisfies a predicate on its index and itself.
abbrev pub Every {ℓ κ} : {A : Type ℓ} → (ℕ → A → Type κ) → List A → Type (ℓ ⊔ κ)
Every {A = A} P xs = (i : ℕ) (a : A) → get_elem? xs i ≡ some a → P i a

module _ {ℓ} {A : Type ℓ} where
  pub set-set : (xs : List A) (i : ℕ) (u v : A) → set (set xs i u) i v ≡ set xs i v
  set-set [] i u v = refl
  set-set (x ∷ xs) zero u v = refl
  set-set (x ∷ xs) (suc i) u v = ap (◌∷◌ x) (set-set xs i u v)

  pub get_elem?-set :
      (xs : List A) (i j : ℕ) (v : A) {a : A}
      → get_elem? (set xs i v) j ≡ some a
      → ((i ≡ j) × (a ≡ v)) ⊎ ((i ≢ j) × (get_elem? xs j ≡ some a))
  get_elem?-set [] i j v e = ground arith
  get_elem?-set (x ∷ xs) zero zero v e = inl (refl, ground arith)
  get_elem?-set (x ∷ xs) zero (suc j) v e = inr (omega arith, e)
  get_elem?-set (x ∷ xs) (suc i) zero v e = inr (omega arith, e)
  get_elem?-set (x ∷ xs) (suc i) (suc j) v e = elim (get_elem?-set xs i j v e) [
    | inl (p, q) ↦ inl (omega arith, q)
    | inr (p, q) ↦ inr (omega arith, q)
  ]

module _ {ℓ κ} {A : Type ℓ} where
  pub Every-set :
      (P : ℕ → A → Type κ) (xs : List A) (i : ℕ) (v : A) → Every P xs → P i v → Every P (set xs i v)
  Every-set P xs i v all new j a e = elim (get_elem?-set xs i j v e) [
    | inl (p, q) ↦ subst (λ k. P k a) p (subst (P i) (sym q) new)
    | inr (p, q) ↦ all j a q
  ]

-- Writing what is there changes nothing.
pub set-get_elem? {ℓ} :
    {A : Type ℓ} (xs : List A) (i : ℕ) (a : A) → get_elem? xs i ≡ some a → set xs i a ≡ xs
set-get_elem? [] i a e = refl
set-get_elem? (x ∷ xs) zero a e = ground arith
set-get_elem? (x ∷ xs) (suc i) a e = ap (◌∷◌ x) (set-get_elem? xs i a e)

abbrev pub All {ℓ κ} : {A : Type ℓ} → (A → Type κ) → List A → Type κ
All P [] = Unit
All P (x ∷ xs) = P x × All P xs

-- A list that holds no index from `n` on.
pub All-lt_of_count :
    (n : ℕ) (xs : List ℕ) → ((i : ℕ) → n ≤ i → count i xs ≡ 0) → All (λ i. i < n) xs
All-lt_of_count n [] h = tt
All-lt_of_count n (x ∷ xs) h = (first, All-lt_of_count n xs (λ i k. omega (arith, h i k)))
  where
    first : x < n
    first = elim (dec_lt x n) [ yes p ↦ p | no p ↦ ground (arith, h x) ]
