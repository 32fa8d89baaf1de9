-- ===== src/Base/Append.antt =====
-- An entry put behind a list, and predicates on all entries.
use Prim.Native.Nat.{ℕ, zero, suc, ◌+◌}
use mathlib.Core.Path.{◌≡◌, refl, sym, ap}
use mathlib.Core.Logic.{◌≢◌, ◌⊎◌, inl, inr}
use mathlib.Core.Bool.{Bool}
use mathlib.Core.List.{List, [], ◌∷◌, ◌++◌, map}
use mathlib.Core.Option.{some}
use native.Mathlib.Omega.{arith}
use h4h.Base.Tests.{◌==◌, tally, some-inj, Bool-cases}
use h4h.Base.Lists.{length, get_elem?, count_p, erase, All}

module _ {ℓ} {A : Type ℓ} where
  pub count_p-append :
      (p : A → Bool) (xs : List A) (x : A) → count_p p (xs ++ (x ∷ [])) ≡ count_p p xs + tally (p x)
  count_p-append p [] x = omega arith
  count_p-append p (y ∷ ys) x = omega (arith, count_p-append p ys x)

  pub get_elem?-append_old :
      (xs : List A) (x : A) (i : ℕ) {a : A}
      → get_elem? xs i ≡ some a
      → get_elem? (xs ++ (x ∷ [])) i ≡ some a
  get_elem?-append_old [] x i h = ground arith
  get_elem?-append_old (y ∷ ys) x zero h = h
  get_elem?-append_old (y ∷ ys) x (suc i) h = get_elem?-append_old ys x i h

  pub get_elem?-append_new : (xs : List A) (x : A) → get_elem? (xs ++ (x ∷ [])) (length xs) ≡ some x
  get_elem?-append_new [] x = refl
  get_elem?-append_new (y ∷ ys) x = get_elem?-append_new ys x

  pub get_elem?-append_ne :
      (xs : List A) (x : A) (i : ℕ) → i ≢ length xs → get_elem? (xs ++ (x ∷ [])) i ≡ get_elem? xs i
  get_elem?-append_ne [] x zero ne = absurd (ne refl)
  get_elem?-append_ne [] x (suc i) ne = refl
  get_elem?-append_ne (y ∷ ys) x zero ne = refl
  get_elem?-append_ne (y ∷ ys) x (suc i) ne = get_elem?-append_ne ys x i (λ e. ne (ap suc e))

  pub get_elem?-append_cases :
      (xs : List A) (x : A) (i : ℕ) {a : A}
      → get_elem? (xs ++ (x ∷ [])) i ≡ some a
      → (get_elem? xs i ≡ some a) ⊎ (a ≡ x)
  get_elem?-append_cases [] x zero h = inr (ground arith)
  get_elem?-append_cases [] x (suc i) h = ground arith
  get_elem?-append_cases (y ∷ ys) x zero h = inl h
  get_elem?-append_cases (y ∷ ys) x (suc i) h = get_elem?-append_cases ys x i h

module _ {ℓ κ} {A : Type ℓ} where
  pub All-append : (P : A → Type κ) (xs : List A) (x : A) → All P xs → P x → All P (xs ++ (x ∷ []))
  All-append P [] x h px = (px, tt)
  All-append P (y ∷ ys) x h px = (h.0, All-append P ys x h.1 px)

  pub All-mono :
      (P : A → Type κ) (Q : A → Type κ) (xs : List A) → ((a : A) → P a → Q a) → All P xs → All Q xs
  All-mono P Q [] f h = tt
  All-mono P Q (y ∷ ys) f h = (f y h.0, All-mono P Q ys f h.1)

pub All-erase {κ} :
    (P Q : ℕ → Type κ) (i : ℕ) (xs : List ℕ)
    → ((j : ℕ) → i ≢ j → P j → Q j)
    → All P xs
    → All Q (erase i xs)
All-erase P Q i [] f h = tt
All-erase P Q i (j ∷ js) f h =
    let ih = All-erase P Q i js f h.1 in
    elim (Bool-cases (i == j)) [ inl e ↦ rw e ih | inr e ↦ rw e (f j (λ p. ground arith) h.0, ih) ]

pub get_elem?-map {ℓ κ} :
    {A : Type ℓ} {B : Type κ} (f : A → B) (xs : List A) (i : ℕ) {b : B}
    → get_elem? (map f xs) i ≡ some b
    → (a : A) × (get_elem? xs i ≡ some a) × (b ≡ f a)
get_elem?-map f [] i h = ground arith
get_elem?-map f (x ∷ xs) zero h = (x, refl, sym (some-inj h))
get_elem?-map f (x ∷ xs) (suc i) h = get_elem?-map f xs i h

pub get_elem?-map-some {ℓ κ} :
    {A : Type ℓ} {B : Type κ} (f : A → B) (xs : List A) (i : ℕ) (a : A)
    → get_elem? xs i ≡ some a
    → get_elem? (map f xs) i ≡ some (f a)
get_elem?-map-some f [] i a h = ground arith
get_elem?-map-some f (x ∷ xs) zero a h = ap (λ y. some (f y)) (some-inj h)
get_elem?-map-some f (x ∷ xs) (suc i) a h = get_elem?-map-some f xs i a h

pub length-map {ℓ κ} :
    {A : Type ℓ} {B : Type κ} (f : A → B) (xs : List A) → length (map f xs) ≡ length xs
length-map f [] = refl
length-map f (x ∷ xs) = omega (arith, length-map f xs)
