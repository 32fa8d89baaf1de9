-- ===== src/Base/Tests.antt =====
-- Boolean tests on the native numbers, the conditional, and the monad of code that may stop.
use Prim.Native.Nat.{ℕ, ◌<◌, compare, Ordering}
use mathlib.Core.Path.{◌≡◌, refl}
use mathlib.Core.Logic.{◌↔◌, ◌≢◌, ◌⊎◌, inl, inr}
use mathlib.Core.Bool.{Bool, true, false}
use mathlib.Core.Option.{Option, none, some, some-injective}
use native.Mathlib.Omega.{arith}

abbrev pub ltb : ℕ → ℕ → Bool
ltb a b = elim (compare a b) [ Ordering.lt ↦ true | _ ↦ false ]

abbrev pub leb : ℕ → ℕ → Bool
leb a b = elim (compare a b) [ Ordering.gt ↦ false | _ ↦ true ]

infix 50 ◌==◌
abbrev pub ◌==◌ : ℕ → ℕ → Bool
a == b = elim (compare a b) [ Ordering.eq ↦ true | _ ↦ false ]

infix 1 if◌then◌else◌
abbrev pub if◌then◌else◌ {ℓ} : {A : Type ℓ} → Bool → A → A → A
if true then x else y = x
if false then x else y = y

pub lt→ltb : (a b : ℕ) → a < b → ltb a b ≡ true
lt→ltb a b h = ground arith

pub ==_refl : (a : ℕ) → (a == a) ≡ true
==_refl a = ground arith

pub ==_ne : (a b : ℕ) → a ≢ b → (a == b) ≡ false
==_ne a b h = ground arith

pub ==_iff : (a b : ℕ) → ((a == b) ≡ true) ↔ (a ≡ b)
==_iff a b = ground arith

pub Bool-cases : (b : Bool) → (b ≡ true) ⊎ (b ≡ false)
Bool-cases true = inl refl
Bool-cases false = inr refl

pub Option-cases {ℓ} : {A : Type ℓ} (o : Option A) → (o ≡ none) ⊎ ((a : A) × (o ≡ some a))
Option-cases none = inl refl
Option-cases (some a) = inr (a, refl)

-- One for a test that holds, zero for one that does not.
abbrev pub tally : Bool → ℕ
tally true = 1
tally false = 0

-- `none` is a run that stops at a bug check or at an access out of range.
infixl 5 ◌>>=◌ ◌>>◌
abbrev pub ◌>>=◌ {ℓ κ} : {A : Type ℓ} {B : Type κ} → Option A → (A → Option B) → Option B
none >>= f = none
some a >>= f = f a

abbrev pub ◌>>◌ {ℓ} : {B : Type ℓ} → Option (Unit {0}) → Option B → Option B
m >> k = m >>= λ _. k

-- h4h_bug_on of include/debug.h, in a build where it stops the kernel.
abbrev pub bug_on : Bool → Option (Unit {0})
bug_on true = none
bug_on false = some tt

pub some-inj {ℓ} : {A : Type ℓ} {a b : A} → some a ≡ some b → a ≡ b
some-inj {a = a} {b = b} e = some-injective a b e

pub none-ne-some {ℓ} : {A : Type ℓ} {a : A} → ¬ (none ≡ some a)
none-ne-some e = cc

-- The code runs to its end, and its result satisfies a predicate.
abbrev pub Returns {ℓ} : {A : Type ℓ} → (A → Type 0) → Option A → Type 0
Returns P none = ⊥
Returns P (some a) = P a

pub Returns-mono {ℓ} :
    {A : Type ℓ} (P Q : A → Type 0) (r : Option A)
    → ((a : A) → r ≡ some a → P a → Q a)
    → Returns P r
    → Returns Q r
Returns-mono P Q none f h = h
Returns-mono P Q (some a) f h = f a refl h

-- The rule for a chain of steps.
pub Returns-bind {ℓ κ} :
    {A : Type ℓ} {B : Type κ} (P : A → Type 0) (Q : B → Type 0) (r : Option A) (f : A → Option B)
    → Returns P r
    → ((a : A) → r ≡ some a → P a → Returns Q (f a))
    → Returns Q (r >>= f)
Returns-bind P Q none f h k = h
Returns-bind P Q (some a) f h k = k a refl h

-- Two steps, the first of which adds a code to its result
pub two_steps :
    {A B C : Type 0} (o : Option A) (f : A → B) (k : B → Option C)
    → ((o >>= λ a. some (f a)) >>= k) ≡ (o >>= λ a. k (f a))
two_steps none f k = refl
two_steps (some a) f k = refl
