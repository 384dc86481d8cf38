-- ===== src/Prelude/Tests.antt =====
-- Boolean tests on the native numbers, and C's conditional.
use Prim.Native.Nat.{ℕ, compare, Ordering}
use mathlib.Core.Path.{◌≡◌, refl}
use mathlib.Core.Logic.{◌↔◌, ◌⊎◌, inl, inr}
use mathlib.Core.Bool.{Bool, true, false}
use mathlib.Core.Option.{Option, none, some}
use native.Mathlib.Omega.{arith}

abbrev pub ltb : ℕ → ℕ → Bool
ltb a b = elim (compare a b) [ Ordering.lt ↦ true | _ ↦ false ]

abbrev pub leb : ℕ → ℕ → Bool
leb a b = elim (compare a b) [ Ordering.gt ↦ false | _ ↦ true ]

infix 50 ◌==◌
abbrev pub ◌==◌ : ℕ → ℕ → Bool
a == b = elim (compare a b) [ Ordering.eq ↦ true | _ ↦ false ]

infix 1 if◌then◌else◌
abbrev pub if◌then◌else◌ {ℓ} : {A : Type ℓ} → Bool → A → A → A
if true then x else y = x
if false then x else y = y

pub ==_iff : (a b : ℕ) → ((a == b) ≡ true) ↔ (a ≡ b)
==_iff a b = ground arith

-- A test's two outcomes, each with its equation.
pub Bool-cases : (b : Bool) → (b ≡ true) ⊎ (b ≡ false)
Bool-cases true = inl refl
Bool-cases false = inr refl

pub Option-cases {ℓ} : {A : Type ℓ} (o : Option A) → (o ≡ none) ⊎ ((a : A) × (o ≡ some a))
Option-cases none = inl refl
Option-cases (some a) = inr (a, refl)

abbrev pub is_some {ℓ} : {A : Type ℓ} → Option A → Bool
is_some none = false
is_some (some a) = true

pub pair_eq_of_some {ℓ κ} :
    {A : Type ℓ} {B : Type κ} (a : A) (b : B) {c : A} {d : B}
    → ◌≡◌ {A = Option (A × B)} (some (a, b)) (some (c, d))
    → (a ≡ c) × (b ≡ d)
pair_eq_of_some a b e = (cc, cc)

pub none-ne-some {ℓ} : {A : Type ℓ} {a : A} → ◌≡◌ {A = Option A} none (some a) → ⊥
none-ne-some e = cc

pub triple_eq_of_some {ℓ κ μ} :
    {A : Type ℓ} {B : Type κ} {C : Type μ} (a : A) (b : B) (c : C) {x : A} {y : B} {z : C}
    → ◌≡◌ {A = Option (A × B × C)} (some (a, b, c)) (some (x, y, z))
    → (a ≡ x) × (b ≡ y) × (c ≡ z)
triple_eq_of_some a b c e = (cc, cc, cc)

pub triple_eq {ℓ κ μ} :
    {A : Type ℓ} {B : Type κ} {C : Type μ} (a : A) (b : B) (c : C) {x : A} {y : B} {z : C}
    → ◌≡◌ {A = A × B × C} (a, b, c) (x, y, z)
    → (a ≡ x) × (b ≡ y) × (c ≡ z)
triple_eq a b c e = (cc, cc, cc)

pub pair_eq {ℓ κ} :
    {A : Type ℓ} {B : Type κ} (a : A) (b : B) {c : A} {d : B}
    → ◌≡◌ {A = A × B} (a, b) (c, d)
    → (a ≡ c) × (b ≡ d)
pair_eq a b e = (cc, cc)
