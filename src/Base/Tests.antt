-- ===== src/Base/Tests.antt =====
-- Boolean tests on the native numbers, the conditional, and case splits that keep the equation.
use Prim.Native.Nat.{ℕ, ◌<◌, ◌≤◌, compare, Ordering}
use mathlib.Core.Path.{◌≡◌, refl, ap, ◌∙◌}
use mathlib.Core.Logic.{◌⊎◌, inl, inr}
use mathlib.Core.Bool.{Bool, true, false}
use mathlib.Core.Option.{Option, none, some}
use native.Mathlib.Omega.{arith}

abbrev pub ltb : ℕ → ℕ → Bool
ltb a b = elim (compare a b) [ Ordering.lt ↦ true | _ ↦ false ]

abbrev pub leb : ℕ → ℕ → Bool
leb a b = elim (compare a b) [ Ordering.gt ↦ false | _ ↦ true ]

infix 50 ◌==◌
abbrev pub ◌==◌ : ℕ → ℕ → Bool
a == b = elim (compare a b) [ Ordering.eq ↦ true | _ ↦ false ]

infix 1 if◌then◌else◌
abbrev pub if◌then◌else◌ {ℓ} : {A : Type ℓ} → Bool → A → A → A
if true then x else _ = x
if false then _ else y = y

abbrev pub is_some {ℓ} : {A : Type ℓ} → Option A → Bool
is_some none = false
is_some (some _) = true

abbrev pub is_none {ℓ} : {A : Type ℓ} → Option A → Bool
is_none none = true
is_none (some _) = false

abbrev pub unwrap_or {ℓ} : {A : Type ℓ} → Option A → A → A
unwrap_or none d = d
unwrap_or (some a) _ = a

pub Bool-cases : (b : Bool) → (b ≡ true) ⊎ (b ≡ false)
Bool-cases true = inl refl
Bool-cases false = inr refl

pub Option-cases {ℓ} : {A : Type ℓ} (o : Option A) → (o ≡ none) ⊎ ((a : A) × (o ≡ some a))
Option-cases none = inl refl
Option-cases (some a) = inr (a, refl)

pub sum_cases {ℓ} : {A B : Type ℓ} (x : A ⊎ B) → ((a : A) × (x ≡ inl a)) ⊎ ((b : B) × (x ≡ inr b))
sum_cases (inl a) = inl (a, refl)
sum_cases (inr b) = inr (b, refl)

-- The three ways in which two numbers can stand.
pub order_cases : (a b : ℕ) → (a < b) ⊎ ((a ≡ b) ⊎ (b < a))
order_cases a b = ground arith

ltb-lt : (a b : ℕ) → a < b → ltb a b ≡ true
ltb-lt a b h = ground arith

ltb-le : (a b : ℕ) → b ≤ a → ltb a b ≡ false
ltb-le a b h = ground arith

-- The conditional on a comparison that is decided.
if_below {ℓ} : {A : Type ℓ} (x y : A) (a b : ℕ) → a < b → (if ltb a b then x else y) ≡ x
if_below x y a b h = ap (λ c. if c then x else y) (ltb-lt a b h)

pub if_not_below {ℓ} : {A : Type ℓ} (x y : A) (a b : ℕ) → b ≤ a → (if ltb a b then x else y) ≡ y
if_not_below x y a b h = ap (λ c. if c then x else y) (ltb-le a b h)

-- and on one that is not: each branch where it is taken.
pub if_ltb {ℓ} :
    {A : Type ℓ} {x y z : A} (a b : ℕ)
    → (a < b → x ≡ z)
    → (b ≤ a → y ≡ z)
    → (if ltb a b then x else y) ≡ z
if_ltb {x = x} {y = y} a b f g = elim (order_cases a b) [
  | inl h ↦ if_below x y a b h ∙ f h
  | inr (inl h) ↦ if_not_below x y a b (omega arith) ∙ g (omega arith)
  | inr (inr h) ↦ if_not_below x y a b (omega arith) ∙ g (omega arith)
]
