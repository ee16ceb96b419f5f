-- ===== src/Prelude/Tests.antt =====
-- Boolean tests on the native numbers, the conditional, and equality tests as an interface.
use Prim.Native.Nat.{ℕ, compare, Ordering}
use mathlib.Core.Path.{◌≡◌, refl}
use mathlib.Core.Logic.{◌↔◌, ◌⊎◌, inl, inr}
use mathlib.Core.Bool.{Bool, true, false, ◌&&◌, ◌||◌}
use mathlib.Core.Option.{Option, none, some}
use native.Mathlib.Omega.{arith}

abbrev pub ltb : ℕ → ℕ → Bool
ltb a b = elim (compare a b) [ Ordering.lt ↦ true | _ ↦ false ]

abbrev pub leb : ℕ → ℕ → Bool
leb a b = elim (compare a b) [ Ordering.gt ↦ false | _ ↦ true ]

abbrev pub nat_beq : ℕ → ℕ → Bool
nat_beq a b = elim (compare a b) [ Ordering.eq ↦ true | _ ↦ false ]

infix 1 if◌then◌else◌
abbrev pub if◌then◌else◌ {ℓ} : {A : Type ℓ} → Bool → A → A → A
if true then x else y = x
if false then x else y = y

pub nat_beq_iff : (a b : ℕ) → (nat_beq a b ≡ true) ↔ (a ≡ b)
nat_beq_iff a b = ground arith

-- A test that decides equality.
pub record Equality {ℓ} (A : Type ℓ) : Type ℓ where
  pub test : A → A → Bool
  pub test_iff : (a b : A) → (test a b ≡ true) ↔ (a ≡ b)

infix 50 ◌==◌
abbrev pub ◌==◌ {ℓ} : {A : Type ℓ} ⦃e : Equality A⦄ → A → A → Bool
◌==◌ ⦃e⦄ = e.test

instance abbrev pub nat_eq : Equality ℕ
nat_eq = record { test = nat_beq; test_iff = nat_beq_iff }

-- The test of a decision procedure, for the enumerations.
unfoldable pub decide_eq {ℓ} : {A : Type ℓ} → Discrete A → A → A → Bool
decide_eq d a b = elim (d a b) [ yes p ↦ true | no p ↦ false ]

pub decide_eq_iff {ℓ} : {A : Type ℓ} (d : Discrete A) (a b : A) → (decide_eq d a b ≡ true) ↔ (a ≡ b)
unfolding decide_eq
decide_eq_iff d a b =
    elim (d a b) as (λ r. ((elim r [ yes p ↦ true | no p ↦ false ]) ≡ true) ↔ (a ≡ b)) [
      | yes p ↦ ((λ h. p), (λ h. refl))
      | no p ↦ ((λ h. cc), (λ h. absurd (p h)))
    ]

-- To split on a computed value and keep the equation.
pub Bool-cases : (b : Bool) → (b ≡ true) ⊎ (b ≡ false)
Bool-cases true = inl refl
Bool-cases false = inr refl

pub Option-cases {ℓ} : {A : Type ℓ} (o : Option A) → (o ≡ none) ⊎ ((a : A) × (o ≡ some a))
Option-cases none = inl refl
Option-cases (some a) = inr (a, refl)

abbrev pub is_some {ℓ} : {A : Type ℓ} → Option A → Bool
is_some none = false
is_some (some a) = true

pub &&-left : (a b : Bool) → (a && b) ≡ true → a ≡ true
&&-left a b h = ground arith

pub &&-right : (a b : Bool) → (a && b) ≡ true → b ≡ true
&&-right a b h = ground arith

pub ||-false : (a : Bool) → a ≡ (a || false)
||-false a = ground arith

pub ||-assoc : (a b c : Bool) → ((a || b) || c) ≡ (a || (b || c))
||-assoc a b c = ground arith

pub &&-assoc : (a b c : Bool) → ((a && b) && c) ≡ (a && (b && c))
&&-assoc a b c = ground arith

pub is_some-false {ℓ} : {A : Type ℓ} (o : Option A) → is_some o ≡ false → o ≡ none
is_some-false none h = refl
is_some-false (some a) h = absurd (cc)
