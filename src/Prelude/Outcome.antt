-- ===== src/Prelude/Outcome.antt =====
-- Fallible code: a value or an error of the component's own.
use mathlib.Core.Path.{◌≡◌, refl}
use mathlib.Core.Logic.{◌⊎◌, inl, inr}

pub data Result {ℓ κ} (E : Type ℓ) (A : Type κ) : Type (ℓ ⊔ κ) where
  ok : A → Result E A
  err : E → Result E A

infixl 5 ◌>>=◌
abbrev pub ◌>>=◌ {ℓ κ μ} :
    {E : Type ℓ} {A : Type κ} {B : Type μ} (first : Result E A) (next : A → Result E B) → Result E B
◌>>=◌ (ok value) next = next value
◌>>=◌ (err failure) next = err failure

-- If a computation ends well then so does its first part, with a value that the second part takes to
-- the result.
pub >>=-eq-ok {ℓ κ μ} :
    {E : Type ℓ} {A : Type κ} {B : Type μ} (first : Result E A) (next : A → Result E B) {result : B}
    → first >>= next ≡ ok result
    → (value : A) × (first ≡ ok value) × (next value ≡ ok result)
>>=-eq-ok (ok value) next h = (value, refl, h)
>>=-eq-ok (err failure) next h = absurd (cc)

pub Result-cases {ℓ κ} :
    {E : Type ℓ} {A : Type κ} (m : Result E A) → ((a : A) × (m ≡ ok a)) ⊎ ((e : E) × (m ≡ err e))
Result-cases (ok a) = inl (a, refl)
Result-cases (err e) = inr (e, refl)
