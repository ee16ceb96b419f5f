-- ===== src/Prelude/Lists.antt =====
-- Lists measured by native numbers and searched by Boolean tests.
use Prim.Native.Nat.{ℕ, zero, suc, ◌+◌, ◌-◌, ◌≤◌}
use mathlib.Core.Path.{◌≡◌, refl, ap, ◌∙◌}
use mathlib.Core.Logic.{inl, inr}
use mathlib.Core.Bool.{Bool, true, false, not, ◌&&◌, ◌||◌}
use mathlib.Core.Option.{Option, none, some}
use mathlib.Core.List.{List, [], ◌∷◌, ◌++◌}
use native.Mathlib.Omega.{arith}
use omp_spec_kit.Prelude.Tests.{Equality, ◌==◌, if◌then◌else◌, Bool-cases, ||-false, ||-assoc}

module _ {ℓ} {A : Type ℓ} where
  abbrev pub length : List A → ℕ
  length [] = 0
  length (x ∷ xs) = suc (length xs)

  abbrev pub take : ℕ → List A → List A
  take zero xs = []
  take (suc n) [] = []
  take (suc n) (x ∷ xs) = x ∷ take n xs

  abbrev pub drop : ℕ → List A → List A
  drop zero xs = xs
  drop (suc n) [] = []
  drop (suc n) (x ∷ xs) = drop n xs

  pub length-append : (xs ys : List A) → length (xs ++ ys) ≡ length xs + length ys
  length-append [] ys = omega arith
  length-append (x ∷ xs) ys = omega (arith, length-append xs ys)

  pub take-append : (xs ys : List A) → take (length xs) (xs ++ ys) ≡ xs
  take-append [] ys = refl
  take-append (x ∷ xs) ys = ap (λ t. x ∷ t) (take-append xs ys)

  pub drop-append : (xs ys : List A) → drop (length xs) (xs ++ ys) ≡ ys
  drop-append [] ys = refl
  drop-append (x ∷ xs) ys = drop-append xs ys

  pub take-append-drop : (n : ℕ) (xs : List A) → take n xs ++ drop n xs ≡ xs
  take-append-drop zero xs = refl
  take-append-drop (suc n) [] = refl
  take-append-drop (suc n) (x ∷ xs) = ap (λ t. x ∷ t) (take-append-drop n xs)

  take-length : (xs : List A) → take (length xs) xs ≡ xs
  take-length [] = refl
  take-length (x ∷ xs) = ap (λ t. x ∷ t) (take-length xs)

  length-take-le : (n : ℕ) (xs : List A) → length (take n xs) ≤ n
  length-take-le zero xs = omega arith
  length-take-le (suc n) [] = omega arith
  length-take-le (suc n) (x ∷ xs) = omega (arith, length-take-le n xs)

  pub length-drop : (n : ℕ) (xs : List A) → length (drop n xs) ≡ length xs - n
  length-drop zero xs = omega arith
  length-drop (suc n) [] = omega arith
  length-drop (suc n) (x ∷ xs) = omega (arith, length-drop n xs)

  -- Predicates on every element, as a type and as a test.
  abbrev pub All {κ} : (A → Type κ) → List A → Type κ
  All P [] = Unit
  All P (x ∷ xs) = P x × All P xs

  abbrev pub all : (A → Bool) → List A → Bool
  all p [] = true
  all p (x ∷ xs) = p x && all p xs

  abbrev pub any : (A → Bool) → List A → Bool
  any p [] = false
  any p (x ∷ xs) = p x || any p xs

  abbrev pub filter : (A → Bool) → List A → List A
  filter p [] = []
  filter p (x ∷ xs) = if p x then x ∷ filter p xs else filter p xs

  abbrev pub find : (A → Bool) → List A → Option A
  find p [] = none
  find p (x ∷ xs) = if p x then some x else find p xs

  pub All-append {κ} : (P : A → Type κ) (xs ys : List A) → All P xs → All P ys → All P (xs ++ ys)
  All-append P [] ys h k = k
  All-append P (x ∷ xs) ys (h, hs) k = (h, All-append P xs ys hs k)

  pub All-map {κ μ} :
      {P : A → Type κ} {Q : A → Type μ} (xs : List A) → ((a : A) → P a → Q a) → All P xs → All Q xs
  All-map [] f h = tt
  All-map (x ∷ xs) f (h, hs) = (f x h, All-map xs f hs)

  pub All-filter {κ} :
      (P : A → Type κ) (p : A → Bool) (xs : List A) → All P xs → All P (filter p xs)
  All-filter P p [] h = tt
  All-filter P p (x ∷ xs) (h, hs) = elim (Bool-cases (p x)) [
    | inl kept ↦ rw kept (h, All-filter P p xs hs)
    | inr gone ↦ rw gone (All-filter P p xs hs)
  ]

  pub All-split {κ} : (P : A → Type κ) (xs ys : List A) → All P (xs ++ ys) → All P xs × All P ys
  All-split P [] ys h = (tt, h)
  All-split P (x ∷ xs) ys (h, hs) = let (front, back) = All-split P xs ys hs in ((h, front), back)

  pub All-parts {κ} :
      (P : A → Type κ) (p : A → Bool) (xs : List A)
      → All P (filter p xs)
      → All P (filter (λ x. not (p x)) xs)
      → All P xs
  All-parts P p [] h k = tt
  All-parts P p (x ∷ xs) h k = elim (Bool-cases (p x)) [
    | inl yes' ↦
        let h' : P x × All P (filter p xs) = rw yes' at h in
        let k' : All P (filter (λ x. not (p x)) xs) = rw yes' at k in
        (h'.0, All-parts P p xs h'.1 k')
    | inr no' ↦
        let h' : All P (filter p xs) = rw no' at h in
        let k' : P x × All P (filter (λ x. not (p x)) xs) = rw no' at k in
        (k'.0, All-parts P p xs h' k'.1)
  ]

  pub find_sound : (p : A → Bool) (xs : List A) (a : A) → find p xs ≡ some a → p a ≡ true
  find_sound p [] a h = cc
  find_sound p (x ∷ xs) a h = ground (arith, find_sound p xs a)

  length-filter-le : (p : A → Bool) (xs : List A) → length (filter p xs) ≤ length xs
  length-filter-le p [] = omega arith
  length-filter-le p (x ∷ xs) = ground (arith, length-filter-le p xs)

module _ {ℓ} {A : Type ℓ} ⦃e : Equality A⦄ where
  -- `Array.prototype.includes`, `Set.prototype.has`.
  unfoldable pub includes : List A → A → Bool
  includes [] a = false
  includes (x ∷ xs) a = x == a || includes xs a

  pub includes-filter :
      (p : A → Bool) (xs : List A) (a : A) → includes (filter p xs) a ≡ (includes xs a && p a)
  unfolding includes
  includes-filter p [] a = refl
  includes-filter p (x ∷ xs) a = elim (Bool-cases (e.test x a)) [
    | inl same ↦
        rw (← (e.test_iff x a).0 same)
          (ground (arith, includes-filter p xs x, (e.test_iff x x).1 refl))
    | inr other ↦ ground (arith, includes-filter p xs a)
  ]

  pub includes-append :
      (xs ys : List A) (a : A) → includes (xs ++ ys) a ≡ (includes xs a || includes ys a)
  unfolding includes
  includes-append [] ys a = refl
  includes-append (x ∷ xs) ys a = ground (arith, includes-append xs ys a)

  -- A property of every element holds of one that the list includes.
  All-includes {κ} : (P : A → Type κ) (xs : List A) (a : A) → All P xs → includes xs a ≡ true → P a
  unfolding includes
  All-includes P [] a h m = absurd (cc)
  All-includes P (x ∷ xs) a (h, hs) m = elim (Bool-cases (e.test x a)) [
    | inl same ↦ rw (← (e.test_iff x a).0 same) h
    | inr other ↦ All-includes P xs a hs (rw other at m)
  ]

  -- `if (!seen.includes(x)) seen.push(x)`, `seen.add(x)`.
  abbrev pub add_unique : List A → A → List A
  add_unique seen x = if includes seen x then seen else seen ++ x ∷ []

  pub includes-add_unique :
      (seen : List A) (x a : A) → includes (add_unique seen x) a ≡ (includes seen a || x == a)
  unfolding includes
  includes-add_unique seen x a = elim (Bool-cases (includes seen x)) [
    | inl old ↦ rw old (elim (Bool-cases (e.test x a)) [
      | inl same ↦ rw (same, ← (e.test_iff x a).0 same, old) refl
      | inr ne ↦ rw ne (ground arith)
    ])
    | inr new ↦ rw (new, includes-append seen (x ∷ []) a) (ground arith)
  ]

  -- `[...new Set(xs)]`: the first occurrences, in order; `seen` holds what came before.
  unfoldable pub dedup_from : List A → List A → List A
  dedup_from seen [] = seen
  dedup_from seen (x ∷ xs) = dedup_from (add_unique seen x) xs

  unfoldable pub dedup : List A → List A
  dedup xs = dedup_from [] xs

  includes-dedup_from :
      (seen xs : List A) (a : A)
      → includes (dedup_from seen xs) a ≡ (includes seen a || includes xs a)
  unfolding dedup_from includes
  includes-dedup_from seen [] a = ||-false (includes seen a)
  includes-dedup_from seen (x ∷ xs) a =
      includes-dedup_from (add_unique seen x) xs a
      ∙ ap (λ b. b || includes xs a) (includes-add_unique seen x a)
      ∙ ||-assoc (includes seen a) (e.test x a) (includes xs a)

  pub includes-dedup : (xs : List A) (a : A) → includes (dedup xs) a ≡ includes xs a
  unfolding dedup includes
  includes-dedup xs a = includes-dedup_from [] xs a
