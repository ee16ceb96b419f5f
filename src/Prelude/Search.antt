-- ===== src/Prelude/Search.antt =====
-- The search of one text in another, and the stable sort of a list.
use omp_spec_kit.Prelude.Tests.{Bool-cases, if◌then◌else◌, nat_beq}
use omp_spec_kit.Prelude.Lists.{length, length-append, All, drop}
use omp_spec_kit.Prelude.Texts.{
  Text, Free, starts_with, strip_prefix, strip_prefix-append, strip_prefix-eq-some,
}
use Prim.Native.Nat.{ℕ, suc, ◌+◌, ◌≤◌}
use mathlib.Core.Path.{◌≡◌, refl, ap, sym, ◌∙◌}
use mathlib.Core.Logic.{inl, inr}
use mathlib.Core.Bool.{Bool, true, false}
use mathlib.Core.Option
use mathlib.Core.Option.{Option, none, some}
use mathlib.Core.List.{List, [], ◌∷◌, ◌++◌, append_assoc, reverse}
use native.Mathlib.Omega.{arith}

-- `text.indexOf(part)`; `none` is -1.
unfoldable pub index_of_text : Text → Text → Option ℕ
index_of_text part [] = if starts_with [] part then some 0 else none
index_of_text part (c ∷ cs) =
    if starts_with (c ∷ cs) part then some 0 else Option.map suc (index_of_text part cs)

-- `text.indexOf(part, start)` for a start within the text.
unfoldable pub index_of_text_from : Text → Text → ℕ → Option ℕ
index_of_text_from part t start = Option.map (λ i. start + i) (index_of_text part (drop start t))

-- `text.includes(part)`.
abbrev pub contains_text : Text → Text → Bool
contains_text t part = elim (index_of_text part t) [ none ↦ false | some _ ↦ true ]

starts_with-append : (part rest : Text) → starts_with (part ++ rest) part ≡ true
unfolding starts_with
starts_with-append part rest = rw (strip_prefix-append part rest, starts_with) refl

pub starts_with-eq-append :
    (t part : Text) → starts_with t part ≡ true → (rest : Text) × (t ≡ part ++ rest)
unfolding starts_with
starts_with-eq-append t part h =
    elim (strip_prefix part t)
        as (λ r. strip_prefix part t ≡ r → (rest : Text) × (t ≡ part ++ rest)) [
          | none ↦ λ e. absurd (let h' : false ≡ true = rw (e, starts_with) at h in cc)
          | some rest ↦ λ e. (rest, strip_prefix-eq-some part t rest e)
        ]
      refl

-- A part that is found splits the text.
pub index_of_text_sound :
    (part t : Text) (i : ℕ)
    → index_of_text part t ≡ some i
    → (front rest : Text) × (t ≡ front ++ (part ++ rest)) × (i ≡ length front)
unfolding index_of_text
index_of_text_sound part [] i h = elim (Bool-cases (starts_with [] part)) [
  | inl found ↦
      let (rest, split) = starts_with-eq-append [] part found in
      ([], rest, split, (let h' : some 0 ≡ some i = rw found at h in cc))
  | inr other ↦ absurd (let h' : none ≡ some i = rw other at h in cc)
]
index_of_text_sound part (c ∷ cs) i h = elim (Bool-cases (starts_with (c ∷ cs) part)) [
  | inl found ↦
      let (rest, split) = starts_with-eq-append (c ∷ cs) part found in
      ([], rest, split, (let h' : some 0 ≡ some i = rw found at h in cc))
  | inr other ↦
      let h' : Option.map suc (index_of_text part cs) ≡ some i = rw other at h in
      let (j, e, next) = (Option.map-eq-some_iff _ _).0 h' in
      let (front, rest, split, here) = index_of_text_sound part cs j e in
      (c ∷ front, rest, ap (λ u. c ∷ u) split, sym next ∙ ap suc here)
]

starts_with-agree :
    (part a x y : Text)
    → length part ≤ length a
    → starts_with (a ++ x) part ≡ starts_with (a ++ y) part
unfolding starts_with strip_prefix
starts_with-agree [] a x y h = refl
starts_with-agree (p ∷ part) [] x y h = absurd (omega arith)
starts_with-agree (p ∷ part) (c ∷ a) x y h = elim (Bool-cases (nat_beq p c)) [
  | inl same ↦ rw (same, starts_with, strip_prefix) (starts_with-agree part a x y (omega arith))
  | inr other ↦ rw (other, starts_with, strip_prefix) refl
]

starts_with-past :
    (part a x y : Text) → starts_with (a ++ (part ++ x)) part ≡ starts_with (a ++ (part ++ y)) part
starts_with-past part a x y =
    rw (← append_assoc a part x, ← append_assoc a part y)
      (starts_with-agree part (a ++ part) x y (omega (arith, length-append a part)))

pub index_of_text-start : (part rest : Text) → index_of_text part (part ++ rest) ≡ some 0
unfolding index_of_text starts_with strip_prefix
index_of_text-start [] [] = refl
index_of_text-start [] (c ∷ rest) = refl
index_of_text-start (p ∷ part) rest = rw (starts_with-append (p ∷ part) rest) refl

-- Where a part is found first does not depend on what follows it.
pub index_of_text-agree :
    (part front x y : Text)
    → index_of_text part (front ++ (part ++ x)) ≡ some (length front)
    → index_of_text part (front ++ (part ++ y)) ≡ some (length front)
unfolding index_of_text
index_of_text-agree part [] x y h = index_of_text-start part y
index_of_text-agree part (c ∷ front) x y h =
    elim (Bool-cases (starts_with (c ∷ (front ++ (part ++ x))) part)) [
      | inl found ↦
          absurd (let h' : some 0 ≡ some (suc (length front)) = rw found at h in ground arith)
      | inr other ↦
          let h' : Option.map suc (index_of_text part (front ++ (part ++ x)))
              ≡ some (suc (length front)) =
            rw other at h in
          let (j, e, next) = (Option.map-eq-some_iff _ _).0 h' in
          let e' : index_of_text part (front ++ (part ++ x)) ≡ some (length front) =
            ground (arith, e, next) in
          let same : starts_with (c ∷ (front ++ (part ++ y))) part ≡ false =
            starts_with-past part (c ∷ front) y x ∙ other in
          rw (same, index_of_text-agree part front x y e') refl
    ]

pub index_of_text-drop :
    (part front rest : Text)
    → index_of_text part (front ++ rest) ≡ none
    → index_of_text part rest ≡ none
unfolding index_of_text
index_of_text-drop part [] rest h = h
index_of_text-drop part (c ∷ front) rest h =
    elim (Bool-cases (starts_with (c ∷ (front ++ rest)) part)) [
      | inl found ↦ absurd (let h' : some 0 ≡ none = rw found at h in cc)
      | inr other ↦
          index_of_text-drop part front rest ((Option.map-eq-none_iff _ _).0 (rw other at h))
    ]

map-zero : (o : Option ℕ) → o ≡ Option.map (λ i. 0 + i) o
map-zero none = refl
map-zero (some i) = ap some (omega arith)

map-suc :
    (n : ℕ) (o : Option ℕ)
    → Option.map suc (Option.map (λ i. n + i) o) ≡ Option.map (λ i. suc n + i) o
map-suc n none = refl
map-suc n (some i) = ap some (omega arith)

-- A part that begins with a code unit is found after a text without that unit as if that were not there.
pub index_of_text-Free :
    (ch : ℕ) (part front rest : Text)
    → Free ch front
    → index_of_text (ch ∷ part) (front ++ rest)
      ≡ Option.map (λ i. length front + i) (index_of_text (ch ∷ part) rest)
unfolding index_of_text starts_with strip_prefix
index_of_text-Free ch part [] rest h = map-zero (index_of_text (ch ∷ part) rest)
index_of_text-Free ch part (c ∷ front) rest (h, hs) =
    let miss : nat_beq ch c ≡ false = ground (arith, h) in
    let skip : starts_with (c ∷ (front ++ rest)) (ch ∷ part) ≡ false =
      rw (miss, starts_with, strip_prefix) refl in
    rw (skip, index_of_text-Free ch part front rest hs)
      (map-suc (length front) (index_of_text (ch ∷ part) rest))

-- `list.sort(compare)`, which is stable: `leads x y` says that `compare(x, y)` is not positive.
module _ {ℓ} {A : Type ℓ} (leads : A → A → Bool) where
  unfoldable pub insert_sorted : A → List A → List A
  insert_sorted x [] = x ∷ []
  insert_sorted x (y ∷ ys) =
      let rest = insert_sorted x ys in if leads x y then x ∷ y ∷ ys else y ∷ rest

  unfoldable pub sort_by : List A → List A
  sort_by [] = []
  sort_by (x ∷ xs) = insert_sorted x (sort_by xs)

  All-insert_sorted {κ} :
      (P : A → Type κ) (x : A) (ys : List A) → P x → All P ys → All P (insert_sorted x ys)
  unfolding insert_sorted
  All-insert_sorted P x [] h hs = (h, tt)
  All-insert_sorted P x (y ∷ ys) h (k, ks) = elim (Bool-cases (leads x y)) [
    | inl first ↦ rw first (h, (k, ks))
    | inr later ↦ rw later (k, All-insert_sorted P x ys h ks)
  ]

  -- What holds of every element holds of every element of the sorted list.
  pub All-sort_by {κ} : (P : A → Type κ) (xs : List A) → All P xs → All P (sort_by xs)
  unfolding sort_by
  All-sort_by P [] h = tt
  All-sort_by P (x ∷ xs) (h, hs) = All-insert_sorted P x (sort_by xs) h (All-sort_by P xs hs)

  length-insert_sorted : (x : A) (ys : List A) → length (insert_sorted x ys) ≡ suc (length ys)
  unfolding insert_sorted
  length-insert_sorted x [] = refl
  length-insert_sorted x (y ∷ ys) = elim (Bool-cases (leads x y)) [
    | inl first ↦ rw first refl
    | inr later ↦ rw later (ap suc (length-insert_sorted x ys))
  ]

  length-sort_by : (xs : List A) → length (sort_by xs) ≡ length xs
  unfolding sort_by
  length-sort_by [] = refl
  length-sort_by (x ∷ xs) = length-insert_sorted x (sort_by xs) ∙ ap suc (length-sort_by xs)

-- `text.split(separator)` for a separator of one code unit.
abbrev onto_first : ℕ → List Text → List Text
onto_first c [] = (c ∷ []) ∷ []
onto_first c (part ∷ parts) = (c ∷ part) ∷ parts

unfoldable pub split_on : ℕ → Text → List Text
split_on ch [] = [] ∷ []
split_on ch (c ∷ cs) =
    let rest = split_on ch cs in if nat_beq c ch then [] ∷ rest else onto_first c rest

-- `parts.join(separator)`.
unfoldable pub join_with : Text → List Text → Text
join_with separator [] = []
join_with separator (part ∷ []) = part
join_with separator (part ∷ (next ∷ parts)) =
    part ++ (separator ++ join_with separator (next ∷ parts))

-- `text.lastIndexOf(ch)` for one code unit.
unfoldable pub last_index_of : ℕ → Text → Option ℕ
last_index_of ch [] = none
last_index_of ch (c ∷ cs) = elim (last_index_of ch cs) [
  | some i ↦ some (suc i)
  | none ↦ if nat_beq c ch then some 0 else none
]

-- `text.endsWith(part)`.
abbrev pub ends_with : Text → Text → Bool
ends_with t part = starts_with (reverse t) (reverse part)
