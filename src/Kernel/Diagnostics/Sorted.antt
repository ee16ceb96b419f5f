-- ===== src/Kernel/Diagnostics/Sorted.antt =====
-- The order that `sortDiagnostics` gives.
use omp_spec_kit.Prelude.{
  ℕ, suc, ◌≤◌, Bool, true, false, ◌≡◌, refl, ap, ◌∙◌, List, [], ◌∷◌, length, filter, sort_by,
  insert_sorted, arith, Bool-cases, inl, inr, ltb, All,
}
use omp_spec_kit.Kernel.Types.{Severity, error, warning, info}
use omp_spec_kit.Kernel.Normalize.{Order, order_of}
use omp_spec_kit.Kernel.Diagnostics.{
  Diagnostic, severity_rank, compare_diagnostics, compare_details, is_not_after, and_then,
  sort_diagnostics,
}

-- The ranks ascend from the bound.
unfoldable RanksFrom : ℕ → List Diagnostic → Type 0
RanksFrom n [] = Unit
RanksFrom n (d ∷ ds) = (n ≤ severity_rank d.severity) × RanksFrom (severity_rank d.severity) ds

leads-le : (m n : ℕ) (rest : Order) → is_not_after (and_then (order_of m n) rest) ≡ true → m ≤ n
leads-le m n rest h = elim (Bool-cases (ltb m n)) [
  | inl less ↦ ground arith
  | inr other ↦ elim (Bool-cases (ltb n m)) [
    | inl more ↦ absurd (let h' : false ≡ true = rw (other, more) at h in cc)
    | inr even ↦ ground arith
  ]
]

follows-le : (m n : ℕ) (rest : Order) → is_not_after (and_then (order_of m n) rest) ≡ false → n ≤ m
follows-le m n rest h = elim (Bool-cases (ltb m n)) [
  | inl less ↦ absurd (let h' : true ≡ false = rw less at h in cc)
  | inr other ↦ ground arith
]

abbrev leads : Diagnostic → Diagnostic → Bool
leads a b = is_not_after (compare_diagnostics a b)

insert-RanksFrom :
    (n : ℕ) (x : Diagnostic) (ys : List Diagnostic)
    → n ≤ severity_rank x.severity
    → RanksFrom n ys
    → RanksFrom n (insert_sorted leads x ys)
unfolding RanksFrom insert_sorted
insert-RanksFrom n x [] h hs = (h, tt)
insert-RanksFrom n x (y ∷ ys) h (k, ks) = elim (Bool-cases (leads x y)) [
  | inl first ↦ rw first (
    h,
    (
      leads-le (severity_rank x.severity) (severity_rank y.severity) (compare_details x y) first,
      ks,
    ),
  )
  | inr later ↦ rw later (
    k,
    insert-RanksFrom (severity_rank y.severity) x ys
        (follows-le (severity_rank x.severity) (severity_rank y.severity) (compare_details x y)
          later)
        ks,
  )
]

sort-RanksFrom : (ds : List Diagnostic) → RanksFrom 0 (sort_by leads ds)
unfolding RanksFrom sort_by
sort-RanksFrom [] = tt
sort-RanksFrom (d ∷ ds) = insert-RanksFrom 0 d (sort_by leads ds) (omega arith) (sort-RanksFrom ds)

abbrev count : (Diagnostic → Bool) → List Diagnostic → ℕ
count p ds = length (filter p ds)

count-cons :
    (p : Diagnostic → Bool) (x : Diagnostic) (xs ys : List Diagnostic)
    → count p xs ≡ count p ys
    → count p (x ∷ xs) ≡ count p (x ∷ ys)
count-cons p x xs ys e = elim (Bool-cases (p x)) [
  | inl here ↦ rw here (ap (λ n. suc n) e)
  | inr other ↦ rw other e
]

count-swap :
    (p : Diagnostic → Bool) (x y : Diagnostic) (ds : List Diagnostic)
    → count p (x ∷ y ∷ ds) ≡ count p (y ∷ x ∷ ds)
count-swap p x y ds = ground arith

count-insert :
    (p : Diagnostic → Bool) (x : Diagnostic) (ys : List Diagnostic)
    → count p (insert_sorted leads x ys) ≡ count p (x ∷ ys)
unfolding insert_sorted
count-insert p x [] = refl
count-insert p x (y ∷ ys) = elim (Bool-cases (leads x y)) [
  | inl first ↦ rw first refl
  | inr later ↦ rw later (
      count-cons p y (insert_sorted leads x ys) (x ∷ ys) (count-insert p x ys)
      ∙ count-swap p y x ys)
]

count-sort :
    (p : Diagnostic → Bool) (ds : List Diagnostic) → count p (sort_by leads ds) ≡ count p ds
unfolding sort_by
count-sort p [] = refl
count-sort p (d ∷ ds) =
    count-insert p d (sort_by leads ds) ∙ count-cons p d (sort_by leads ds) ds (count-sort p ds)

-- What may stand after a diagnostic: anything after an error, no error after a warning, and notes alone
-- after a note.
abbrev pub MayFollow : Severity → Severity → Type 0
MayFollow error later = Unit
MayFollow warning error = ⊥
MayFollow warning later = Unit
MayFollow info info = Unit
MayFollow info later = ⊥

abbrev pub IsBySeverity : List Diagnostic → Type 0
IsBySeverity [] = Unit
IsBySeverity (d ∷ ds) = All (λ later. MayFollow d.severity later.severity) ds × IsBySeverity ds

rank-MayFollow : (a b : Severity) → severity_rank a ≤ severity_rank b → MayFollow a b
rank-MayFollow error b h = tt
rank-MayFollow warning error h = absurd (omega arith)
rank-MayFollow warning warning h = tt
rank-MayFollow warning info h = tt
rank-MayFollow info error h = absurd (omega arith)
rank-MayFollow info warning h = absurd (omega arith)
rank-MayFollow info info h = tt

RanksFrom-all :
    (s : Severity) (n : ℕ) (ds : List Diagnostic)
    → severity_rank s ≤ n
    → RanksFrom n ds
    → All (λ later. MayFollow s later.severity) ds
unfolding RanksFrom
RanksFrom-all s n [] le h = tt
RanksFrom-all s n (d ∷ ds) le (first, rest) = (
  rank-MayFollow s d.severity (omega arith),
  RanksFrom-all s (severity_rank d.severity) ds (omega arith) rest,
)

RanksFrom-IsBySeverity : (n : ℕ) (ds : List Diagnostic) → RanksFrom n ds → IsBySeverity ds
unfolding RanksFrom
RanksFrom-IsBySeverity n [] h = tt
RanksFrom-IsBySeverity n (d ∷ ds) (first, rest) = (
  RanksFrom-all d.severity (severity_rank d.severity) ds (omega arith) rest,
  RanksFrom-IsBySeverity (severity_rank d.severity) ds rest,
)

-- In sorted diagnostics no error stands after a warning or a note and no warning after a note, and as many
-- diagnostics pass any test as before.
pub sort_diagnostics-IsBySeverity :
    (ds : List Diagnostic) (p : Diagnostic → Bool)
    → IsBySeverity (sort_diagnostics ds)
      × (length (filter p (sort_diagnostics ds)) ≡ length (filter p ds))
unfolding sort_diagnostics
sort_diagnostics-IsBySeverity ds p =
    (RanksFrom-IsBySeverity 0 _ (sort-RanksFrom ds), count-sort p ds)
