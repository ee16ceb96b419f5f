-- ===== src/Service/Store/Ledger.antt =====
-- The publish ledger of src/service/ledger.js: what `getLedger` gives of a version.
use omp_spec_kit.Prelude.{
  ℕ, ◌≤◌, Text, text_beq, Bool, true, false, ◌&&◌, ltb, ◌≡◌, refl, sym, ap, ◌∙◌, List, [], ◌∷◌,
  filter, All, All-map, arith, Bool-cases, inl, inr,
}
use omp_spec_kit.Service.Store.{
  Store, LedgerRow, is_version, insert_newest, sort_newest, get_ledger,
}

-- The rows of a version that `getLedger` gives of a specification.
abbrev pub served : Text → Text → Store → List LedgerRow
served key version s = filter (λ row. text_beq row.version version) (get_ledger key s)

-- The newest first.
abbrev IsSorted : List LedgerRow → Type 0
IsSorted [] = Unit
IsSorted (row ∷ rows) = All (λ r. r.published_at ≤ row.published_at) rows × IsSorted rows

insert_newest-first :
    (x : LedgerRow) (rows : List LedgerRow)
    → All (λ r. r.published_at ≤ x.published_at) rows
    → insert_newest x rows ≡ x ∷ rows
unfolding insert_newest
insert_newest-first x [] h = refl
insert_newest-first x (r ∷ rows) (h, hs) =
    let old : ltb x.published_at r.published_at ≡ false = ground arith in rw old refl

All-insert_newest :
    (n : ℕ) (x : LedgerRow) (rows : List LedgerRow)
    → x.published_at ≤ n
    → All (λ r. r.published_at ≤ n) rows
    → All (λ r. r.published_at ≤ n) (insert_newest x rows)
unfolding insert_newest
All-insert_newest n x [] h hs = (h, tt)
All-insert_newest n x (r ∷ rows) h (k, ks) = elim (Bool-cases (ltb x.published_at r.published_at)) [
  | inl older ↦ rw older (k, All-insert_newest n x rows h ks)
  | inr newer ↦ rw newer (h, (k, ks))
]

insert_newest-IsSorted :
    (x : LedgerRow) (rows : List LedgerRow) → IsSorted rows → IsSorted (insert_newest x rows)
unfolding insert_newest
insert_newest-IsSorted x [] h = (tt, tt)
insert_newest-IsSorted x (r ∷ rows) (h, hs) =
    elim (Bool-cases (ltb x.published_at r.published_at)) [
      | inl older ↦ rw older (
        All-insert_newest r.published_at x rows (ground arith) h,
        insert_newest-IsSorted x rows hs,
      )
      | inr newer ↦
          let le : r.published_at ≤ x.published_at = ground arith in
          rw newer ((le, All-map rows (λ q k. omega arith) h), (h, hs))
    ]

sort_newest-IsSorted : (rows : List LedgerRow) → IsSorted (sort_newest rows)
unfolding sort_newest
sort_newest-IsSorted [] = tt
sort_newest-IsSorted (r ∷ rows) =
    insert_newest-IsSorted r (sort_newest rows) (sort_newest-IsSorted rows)

module _ (p : LedgerRow → Bool) where
  All-kept :
      (n : ℕ) (rows : List LedgerRow)
      → All (λ r. r.published_at ≤ n) rows
      → All (λ r. r.published_at ≤ n) (filter p rows)
  All-kept n [] h = tt
  All-kept n (r ∷ rows) (h, hs) = elim (Bool-cases (p r)) [
    | inl kept ↦ rw kept (h, All-kept n rows hs)
    | inr gone ↦ rw gone (All-kept n rows hs)
  ]

  filter-insert_gone :
      (x : LedgerRow) (rows : List LedgerRow)
      → p x ≡ false
      → filter p (insert_newest x rows) ≡ filter p rows
  unfolding insert_newest
  filter-insert_gone x [] h = rw h refl
  filter-insert_gone x (r ∷ rows) h = elim (Bool-cases (ltb x.published_at r.published_at)) [
    | inl older ↦ rw (older, filter-insert_gone x rows h) refl
    | inr newer ↦ rw (newer, h) refl
  ]

  filter-insert_kept :
      (x : LedgerRow) (rows : List LedgerRow)
      → p x ≡ true
      → IsSorted rows
      → filter p (insert_newest x rows) ≡ insert_newest x (filter p rows)
  unfolding insert_newest
  filter-insert_kept x [] h hs = rw h refl
  filter-insert_kept x (r ∷ rows) h (k, ks) =
      elim (Bool-cases (ltb x.published_at r.published_at)) [
        | inl older ↦ rw older (elim (Bool-cases (p r)) [
          | inl kept ↦ rw (kept, older, filter-insert_kept x rows h ks) refl
          | inr gone ↦ rw gone (filter-insert_kept x rows h ks)
        ])
        | inr newer ↦
            let le : r.published_at ≤ x.published_at = ground arith in
            rw (newer, h)
              (sym (
                insert_newest-first x (filter p (r ∷ rows))
                  (All-kept x.published_at (r ∷ rows) (le, All-map rows (λ q j. omega arith) k))))
      ]

  filter-sort_newest :
      (rows : List LedgerRow) → filter p (sort_newest rows) ≡ sort_newest (filter p rows)
  unfolding sort_newest
  filter-sort_newest [] = refl
  filter-sort_newest (r ∷ rows) = elim (Bool-cases (p r)) [
    | inl kept ↦ rw kept (
        filter-insert_kept r (sort_newest rows) kept (sort_newest-IsSorted rows)
        ∙ ap (insert_newest r) (filter-sort_newest rows))
    | inr gone ↦ rw gone (filter-insert_gone r (sort_newest rows) gone ∙ filter-sort_newest rows)
  ]

filter-filter {ℓ} :
    {A : Type ℓ} (p q : A → Bool) (xs : List A)
    → filter q (filter p xs) ≡ filter (λ x. p x && q x) xs
filter-filter p q [] = refl
filter-filter p q (x ∷ xs) = ground (arith, filter-filter p q xs)

-- What is given of a version is the sorted list of its rows.
pub served-eq-sort :
    (key version : Text) (s : Store)
    → served key version s ≡ sort_newest (filter (is_version key version) s.ledger)
unfolding get_ledger
served-eq-sort key version s =
    filter-sort_newest (λ row. text_beq row.version version) _
    ∙ ap sort_newest (filter-filter _ _ s.ledger)
