-- ===== src/Service/Claims/Table.antt =====
-- The table of claims as a map from keys, and its invariant.
use omp_spec_kit.Prelude.{
  Text, text_beq, text_beq_iff, Bool, not, ◌≡◌, ◌≢◌, refl, sym, ◌∙◌, none, some, List, [], ◌∷◌,
  find, filter, All, All-filter, arith, Bool-cases, inl, inr, if◌then◌else◌,
}
use omp_spec_kit.Service.Store.{
  Store, ClaimRow, upsert, claim_has_key, get_claim, put_claim, delete_claim,
}

-- Each key has one row.
abbrev pub HasDistinctKeys : List ClaimRow → Type 0
HasDistinctKeys [] = Unit
HasDistinctKeys (row ∷ rows) = All (λ r. r.spec_key ≢ row.spec_key) rows × HasDistinctKeys rows

find-upsert_claim :
    (row : ClaimRow) (k : Text) (rows : List ClaimRow)
    → find (claim_has_key k) (upsert (claim_has_key row.spec_key) (λ old. row) row rows)
      ≡ (if text_beq row.spec_key k then some row else find (claim_has_key k) rows)
unfolding upsert
find-upsert_claim row k [] = refl
find-upsert_claim row k (r ∷ rows) = ground (
  arith,
  text_beq_iff r.spec_key row.spec_key,
  text_beq_iff r.spec_key k,
  text_beq_iff row.spec_key k,
  find-upsert_claim row k rows,
)

pub get_claim-put_claim :
    (row : ClaimRow) (k : Text) (s : Store)
    → get_claim k (put_claim row s) ≡ (if text_beq row.spec_key k then some row else get_claim k s)
unfolding get_claim put_claim
get_claim-put_claim row k s = find-upsert_claim row k s.claims

find-without_claim :
    (key k : Text) (rows : List ClaimRow)
    → find (claim_has_key k) (filter (λ row. not (claim_has_key key row)) rows)
      ≡ (if text_beq key k then none else find (claim_has_key k) rows)
find-without_claim key k [] = ground arith
find-without_claim key k (r ∷ rows) = ground (
  arith,
  text_beq_iff r.spec_key key,
  text_beq_iff r.spec_key k,
  text_beq_iff key k,
  find-without_claim key k rows,
)

pub get_claim-delete_claim :
    (key k : Text) (s : Store)
    → get_claim k (delete_claim key s) ≡ (if text_beq key k then none else get_claim k s)
unfolding get_claim delete_claim
get_claim-delete_claim key k s = find-without_claim key k s.claims

All-upsert {κ} :
    (P : ClaimRow → Type κ) (same : ClaimRow → Bool) (row : ClaimRow) (rows : List ClaimRow)
    → P row
    → All P rows
    → All P (upsert same (λ old. row) row rows)
unfolding upsert
All-upsert P same row [] p h = (p, tt)
All-upsert P same row (r ∷ rows) p (h, hs) = elim (Bool-cases (same r)) [
  | inl here ↦ rw here (p, hs)
  | inr later ↦ rw later (h, All-upsert P same row rows p hs)
]

upsert-HasDistinctKeys :
    (row : ClaimRow) (rows : List ClaimRow)
    → HasDistinctKeys rows
    → HasDistinctKeys (upsert (claim_has_key row.spec_key) (λ old. row) row rows)
unfolding upsert
upsert-HasDistinctKeys row [] h = (tt, tt)
upsert-HasDistinctKeys row (r ∷ rows) (h, hs) =
    elim (Bool-cases (text_beq r.spec_key row.spec_key)) [
      | inl same ↦ rw same (rw (← (text_beq_iff _ _).0 same) h, hs)
      | inr other ↦ rw other (
        All-upsert (λ x. x.spec_key ≢ r.spec_key) (claim_has_key row.spec_key) row rows
            (λ e. ground (arith, text_beq_iff r.spec_key row.spec_key)) h,
        upsert-HasDistinctKeys row rows hs,
      )
    ]

filter-HasDistinctKeys :
    (p : ClaimRow → Bool) (rows : List ClaimRow)
    → HasDistinctKeys rows
    → HasDistinctKeys (filter p rows)
filter-HasDistinctKeys p [] h = tt
filter-HasDistinctKeys p (r ∷ rows) (h, hs) = elim (Bool-cases (p r)) [
  | inl kept ↦ rw kept (All-filter _ p rows h, filter-HasDistinctKeys p rows hs)
  | inr gone ↦ rw gone (filter-HasDistinctKeys p rows hs)
]

pub put_claim-HasDistinctKeys :
    (row : ClaimRow) (s : Store)
    → HasDistinctKeys s.claims
    → HasDistinctKeys (put_claim row s).claims
unfolding put_claim
put_claim-HasDistinctKeys row s h = upsert-HasDistinctKeys row s.claims h

pub delete_claim-HasDistinctKeys :
    (key : Text) (s : Store)
    → HasDistinctKeys s.claims
    → HasDistinctKeys (delete_claim key s).claims
unfolding delete_claim
delete_claim-HasDistinctKeys key s h = filter-HasDistinctKeys _ s.claims h

-- With distinct keys the row that is found is the only one of its key.
rows_of_key :
    (k : Text) (row : ClaimRow) (rows : List ClaimRow)
    → HasDistinctKeys rows
    → find (claim_has_key k) rows ≡ some row
    → All (λ r. r.spec_key ≡ k → r ≡ row) rows
rows_of_key k row [] h e = tt
rows_of_key k row (r ∷ rows) (h, hs) e = elim (Bool-cases (text_beq r.spec_key k)) [
  | inl same ↦
      let here : r ≡ row = ground arith in
      ((λ _. here), others r.spec_key rows h ((text_beq_iff _ _).0 same))
  | inr other ↦ (
    (λ e'. absurd (ground (arith, text_beq_iff r.spec_key k))),
    rows_of_key k row rows hs (rw other at e),
  )
]
  where
    others :
        (key : Text) (rs : List ClaimRow)
        → All (λ x. x.spec_key ≢ key) rs
        → key ≡ k
        → All (λ x. x.spec_key ≡ k → x ≡ row) rs
    others key [] _ _ = tt
    others key (x ∷ xs) (ne, nes) same =
        ((λ e'. absurd (ne (e' ∙ sym same))), others key xs nes same)

pub get_claim-only :
    (k : Text) (row : ClaimRow) (s : Store)
    → HasDistinctKeys s.claims
    → get_claim k s ≡ some row
    → All (λ r. r.spec_key ≡ k → r ≡ row) s.claims
unfolding get_claim
get_claim-only k row s h e = rows_of_key k row s.claims h e
