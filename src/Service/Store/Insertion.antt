-- ===== src/Service/Store/Insertion.antt =====
-- `insertLedgerIfAbsent` of src/service/ledger.js: a version that is recorded is immutable.
use omp_spec_kit.Prelude.{
  ℕ, Text, text_beq, text_beq_iff, text_beq_refl, Bool, true, false, not, ◌&&◌, ◌≡◌, refl, sym, ap,
  ◌∙◌, none, some, is_some, is_some-false, List, [], ◌∷◌, ◌++◌, find, filter, arith, Bool-cases,
  inl, inr, if◌then◌else◌, append-nil, &&-left, &&-right,
}
use omp_spec_kit.Service.Store.{
  Store, LedgerRow, LedgerEntry, is_version, new_row, insert_ledger_if_absent, insert_newest,
  sort_newest,
}
use omp_spec_kit.Service.Store.Ledger.{served, served-eq-sort}

find-append-none {ℓ} :
    {A : Type ℓ} (p : A → Bool) (xs : List A) (a : A)
    → find p (xs ++ a ∷ []) ≡ (elim (find p xs) [ none ↦ find p (a ∷ []) | some x ↦ some x ])
find-append-none p [] a = refl
find-append-none p (x ∷ xs) a = elim (Bool-cases (p x)) [
  | inl here ↦ rw here refl
  | inr later ↦ rw later (find-append-none p xs a)
]

find_fresh :
    (entry : LedgerEntry) (now : ℕ) (s : Store)
    → find (is_version entry.spec_key entry.version) s.ledger ≡ none
    → find (is_version entry.spec_key entry.version) (s.ledger ++ new_row entry now ∷ [])
      ≡ some (new_row entry now)
unfolding new_row
find_fresh entry now s h =
    rw (find-append-none (is_version entry.spec_key entry.version) s.ledger (new_row entry now), h)
      (ground (arith, text_beq_refl entry.spec_key, text_beq_refl entry.version))

-- An insertion keeps the row that is found for a version, and records the entry exactly if its version was
-- not recorded; it says which of both happened.
pub insert_ledger_if_absent_lem :
    (entry : LedgerEntry) (now : ℕ) (s : Store) (key version : Text)
    → ((row : LedgerRow)
        → find (is_version key version) s.ledger ≡ some row
        → find (is_version key version) (insert_ledger_if_absent entry now s).1.ledger ≡ some row)
      × ((insert_ledger_if_absent entry now s).0
          ≡ not (is_some (find (is_version entry.spec_key entry.version) s.ledger)))
      × ((insert_ledger_if_absent entry now s).0 ≡ true
          → find
              (is_version entry.spec_key entry.version)
              (insert_ledger_if_absent entry now s).1.ledger
            ≡ some (new_row entry now))
unfolding insert_ledger_if_absent
insert_ledger_if_absent_lem entry now s key version =
    elim (Bool-cases (is_some (find (is_version entry.spec_key entry.version) s.ledger))) [
      | inl known ↦ rw known ((λ row h. h), refl, (λ e. absurd (cc)))
      | inr fresh ↦ rw fresh (
        (λ row h.
            rw (find-append-none (is_version key version) s.ledger (new_row entry now), h) refl),
        refl,
        (λ e. find_fresh entry now s (is_some-false _ fresh)),
      )
    ]

abbrev pub is_empty {ℓ} : {A : Type ℓ} → List A → Bool
is_empty [] = true
is_empty (x ∷ xs) = false

is_empty-filter {ℓ} :
    {A : Type ℓ} (p : A → Bool) (xs : List A) → is_empty (filter p xs) ≡ not (is_some (find p xs))
is_empty-filter p [] = refl
is_empty-filter p (x ∷ xs) = elim (Bool-cases (p x)) [
  | inl here ↦ rw here refl
  | inr later ↦ rw later (is_empty-filter p xs)
]

is_empty-insert_newest :
    (x : LedgerRow) (rows : List LedgerRow) → is_empty (insert_newest x rows) ≡ false
unfolding insert_newest
is_empty-insert_newest x [] = refl
is_empty-insert_newest x (r ∷ rows) = ground arith

is_empty-sort_newest : (rows : List LedgerRow) → is_empty (sort_newest rows) ≡ is_empty rows
unfolding sort_newest
is_empty-sort_newest [] = refl
is_empty-sort_newest (r ∷ rows) = is_empty-insert_newest r (sort_newest rows)

pub is_empty-served :
    (key version : Text) (s : Store)
    → is_empty (served key version s) ≡ not (is_some (find (is_version key version) s.ledger))
is_empty-served key version s = rw (served-eq-sort key version s) (
    is_empty-sort_newest (filter (is_version key version) s.ledger)
    ∙ is_empty-filter (is_version key version) s.ledger)

filter-append {ℓ} :
    {A : Type ℓ} (p : A → Bool) (xs ys : List A) → filter p (xs ++ ys) ≡ filter p xs ++ filter p ys
filter-append p [] ys = refl
filter-append p (x ∷ xs) ys = elim (Bool-cases (p x)) [
  | inl here ↦ rw here (ap (λ t. x ∷ t) (filter-append p xs ys))
  | inr later ↦ rw later (filter-append p xs ys)
]

nil_of_empty {ℓ} : {A : Type ℓ} (xs : List A) → is_empty xs ≡ true → xs ≡ []
nil_of_empty [] h = refl
nil_of_empty (x ∷ xs) h = absurd (cc)

module _ (key version : Text) (s : Store) (row : LedgerRow) where
  served-append_other :
      is_version key version row ≡ false
      → served key version (record s { ledger = s.ledger ++ row ∷ [] }) ≡ served key version s
  served-append_other h =
      let alone : filter (is_version key version) (row ∷ []) ≡ [] = rw h refl in
      served-eq-sort key version (record s { ledger = s.ledger ++ row ∷ [] })
      ∙ ap sort_newest (
          filter-append (is_version key version) s.ledger (row ∷ [])
          ∙ ap (λ t. filter (is_version key version) s.ledger ++ t) alone
          ∙ append-nil (filter (is_version key version) s.ledger))
      ∙ sym (served-eq-sort key version s)

  served-append_first :
      is_version key version row ≡ true
      → is_some (find (is_version key version) s.ledger) ≡ false
      → served key version (record s { ledger = s.ledger ++ row ∷ [] }) ≡ row ∷ []
  unfolding sort_newest insert_newest
  served-append_first h fresh =
      let alone : filter (is_version key version) (row ∷ []) ≡ row ∷ [] = rw h refl in
      let before : filter (is_version key version) s.ledger ≡ [] =
        nil_of_empty _ (is_empty-filter (is_version key version) s.ledger ∙ ap not fresh) in
      served-eq-sort key version (record s { ledger = s.ledger ++ row ∷ [] })
      ∙ ap sort_newest (
          filter-append (is_version key version) s.ledger (row ∷ [])
          ∙ ap (λ t. t ++ filter (is_version key version) (row ∷ [])) before
          ∙ alone)

-- The row of an entry, written at the time.
abbrev pub row_of : LedgerEntry → ℕ → LedgerRow
row_of entry now = record {
  spec_key = entry.spec_key;
  version = entry.version;
  digest = entry.digest;
  commit_sha = entry.commit_sha;
  published_at = elim entry.published_at [ none ↦ now | some time ↦ time ];
  repo_url = entry.repo_url;
  repo_branch = entry.repo_branch;
}

abbrev pub is_for : LedgerEntry → Text → Text → Bool
is_for entry key version = text_beq entry.spec_key key && text_beq entry.version version

new_row-eq-row_of : (entry : LedgerEntry) (now : ℕ) → new_row entry now ≡ row_of entry now
unfolding new_row
new_row-eq-row_of entry now = ground arith

known_elsewhere :
    (entry : LedgerEntry) (key version : Text) (s : Store)
    → is_some (find (is_version entry.spec_key entry.version) s.ledger) ≡ true
    → (is_for entry key version && is_empty (served key version s)) ≡ false
known_elsewhere entry key version s known = elim (Bool-cases (is_for entry key version)) [
  | inr other ↦ rw other refl
  | inl here ↦
      let k : entry.spec_key ≡ key = (text_beq_iff _ _).0 (&&-left _ _ here) in
      let v : entry.version ≡ version = (text_beq_iff _ _).0 (&&-right _ _ here) in
      let found : is_some (find (is_version key version) s.ledger) ≡ true = rw (k, v) at known in
      rw (here, is_empty-served key version s, found) refl
]

-- An insertion records its version exactly if `getLedger` gave no row of it before, and says so. `getLedger`
-- then gives of that version the one row of the entry, whose time is the time of the call where the entry has
-- none; of every other version, and of a version that was recorded, it gives the rows that it gave before.
pub insert_ledger_if_absent-served :
    (entry : LedgerEntry) (now : ℕ) (s : Store) (key version : Text)
    → ((insert_ledger_if_absent entry now s).0 ≡ is_empty (served entry.spec_key entry.version s))
      × (served key version (insert_ledger_if_absent entry now s).1 ≡ (
          if is_for entry key version && is_empty (served key version s)
          then row_of entry now ∷ []
          else served key version s))
unfolding insert_ledger_if_absent new_row
insert_ledger_if_absent-served entry now s key version =
    elim (Bool-cases (is_some (find (is_version entry.spec_key entry.version) s.ledger))) [
      | inl known ↦
          rw (known, is_empty-served entry.spec_key entry.version s, known)
            (refl, rw (known_elsewhere entry key version s known) refl)
      | inr fresh ↦
          rw (fresh, is_empty-served entry.spec_key entry.version s, fresh)
            (
              refl,
              elim (Bool-cases (is_for entry key version)) [
                | inr other ↦ rw other (served-append_other key version s (new_row entry now) other)
                | inl here ↦
                    let k : entry.spec_key ≡ key = (text_beq_iff _ _).0 (&&-left _ _ here) in
                    let v : entry.version ≡ version = (text_beq_iff _ _).0 (&&-right _ _ here) in
                    let fresh' : is_some (find (is_version key version) s.ledger) ≡ false =
                      rw (k, v) at fresh in
                    rw (here, is_empty-served key version s, fresh')
                      (served-append_first key version s (new_row entry now) here fresh'
                        ∙ ap (λ r. r ∷ []) (new_row-eq-row_of entry now))
              ],
            )
    ]
