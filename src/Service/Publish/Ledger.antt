-- ===== src/Service/Publish/Ledger.antt =====
-- What the rows of the publish ledger say of a version that the publisher looks up.
use omp_spec_kit.Prelude.{
  Text, text_beq, Bool, true, false, ◌&&◌, ◌||◌, ◌≡◌, refl, none, some, List, [], ◌∷◌, ◌++◌, find,
  find_sound, filter, any, &&-assoc, arith, ap, ◌∙◌, sym, ◌≢◌,
}
use omp_spec_kit.Service.Store.{
  Store, LedgerRow, get_ledger, insert_newest, sort_newest, is_version,
}
use omp_spec_kit.Service.Publish.{Target, recorded, spec_key_of}

-- The ledger has a row of the version with the digest.
abbrev pub has_digest : Text → Text → Text → LedgerRow → Bool
has_digest key version digest row = is_version key version row && text_beq row.digest digest

abbrev pub Records : Text → Text → Text → Store → Type 0
Records key version digest s = any (has_digest key version digest) s.ledger ≡ true

any-append {ℓ} :
    {A : Type ℓ} (p : A → Bool) (xs ys : List A) → any p (xs ++ ys) ≡ (any p xs || any p ys)
any-append p [] ys = refl
any-append p (x ∷ xs) ys = ground (arith, any-append p xs ys)

pub any-find {ℓ} :
    {A : Type ℓ} (p q : A → Bool) (xs : List A) (a : A)
    → find p xs ≡ some a
    → q a ≡ true
    → any q xs ≡ true
any-find p q [] a h k = absurd (cc)
any-find p q (x ∷ xs) a h k = ground (arith, any-find p q xs a, k, ap q)

any-none {ℓ} : {A : Type ℓ} (p : A → Bool) (xs : List A) → find p xs ≡ none → any p xs ≡ false
any-none p [] h = refl
any-none p (x ∷ xs) h = ground (arith, any-none p xs)

any-filter {ℓ} :
    {A : Type ℓ} (p q : A → Bool) (xs : List A) → any p (filter q xs) ≡ any (λ x. q x && p x) xs
any-filter p q [] = refl
any-filter p q (x ∷ xs) = ground (arith, any-filter p q xs)

any-insert_newest :
    (p : LedgerRow → Bool) (row : LedgerRow) (rows : List LedgerRow)
    → any p (insert_newest row rows) ≡ (p row || any p rows)
unfolding insert_newest
any-insert_newest p row [] = refl
any-insert_newest p row (r ∷ rows) = ground (arith, any-insert_newest p row rows)

any-sort_newest :
    (p : LedgerRow → Bool) (rows : List LedgerRow) → any p (sort_newest rows) ≡ any p rows
unfolding sort_newest
any-sort_newest p [] = refl
any-sort_newest p (r ∷ rows) =
    any-insert_newest p r (sort_newest rows) ∙ ap (λ b. p r || b) (any-sort_newest p rows)

any-get_ledger :
    (p : LedgerRow → Bool) (key : Text) (s : Store)
    → any p (get_ledger key s) ≡ any (λ row. text_beq row.spec_key key && p row) s.ledger
unfolding get_ledger
any-get_ledger p key s =
    any-sort_newest p (filter (λ row. text_beq row.spec_key key) s.ledger) ∙ any-filter p _ s.ledger

any-congr {ℓ} :
    {A : Type ℓ} (p q : A → Bool) (xs : List A) → ((a : A) → p a ≡ q a) → any p xs ≡ any q xs
any-congr p q [] h = refl
any-congr p q (x ∷ xs) h = ground (arith, h x, any-congr p q xs h)

-- A row that the publisher finds for the version, with the digest of the tree, is in the ledger.
pub recorded-Records :
    (t : Target) (s : Store) (row : LedgerRow)
    → recorded t s ≡ some row
    → text_beq row.digest t.tree ≡ true
    → Records (spec_key_of t.project t.slug) t.version t.tree s
unfolding recorded
recorded-Records t s row h same =
    any-congr _ _ s.ledger (λ r.
      &&-assoc (text_beq r.spec_key (spec_key_of t.project t.slug)) (text_beq r.version t.version)
        (text_beq r.digest t.tree))
    ∙ sym (
        any-get_ledger (λ r. text_beq r.version t.version && text_beq r.digest t.tree)
          (spec_key_of t.project t.slug) s)
    ∙ any-find _ _ (get_ledger (spec_key_of t.project t.slug) s) row h
        (ground (arith, same, find_sound (λ r. text_beq r.version t.version) _ row h))

-- The publisher finds a row of a version that the ledger has.
pub recorded-of-find :
    (t : Target) (s : Store) (row : LedgerRow)
    → find (is_version (spec_key_of t.project t.slug) t.version) s.ledger ≡ some row
    → recorded t s ≢ none
unfolding recorded
recorded-of-find t s row h gone =
    let seen =
      any-find _ (is_version (spec_key_of t.project t.slug) t.version) s.ledger row h
        (find_sound _ s.ledger row h) in
    let unseen =
      any-none (λ r. text_beq r.version t.version) (get_ledger (spec_key_of t.project t.slug) s)
        gone in
    ground (
      arith,
      any-get_ledger (λ r. text_beq r.version t.version) (spec_key_of t.project t.slug) s,
      seen,
      unseen,
    )
