-- ===== src/Service/Claims/Sweep.antt =====
-- A sweep removes the expired leases and nothing else.
use omp_spec_kit.Prelude.{
  ℕ, ◌≤◌, Text, text_beq, text_beq_iff, true, false, leb, ◌≡◌, refl, sym, ◌∙◌, Option, none, some,
  List, [], ◌∷◌, All, All-map, ap, find, arith, Bool-cases, Option-cases, inl, inr, if◌then◌else◌,
}
use omp_spec_kit.Service.Store.{
  Store, ClaimRow, claim_has_key, get_claim, delete_claim, list_claims,
}
use omp_spec_kit.Service.Claims.{claim_key, get, live_claim, sweep, sweep_rows}
use omp_spec_kit.Service.Claims.Table.{HasDistinctKeys, get_claim-delete_claim, get_claim-only}

-- A key none of whose rows has expired keeps its row.
sweep_rows-keeps :
    (now : ℕ) (k : Text) (rows : List ClaimRow) (s : Store)
    → All (λ r. r.spec_key ≡ k → leb r.expires_at_ms now ≡ false) rows
    → get_claim k (sweep_rows now rows s) ≡ get_claim k s
unfolding sweep_rows
sweep_rows-keeps now k [] s h = refl
sweep_rows-keeps now k (row ∷ rows) s (live, rest) = elim (Bool-cases (leb row.expires_at_ms now)) [
  | inl expired ↦ rw expired (
      sweep_rows-keeps now k rows (delete_claim row.spec_key s) rest
      ∙ ground (arith, get_claim-delete_claim row.spec_key k s, text_beq_iff row.spec_key k))
  | inr alive ↦ rw alive (sweep_rows-keeps now k rows s rest)
]

-- What is gone stays gone.
sweep_rows-none :
    (now : ℕ) (k : Text) (rows : List ClaimRow) (s : Store)
    → get_claim k s ≡ none
    → get_claim k (sweep_rows now rows s) ≡ none
unfolding sweep_rows
sweep_rows-none now k [] s h = h
sweep_rows-none now k (row ∷ rows) s h =
    sweep_rows-none now k rows _ (ground (arith, get_claim-delete_claim row.spec_key k s))

sweep_rows-drops :
    (now : ℕ) (k : Text) (rows : List ClaimRow) (s : Store) (r : ClaimRow)
    → find (claim_has_key k) rows ≡ some r
    → leb r.expires_at_ms now ≡ true
    → get_claim k (sweep_rows now rows s) ≡ none
unfolding sweep_rows
sweep_rows-drops now k [] s r e expired = absurd (cc)
sweep_rows-drops now k (row ∷ rows) s r e expired = elim (Bool-cases (text_beq row.spec_key k)) [
  | inl same ↦
      let here : row ≡ r = ground arith in
      sweep_rows-none now k rows _ (
        rw (here, expired)
          (ground (
            arith,
            get_claim-delete_claim r.spec_key k s,
            same,
            ap (λ (x : ClaimRow). x.spec_key) here,
          )))
  | inr other ↦ sweep_rows-drops now k rows _ r (rw other at e) expired
]

get_claim-sweep_parts :
    (now : ℕ) (k : Text) (s : Store)
    → HasDistinctKeys s.claims
    → ((r : ClaimRow)
        → get_claim k s ≡ some r
        → get_claim k (sweep now s).1 ≡ (if leb r.expires_at_ms now then none else some r))
      × (get_claim k s ≡ none → get_claim k (sweep now s).1 ≡ none)
unfolding sweep list_claims
get_claim-sweep_parts now k s distinct = (
  (λ r known. elim (Bool-cases (leb r.expires_at_ms now)) [
    | inl expired ↦
        rw expired (sweep_rows-drops now k s.claims s r (unfold get_claim in known) expired)
    | inr live ↦ rw live (
        sweep_rows-keeps now k s.claims s (
          All-map s.claims (λ x only. λ same. let e = only same in rw e live)
            (get_claim-only k r s distinct known))
        ∙ known)
  ]),
  (λ missing. sweep_rows-none now k s.claims s missing),
)

-- The row, unless it has expired at the time.
abbrev pub unexpired : ℕ → Option ClaimRow → Option ClaimRow
unexpired now none = none
unexpired now (some row) = if leb row.expires_at_ms now then none else some row

-- In a table with one row for each key, a sweep at one time removes a lease that has expired by then and
-- keeps every other.
get_claim-sweep :
    (now : ℕ) (k : Text) (s : Store)
    → HasDistinctKeys s.claims
    → get_claim k (sweep now s).1 ≡ unexpired now (get_claim k s)
get_claim-sweep now k s distinct =
    let (kept, gone) = get_claim-sweep_parts now k s distinct in
    elim (Option-cases (get_claim k s)) [
      | inl nothing ↦ gone nothing ∙ ap (unexpired now) (sym nothing)
      | inr (r, known) ↦ kept r known ∙ ap (unexpired now) (sym known)
    ]

-- With one row for each key, no reader can tell whether the store was swept before: reads at the sweep's time or later return
-- what they would have returned.
pub get-sweep :
    (project spec : Text) (now t : ℕ) (s : Store)
    → HasDistinctKeys s.claims
    → now ≤ t
    → (get project spec t (sweep now s).1).0 ≡ (get project spec t s).0
unfolding get
get-sweep project spec now t s distinct later =
    let (kept, gone) = get_claim-sweep_parts now (claim_key project spec) s distinct in
    elim (Option-cases (get_claim (claim_key project spec) s)) [
      | inl nothing ↦ rw (nothing, gone nothing) refl
      | inr (r, known) ↦ elim (Bool-cases (leb r.expires_at_ms now)) [
        | inl expired ↦
            let late : leb r.expires_at_ms t ≡ true = ground arith in
            let out : get_claim (claim_key project spec) (sweep now s).1 ≡ none =
              kept r known ∙ (rw expired refl) in
            rw (known, out, live_claim, late) refl
        | inr live ↦
            let out : get_claim (claim_key project spec) (sweep now s).1 ≡ some r =
              kept r known ∙ (rw live refl) in
            rw (known, out, live_claim)
              (elim (Bool-cases (leb r.expires_at_ms t)) [
                | inl late ↦ rw late refl
                | inr early ↦ rw early refl
              ])
      ]
    ]
