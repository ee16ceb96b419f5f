-- ===== src/Service/Claims/Expiry.antt =====
-- No lease lasts for ever.
use omp_spec_kit.Prelude.{
  ℕ, ◌+◌, ◌*◌, ◌≤◌, Text, text_beq, Bool, true, not, leb, ◌≡◌, refl, Option, none, some, List, [],
  ◌∷◌, All, All-filter, find, arith, Bool-cases, Option-cases, inl, inr,
}
use omp_spec_kit.Service.Store.{
  Store, ClaimRow, claim_has_key, upsert, get_claim, put_claim, delete_claim, list_claims,
}
use omp_spec_kit.Service.Claims.{
  claim_key, get, live_claim, resolve_ttl, lease, claimed, claim, release, sweep, sweep_rows,
  finish_claim, finish_release,
}
use omp_spec_kit.Service.Claims.Lease.{Op, claim_op, release_op, get_op, sweep_op, run, run_all}

-- Every lease ends by the time.
unfoldable pub EndsBy : ℕ → Store → Type 0
EndsBy t s = All (λ row. row.expires_at_ms ≤ t) s.claims

All-upsert {ℓ κ} :
    {A : Type ℓ} (P : A → Type κ) (p : A → Bool) (x : A) (xs : List A)
    → P x
    → All P xs
    → All P (upsert p (λ old. x) x xs)
unfolding upsert
All-upsert P p x [] h hs = (h, tt)
All-upsert P p x (y ∷ ys) h (k, ks) = elim (Bool-cases (p y)) [
  | inl here ↦ rw here (h, ks)
  | inr there ↦ rw there (k, All-upsert P p x ys h ks)
]

find-All {ℓ κ} :
    {A : Type ℓ} (P : A → Type κ) (p : A → Bool) (xs : List A) (a : A)
    → All P xs
    → find p xs ≡ some a
    → P a
find-All P p [] a h e = absurd (cc)
find-All P p (x ∷ xs) a (h, hs) e = elim (Bool-cases (p x)) [
  | inl here ↦ let e' : some x ≡ some a = rw here at e in let same : x ≡ a = cc in rw (← same) h
  | inr there ↦ find-All P p xs a hs (rw there at e)
]

resolve_ttl-le : (ttl : Option ℕ) → resolve_ttl ttl ≤ 24 * 60
unfolding resolve_ttl
resolve_ttl-le none = omega arith
resolve_ttl-le (some minutes) = ground arith

module _ (t : ℕ) where
  delete-EndsBy : (key : Text) (s : Store) → EndsBy t s → EndsBy t (delete_claim key s)
  unfolding EndsBy delete_claim
  delete-EndsBy key s h =
      All-filter (λ row. row.expires_at_ms ≤ t) (λ row. not (claim_has_key key row)) s.claims h

  put-EndsBy :
      (row : ClaimRow) (s : Store) → row.expires_at_ms ≤ t → EndsBy t s → EndsBy t (put_claim row s)
  unfolding EndsBy put_claim
  put-EndsBy row s h hs =
      All-upsert (λ r. r.expires_at_ms ≤ t) (claim_has_key row.spec_key) row s.claims h hs

  live-EndsBy :
      (now : ℕ) (key : Text) (o : Option ClaimRow) (s : Store)
      → EndsBy t s
      → EndsBy t (live_claim now key o s).1
  live-EndsBy now key none s h = h
  live-EndsBy now key (some row) s h = elim (Bool-cases (leb row.expires_at_ms now)) [
    | inl over ↦ rw over (delete-EndsBy key s h)
    | inr live ↦ rw live h
  ]

  get-EndsBy :
      (project spec : Text) (now : ℕ) (s : Store) → EndsBy t s → EndsBy t (get project spec now s).1
  unfolding get
  get-EndsBy project spec now s h = live-EndsBy now (claim_key project spec) _ s h

  finish_claim-EndsBy :
      (o : Option ClaimRow) (row : ClaimRow) (s : Store)
      → row.expires_at_ms ≤ t
      → EndsBy t s
      → EndsBy t (finish_claim o row s).1
  finish_claim-EndsBy none row s h hs = put-EndsBy row s h hs
  finish_claim-EndsBy (some existing) row s h hs =
      elim (Bool-cases (text_beq existing.holder row.holder)) [
        | inl mine ↦ rw mine (put-EndsBy row s h hs)
        | inr held ↦ rw held hs
      ]

  finish_release-EndsBy :
      (key holder : Text) (o : Option ClaimRow) (s : Store)
      → EndsBy t s
      → EndsBy t (finish_release key holder o s).1
  finish_release-EndsBy key holder none s h = h
  finish_release-EndsBy key holder (some existing) s h =
      elim (Bool-cases (text_beq existing.holder holder)) [
        | inl mine ↦ rw mine (delete-EndsBy key s h)
        | inr held ↦ rw held h
      ]

  sweep_rows-EndsBy :
      (now : ℕ) (rows : List ClaimRow) (s : Store) → EndsBy t s → EndsBy t (sweep_rows now rows s)
  unfolding sweep_rows
  sweep_rows-EndsBy now [] s h = h
  sweep_rows-EndsBy now (row ∷ rows) s h = elim (Bool-cases (leb row.expires_at_ms now)) [
    | inl over ↦ rw over (sweep_rows-EndsBy now rows _ (delete-EndsBy row.spec_key s h))
    | inr live ↦ rw live (sweep_rows-EndsBy now rows s h)
  ]

  -- The time is a day, the longest lifetime, after the call, if the call is a claim.
  abbrev pub LeavesDay : Op → Type 0
  LeavesDay (claim_op project spec holder ttl read_at now) = now + 24 * 60 * 60000 ≤ t
  LeavesDay _ = Unit

  run-EndsBy : (op : Op) (s : Store) → LeavesDay op → EndsBy t s → EndsBy t (run op s)
  unfolding claim release sweep
  run-EndsBy (claim_op project spec holder ttl read_at now) s day h =
      finish_claim-EndsBy (get project spec read_at s).0
        (lease project spec holder (resolve_ttl ttl) now) _ (omega (arith, resolve_ttl-le ttl))
        (get-EndsBy project spec read_at s h)
  run-EndsBy (release_op project spec holder now) s day h =
      finish_release-EndsBy (claim_key project spec) holder _ _ (get-EndsBy project spec now s h)
  run-EndsBy (get_op project spec now) s day h = get-EndsBy project spec now s h
  run-EndsBy (sweep_op now) s day h = sweep_rows-EndsBy now (list_claims s) s h

  run_all-EndsBy :
      (ops : List Op) (s : Store) → All LeavesDay ops → EndsBy t s → EndsBy t (run_all ops s)
  run_all-EndsBy [] s day h = h
  run_all-EndsBy (op ∷ ops) s (day, days) h =
      run_all-EndsBy ops (run op s) days (run-EndsBy op s day h)

  get-none :
      (project spec : Text) (now : ℕ) (s : Store)
      → EndsBy t s
      → t ≤ now
      → (get project spec now s).0 ≡ none
  unfolding get get_claim EndsBy
  get-none project spec now s h later =
      elim (Option-cases (find (claim_has_key (claim_key project spec)) s.claims)) [
        | inl free ↦ rw free refl
        | inr (row, e) ↦
            let ends : row.expires_at_ms ≤ t =
              find-All (λ r. r.expires_at_ms ≤ t) _ s.claims row h e in
            let over : leb row.expires_at_ms now ≡ true = ground arith in rw e (rw over refl)
      ]

  -- Whatever calls are made on a table whose leases all end by a time, if that is a day at least after the
  -- last claim: from that time on everyone who claims a specification gets it.
  pub claim-free :
      (project spec holder : Text) (ttl : Option ℕ) (read_at now : ℕ) (ops : List Op) (s : Store)
      → EndsBy t s
      → All LeavesDay ops
      → t ≤ read_at
      → (claim project spec holder ttl read_at now (run_all ops s)).0
        ≡ claimed (lease project spec holder (resolve_ttl ttl) now)
  unfolding claim
  claim-free project spec holder ttl read_at now ops s ends days later =
      rw (get-none project spec read_at (run_all ops s) (run_all-EndsBy ops s days ends) later) refl
