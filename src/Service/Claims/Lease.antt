-- ===== src/Service/Claims/Lease.antt =====
-- A live lease is kept from every other holder.
use omp_spec_kit.Prelude.{
  ℕ, ◌+◌, ◌*◌, ◌≤◌, ◌<◌, Text, text_beq, text_beq_iff, text_beq_refl, false, leb, ◌≡◌, ◌≢◌, refl,
  sym, ◌∙◌, Option, none, some, List, [], ◌∷◌, All, All-map, arith, Bool-cases, Option-cases, inl,
  inr,
}
use omp_spec_kit.Service.Store.{Store, ClaimRow, get_claim, put_claim, delete_claim, list_claims}
use omp_spec_kit.Service.Claims.{
  claim_key, get, live_claim, resolve_ttl, lease, claimed, claim_held, claim, release, sweep,
  sweep_rows, finish_claim, finish_release,
}
use omp_spec_kit.Service.Claims.Table.{
  HasDistinctKeys, get_claim-put_claim, get_claim-delete_claim, get_claim-only,
  put_claim-HasDistinctKeys, delete_claim-HasDistinctKeys,
}

-- `holder` has the lease on `key`, and keeps it until the time `until`.
pub record Holds (key holder : Text) (until : ℕ) (s : Store) : Type 0 where
  pub row : ClaimRow
  pub found : get_claim key s ≡ some row
  pub mine : row.holder ≡ holder
  pub alive : until ≤ row.expires_at_ms
  pub distinct : HasDistinctKeys s.claims

-- A call of the claim store at its times.
pub data Op : Type 0 where
  claim_op : Text → Text → Text → Option ℕ → ℕ → ℕ → Op
  release_op : Text → Text → Text → ℕ → Op
  get_op : Text → Text → ℕ → Op
  sweep_op : ℕ → Op

abbrev pub run : Op → Store → Store
run (claim_op project spec holder ttl read_at now) s =
    (claim project spec holder ttl read_at now s).1
run (release_op project spec holder now) s = (release project spec holder now s).1
run (get_op project spec now) s = (get project spec now s).1
run (sweep_op now) s = (sweep now s).1

abbrev pub run_all : List Op → Store → Store
run_all [] s = s
run_all (op ∷ ops) s = run_all ops (run op s)

-- The call is not the holder's own claim or release, and reads the clock before `until`.
abbrev pub IsForeign : Text → ℕ → Op → Type 0
IsForeign holder until (claim_op project spec other ttl read_at now) =
    (other ≢ holder) × (read_at < until)
IsForeign holder until (release_op project spec other now) = (other ≢ holder) × (now < until)
IsForeign holder until (get_op project spec now) = now < until
IsForeign holder until (sweep_op now) = now < until

module _ {key holder : Text} {until : ℕ} where
  put_other-Holds :
      (row : ClaimRow) (s : Store)
      → row.spec_key ≢ key
      → Holds key holder until s
      → Holds key holder until (put_claim row s)
  put_other-Holds row s other h = record {
    row = h.row;
    found = ground (arith, get_claim-put_claim row key s, text_beq_iff row.spec_key key, h.found);
    mine = h.mine;
    alive = h.alive;
    distinct = put_claim-HasDistinctKeys row s h.distinct;
  }

  delete_other-Holds :
      (k : Text) (s : Store)
      → k ≢ key
      → Holds key holder until s
      → Holds key holder until (delete_claim k s)
  delete_other-Holds k s other h = record {
    row = h.row;
    found = ground (arith, get_claim-delete_claim k key s, text_beq_iff k key, h.found);
    mine = h.mine;
    alive = h.alive;
    distinct = delete_claim-HasDistinctKeys k s h.distinct;
  }

  get-Holds :
      (project spec : Text) (now : ℕ) (s : Store)
      → now < until
      → Holds key holder until s
      → Holds key holder until (get project spec now s).1
  unfolding get
  get-Holds project spec now s early h =
      elim (Option-cases (get_claim (claim_key project spec) s)) [
        | inl nothing ↦ rw (nothing, live_claim) h
        | inr (row, known) ↦ elim (Bool-cases (leb row.expires_at_ms now)) [
          | inl expired ↦
              rw (known, live_claim, expired)
                (delete_other-Holds (claim_key project spec) s
                  (λ same.
                    let mine : get_claim key s ≡ some row = rw same at known in
                    let e : some h.row ≡ some row = sym h.found ∙ mine in ground arith)
                  h)
          | inr live ↦ rw (known, live_claim, live) h
        ]
      ]

  -- The holder's own key is read as held.
  get-held :
      (project spec : Text) (now : ℕ) (s : Store) (h : Holds key holder until s)
      → now < until
      → claim_key project spec ≡ key
      → get project spec now s ≡ (some h.row, s)
  unfolding get
  get-held project spec now s h early same = rw (same, h.found, live_claim) (ground arith)

  finish_claim-Holds :
      (existing : Option ClaimRow) (row : ClaimRow) (s : Store)
      → row.spec_key ≢ key
      → Holds key holder until s
      → Holds key holder until (finish_claim existing row s).1
  finish_claim-Holds none row s other h = put_other-Holds row s other h
  finish_claim-Holds (some existing) row s other h =
      elim (Bool-cases (text_beq existing.holder row.holder)) [
        | inl same ↦ rw same (put_other-Holds row s other h)
        | inr foreign ↦ rw foreign h
      ]

  finish_release-Holds :
      (k other : Text) (existing : Option ClaimRow) (s : Store)
      → k ≢ key
      → Holds key holder until s
      → Holds key holder until (finish_release k other existing s).1
  finish_release-Holds k other none s ne h = h
  finish_release-Holds k other (some existing) s ne h =
      elim (Bool-cases (text_beq existing.holder other)) [
        | inl same ↦ rw same (delete_other-Holds k s ne h)
        | inr foreign ↦ rw foreign h
      ]

  refused-by-Holds :
      (project spec other : Text) (ttl : Option ℕ) (read_at now : ℕ) (s : Store)
      (h : Holds key holder until s)
      → claim_key project spec ≡ key
      → other ≢ holder
      → read_at < until
      → (claim project spec other ttl read_at now s).0 ≡ claim_held h.row
  unfolding claim
  refused-by-Holds project spec other ttl read_at now s h same ne early =
      rw (get-held project spec read_at s h early same) (
        let e : text_beq h.row.holder other ≡ false =
          ground (arith, text_beq_iff h.row.holder other, h.mine) in
        rw e refl)

  claim-Holds :
      (project spec other : Text) (ttl : Option ℕ) (read_at now : ℕ) (s : Store)
      → other ≢ holder
      → read_at < until
      → Holds key holder until s
      → Holds key holder until (claim project spec other ttl read_at now s).1
  unfolding claim
  claim-Holds project spec other ttl read_at now s ne early h =
      elim (Bool-cases (text_beq (claim_key project spec) key)) [
        | inl same ↦ rw (get-held project spec read_at s h early ((text_beq_iff _ _).0 same)) (
            let e : text_beq h.row.holder other ≡ false =
              ground (arith, text_beq_iff h.row.holder other, h.mine) in
            rw e h)
        | inr different ↦
            finish_claim-Holds (get project spec read_at s).0
              (lease project spec other (resolve_ttl ttl) now) (get project spec read_at s).1
              (λ same. ground (arith, text_beq_iff (claim_key project spec) key))
              (get-Holds project spec read_at s early h)
      ]

  release-Holds :
      (project spec other : Text) (now : ℕ) (s : Store)
      → other ≢ holder
      → now < until
      → Holds key holder until s
      → Holds key holder until (release project spec other now s).1
  unfolding release
  release-Holds project spec other now s ne early h =
      elim (Bool-cases (text_beq (claim_key project spec) key)) [
        | inl same ↦ rw (get-held project spec now s h early ((text_beq_iff _ _).0 same)) (
            let e : text_beq h.row.holder other ≡ false =
              ground (arith, text_beq_iff h.row.holder other, h.mine) in
            rw e h)
        | inr different ↦
            finish_release-Holds (claim_key project spec) other (get project spec now s).0
              (get project spec now s).1
              (λ same. ground (arith, text_beq_iff (claim_key project spec) key))
              (get-Holds project spec now s early h)
      ]

  sweep_rows-Holds :
      (now : ℕ) (rows : List ClaimRow) (s : Store)
      → All (λ r. r.spec_key ≡ key → until ≤ r.expires_at_ms) rows
      → now < until
      → Holds key holder until s
      → Holds key holder until (sweep_rows now rows s)
  unfolding sweep_rows
  sweep_rows-Holds now [] s ok early h = h
  sweep_rows-Holds now (row ∷ rows) s (alive, rest) early h =
      elim (Bool-cases (leb row.expires_at_ms now)) [
        | inl expired ↦ rw expired (
            sweep_rows-Holds now rows (delete_claim row.spec_key s) rest early
              (delete_other-Holds row.spec_key s (λ same. let a = alive same in ground arith) h))
        | inr live ↦ rw live (sweep_rows-Holds now rows s rest early h)
      ]

  sweep-Holds :
      (now : ℕ) (s : Store)
      → now < until
      → Holds key holder until s
      → Holds key holder until (sweep now s).1
  unfolding sweep list_claims
  sweep-Holds now s early h =
      sweep_rows-Holds now s.claims s
        (All-map s.claims (λ r only. λ same. let e = only same in rw e h.alive)
          (get_claim-only key h.row s h.distinct h.found))
        early h

  run-Holds :
      (op : Op) (s : Store)
      → IsForeign holder until op
      → Holds key holder until s
      → Holds key holder until (run op s)
  run-Holds (claim_op project spec other ttl read_at now) s (ne, early) h =
      claim-Holds project spec other ttl read_at now s ne early h
  run-Holds (release_op project spec other now) s (ne, early) h =
      release-Holds project spec other now s ne early h
  run-Holds (get_op project spec now) s early h = get-Holds project spec now s early h
  run-Holds (sweep_op now) s early h = sweep-Holds now s early h

  -- Whoever holds a lease keeps it through any calls of other holders, reads and sweeps that come
  -- before the time that the lease is known to reach.
  pub run_all-Holds :
      (ops : List Op) (s : Store)
      → All (IsForeign holder until) ops
      → Holds key holder until s
      → Holds key holder until (run_all ops s)
  run_all-Holds [] s foreign h = h
  run_all-Holds (op ∷ ops) s (f, fs) h = run_all-Holds ops (run op s) fs (run-Holds op s f h)

resolve_ttl_bounds : (ttl : Option ℕ) → (1 ≤ resolve_ttl ttl) × (resolve_ttl ttl ≤ 24 * 60)
unfolding resolve_ttl
resolve_ttl_bounds none = omega arith
resolve_ttl_bounds (some n) = ground arith

get-HasDistinctKeys :
    (project spec : Text) (now : ℕ) (s : Store)
    → HasDistinctKeys s.claims
    → HasDistinctKeys (get project spec now s).1.claims
unfolding get
get-HasDistinctKeys project spec now s h =
    elim (Option-cases (get_claim (claim_key project spec) s)) [
      | inl nothing ↦ rw (nothing, live_claim) h
      | inr (row, known) ↦ elim (Bool-cases (leb row.expires_at_ms now)) [
        | inl expired ↦
            rw (known, live_claim, expired)
              (delete_claim-HasDistinctKeys (claim_key project spec) s h)
        | inr live ↦ rw (known, live_claim, live) h
      ]
    ]

finish_claim-claimed :
    (existing : Option ClaimRow) (row r : ClaimRow) (s : Store)
    → (finish_claim existing row s).0 ≡ claimed r
    → (r ≡ row) × ((finish_claim existing row s).1 ≡ put_claim row s)
finish_claim-claimed none row r s h = (ground arith, refl)
finish_claim-claimed (some existing) row r s h =
    elim (Bool-cases (text_beq existing.holder row.holder)) [
      | inl same ↦ (ground arith, rw same refl)
      | inr foreign ↦ absurd (ground arith)
    ]

-- In a table with one row for each key, a claim that succeeds gives the lease to the caller: the row that it
-- reports is the row that the store has for the key afterwards, with the caller as its holder and one row
-- for each key, and it ends one minute after the claim at least and a day at most.
pub claim-gives-Holds :
    (project spec holder : Text) (ttl : Option ℕ) (read_at now : ℕ) (s : Store) (row : ClaimRow)
    → HasDistinctKeys s.claims
    → (claim project spec holder ttl read_at now s).0 ≡ claimed row
    → Holds
        (claim_key project spec)
        holder
        (now + 60000)
        (claim project spec holder ttl read_at now s).1
      × (get_claim (claim_key project spec) (claim project spec holder ttl read_at now s).1
          ≡ some row)
      × (row.holder ≡ holder)
      × (now + 60000 ≤ row.expires_at_ms)
      × (row.expires_at_ms ≤ now + 24 * 60 * 60000)
unfolding claim
claim-gives-Holds project spec holder ttl read_at now s row distinct h =
    let new = lease project spec holder (resolve_ttl ttl) now in
    let s' = (get project spec read_at s).1 in
    let (low, high) = resolve_ttl_bounds ttl in
    let (same, put) = finish_claim-claimed (get project spec read_at s).0 new row s' h in
    let stored : get_claim (claim_key project spec) (put_claim new s') ≡ some new = ground (
      arith,
      get_claim-put_claim new (claim_key project spec) s',
      text_beq_refl (claim_key project spec),
    ) in
    (
      rw put (record {
        row = new;
        found = stored;
        mine = refl;
        alive = omega arith;
        distinct =
            put_claim-HasDistinctKeys new s' (get-HasDistinctKeys project spec read_at s distinct);
      }),
      rw (same, put) stored,
      rw same refl,
      rw same (omega arith),
      rw same (omega arith),
    )

-- In a table with one row for each key, a successful claim excludes every other holder for a minute: after any calls of others, reads and
-- sweeps within it, a claim of another holder is refused and names the first.
pub claim_excludes :
    (project spec holder other : Text) (ttl ttl' : Option ℕ) (read_at now read_at' now' : ℕ)
    (s : Store) (row : ClaimRow) (ops : List Op)
    → HasDistinctKeys s.claims
    → (claim project spec holder ttl read_at now s).0 ≡ claimed row
    → All (IsForeign holder (now + 60000)) ops
    → other ≢ holder
    → read_at' < now + 60000
    → (held : ClaimRow) × ((claim project spec other ttl' read_at' now'
          (run_all ops (claim project spec holder ttl read_at now s).1)).0
        ≡ claim_held held)
      × (held.holder ≡ holder)
claim_excludes project spec holder other ttl ttl' read_at now read_at' now' s row ops distinct given
      foreign ne early =
    let kept =
      run_all-Holds ops _ foreign
        (claim-gives-Holds project spec holder ttl read_at now s row distinct given).0 in
    (
      kept.row,
      refused-by-Holds project spec other ttl' read_at' now' _ kept refl ne early,
      kept.mine,
    )
