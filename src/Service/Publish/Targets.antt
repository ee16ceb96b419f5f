-- ===== src/Service/Publish/Targets.antt =====
-- What the run for one target leaves in the ledger.
use omp_spec_kit.Prelude.{
  Text, text_beq, text_beq_refl, Bool, true, false, ◌≡◌, refl, Option, none, some, find, arith,
  Bool-cases, Option-cases, inl, inr, ◌≢◌, ◌⊎◌, ap, ◌∙◌,
}
use omp_spec_kit.Service.Store.{
  Store, LedgerRow, LedgerEntry, log_access, get_ledger, insert_ledger_if_absent, is_version,
  new_row,
}
use omp_spec_kit.Service.Store.Ledger.{served}
use omp_spec_kit.Service.Store.Insertion.{
  is_empty, insert_ledger_if_absent_lem, insert_ledger_if_absent-served,
}
use omp_spec_kit.Service.Publish.{
  Git, Mount, Outcome, noop, healed, heal_failed, published, failed, Run, Target, spec_key_of,
  reject, reject_version, reject_against, recorded, entry_of, after_insert, record_version,
  remote_commit, local_commit, push_tag, judge_heal, finish_heal, heal, check_recorded, judge_push,
  finish_push, push_created, publish_fresh, adopt_tree, adopt, check_unrecorded, publish_target,
  is_commit, truthy,
}
use omp_spec_kit.Service.Publish.Ledger.{
  Records, has_digest, any-find, recorded-Records, recorded-of-find,
}

-- Of every version that the first store records, the second gives the same rows.
abbrev pub Keeps : Store → Store → Type 0
Keeps s s' =
    (key version : Text)
    → is_empty (served key version s) ≡ false
    → served key version s' ≡ served key version s

-- The second ledger is the first, or one insertion after what other publishers did to the first.
abbrev pub Writes : Mount → Store → Store → Type 0
Writes mount s s' =
    (s'.ledger ≡ s.ledger)
    ⊎ ((entry : LedgerEntry) × (s'.ledger
          ≡ (insert_ledger_if_absent entry mount.now (mount.meanwhile s)).1.ledger))

served-ledger :
    (key version : Text) (s s' : Store)
    → s'.ledger ≡ s.ledger
    → served key version s' ≡ served key version s
unfolding get_ledger
served-ledger key version s s' h = rw h refl

pub Writes-Keeps :
    (mount : Mount) (s s' : Store)
    → ((s : Store) → Keeps s (mount.meanwhile s))
    → Writes mount s s'
    → Keeps s s'
Writes-Keeps mount s s' keeps (inl same) key version known = served-ledger key version s s' same
Writes-Keeps mount s s' keeps (inr (entry, same)) key version known =
    let m = mount.meanwhile s in
    let kept = keeps s key version known in
    let known' : is_empty (served key version m) ≡ false = ap is_empty kept ∙ known in
    let (said, law) = insert_ledger_if_absent-served entry mount.now m key version in
    let stays : served key version (insert_ledger_if_absent entry mount.now m).1
        ≡ served key version m =
      ground (arith, law, known') in
    served-ledger key version (insert_ledger_if_absent entry mount.now m).1 s' same ∙ stays ∙ kept

-- The version that an outcome reports as recorded.
abbrev pub settled : Outcome → Option Text
settled (noop v) = some v
settled (healed v) = some v
settled (heal_failed v) = some v
settled (published v digest commit) = some v
settled _ = none

-- A run for the target writes one row at most, and records what it reports.
abbrev pub Good : {W : Type 0} → Mount → Target → Store → Run W → Type 0
Good mount t s run =
    Writes mount s run.1.1
    × ((v : Text)
        → settled run.0 ≡ some v
        → (v ≡ t.version) × Records (spec_key_of t.project t.slug) t.version t.tree run.1.1)

module _ {W : Type 0} (git : Git W) (mount : Mount) (t : Target) where
  Good-reject : (w : W) (s : Store) → Good mount t s (reject_version mount t w s)
  unfolding reject_version reject log_access
  Good-reject w s = (inl refl, (λ v h. absurd (cc)))

  Good-failed : (w : W) (s : Store) → Good mount t s (failed, (w, s))
  Good-failed w s = (inl refl, (λ v h. absurd (cc)))

  Good-against :
      (row : LedgerRow) (w : W) (s : Store) → Good mount t s (reject_against git mount row t w s)
  Good-against row w s = elim (Option-cases row.commit_sha) [
    | inl e ↦ rw e (Good-failed w s)
    | inr (sha, e) ↦ rw e (Good-reject w s)
  ]

  -- Outcomes of a version that is already recorded.
  module _ (s : Store) (recorded' : Records (spec_key_of t.project t.slug) t.version t.tree s) where
    Good-noop : (w : W) → Good mount t s (noop t.version, (w, s))
    Good-noop w = (inl refl, (λ v h. (cc, recorded')))

    Good-judge :
        (row : LedgerRow) (w : W) (o : Option (Option Text))
        → Good mount t s (judge_heal git mount row t w s o)
    Good-judge row w none = Good-failed w s
    Good-judge row w (some winner) = elim (Bool-cases (is_commit winner row.commit_sha)) [
      | inl same ↦ rw same (Good-noop w)
      | inr other ↦ rw other (elim (Bool-cases (truthy winner)) [
        | inl there ↦ rw there (Good-reject w s)
        | inr gone ↦ rw gone (inl refl, (λ v h. (cc, recorded')))
      ])
    ]

    Good-finish_heal :
        (row : LedgerRow) (r : Bool × W) → Good mount t s (finish_heal git mount row t s r)
    Good-finish_heal row (true, w) = (inl refl, (λ v h. (cc, recorded')))
    Good-finish_heal row (false, w) = Good-judge row w (remote_commit git mount t w)

    Good-heal : (row : LedgerRow) (w : W) → Good mount t s (heal git mount row t w s)
    unfolding heal
    Good-heal row w = elim (Option-cases (local_commit git mount t w)) [
      | inl e ↦ rw (e, heal) (Good-finish_heal row _)
      | inr (sha, e) ↦
          rw (e, heal)
            (elim (Bool-cases (is_commit (some sha) row.commit_sha)) [
              | inl same ↦ rw same (Good-finish_heal row _)
              | inr other ↦ rw other (Good-against row w s)
            ])
    ]

    Good-recorded :
        (row : LedgerRow) (w : W) (o : Option (Option Text))
        → Good mount t s (check_recorded git mount row t w s o)
    Good-recorded row w none = Good-failed w s
    Good-recorded row w (some none) = Good-heal row w
    Good-recorded row w (some (some sha)) =
        elim (Bool-cases (is_commit (some sha) row.commit_sha)) [
          | inl same ↦ rw same (Good-noop w)
          | inr other ↦ rw other (Good-against row w s)
        ]

  Good-insert :
      (commit : Text) (w : W) (s : Store) (r : Bool × Store)
      → Writes mount s r.1
      → (r.0 ≡ true → Records (spec_key_of t.project t.slug) t.version t.tree r.1)
      → (r.0 ≡ false → recorded t r.1 ≢ none)
      → Good mount t s (after_insert mount t commit w r)
  unfolding reject_version reject log_access
  Good-insert commit w s (true, m) k new old = (k, (λ v h. (cc, new refl)))
  Good-insert commit w s (false, m) k new old = elim (Option-cases (recorded t m)) [
    | inl gone ↦ absurd (old refl gone)
    | inr (row, e) ↦ elim (Bool-cases (text_beq row.digest t.tree)) [
      | inl same ↦ rw (e, same) (k, (λ v h. (cc, recorded-Records t m row e same)))
      | inr other ↦ rw (e, other) (k, (λ v h. absurd (cc)))
    ]
  ]

  Good-record :
      (commit : Text) (w : W) (s : Store) → Good mount t s (record_version mount t commit w s)
  unfolding record_version entry_of new_row
  Good-record commit w s =
      let key = spec_key_of t.project t.slug in
      let m = mount.meanwhile s in
      let entry = entry_of mount t commit in
      let (old, said, new) = insert_ledger_if_absent_lem entry mount.now m key t.version in
      Good-insert commit w s (insert_ledger_if_absent entry mount.now m) (inr (entry, refl))
        (λ e.
          any-find (is_version key t.version) (has_digest key t.version t.tree) _ _ (new e)
            (ground (arith, text_beq_refl key, text_beq_refl t.version, text_beq_refl t.tree)))
        (λ e. elim (Option-cases (find (is_version key t.version) m.ledger)) [
          | inl none' ↦ absurd (ground (arith, said, e, none'))
          | inr (row, h) ↦ recorded-of-find t _ row (old row h)
        ])

  Good-judge_push :
      (w : W) (s : Store) (o : Option (Option Text)) → Good mount t s (judge_push git mount t w s o)
  Good-judge_push w s none = Good-failed w s
  Good-judge_push w s (some winner) = elim (Bool-cases (is_commit winner (some t.head))) [
    | inl same ↦ rw same (Good-record t.head w s)
    | inr other ↦ rw other (elim (Bool-cases (truthy winner)) [
      | inl there ↦ rw there (Good-reject w s)
      | inr gone ↦ rw gone (Good-failed w s)
    ])
  ]

  Good-finish_push : (s : Store) (r : Bool × W) → Good mount t s (finish_push git mount t s r)
  Good-finish_push s (true, w) = Good-record t.head w s
  Good-finish_push s (false, w) = Good-judge_push w s (remote_commit git mount t w)

  Good-created : (s : Store) (r : Bool × W) → Good mount t s (push_created git mount t s r)
  Good-created s (true, w) = Good-finish_push s (push_tag git mount t w)
  Good-created s (false, w) = Good-failed w s

  Good-fresh : (w : W) (s : Store) → Good mount t s (publish_fresh git mount t w s)
  unfolding publish_fresh
  Good-fresh w s = elim (Option-cases (local_commit git mount t w)) [
    | inl e ↦ rw (e, publish_fresh) (Good-created s _)
    | inr (sha, e) ↦
        rw (e, publish_fresh)
          (elim (Bool-cases (text_beq sha t.head)) [
            | inl same ↦ rw same (Good-finish_push s _)
            | inr other ↦ rw other (Good-reject w s)
          ])
  ]

  Good-adopt :
      (remote : Text) (w : W) (s : Store) (o : Option Text)
      → Good mount t s (adopt_tree git mount t remote w s o)
  Good-adopt remote w s none = Good-reject w s
  Good-adopt remote w s (some tree) = elim (Bool-cases (text_beq tree t.tree)) [
    | inl same ↦ rw same (inr (entry_of mount t remote, refl), (λ v h. absurd (cc)))
    | inr other ↦ rw other (Good-reject w s)
  ]

  Good-unrecorded :
      (w : W) (s : Store) (o : Option (Option Text))
      → Good mount t s (check_unrecorded git mount t w s o)
  unfolding adopt
  Good-unrecorded w s none = Good-failed w s
  Good-unrecorded w s (some none) = Good-fresh w s
  Good-unrecorded w s (some (some sha)) = Good-adopt sha w s _

  pub Good-target : (w : W) (s : Store) → Good mount t s (publish_target git mount t w s)
  unfolding publish_target
  Good-target w s = elim (Option-cases (recorded t s)) [
    | inl e ↦ rw (e, publish_target) (Good-unrecorded w s _)
    | inr (row, e) ↦
        rw (e, publish_target)
          (elim (Bool-cases (text_beq row.digest t.tree)) [
            | inl same ↦ rw same (Good-recorded s (recorded-Records t s row e same) row w _)
            | inr other ↦ rw other (Good-reject w s)
          ])
  ]
