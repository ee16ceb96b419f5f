-- ===== src/Service/Publish/Tags.antt =====
-- Tags as published pointers: one that exists is not moved, and a publication leaves its tag at the head.
use omp_spec_kit.Prelude.{
  Text, text, text_beq, text_beq_iff, Bool, true, false, ◌≡◌, refl, Option, none, some, List, ◌++◌,
  Bool-cases, Option-cases, inl, inr, ap, ◌∙◌,
}
use omp_spec_kit.Service.Store.{Store, LedgerRow}
use omp_spec_kit.Service.Publish.{
  Git, Mount, published, Run, Target, reject, reject_version, reject_against, recorded, differs,
  after_insert, record_version, remote_commit, local_commit, push_tag, judge_heal, finish_heal,
  heal, check_recorded, judge_push, finish_push, push_created, publish_fresh, adopt_tree, adopt,
  check_unrecorded, publish_target, is_commit, truthy, tag_of, tag_message, tag_ref_of,
  remote_tag_commit,
}

module _ {W : Type 0} (git : Git W) (mount : Mount) (t : Target) (w : W) (s : Store) where
  reject_against-world : (row : LedgerRow) → (reject_against git mount row t w s).1.0 ≡ w
  unfolding reject_version reject
  reject_against-world row = elim (Option-cases row.commit_sha) [
    | inl e ↦ rw e refl
    | inr (sha, e) ↦ rw e refl
  ]

  check_recorded-world :
      (row : LedgerRow) (c : Text) → (check_recorded git mount row t w s (some (some c))).1.0 ≡ w
  check_recorded-world row c = elim (Bool-cases (is_commit (some c) row.commit_sha)) [
    | inl same ↦ rw same refl
    | inr other ↦ rw other (reject_against-world row)
  ]

  adopt_tree-world : (c : Text) (o : Option Text) → (adopt_tree git mount t c w s o).1.0 ≡ w
  unfolding reject_version reject
  adopt_tree-world c none = refl
  adopt_tree-world c (some tree) = elim (Bool-cases (text_beq tree t.tree)) [
    | inl same ↦ rw same refl
    | inr other ↦ rw other refl
  ]

  -- A publication does nothing to the repository where the remote already has the tag.
  pub publish_target-unmoved :
      (c : Text)
      → remote_commit git mount t w ≡ some (some c)
      → (publish_target git mount t w s).1.0 ≡ w
  unfolding publish_target reject_version reject adopt
  publish_target-unmoved c there = elim (Option-cases (recorded t s)) [
    | inl e ↦ rw (e, there, publish_target) (adopt_tree-world c _)
    | inr (row, e) ↦ elim (Bool-cases (text_beq row.digest t.tree)) [
      | inl same ↦ rw (e, there, same, publish_target) (check_recorded-world row c)
      | inr other ↦ rw (e, other, publish_target) refl
    ]
  ]

-- What git documents of annotated tags: a tag that is made resolves to its commit, and a push of a tag
-- that succeeds leaves the remote listing the tag at the commit that it resolves to here.
module _ {W : Type 0} (git : Git W) (mount : Mount)
    (tag_resolves : (w : W) (name commit message : Text)
      → (git.tag w name (some commit) message).0 ≡ true
      → git.rev_parse (git.tag w name (some commit) message).1 (tag_ref_of name ++ text "^{}")
        ≡ some commit)
    (push_lists : (w : W) (ref commit : Text)
      → (git.push w (ref ++ text ":" ++ ref)).0 ≡ true
      → git.rev_parse w (ref ++ text "^{}") ≡ some commit
      → (refs : List (Text × Text)) × (git.ls_remote
            (git.push w (ref ++ text ":" ++ ref)).1
            (ref ++ text "*")
          ≡ some refs)
        × (remote_tag_commit refs ref ≡ some commit))
    (t : Target) where
  -- A run that reports the version as published has its tag at the head on the remote.
  abbrev IsTagged : Run W → Type 0
  IsTagged run =
      (v digest commit : Text)
      → run.0 ≡ published v digest commit
      → (commit ≡ t.head) × (remote_commit git mount t run.1.0 ≡ some (some t.head))

  IsTagged-reject : (w : W) (s : Store) → IsTagged (reject_version mount t w s)
  unfolding reject_version reject
  IsTagged-reject w s v digest commit h = absurd (cc)

  IsTagged-insert :
      (w : W) (r : Bool × Store)
      → remote_commit git mount t w ≡ some (some t.head)
      → IsTagged (after_insert mount t t.head w r)
  IsTagged-insert w (true, s) there = λ v digest commit h. (cc, there)
  IsTagged-insert w (false, s) there = elim (Bool-cases (differs (recorded t s) t.tree)) [
    | inl e ↦ rw e (IsTagged-reject w s)
    | inr e ↦ rw e (λ v digest commit h. absurd (cc))
  ]

  IsTagged-record :
      (w : W) (s : Store)
      → remote_commit git mount t w ≡ some (some t.head)
      → IsTagged (record_version mount t t.head w s)
  unfolding record_version
  IsTagged-record w s there = IsTagged-insert w _ there

  IsTagged-judge :
      (w : W) (s : Store) (o : Option (Option Text))
      → remote_commit git mount t w ≡ o
      → IsTagged (judge_push git mount t w s o)
  IsTagged-judge w s none e = λ v digest commit h. absurd (cc)
  IsTagged-judge w s (some none) e = λ v digest commit h. absurd (cc)
  IsTagged-judge w s (some (some winner)) e = elim (Bool-cases (text_beq winner t.head)) [
    | inl same ↦
        rw same (IsTagged-record w s (e ∙ ap (λ c. some (some c)) ((text_beq_iff _ _).0 same)))
    | inr other ↦ rw other (elim (Bool-cases (truthy (some winner))) [
      | inl full ↦ rw full (IsTagged-reject w s)
      | inr empty ↦ rw empty (λ v digest commit h. absurd (cc))
    ])
  ]

  IsTagged-finish :
      (s : Store) (r : Bool × W)
      → (r.0 ≡ true → remote_commit git mount t r.1 ≡ some (some t.head))
      → IsTagged (finish_push git mount t s r)
  IsTagged-finish s (true, w) there = IsTagged-record w s (there refl)
  IsTagged-finish s (false, w) there = IsTagged-judge w s _ refl

  push_tag-there :
      (w : W)
      → local_commit git mount t w ≡ some t.head
      → (push_tag git mount t w).0 ≡ true
      → remote_commit git mount t (push_tag git mount t w).1 ≡ some (some t.head)
  unfolding push_tag local_commit remote_commit
  push_tag-there w here done =
      let (refs, listed, peeled) = push_lists w (tag_ref_of (tag_of t)) t.head done here in
      rw (listed, remote_commit, push_tag) (ap some peeled)

  IsTagged-created :
      (s : Store) (r : Bool × W)
      → (r.0 ≡ true → local_commit git mount t r.1 ≡ some t.head)
      → IsTagged (push_created git mount t s r)
  IsTagged-created s (true, w) here =
      IsTagged-finish s (push_tag git mount t w) (push_tag-there w (here refl))
  IsTagged-created s (false, w) here = λ v digest commit h. absurd (cc)

  IsTagged-fresh : (w : W) (s : Store) → IsTagged (publish_fresh git mount t w s)
  unfolding publish_fresh local_commit
  IsTagged-fresh w s = elim (Option-cases (local_commit git mount t w)) [
    | inl e ↦
        rw (e, publish_fresh)
          (IsTagged-created s _ (tag_resolves w (tag_of t) t.head (tag_message t)))
    | inr (sha, e) ↦ elim (Bool-cases (text_beq sha t.head)) [
      | inl same ↦
          rw (e, same, publish_fresh)
            (IsTagged-finish s _ (push_tag-there w (e ∙ ap some ((text_beq_iff _ _).0 same))))
      | inr other ↦ rw (e, other, publish_fresh) (IsTagged-reject w s)
    ]
  ]

  IsTagged-against :
      (row : LedgerRow) (w : W) (s : Store) → IsTagged (reject_against git mount row t w s)
  IsTagged-against row w s = elim (Option-cases row.commit_sha) [
    | inl e ↦ rw e (λ v digest commit h. absurd (cc))
    | inr (sha, e) ↦ rw e (IsTagged-reject w s)
  ]

  IsTagged-judge_heal :
      (row : LedgerRow) (w : W) (s : Store) (o : Option (Option Text))
      → IsTagged (judge_heal git mount row t w s o)
  IsTagged-judge_heal row w s none = λ v digest commit h. absurd (cc)
  IsTagged-judge_heal row w s (some winner) = elim (Bool-cases (is_commit winner row.commit_sha)) [
    | inl same ↦ rw same (λ v digest commit h. absurd (cc))
    | inr other ↦ rw other (elim (Bool-cases (truthy winner)) [
      | inl full ↦ rw full (IsTagged-reject w s)
      | inr empty ↦ rw empty (λ v digest commit h. absurd (cc))
    ])
  ]

  IsTagged-finish_heal :
      (row : LedgerRow) (s : Store) (r : Bool × W) → IsTagged (finish_heal git mount row t s r)
  IsTagged-finish_heal row s (true, w) = λ v digest commit h. absurd (cc)
  IsTagged-finish_heal row s (false, w) = IsTagged-judge_heal row w s _

  IsTagged-heal : (row : LedgerRow) (w : W) (s : Store) → IsTagged (heal git mount row t w s)
  unfolding heal
  IsTagged-heal row w s = elim (Option-cases (local_commit git mount t w)) [
    | inl e ↦ rw (e, heal) (IsTagged-finish_heal row s _)
    | inr (sha, e) ↦ elim (Bool-cases (is_commit (some sha) row.commit_sha)) [
      | inl same ↦ rw (e, heal, same) (IsTagged-finish_heal row s _)
      | inr other ↦ rw (e, heal, other) (IsTagged-against row w s)
    ]
  ]

  IsTagged-recorded :
      (row : LedgerRow) (w : W) (s : Store) (o : Option (Option Text))
      → IsTagged (check_recorded git mount row t w s o)
  IsTagged-recorded row w s none = λ v digest commit h. absurd (cc)
  IsTagged-recorded row w s (some none) = IsTagged-heal row w s
  IsTagged-recorded row w s (some (some sha)) =
      elim (Bool-cases (is_commit (some sha) row.commit_sha)) [
        | inl same ↦ rw same (λ v digest commit h. absurd (cc))
        | inr other ↦ rw other (IsTagged-against row w s)
      ]

  IsTagged-adopt :
      (c : Text) (w : W) (s : Store) (o : Option Text) → IsTagged (adopt_tree git mount t c w s o)
  IsTagged-adopt c w s none = IsTagged-reject w s
  IsTagged-adopt c w s (some tree) = elim (Bool-cases (text_beq tree t.tree)) [
    | inl same ↦ rw same (λ v digest commit h. absurd (cc))
    | inr other ↦ rw other (IsTagged-reject w s)
  ]

  IsTagged-unrecorded :
      (w : W) (s : Store) (o : Option (Option Text)) → IsTagged (check_unrecorded git mount t w s o)
  unfolding adopt
  IsTagged-unrecorded w s none = λ v digest commit h. absurd (cc)
  IsTagged-unrecorded w s (some none) = IsTagged-fresh w s
  IsTagged-unrecorded w s (some (some sha)) = IsTagged-adopt sha w s _

  IsTagged-target : (w : W) (s : Store) → IsTagged (publish_target git mount t w s)
  unfolding publish_target
  IsTagged-target w s = elim (Option-cases (recorded t s)) [
    | inl e ↦ rw (e, publish_target) (IsTagged-unrecorded w s _)
    | inr (row, e) ↦ elim (Bool-cases (text_beq row.digest t.tree)) [
      | inl same ↦ rw (e, same, publish_target) (IsTagged-recorded row w s _)
      | inr other ↦ rw (e, other, publish_target) (IsTagged-reject w s)
    ]
  ]

  -- Where git makes and pushes tags as documented, a publication that reports a version as published reports the head of the branch as its commit, and
  -- the remote then lists the version's tag at that head.
  pub publish_target-IsTagged :
      (w : W) (s : Store) (v digest commit : Text)
      → (publish_target git mount t w s).0 ≡ published v digest commit
      → (commit ≡ t.head)
        × (remote_commit git mount t (publish_target git mount t w s).1.0 ≡ some (some t.head))
  publish_target-IsTagged w s = IsTagged-target w s
