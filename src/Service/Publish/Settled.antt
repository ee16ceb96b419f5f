-- ===== src/Service/Publish/Settled.antt =====
-- What a publication leaves in the ledger.
use omp_spec_kit.Prelude.{
  Text, false, ◌≡◌, refl, Option, none, some, ◌++◌, Bool-cases, Option-cases, inl, inr, ok, ◌⊎◌,
  text, Result-cases,
}
use omp_spec_kit.Service.Store.{Store, log_access}
use omp_spec_kit.Service.Store.Ledger.{served}
use omp_spec_kit.Service.Store.Insertion.{is_empty}
use omp_spec_kit.Service.Authored.{authored_field, is_ref_safe_version}
use omp_spec_kit.Service.Branches.{spec_branch_name}
use omp_spec_kit.Service.Publish.{
  Git, Mount, RejectCode, Run, Target, spec_key_of, spec_path_of, reject, publish_target,
  publish_versioned, publish_snapshot, publish_head, publish_spec_now, remote_branch_ref, truthy,
  is_active,
}
use omp_spec_kit.Service.Publish.Ledger.{Records}
use omp_spec_kit.Service.Publish.Targets.{Keeps, Writes-Keeps, settled, Good-target}

-- The target of a publication of the slug from the branch at the head.
abbrev pub IsTarget : {W : Type 0} → Git W → Text → Text → W → Target → Type 0
IsTarget git project slug w t =
    (t.project ≡ project)
    × (t.slug ≡ slug)
    × (spec_branch_name slug ≡ ok t.branch)
    × (git.rev_parse w (remote_branch_ref t.branch) ≡ some t.head)
    × (git.object_id w t.head (spec_path_of slug) ≡ some t.tree)

module _ {W : Type 0} (git : Git W) (mount : Mount) (project slug : Text) (w : W) (s : Store) where
  -- A run keeps the ledger and settles nothing, or it is the run of a target.
  abbrev IsEarly : Run W → Type 0
  IsEarly run = (run.1.1.ledger ≡ s.ledger) × (run.1.0 ≡ w) × (settled run.0 ≡ none)

  abbrev IsSplit : Run W → Type 0
  IsSplit run =
      IsEarly run
      ⊎ ((t : Target) × IsTarget git project slug w t × (run ≡ publish_target git mount t w s))

  IsEarly-reject :
      (version : Option Text) (code : RejectCode)
      → IsEarly (reject mount project slug version code w s)
  unfolding reject log_access
  IsEarly-reject version code = (refl, refl, refl)

  module _ (branch head tree : Text) (b : spec_branch_name slug ≡ ok branch)
      (h : git.rev_parse w (remote_branch_ref branch) ≡ some head)
      (o : git.object_id w head (spec_path_of slug) ≡ some tree) where
    IsSplit-versioned :
        (version : Option Text)
        → IsSplit (publish_versioned git mount project slug branch head tree version w s)
    IsSplit-versioned none = inl (IsEarly-reject none _)
    IsSplit-versioned (some v) = elim (Bool-cases (truthy (some v))) [
      | inr empty ↦ rw empty (inl (IsEarly-reject none _))
      | inl full ↦ rw full (elim (Bool-cases (is_ref_safe_version v)) [
        | inr unsafe ↦ rw unsafe (inl (IsEarly-reject (some v) _))
        | inl safe ↦ rw safe (inr (_, (refl, refl, b, h, o), refl))
      ])
    ]

  IsSplit-snapshot :
      (branch head : Text)
      → spec_branch_name slug ≡ ok branch
      → git.rev_parse w (remote_branch_ref branch) ≡ some head
      → IsSplit (publish_snapshot git mount project slug branch head w s)
  unfolding publish_snapshot
  IsSplit-snapshot branch head b h =
      elim (Option-cases (git.show w head (spec_path_of slug ++ text "/README.md"))) [
        | inl e ↦ rw (e, publish_snapshot) (inl (refl, refl, refl))
        | inr (readme, e) ↦ elim (Option-cases (git.object_id w head (spec_path_of slug))) [
          | inl e2 ↦ rw (e, e2, publish_snapshot) (inl (refl, refl, refl))
          | inr (tree, e2) ↦ elim (Bool-cases (is_active (authored_field readme (text "Status")))) [
            | inr no' ↦ rw (e, e2, publish_snapshot, no') (inl (refl, refl, refl))
            | inl yes' ↦
                rw (e, e2, publish_snapshot, yes') (IsSplit-versioned branch head tree b h e2 _)
          ]
        ]
      ]

  IsSplit-head :
      (branch : Text) (o : Option Text)
      → spec_branch_name slug ≡ ok branch
      → git.rev_parse w (remote_branch_ref branch) ≡ o
      → IsSplit (publish_head git mount project slug branch o w s)
  IsSplit-head branch none b h = inl (refl, refl, refl)
  IsSplit-head branch (some head) b h = elim (Bool-cases (truthy (some head))) [
    | inr empty ↦ rw empty (inl (refl, refl, refl))
    | inl full ↦ rw full (IsSplit-snapshot branch head b h)
  ]

  -- A publication that comes to no target changes neither the repository nor the ledger, and any other
  -- is the run of its target.
  publish_spec_now-IsSplit : IsSplit (publish_spec_now git mount project slug w s)
  unfolding publish_spec_now
  publish_spec_now-IsSplit = elim (Result-cases (spec_branch_name slug)) [
    | inl (branch, e) ↦
        let step : publish_spec_now git mount project slug w s
            ≡ publish_head git mount project slug branch
                (git.rev_parse w (remote_branch_ref branch)) w s =
          rw (e, publish_spec_now) refl in
        rw step (IsSplit-head branch _ e refl)
    | inr (error, e) ↦ rw (e, publish_spec_now) (inl (refl, refl, refl))
  ]

  -- Where other publishers keep what is recorded, a publication keeps it: whatever its outcome, `getLedger`
  -- gives of a version of which it gave a row before the same rows afterwards.
  pub publish_spec_now-served :
      (key version : Text)
      → ((s' : Store) → Keeps s' (mount.meanwhile s'))
      → is_empty (served key version s) ≡ false
      → served key version (publish_spec_now git mount project slug w s).1.1 ≡ served key version s
  publish_spec_now-served key version keeps known = elim publish_spec_now-IsSplit [
    | inl (ledger, world, unsettled) ↦ Writes-Keeps mount s _ keeps (inl ledger) key version known
    | inr (t, target, same) ↦
        rw same (Writes-Keeps mount s _ keeps (Good-target git mount t w s).0 key version known)
  ]

  -- An outcome that reports a version as published, as a no-op, as healed or as not healed has, in the
  -- ledger that the publication leaves, a row of the version whose digest is the tree of the specification
  -- at the head of its branch.
  pub publish_spec_now-Records :
      (v : Text)
      → settled (publish_spec_now git mount project slug w s).0 ≡ some v
      → (t : Target) × IsTarget git project slug w t
        × (v ≡ t.version)
        × Records
            (spec_key_of project slug)
            v
            t.tree
            (publish_spec_now git mount project slug w s).1.1
  publish_spec_now-Records v h = elim publish_spec_now-IsSplit [
    | inl (ledger, world, unsettled) ↦ absurd (cc)
    | inr (t, target, same) ↦
        let (version, row) = (Good-target git mount t w s).1 v (rw same at h) in
        rw same (t, target, version, rw (← target.0, ← target.1, version) row)
  ]
