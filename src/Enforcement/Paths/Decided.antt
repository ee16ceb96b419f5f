-- ===== src/Enforcement/Paths/Decided.antt =====
-- What a decision of the path policy says of the targets.
use omp_spec_kit.Prelude.{true, false, ◌≡◌, refl, List, [], ◌∷◌, any, arith, All}
use omp_spec_kit.Enforcement.Paths.{
  Resolution, spec, non_spec, indeterminate, TargetResolution, is_indeterminate, is_spec, allow,
  decide_path_policy,
}

-- The target leads elsewhere.
abbrev pub LeadsElsewhere : TargetResolution → Type 0
LeadsElsewhere item = item.resolution ≡ non_spec

neither :
    (r : Resolution)
    → (elim r [ indeterminate ↦ true | _ ↦ false ]) ≡ false
    → (elim r [ spec ↦ true | _ ↦ false ]) ≡ false
    → r ≡ non_spec
neither spec h k = absurd (cc)
neither non_spec h k = refl
neither indeterminate h k = absurd (cc)

none_of :
    (items : List TargetResolution)
    → any is_indeterminate items ≡ false
    → any is_spec items ≡ false
    → All LeadsElsewhere items
none_of [] h k = tt
none_of (item ∷ items) h k = (
  neither item.resolution (ground arith) (ground arith),
  none_of items (ground arith) (ground arith),
)

-- The policy lets targets through only if every one of them leads elsewhere than to the folder of
-- specifications.
pub decide_path_policy-allow :
    (items : List TargetResolution) → decide_path_policy items ≡ allow → All LeadsElsewhere items
unfolding decide_path_policy
decide_path_policy-allow items h = none_of items (ground arith) (ground arith)
