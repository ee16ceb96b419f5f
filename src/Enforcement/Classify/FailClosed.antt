-- ===== src/Enforcement/Classify/FailClosed.antt =====
-- A call that is let through reaches no specification.
use omp_spec_kit.Prelude.{
  Text, text, text_eq, text_beq, Bool, false, ◌&&◌, ◌||◌, List, [], ◌∷◌, includes, map, All, Result,
  ok, err, ◌≡◌, refl, inl, inr, Bool-cases,
}
use omp_spec_kit.Enforcement.Values.{Value, text_values, has_embedded}
use omp_spec_kit.Enforcement.Paths.{
  TargetResolution, Decision, allow, block_indeterminate, block_spec, resolve_target,
  resolve_targets, decide_path_policy,
}
use omp_spec_kit.Enforcement.Paths.Decided.{LeadsElsewhere, decide_path_policy-allow}
use omp_spec_kit.Enforcement.Authority.{tool_names, family_has, AuthorityError}
use omp_spec_kit.Enforcement.Features.{Files, feature_patch_needs_design_review}
use omp_spec_kit.Enforcement.Reasons.{Code}
use omp_spec_kit.Enforcement.Classify.{
  design_review, short_name_forbidden, no_mismatch, allowed, continued, block, Call, is_read_tool,
  family_a, family_b, read_targets, with_authority, with_policy, classify_mcp_tool_call,
  classify_targets, classify_tool_call,
}

map-All {ℓ κ μ} :
    {A : Type ℓ} {B : Type κ} (P : B → Type μ) (f : A → B) (xs : List A)
    → All P (map f xs)
    → All (λ x. P (f x)) xs
map-All P f [] h = tt
map-All P f (x ∷ xs) (h, hs) = (h, map-All P f xs hs)

module _ (files : Files) (root : Text) where
  -- The text leads elsewhere than to the folder of specifications.
  unfoldable pub IsElsewhere : Text → Type 0
  IsElsewhere target = LeadsElsewhere (resolve_target files.platform root target)

  policy-continued :
      (tool_name : Text) (items : List TargetResolution) (d : Decision) (b : Bool)
      → with_policy files root tool_name items d ≡ continued b
      → d ≡ allow
  unfolding block
  policy-continued tool_name items allow b h = refl
  policy-continued tool_name items block_indeterminate b h = absurd (cc)
  policy-continued tool_name items block_spec b h = elim (Bool-cases (is_read_tool tool_name)) [
    | inl read ↦ absurd (let h' : block _ items _ ≡ continued b = rw read at h in cc)
    | inr other ↦ absurd (let h' : block _ items _ ≡ continued b = rw other at h in cc)
  ]

  targets-IsElsewhere :
      (targets : List Text)
      → decide_path_policy (resolve_targets files.platform root targets) ≡ allow
      → All IsElsewhere targets
  unfolding resolve_targets IsElsewhere
  targets-IsElsewhere [] h = tt
  targets-IsElsewhere (t ∷ ts) h =
      map-All LeadsElsewhere (λ target. resolve_target files.platform root target) (t ∷ ts)
        (decide_path_policy-allow _ h)

  classify_targets-continued :
      (tool_name : Text) (targets : List Text) (b : Bool)
      → classify_targets files root tool_name targets ≡ continued b
      → All IsElsewhere targets
  unfolding classify_targets
  classify_targets-continued tool_name [] b h = tt
  classify_targets-continued tool_name (t ∷ ts) b h =
      targets-IsElsewhere (t ∷ ts) (policy-continued tool_name _ _ b h)

  mcp-continued :
      (input : Value) (r : Result AuthorityError Text) (b : Bool)
      → with_authority files root input r ≡ continued b
      → ⊥
  unfolding block
  mcp-continued input (err e) b h = cc
  mcp-continued input (ok tool) b h =
      elim (Bool-cases
        (text_beq tool (text "spec_patch") && feature_patch_needs_design_review files root input)) [
          | inl needed ↦
              let h' : block Code.design_review_required [] design_review ≡ continued b =
                rw needed at h in
              cc
          | inr free ↦ let h' : allowed tool ≡ continued b = rw free at h in cc
        ]

  -- A call goes on as one that is none of the authoring tools' only if its input names the folder of
  -- specifications in no code and no command, and every path in it, less the selector that a read tool
  -- takes after it, leads elsewhere than to that folder.
  pub classify_tool_call-continued :
      (call : Call) (b : Bool)
      → classify_tool_call files root call ≡ continued b
      → (includes tool_names call.tool_name ≡ false)
        × ((family_has family_a call.tool_name || family_has family_b call.tool_name) ≡ false)
        × (has_embedded [] call.input ≡ false)
        × All IsElsewhere (read_targets files root call.tool_name (text_values [] call.input))
  unfolding classify_tool_call block classify_mcp_tool_call
  classify_tool_call-continued call b h = elim (Bool-cases (includes tool_names call.tool_name)) [
    | inl short ↦ absurd (
        let h' : block Code.unregistered_authoring_call [] short_name_forbidden ≡ continued b =
          rw short at h in
        cc)
    | inr long ↦
        elim (Bool-cases
          (family_has family_a call.tool_name || family_has family_b call.tool_name)) [
            | inl mcp ↦ absurd (mcp-continued call.input _ b (rw (long, mcp) at h))
            | inr other ↦ elim (Bool-cases (has_embedded [] call.input)) [
              | inl embedded ↦ absurd (
                  let h' : block Code.raw_spec_write [] no_mismatch ≡ continued b =
                    rw (long, other, embedded) at h in
                  cc)
              | inr clean ↦ (
                long,
                other,
                clean,
                classify_targets-continued call.tool_name _ b (rw (long, other, clean) at h),
              )
            ]
          ]
  ]
