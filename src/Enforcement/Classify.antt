-- ===== src/Enforcement/Classify.antt =====
-- src/enforcement/classifier.js: the decision on a tool call.
pub mod FailClosed
use omp_spec_kit.Prelude.{
  Text, text, text_eq, text_beq, length, Bool, true, false, not, ◌&&◌, ◌||◌, Option, none, some,
  List, [], ◌∷◌, ◌++◌, if◌then◌else◌, includes, map, Result, ok, err,
}
use omp_spec_kit.Enforcement.Values.{Value, text_values, has_embedded}
use omp_spec_kit.Enforcement.Paths.{
  Platform, TargetResolution, Decision, allow, block_indeterminate, block_spec, resolve_targets,
  decide_path_policy,
}
use omp_spec_kit.Enforcement.Selectors.{strip_read_selector}
use omp_spec_kit.Enforcement.Authority.{
  Family, tool_names, family_of, family_has, ObservedTool, AuthorityError, resolve_authority,
}
use omp_spec_kit.Enforcement.Reasons.{Code, bounded_reason, offending_target}
use omp_spec_kit.Enforcement.Features.{Files, feature_patch_needs_design_review}

pub data Mismatch : Type 0 where
  no_mismatch authority design_review short_name_forbidden : Mismatch
  authority_error : AuthorityError → Mismatch

pub record Block : Type 0 where
  pub code : Code
  pub touches_specs : Bool
  pub mismatch_field : Mismatch
  pub reason : Text

-- `continued` says whether the code NON_SPEC_ALLOWED is given.
pub data Verdict : Type 0 where
  blocked : Block → Verdict
  allowed : Text → Verdict
  continued : Bool → Verdict

abbrev pub has_targets : List TargetResolution → Bool
has_targets [] = false
has_targets (item ∷ items) = true

abbrev pub is_indeterminate_code : Code → Bool
is_indeterminate_code Code.target_indeterminate = true
is_indeterminate_code _ = false

abbrev pub mismatch_or : Code → Mismatch → Mismatch
mismatch_or Code.unregistered_authoring_call no_mismatch = authority
mismatch_or code mismatch = mismatch

-- `blocked`
unfoldable pub block : Code → List TargetResolution → Mismatch → Verdict
block code resolutions mismatch = blocked (record {
  code = code;
  touches_specs = not (is_indeterminate_code code) || has_targets resolutions;
  mismatch_field = mismatch_or code mismatch;
  reason = bounded_reason code (offending_target code resolutions);
})

abbrev pub is_mutation_tool : Text → Bool
is_mutation_tool name =
    includes (text "write" ∷ text "edit" ∷ text "apply_patch" ∷ text "delete" ∷ text "rename" ∷ [])
      name

abbrev pub is_read_tool : Text → Bool
is_read_tool name = includes (text "read" ∷ text "grep" ∷ text "glob" ∷ []) name

abbrev pub code_of_error : AuthorityError → Code
code_of_error AuthorityError.not_authorized = Code.unregistered_authoring_call
code_of_error AuthorityError.not_in_active_family = Code.unregistered_authoring_call
code_of_error _ = Code.ambiguous_tool_authority

abbrev pub family_a : Family
family_a = family_of (text "omp-spec-kit") tool_names

abbrev pub family_b : Family
family_b = family_of (text "omp-spec-kit:omp-spec-kit") tool_names

abbrev pub no_targets : List Text → Bool
no_targets [] = true
no_targets (t ∷ ts) = false

-- A call: its tool, its input, and the tools that the host shows, if it shows them.
pub record Call : Type 0 where
  pub tool_name : Text
  pub input : Value
  pub all_tools : Option (List ObservedTool)

module _ (files : Files) (root : Text) where
  -- `readTargets`
  unfoldable pub read_targets : Text → List Text → List Text
  read_targets tool_name targets =
      if is_read_tool tool_name
      then map (λ t. strip_read_selector files.platform.lower files.platform.on_windows t) targets
      else targets

  abbrev pub with_authority : Value → Result AuthorityError Text → Verdict
  with_authority input (err e) = block (code_of_error e) [] (authority_error e)
  with_authority input (ok logical_name) =
      if text_beq logical_name (text "spec_patch")
        && feature_patch_needs_design_review files root input
      then block Code.design_review_required [] design_review
      else allowed logical_name

  -- `classifyMcpToolCall`
  unfoldable pub classify_mcp_tool_call : Call → Verdict
  classify_mcp_tool_call call =
      with_authority call.input
        (resolve_authority family_a family_b call.tool_name call.all_tools (length tool_names))

  abbrev pub with_policy : Text → List TargetResolution → Decision → Verdict
  with_policy tool_name resolutions allow = continued (is_mutation_tool tool_name)
  with_policy tool_name resolutions block_indeterminate =
      block Code.target_indeterminate resolutions no_mismatch
  with_policy tool_name resolutions block_spec =
      if is_read_tool tool_name
      then block Code.spec_read_redirect resolutions no_mismatch
      else block Code.raw_spec_write resolutions no_mismatch

  unfoldable pub classify_targets : Text → List Text → Verdict
  classify_targets tool_name targets =
      if no_targets targets && not (is_mutation_tool tool_name)
      then continued false
      else with_policy tool_name (resolve_targets files.platform root targets)
          (decide_path_policy (resolve_targets files.platform root targets))

  -- `classifyToolCall`
  unfoldable pub classify_tool_call : Call → Verdict
  classify_tool_call call =
      if includes tool_names call.tool_name
      then block Code.unregistered_authoring_call [] short_name_forbidden
      else if family_has family_a call.tool_name || family_has family_b call.tool_name
      then classify_mcp_tool_call call
      else if has_embedded [] call.input
      then block Code.raw_spec_write [] no_mismatch
      else classify_targets call.tool_name (read_targets call.tool_name (text_values [] call.input))
