-- ===== src/Enforcement/Reasons.antt =====
-- src/enforcement/classifier.js: the reason that a blocked call is given, cut to 512 bytes.
pub mod Bound
use omp_spec_kit.Prelude.{
  ℕ, zero, suc, ◌+◌, Text, text, text_beq, starts_with, length, take, Bool, true, false, not, ◌&&◌,
  ◌||◌, leb, nat_beq, Option, none, some, List, [], ◌∷◌, ◌++◌, if◌then◌else◌, all, find, split_on,
  join_with, is_some,
}
use omp_spec_kit.Kernel.Normalize.{byte_length}
use omp_spec_kit.Enforcement.Values.{is_folded_letter}
use omp_spec_kit.Enforcement.Paths.{
  Resolution, TargetResolution, is_indeterminate, is_spec, is_slash,
}

pub data Code : Type 0 where
  target_indeterminate raw_spec_write spec_read_redirect design_review_required : Code
  unregistered_authoring_call ambiguous_tool_authority : Code

abbrev pub code_name : Code → Text
code_name Code.target_indeterminate = text "TARGET_INDETERMINATE"
code_name Code.raw_spec_write = text "RAW_SPEC_WRITE"
code_name Code.spec_read_redirect = text "SPEC_READ_REDIRECT"
code_name Code.design_review_required = text "DESIGN_REVIEW_REQUIRED"
code_name Code.unregistered_authoring_call = text "UNREGISTERED_AUTHORING_CALL"
code_name Code.ambiguous_tool_authority = text "AMBIGUOUS_TOOL_AUTHORITY"

abbrev pub target_recovery : Text
target_recovery =
    text
      "Recovery: provide one explicit repository-relative target, or use spec_patch with dryRun: true for preview or dryRun: false to apply."

abbrev pub corpus_recovery : Text
corpus_recovery =
    text " use spec_catalog or spec_documents(action: list or read) for specification corpus access"

abbrev pub quoted : Text → Text
quoted t = 34 ∷ (t ++ 34 ∷ [])

abbrev pub document_recovery : List Text → Text
document_recovery (folder ∷ (slug ∷ (part ∷ parts))) =
    if text_beq folder (text ".specs")
      && not (text_beq slug [])
      && all (λ p. not (text_beq p [])) (part ∷ parts)
    then text " use spec_documents(action: "
      ++ (quoted (text "read")
          ++ (text ", spec: "
              ++ (quoted slug
                  ++ (text ", doc: "
                      ++ (quoted (join_with (text "/") (part ∷ parts)) ++ text ")")))))
    else corpus_recovery
document_recovery _ = corpus_recovery

-- `specReadRecovery`
unfoldable pub spec_read_recovery : Option Text → Text
spec_read_recovery none = corpus_recovery
spec_read_recovery (some relative_path) = document_recovery (split_on 47 relative_path)

unfoldable pub recovery_of : Code → Option Text → Text
recovery_of Code.target_indeterminate relative_path = text " " ++ target_recovery
recovery_of Code.spec_read_redirect relative_path = spec_read_recovery relative_path
recovery_of Code.design_review_required relative_path =
    text
      " attach designReview (schema omp-spec-kit/design-review@1; template in skill engineering-anti-bike) to the spec_patch call"
recovery_of _ relative_path =
    text " use spec_patch with dryRun: true for preview or dryRun: false to apply"

abbrev pub has_drive : Text → Bool
has_drive (a ∷ (b ∷ (c ∷ rest))) = is_folded_letter a && nat_beq b 58 && is_slash c
has_drive _ = false

unfoldable pub target_clause : Option Text → Text
target_clause none = []
target_clause (some relative_path) =
    if text_beq relative_path []
      || has_drive relative_path
      || starts_with relative_path (text "/")
      || starts_with relative_path (92 ∷ [])
    then []
    else text " target=" ++ relative_path

abbrev pub reason_with : Code → Text → Text → Text
reason_with code recovery target = code_name code ++ (text ":" ++ (target ++ recovery))

-- The loop that cuts the target: the first `kept` units of it are left.
unfoldable pub cut_target : Code → Text → Text → ℕ → Text
cut_target code recovery target zero = []
cut_target code recovery target (suc kept) =
    let rest = cut_target code recovery target kept in
    if leb (byte_length (reason_with code recovery (take (suc kept) target))) 512
    then take (suc kept) target
    else rest

-- `boundedReason`
unfoldable pub bounded_reason : Code → Option Text → Text
bounded_reason code relative_path =
    let target = target_clause relative_path in
    let recovery = recovery_of code relative_path in
    let reason = reason_with code recovery target in
    if leb (byte_length reason) 512
    then reason
    else reason_with code recovery (cut_target code recovery target (length target))

-- `offendingTarget`: where a target of the kind that the code names is found, its path, or its raw text
-- where that is not empty.
abbrev pub offender_of : Code → List TargetResolution → Option TargetResolution
offender_of Code.target_indeterminate resolutions = find is_indeterminate resolutions
offender_of Code.raw_spec_write resolutions = find is_spec resolutions
offender_of Code.spec_read_redirect resolutions = find is_spec resolutions
offender_of _ resolutions = none

abbrev pub nonempty_raw : Option Text → Option Text
nonempty_raw none = none
nonempty_raw (some raw) = if text_beq raw [] then none else some raw

abbrev pub shown_path : TargetResolution → Option Text
shown_path item = elim item.relative_path [
  | some path ↦ some path
  | none ↦ nonempty_raw item.raw_target
]

abbrev pub path_of_found : Option TargetResolution → Option Text
path_of_found none = none
path_of_found (some item) = item.relative_path

unfoldable pub offending_target : Code → List TargetResolution → Option Text
offending_target code resolutions = elim (offender_of code resolutions) [
  | some item ↦ shown_path item
  | none ↦ path_of_found (find (λ item. is_some item.relative_path) resolutions)
]
