-- ===== src/Enforcement/Reasons/Bound.antt =====
-- The length of the reasons in bytes.
use omp_spec_kit.Prelude.{
  ℕ, zero, suc, ◌≤◌, Text, take, leb, Option, [], ◌≢◌, refl, inl, inr, Bool-cases, arith,
}
use omp_spec_kit.Kernel.Normalize.{byte_length, byte_length_from}
use omp_spec_kit.Enforcement.Reasons.{
  Code, recovery_of, target_clause, reason_with, cut_target, bounded_reason,
}

cut_target-bound :
    (code : Code) (recovery target : Text) (kept : ℕ)
    → byte_length (reason_with code recovery []) ≤ 512
    → byte_length (reason_with code recovery (cut_target code recovery target kept)) ≤ 512
unfolding cut_target
cut_target-bound code recovery target zero h = h
cut_target-bound code recovery target (suc kept) h =
    elim (Bool-cases (leb (byte_length (reason_with code recovery (take (suc kept) target))) 512)) [
      | inl fits ↦ rw fits (ground arith)
      | inr long ↦ rw long (cut_target-bound code recovery target kept h)
    ]

bare_bound :
    (code : Code) (relative_path : Option Text)
    → code ≢ Code.spec_read_redirect
    → byte_length (reason_with code (recovery_of code relative_path) []) ≤ 512
unfolding byte_length byte_length_from recovery_of
bare_bound Code.target_indeterminate relative_path h = omega arith
bare_bound Code.raw_spec_write relative_path h = omega arith
bare_bound Code.spec_read_redirect relative_path h = absurd (h refl)
bare_bound Code.design_review_required relative_path h = omega arith
bare_bound Code.unregistered_authoring_call relative_path h = omega arith
bare_bound Code.ambiguous_tool_authority relative_path h = omega arith

-- The reason of a blocked call has at most 512 bytes in UTF-8, whatever the target, unless the call is
-- redirected to the reading tools, whose recovery repeats the path.
pub bounded_reason-bound :
    (code : Code) (relative_path : Option Text)
    → code ≢ Code.spec_read_redirect
    → byte_length (bounded_reason code relative_path) ≤ 512
unfolding bounded_reason
bounded_reason-bound code relative_path h =
    elim (Bool-cases (
      leb
        (byte_length
          (reason_with code (recovery_of code relative_path) (target_clause relative_path)))
        512)) [
          | inl fits ↦ rw fits (ground arith)
          | inr long ↦ rw long (
              cut_target-bound code (recovery_of code relative_path) (target_clause relative_path) _
                (bare_bound code relative_path h))
        ]
