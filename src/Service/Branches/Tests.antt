-- ===== src/Service/Branches/Tests.antt =====
-- The branch names of one specification.
use omp_spec_kit.Prelude.{text, strip_prefix, ◌≡◌, refl, some, ok}
use omp_spec_kit.Kernel.Identity.{is_valid_spec_slug, kebab_from}
use omp_spec_kit.Service.Branches.{
  bytes, bytes_from, spec_branch_name, spec_work_branch_name, cut_separator, work_branch,
  parse_spec_branch,
}
use omp_spec_kit.Service.Branches.RoundTrip.{parse_spec_branch-work_name}

work_name : spec_work_branch_name (text "auth") (text "fix") ≡ ok (text "spec-auth--fix")
unfolding spec_work_branch_name spec_branch_name is_valid_spec_slug kebab_from bytes bytes_from
work_name = refl

name : spec_branch_name (text "auth") ≡ ok (text "spec-auth")
unfolding spec_branch_name is_valid_spec_slug kebab_from bytes bytes_from
name = refl

parse_spec_branch-work_name_example :
    parse_spec_branch (text "spec-auth--fix") ≡ some (work_branch (text "auth") (text "fix"))
parse_spec_branch-work_name_example =
    parse_spec_branch-work_name (text "auth") (text "fix") (text "spec-auth--fix") work_name

parsed : parse_spec_branch (text "spec-auth--fix") ≡ some (work_branch (text "auth") (text "fix"))
unfolding parse_spec_branch cut_separator strip_prefix is_valid_spec_slug kebab_from
parsed = refl
