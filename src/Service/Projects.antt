-- ===== src/Service/Projects.antt =====
-- src/service/project-id.js and src/service/branch-policy.js: the names of projects and of mirror branches.
pub mod Segments
use mathlib.Core.List.{reverse}
use omp_spec_kit.Prelude.{
  ℕ, ◌+◌, zero, suc, Text, text, text_beq, starts_with, index_of, Bool, true, false, not, ◌&&◌,
  ◌||◌, leb, nat_beq, Option, none, some, List, [], ◌∷◌, ◌++◌, length, take, drop, all, any,
  if◌then◌else◌,
}
use omp_spec_kit.Service.Authored.{is_alnum, is_version_char, ends_with_char, has_double_dot}

-- [A-Za-z0-9._-]
abbrev pub is_segment_char : ℕ → Bool
is_segment_char c = is_alnum c || nat_beq c 46 || nat_beq c 95 || nat_beq c 45

-- `[A-Za-z0-9._-]*[A-Za-z0-9]` to the end
unfoldable pub ends_segment : Text → Bool
ends_segment [] = false
ends_segment (c ∷ cs) =
    let rest = ends_segment cs in
    (is_segment_char c && rest) || (is_alnum c && nat_beq (length cs) 0)

-- SEGMENT
abbrev pub is_segment : Text → Bool
is_segment [] = false
is_segment (c ∷ cs) = is_alnum c && (nat_beq (length cs) 0 || ends_segment cs)

abbrev pub is_bad_segment : Text → Bool
is_bad_segment s = not (is_segment s) || text_beq s (text ".") || text_beq s (text "..")

pub data ProjectIdError : Type 0 where
  not_owner_project invalid_segment : ProjectIdError

abbrev pub check_segments : Text → Text → Option ProjectIdError
check_segments owner project =
    if is_bad_segment owner || is_bad_segment project then some invalid_segment else none

-- `slash <= 0 || slash === id.length - 1`
abbrev pub check_slash : Text → Option ℕ → Option ProjectIdError
check_slash id none = some not_owner_project
check_slash id (some slash) =
    if nat_beq slash 0 || nat_beq (slash + 1) (length id)
    then some not_owner_project
    else check_segments (take slash id) (drop (slash + 1) id)

unfoldable pub project_id_error : Text → Option ProjectIdError
project_id_error id = check_slash id (index_of 47 id)

abbrev pub is_none : Option ProjectIdError → Bool
is_none none = true
is_none (some e) = false

unfoldable pub is_valid_project_id : Text → Bool
is_valid_project_id id = is_none (project_id_error id)

-- `text.includes(part)`
unfoldable pub has_part : Text → Text → Bool
has_part part [] = starts_with [] part
has_part part (c ∷ cs) = starts_with (c ∷ cs) part || has_part part cs

abbrev pub has_branch_form : Text → Bool
has_branch_form [] = false
has_branch_form (c ∷ cs) = is_alnum c && leb (length cs) 199 && all is_version_char cs

abbrev pub split_cons : ℕ → List Text → List Text
split_cons c [] = (c ∷ []) ∷ []
split_cons c (part ∷ parts) = (c ∷ part) ∷ parts

-- `text.split("/")`
unfoldable pub split_slash : Text → List Text
split_slash [] = [] ∷ []
split_slash (c ∷ cs) =
    let rest = split_slash cs in if nat_beq c 47 then [] ∷ rest else split_cons c rest

abbrev pub is_bad_part : Text → Bool
is_bad_part part =
    nat_beq (length part) 0
    || text_beq part (text ".")
    || text_beq part (text "..")
    || starts_with part (text ".")

unfoldable pub is_valid_branch_name : Text → Bool
is_valid_branch_name branch =
    not (nat_beq (length branch) 0)
    && has_branch_form branch
    && not (
        has_part (text "..") branch
        || has_part (text "//") branch
        || has_part (64 ∷ 123 ∷ []) branch
        || has_part (92 ∷ []) branch)
    && not (
        ends_with_char 47 branch
        || ends_with_char 46 branch
        || starts_with (reverse branch) (reverse (text ".lock")))
    && not (any is_bad_part (split_slash branch))
