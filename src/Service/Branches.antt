-- ===== src/Service/Branches.antt =====
-- src/service/spec-binding.js: the branch names of specifications.
pub mod RoundTrip
pub mod Tests
use omp_spec_kit.Prelude.{
  ℕ, ◌+◌, Text, text, starts_with, strip_prefix, Bool, true, false, not, ◌&&◌, ◌||◌, leb, ltb,
  nat_beq, Option, none, some, List, [], ◌∷◌, ◌++◌, length, if◌then◌else◌, Result, ok, err, ◌>>=◌,
}
use omp_spec_kit.Kernel.Identity.{is_valid_spec_slug}

abbrev pub spec_branch_prefix : Text
spec_branch_prefix = text "spec-"

abbrev pub spec_work_separator : Text
spec_work_separator = text "--"

abbrev pub max_component_bytes : ℕ
max_component_bytes = 120

abbrev pub max_ref_bytes : ℕ
max_ref_bytes = 240

-- `Buffer.byteLength` in UTF-8: each unit of a surrogate pair accounts for two of its four bytes,
-- and a lone surrogate is written as the three bytes of U+FFFD.
abbrev pub is_high : ℕ → Bool
is_high c = leb 0xd800 c && leb c 0xdbff

abbrev pub is_low : ℕ → Bool
is_low c = leb 0xdc00 c && leb c 0xdfff

abbrev pub starts_low : Text → Bool
starts_low [] = false
starts_low (c ∷ cs) = is_low c

abbrev pub unit_bytes : Bool → ℕ → Text → ℕ
unit_bytes after_high c cs =
    if leb c 0x7f
    then 1
    else if leb c 0x7ff
    then 2
    else if is_high c && starts_low cs
    then 2
    else if is_low c && after_high
    then 2
    else 3

unfoldable pub bytes_from : Bool → Text → ℕ
bytes_from after_high [] = 0
bytes_from after_high (c ∷ cs) = unit_bytes after_high c cs + bytes_from (is_high c) cs

unfoldable pub bytes : Text → ℕ
bytes t = bytes_from false t

pub data BranchError : Type 0 where
  invalid_slug invalid_topic slug_too_long topic_too_long : BranchError

abbrev pub is_too_long : Text → Text → Bool
is_too_long part branch = ltb max_component_bytes (bytes part) || ltb max_ref_bytes (bytes branch)

unfoldable pub spec_branch_name : Text → Result BranchError Text
spec_branch_name slug =
    if not (is_valid_spec_slug slug)
    then err invalid_slug
    else if is_too_long slug (spec_branch_prefix ++ slug)
    then err slug_too_long
    else ok (spec_branch_prefix ++ slug)

abbrev pub with_topic : Text → Text → Result BranchError Text
with_topic topic branch =
    if is_too_long topic (branch ++ (spec_work_separator ++ topic))
    then err topic_too_long
    else ok (branch ++ (spec_work_separator ++ topic))

unfoldable pub spec_work_branch_name : Text → Text → Result BranchError Text
spec_work_branch_name slug topic =
    if not (is_valid_spec_slug topic)
    then err invalid_topic
    else spec_branch_name slug >>= with_topic topic

-- `rest.indexOf("--")`, with what stands before it and after it.
abbrev pub cut_before : ℕ → Option (Text × Text) → Option (Text × Text)
cut_before c none = none
cut_before c (some (front, back)) = some (c ∷ front, back)

abbrev pub cut_here : Option Text → Option (Text × Text) → Option (Text × Text)
cut_here none later = later
cut_here (some back) later = some ([], back)

unfoldable pub cut_separator : Text → Option (Text × Text)
cut_separator [] = none
cut_separator (c ∷ cs) =
    cut_here (strip_prefix spec_work_separator (c ∷ cs)) (cut_before c (cut_separator cs))

pub data SpecBranch : Type 0 where
  spec_branch : Text → SpecBranch
  work_branch : Text → Text → SpecBranch

abbrev pub classify_rest : Text → Option (Text × Text) → Option SpecBranch
classify_rest rest none = if is_valid_spec_slug rest then some (spec_branch rest) else none
classify_rest rest (some (slug, topic)) =
    if not (is_valid_spec_slug slug) || not (is_valid_spec_slug topic)
    then none
    else some (work_branch slug topic)

abbrev pub parse_stripped : Option Text → Option SpecBranch
parse_stripped none = none
parse_stripped (some rest) = classify_rest rest (cut_separator rest)

unfoldable pub parse_spec_branch : Text → Option SpecBranch
parse_spec_branch name = parse_stripped (strip_prefix spec_branch_prefix name)

abbrev pub is_canonical : Option SpecBranch → Bool
is_canonical (some (spec_branch slug)) = true
is_canonical _ = false

unfoldable pub is_canonical_spec_branch : Text → Bool
is_canonical_spec_branch name = is_canonical (parse_spec_branch name)
