-- ===== src/Enforcement/Tests.antt =====
-- The theorems on tool calls at a small workspace, in which every file exists.
use omp_spec_kit.Prelude.{
  Text, text, text_eq, text_beq, starts_with, strip_prefix, trim, trim_start, is_space, includes,
  split_on, true, false, ◌≡◌, ◌⊎◌, inl, inr, ◌||◌, refl, some, none, List, [], ◌∷◌, ◌++◌, ok, All,
  arith, ◌≤◌, if◌then◌else◌,
}
use omp_spec_kit.Kernel.Normalize.{byte_length}
use omp_spec_kit.Enforcement.Values.{
  Value, str, object, no_entry, entry, text_values, has_embedded, field_of, entry_of,
}
use omp_spec_kit.Enforcement.Paths.{
  Platform, found, missing, existing_ancestor, resolve_target, resolve_targets, decide_path_policy,
  is_omp_internal_target, uri_scheme, scheme_tail, unsafe_target, inside, path_parts, is_prefix_of,
  relative_target,
}
use omp_spec_kit.Enforcement.Paths.Ancestors.{IsDirname, IsAnswer, existing_ancestor-IsAnswer}
use omp_spec_kit.Enforcement.Authority.{
  Family, family_get, family_has, family_of, create_mcp_tool_name, full_name, sanitize_part,
  sanitize_from, ObservedTool, is_registered, count_families, resolve_authority, tool_names,
}
use omp_spec_kit.Enforcement.Authority.Provenance.{IsGenuine, IsWhole, resolve_authority_sound}
use omp_spec_kit.Enforcement.Reasons.{Code, bounded_reason}
use omp_spec_kit.Enforcement.Reasons.Bound.{bounded_reason-bound}
use omp_spec_kit.Enforcement.Features.{Files, is_nullish}
use omp_spec_kit.Enforcement.Classify.{
  Call, allowed, continued, family_a, family_b, read_targets, classify_tool_call,
  classify_mcp_tool_call, classify_targets,
}
use omp_spec_kit.Enforcement.Classify.FailClosed.{IsElsewhere, classify_tool_call-continued}
use omp_spec_kit.Enforcement.Handler.{
  passed, replaced, handle_tool_call, read_project_binding, project_binding_path,
  is_project_identity, set_entry,
}
use omp_spec_kit.Enforcement.Handler.Selected.{
  Selects, handle_tool_call-replaced, handle_tool_call-passed,
}

abbrev platform : Platform
platform = record {
  on_windows = false;
  lower = λ t. t;
  resolve_path = λ p. p;
  resolve_in = λ base p. base ++ (text "/" ++ p);
  join_path = λ base p. base ++ (text "/" ++ p);
  relative_path_of = λ base p. p;
  normalize_path = λ p. p;
  parent_of = λ p. text "/";
  is_absolute = λ p. starts_with p (text "/");
  lstat = λ p. if text_beq p (text "/") then found tt else missing;
  real_path = λ p. found p;
}

abbrev record_of_project : Value
record_of_project = object (
    entry (text "schema") (str (text "omp-spec-kit/project-binding@1"))
      (entry (text "project") (str (text "me/it")) no_entry))

abbrev files : Files
files = record {
  platform = platform;
  read_text = λ p. some [];
  list_names = λ p. some [];
  exists_file = λ p. true;
  parse_json = λ t. some record_of_project;
}

-- One folder deep, the parent of an absolute path is the root.
IsDirname-platform : IsDirname platform
unfolding starts_with strip_prefix
IsDirname-platform [] h = absurd (cc)
IsDirname-platform (c ∷ []) h = inl (ground arith)
IsDirname-platform (c ∷ (d ∷ ds)) h = inr (refl, omega arith)

existing_ancestor-IsAnswer_example :
    IsAnswer platform (text "/a") (existing_ancestor platform 3 (text "/a"))
existing_ancestor-IsAnswer_example =
    existing_ancestor-IsAnswer platform 3 (text "/a") IsDirname-platform
      (unfold starts_with strip_prefix in refl) (omega arith)

bounded_reason-bound_example :
    byte_length (bounded_reason Code.raw_spec_write (some (text ".specs/a/README.md"))) ≤ 512
bounded_reason-bound_example =
    bounded_reason-bound Code.raw_spec_write (some (text ".specs/a/README.md")) (λ e. cc)

abbrev small_a : Family
small_a = (text "mcp__a_t", text "t") ∷ []

abbrev small_b : Family
small_b = (text "mcp__b_t", text "t") ∷ []

abbrev shown : List ObservedTool
shown =
    record {
      name = text "mcp__a_t";
      source = some (text "mcp");
      path = some (text "<mcp:mcp__a_t>");
    }
    ∷ record { name = text "bash"; source = none; path = none }
    ∷ []

granted : resolve_authority small_a small_b (text "mcp__a_t") (some shown) 1 ≡ ok (text "t")
unfolding resolve_authority count_families is_registered family_get text_beq
granted = refl

resolve_authority_sound_example :
    All (IsGenuine small_a small_b) shown
    × IsWhole small_a small_b shown 1
    × ((family_get small_a (text "mcp__a_t") ≡ some (text "t"))
        ⊎ (family_get small_b (text "mcp__a_t") ≡ some (text "t")))
resolve_authority_sound_example =
    resolve_authority_sound small_a small_b (text "mcp__a_t") (text "t") shown 1 granted

abbrev reading : Call
reading = record {
  tool_name = text "bash";
  input = object (entry (text "path") (str (text "a.js")) no_entry);
  all_tools = none;
}

reading_goes_on : classify_tool_call files (text "/r") reading ≡ continued false
unfolding classify_tool_call classify_targets read_targets text_values has_embedded includes
    text_beq family_get family_of create_mcp_tool_name full_name sanitize_part sanitize_from
    strip_prefix resolve_targets resolve_target decide_path_policy is_omp_internal_target uri_scheme
    scheme_tail unsafe_target inside path_parts is_prefix_of relative_target existing_ancestor
    split_on trim trim_start is_space starts_with
reading_goes_on = refl

classify_tool_call-continued_example :
    (includes tool_names (text "bash") ≡ false)
    × ((family_has family_a (text "bash") || family_has family_b (text "bash")) ≡ false)
    × (has_embedded [] reading.input ≡ false)
    × All
        (IsElsewhere files (text "/r"))
        (read_targets files (text "/r") (text "bash") (text_values [] reading.input))
classify_tool_call-continued_example =
    classify_tool_call-continued files (text "/r") reading false reading_goes_on

reading_passes : handle_tool_call files (text "/r") reading ≡ passed
unfolding handle_tool_call
reading_passes = rw reading_goes_on refl

handle_tool_call-passed_example :
    ((includes tool_names (text "bash") ≡ false)
      × ((family_has family_a (text "bash") || family_has family_b (text "bash")) ≡ false)
      × (has_embedded [] reading.input ≡ false)
      × All
          (IsElsewhere files (text "/r"))
          (read_targets files (text "/r") (text "bash") (text_values [] reading.input)))
    ⊎ ((logical_name : Text) × (classify_tool_call files (text "/r") reading ≡ allowed logical_name)
        × (is_nullish (field_of reading.input (text "project")) ≡ false))
handle_tool_call-passed_example = handle_tool_call-passed files (text "/r") reading reading_passes

abbrev listing : Call
listing = record {
  tool_name = text "mcp__omp_spec_kit_spec_catalog";
  input = object no_entry;
  all_tools = none;
}

abbrev listing_input : Value
listing_input = object (entry (text "project") (str (text "me/it")) no_entry)

listing_allowed : classify_tool_call files (text "/r") listing ≡ allowed (text "spec_catalog")
unfolding classify_tool_call classify_mcp_tool_call resolve_authority includes text_beq family_get
    family_of create_mcp_tool_name full_name sanitize_part sanitize_from strip_prefix
listing_allowed = refl

bound : read_project_binding files (text "/r") ≡ some (text "me/it")
unfolding read_project_binding project_binding_path text_beq entry_of is_project_identity split_on
    trim trim_start is_space
bound = refl

listing_replaced : handle_tool_call files (text "/r") listing ≡ replaced listing_input
unfolding handle_tool_call entry_of set_entry
listing_replaced = rw (listing_allowed, bound) refl

handle_tool_call-replaced_example :
    ((logical_name : Text) × (classify_tool_call files (text "/r") listing ≡ allowed logical_name))
    × Selects files (text "/r") listing.input listing_input
handle_tool_call-replaced_example =
    handle_tool_call-replaced files (text "/r") listing listing_input listing_replaced
