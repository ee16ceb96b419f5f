-- ===== src/Kernel/Gherkin/Scenarios.antt =====
-- src/kernel/parsers/gherkin.js: a scenario, and what its tags make of it in the end.
use omp_spec_kit.Prelude.{
  ℕ, ◌-◌, nat_beq, all, Text, text, starts_with, strip_prefix, drop, Bool, false, ◌&&◌, ◌||◌,
  Option, none, some, is_some, List, [], ◌∷◌, ◌++◌, if◌then◌else◌, filter, index_of, take, ◌+◌, leb,
}
use omp_spec_kit.Kernel.Identity.{is_valid_spec_slug, is_positive, is_dotted, local_id_kind}
use omp_spec_kit.Kernel.Types.{EdgeType}
use omp_spec_kit.Kernel.Gherkin.Lines.{ScenarioKeyword}

-- A tag and the number of its line, from 1.
pub record TagEntry : Type 0 where
  pub tag : Text
  pub line : ℕ

-- A reference; its span is the line, from 0.
pub record TraceRef : Type 0 where
  pub raw_target : Text
  pub requested_edge_type : EdgeType
  pub at_line : ℕ

pub record ExampleTable : Type 0 where
  pub headers : List Text
  pub rows : List (List Text)

pub record Scenario : Type 0 where
  pub name : Text
  pub keyword : ScenarioKeyword
  pub name_line : ℕ
  pub tags : List TagEntry
  pub steps : List (Text × Text)
  pub examples : List ExampleTable
  pub refs : List TraceRef
  pub description_lines : List Text

pub data Rejection : Type 0 where
  missing_scenario_id duplicate_scenario_id_tag : Rejection

-- `rejected` and `rejectionCode`, or the local ID.
pub data Judgement : Type 0 where
  rejected : Rejection → Judgement
  identified : Text → Judgement

pub record FinalScenario : Type 0 where
  pub scenario : Scenario
  pub spec_slug : Text
  pub feature_name : Text
  pub judgement : Judgement
  pub trace_refs : List TraceRef

abbrev pub is_id_tag : TagEntry → Bool
is_id_tag entry = starts_with entry.tag (text "id:")

-- SCEN_ID_RE
unfoldable pub is_scen_id : Text → Bool
is_scen_id candidate = elim (strip_prefix (text "SCEN-") candidate) [
  | none ↦ false
  | some rest ↦ is_valid_spec_slug rest
]

abbrev pub judge_id : Text → Judgement
judge_id candidate =
    if is_scen_id candidate then identified candidate else rejected missing_scenario_id

unfoldable pub judge : List TagEntry → Judgement
judge [] = rejected missing_scenario_id
judge (entry ∷ []) = judge_id (drop 3 entry.tag)
judge (entry ∷ (next ∷ entries)) = rejected duplicate_scenario_id_tag

-- `@featureN`: the target of the tag.
unfoldable pub feature_ref : Text → Option Text
feature_ref tag = elim (strip_prefix (text "feature") tag) [
  | none ↦ none
  | some number ↦ if is_positive number then some (text "FR-" ++ number) else none
]

unfoldable pub is_ac_tag_ref : Text → Bool
is_ac_tag_ref tag = elim (strip_prefix (text "AC-") tag) [
  | none ↦ false
  | some rest ↦ is_dotted rest
]

unfoldable pub is_local_id_shaped : Text → Bool
is_local_id_shaped part =
    is_some (local_id_kind part)
    || starts_with part (text "DOC:")
    || starts_with part (text "FILE:")

abbrev pub is_ascii_letter : ℕ → Bool
is_ascii_letter c = (leb 65 c && leb c 90) || (leb 97 c && leb c 122)

-- `[A-Za-z][A-Za-z0-9.-]*`
abbrev pub is_local_char : ℕ → Bool
is_local_char c = is_ascii_letter c || (leb 48 c && leb c 57) || nat_beq c 46 || nat_beq c 45

abbrev pub is_local_form : Text → Bool
is_local_form [] = false
is_local_form (c ∷ cs) = is_ascii_letter c && all is_local_char cs

-- QUALIFIED_TAG_RE and the test of its second group.
unfoldable pub is_qualified_tag : Text → Bool
is_qualified_tag tag = elim (index_of 58 tag) [
  | none ↦ false
  | some i ↦
      is_valid_spec_slug (take i tag)
      && is_local_form (drop (i + 1) tag)
      && is_local_id_shaped (drop (i + 1) tag)
]

abbrev pub trace_ref : Text → EdgeType → TagEntry → TraceRef
trace_ref target edge_type entry = record {
  raw_target = target;
  requested_edge_type = edge_type;
  at_line = entry.line - 1;
}

-- What one tag refers to.
abbrev pub plain_trace : TagEntry → Option Text → List TraceRef
plain_trace entry (some target) = trace_ref target EdgeType.tested_by entry ∷ []
plain_trace entry none =
    if is_ac_tag_ref entry.tag
    then trace_ref entry.tag EdgeType.tested_by entry ∷ []
    else if is_qualified_tag entry.tag
    then trace_ref entry.tag EdgeType.refs entry ∷ []
    else []

unfoldable pub trace_of : TagEntry → List TraceRef
trace_of entry = if is_id_tag entry then [] else plain_trace entry (feature_ref entry.tag)

unfoldable pub trace_refs_of : List TagEntry → List TraceRef
trace_refs_of [] = []
trace_refs_of (entry ∷ entries) = trace_of entry ++ trace_refs_of entries

-- `finalizeScenario`
unfoldable pub finalize_scenario : Text → Text → Scenario → FinalScenario
finalize_scenario spec_slug feature_name scenario = record {
  scenario = scenario;
  spec_slug = spec_slug;
  feature_name = feature_name;
  judgement = judge (filter is_id_tag scenario.tags);
  trace_refs = trace_refs_of scenario.tags;
}
