-- ===== src/Kernel/Gherkin/Parser.antt =====
-- src/kernel/parsers/gherkin.js: `parseGherkinDocument`, as a step for each line of the document. A span
-- is the number of its line, from 0.
use omp_spec_kit.Prelude.{
  ℕ, suc, Text, text, text_beq, starts_with, trim, length, Bool, true, false, not, ◌&&◌, ◌||◌, ltb,
  Option, none, some, is_some, List, [], ◌∷◌, ◌++◌, if◌then◌else◌, map, split_on,
}
use omp_spec_kit.Kernel.Types.{EdgeType}
use omp_spec_kit.Kernel.Identity.{is_valid_spec_slug}
use omp_spec_kit.Kernel.Gherkin.{docstring_marker}
use omp_spec_kit.Kernel.Gherkin.Lines.{
  bound, blank_tokens, tags_of, tag_line, feature_line, is_background, ScenarioKeyword,
  scenario_header, is_examples, step_line, refs_line, is_unknown_block, is_foreign, split_table_row,
}
use omp_spec_kit.Kernel.Gherkin.Scenarios.{
  TagEntry, TraceRef, ExampleTable, Scenario, FinalScenario, finalize_scenario,
}

pub data GherkinDiagnostic : Type 0 where
  unsupported_dialect : ℕ → GherkinDiagnostic
  malformed_gherkin : Text → ℕ → GherkinDiagnostic

-- The variables of the function; `in_table` says that `examplesCurrent` is the last table of the
-- current scenario.
pub record ParserState : Type 0 where
  pub diagnostics : List GherkinDiagnostic
  pub scenarios : List FinalScenario
  pub dialect_reported : Bool
  pub malformed_reported : ℕ
  pub feature_name : Text
  pub feature_tags : List TagEntry
  pub pending_tags : List TagEntry
  pub current : Option Scenario
  pub in_examples : Bool
  pub in_table : Bool
  pub open_docstring : Option Text

abbrev pub initial_state : ParserState
initial_state = record {
  diagnostics = [];
  scenarios = [];
  dialect_reported = false;
  malformed_reported = 0;
  feature_name = [];
  feature_tags = [];
  pending_tags = [];
  current = none;
  in_examples = false;
  in_table = false;
  open_docstring = none;
}

abbrev pub entries_at : ℕ → List Text → List TagEntry
entries_at i tags = map (λ tag. record { tag = tag; line = suc i }) tags

abbrev pub add_pending : ℕ → List Text → ParserState → ParserState
add_pending i tags s = record s { pending_tags = s.pending_tags ++ entries_at i tags }

abbrev pub refs_at : ℕ → List Text → List TraceRef
refs_at i targets =
    map (λ target. record { raw_target = target; requested_edge_type = EdgeType.refs; at_line = i })
      targets

-- A row of the last table.
unfoldable pub add_row : List Text → List ExampleTable → List ExampleTable
add_row cells [] = []
add_row cells (table ∷ []) =
    (if ltb (length table.rows) 10000
      then record table { rows = table.rows ++ cells ∷ [] }
      else table)
    ∷ []
add_row cells (table ∷ (next ∷ tables)) = table ∷ add_row cells (next ∷ tables)

abbrev pub table_row : List Text → Scenario → ParserState → ParserState
table_row cells scenario s =
    if s.in_table
    then record s {
      current = some (record scenario { examples = add_row cells scenario.examples });
    }
    else record s {
      current = some (record scenario {
        examples = scenario.examples ++ (record { headers = cells; rows = [] }) ∷ [];
      });
      in_table = true;
    }

-- The last lines of the loop: a block that is not known is reported, and kept as a description.
abbrev pub describe : ℕ → Text → Scenario → ParserState → ParserState
describe i trimmed scenario s =
    let kept =
      some (record scenario { description_lines = scenario.description_lines ++ trimmed ∷ [] }) in
    if not s.in_examples && ltb s.malformed_reported 20 && is_unknown_block trimmed
    then record s {
      current = kept;
      malformed_reported = suc s.malformed_reported;
      diagnostics = s.diagnostics ++ (malformed_gherkin (bound trimmed 96) i) ∷ [];
    }
    else record s { current = kept }

abbrev pub prose : ℕ → Text → Scenario → ParserState → Option (List Text) → ParserState
prose i trimmed scenario s (some targets) = record s {
  current = some (record scenario { refs = scenario.refs ++ refs_at i targets });
}
prose i trimmed scenario s none =
    if starts_with trimmed (text "@")
    then add_pending i (tags_of (blank_tokens trimmed)) s
    else describe i trimmed scenario s

abbrev pub step_or_prose : ℕ → Text → Scenario → ParserState → Option (Text × Text) → ParserState
step_or_prose i trimmed scenario s (some (keyword, step)) = record s {
  current = some (record scenario { steps = scenario.steps ++ (keyword, bound step 1024) ∷ [] });
}
step_or_prose i trimmed scenario s none = prose i trimmed scenario s (refs_line trimmed)

-- A line inside a scenario that is no header.
abbrev pub body_line : ℕ → Text → Text → Option Scenario → ParserState → ParserState
body_line i raw_line trimmed none s = s
body_line i raw_line trimmed (some scenario) s =
    if is_examples raw_line
    then record s { in_examples = true; in_table = false }
    else if not s.in_examples
    then step_or_prose i trimmed scenario s (step_line trimmed)
    else if starts_with trimmed (text "|")
    then table_row (split_table_row trimmed) scenario s
    else prose i trimmed scenario s (refs_line trimmed)

module _ (spec_slug : Text) where
  -- `flushScenario`
  abbrev pub flush_with : Option Scenario → ParserState → ParserState
  flush_with none s = s
  flush_with (some scenario) s = record s {
    scenarios = s.scenarios ++ finalize_scenario spec_slug s.feature_name scenario ∷ [];
    current = none;
    in_examples = false;
    in_table = false;
  }

  abbrev pub flush : ParserState → ParserState
  flush s = flush_with s.current s

  abbrev pub new_scenario : ℕ → ScenarioKeyword × Text → ParserState → Scenario
  new_scenario i header s = record {
    name = bound (trim header.1) 512;
    keyword = header.0;
    name_line = i;
    tags = s.feature_tags ++ s.pending_tags;
    steps = [];
    examples = [];
    refs = [];
    description_lines = [];
  }

  abbrev pub header_line :
      ℕ → Text → Text → ParserState → Option (ScenarioKeyword × Text) → ParserState
  header_line i raw_line trimmed s (some header) = record (flush s) {
    current = some (new_scenario i header s);
    pending_tags = [];
    in_examples = false;
  }
  header_line i raw_line trimmed s none = body_line i raw_line trimmed s.current s

  abbrev pub feature_or_header : ℕ → Text → Text → ParserState → Option Text → ParserState
  feature_or_header i raw_line trimmed s (some name) = record s {
    feature_name = name;
    feature_tags = s.pending_tags;
    pending_tags = [];
  }
  feature_or_header i raw_line trimmed s none =
      if is_background raw_line
      then record (flush s) { pending_tags = [] }
      else header_line i raw_line trimmed s (scenario_header raw_line)

  abbrev pub tags_outside : Option Scenario → Text → Option (List Text)
  tags_outside none raw_line = tag_line raw_line
  tags_outside (some scenario) raw_line = none

  abbrev pub tags_or_rest : ℕ → Text → Text → ParserState → Option (List Text) → ParserState
  tags_or_rest i raw_line trimmed s (some tags) = add_pending i tags s
  tags_or_rest i raw_line trimmed s none =
      feature_or_header i raw_line trimmed s (feature_line raw_line)

  abbrev pub plain_line : ℕ → Text → Text → ParserState → ParserState
  plain_line i raw_line trimmed s =
      if text_beq trimmed [] || starts_with trimmed (text "#")
      then s
      else if starts_with trimmed (text "|") && not (is_some s.current && s.in_examples)
      then s
      else tags_or_rest i raw_line trimmed s (tags_outside s.current raw_line)

  abbrev pub docstring_or_plain : ℕ → Text → Text → ParserState → Option Text → ParserState
  docstring_or_plain i raw_line trimmed s (some marker) = record s { open_docstring = some marker }
  docstring_or_plain i raw_line trimmed s none = plain_line i raw_line trimmed s

  abbrev pub outside_or_inside : ℕ → Text → Text → ParserState → Option Text → ParserState
  outside_or_inside i raw_line trimmed s (some marker) =
      if starts_with trimmed marker then record s { open_docstring = none } else s
  outside_or_inside i raw_line trimmed s none =
      docstring_or_plain i raw_line trimmed s (docstring_marker raw_line)

  -- The body of the loop.
  unfoldable pub parse_line : ℕ → Text → ParserState → ParserState
  parse_line i raw_line s =
      let trimmed = trim raw_line in
      if not s.dialect_reported && not (starts_with trimmed (text "#")) && is_foreign trimmed
      then record s {
        dialect_reported = true;
        diagnostics = s.diagnostics ++ (unsupported_dialect i) ∷ [];
      }
      else outside_or_inside i raw_line trimmed s s.open_docstring

  unfoldable pub parse_lines : ℕ → List Text → ParserState → ParserState
  parse_lines i [] s = flush s
  parse_lines i (line ∷ lines) s = parse_lines (suc i) lines (parse_line i line s)

-- `parseGherkinDocument`: the diagnostics and the scenarios.
unfoldable pub parse_gherkin_document : Text → Text → List GherkinDiagnostic × List FinalScenario
parse_gherkin_document spec_slug t =
    if not (is_valid_spec_slug spec_slug)
    then ([], [])
    else (let s = parse_lines spec_slug 0 (split_on 10 t) initial_state in
        (s.diagnostics, s.scenarios))
