-- ===== src/Kernel/Gherkin/Parsed/Document.antt =====
-- What the parser gives back for a whole feature file.
use omp_spec_kit.Prelude.{
  ℕ, suc, ◌+◌, ◌≤◌, ◌<◌, Text, text, text_beq, starts_with, trim, length, true, false, not, ◌&&◌,
  ◌||◌, Option, none, some, is_some, List, [], ◌∷◌, split_on, filter, ◌≡◌, ◌⊎◌, sym, ◌∙◌, refl, inl,
  inr, All, All-append, All-map, Bool-cases, arith,
}
use omp_spec_kit.Kernel.Identity.{is_valid_spec_slug}
use omp_spec_kit.Kernel.Gherkin.{docstring_marker}
use omp_spec_kit.Kernel.Gherkin.Lines.{
  ScenarioKeyword, feature_line, is_background, scenario_header, is_foreign,
}
use omp_spec_kit.Kernel.Gherkin.Scenarios.{
  FinalScenario, Scenario, is_id_tag, judge, rejected, identified, Judgement, Rejection,
}
use omp_spec_kit.Kernel.Gherkin.Traces.{InRange, IsTrace, IsNamed, judge-IsNamed}
use omp_spec_kit.Kernel.Gherkin.Parsed.{
  IsPlaced, IsFinal, IsParsing, body_line-IsParsing, flush-IsParsing, add_pending-IsParsing,
  current-IsPlaced,
}
use omp_spec_kit.Kernel.Gherkin.Parser

module _ (spec_slug : Text) (n : ℕ) where
  flush_all : (s : Parser.ParserState) → IsParsing n s → IsParsing n (Parser.flush spec_slug s)
  flush_all s h = flush-IsParsing spec_slug n s.current s h (current-IsPlaced n s h)

  without_pending :
      (s : Parser.ParserState) → IsParsing n s → IsParsing n (record s { pending_tags = [] })
  unfolding IsParsing
  without_pending s (done, feature, _, current) = (done, feature, tt, current)

  new_current :
      (scenario : Scenario) (s : Parser.ParserState)
      → IsParsing n s
      → IsPlaced n scenario
      → IsParsing n (record s { current = some scenario; pending_tags = []; in_examples = false })
  unfolding IsParsing
  new_current scenario s (done, feature, _, _) placed = (done, feature, tt, placed)

  new_scenario-IsPlaced :
      (i : ℕ) (header : ScenarioKeyword × Text) (s : Parser.ParserState)
      → i < n
      → IsParsing n s
      → IsPlaced n (Parser.new_scenario spec_slug i header s)
  unfolding IsParsing IsPlaced
  new_scenario-IsPlaced i header s within (done, feature, pending, _) =
      (within, All-append (InRange n) s.feature_tags s.pending_tags feature pending, tt)

  feature-IsParsing :
      (name : Text) (s : Parser.ParserState)
      → IsParsing n s
      → IsParsing n
          (record s { feature_name = name; feature_tags = s.pending_tags; pending_tags = [] })
  unfolding IsParsing
  feature-IsParsing name s (done, _, pending, current) = (done, pending, tt, current)

  docstring-IsParsing :
      (o : Option Text) (s : Parser.ParserState)
      → IsParsing n s
      → IsParsing n (record s { open_docstring = o })
  unfolding IsParsing
  docstring-IsParsing o s h = h

  module _ (i : ℕ) (within : i < n) where
    header_line-IsParsing :
        (raw_line trimmed : Text) (s : Parser.ParserState) (o : Option (ScenarioKeyword × Text))
        → IsParsing n s
        → IsParsing n (Parser.header_line spec_slug i raw_line trimmed s o)
    header_line-IsParsing raw_line trimmed s (some header) h =
        new_current (Parser.new_scenario spec_slug i header s) (Parser.flush spec_slug s)
          (flush_all s h) (new_scenario-IsPlaced i header s within h)
    header_line-IsParsing raw_line trimmed s none h =
        body_line-IsParsing n i within raw_line trimmed s.current s h (current-IsPlaced n s h)

    feature_or_header-IsParsing :
        (raw_line trimmed : Text) (s : Parser.ParserState) (o : Option Text)
        → IsParsing n s
        → IsParsing n (Parser.feature_or_header spec_slug i raw_line trimmed s o)
    feature_or_header-IsParsing raw_line trimmed s (some name) h = feature-IsParsing name s h
    feature_or_header-IsParsing raw_line trimmed s none h =
        elim (Bool-cases (is_background raw_line)) [
          | inl background ↦
              rw background (without_pending (Parser.flush spec_slug s) (flush_all s h))
          | inr other ↦
              rw other (header_line-IsParsing raw_line trimmed s (scenario_header raw_line) h)
        ]

    tags_or_rest-IsParsing :
        (raw_line trimmed : Text) (s : Parser.ParserState) (o : Option (List Text))
        → IsParsing n s
        → IsParsing n (Parser.tags_or_rest spec_slug i raw_line trimmed s o)
    tags_or_rest-IsParsing raw_line trimmed s (some tags) h =
        add_pending-IsParsing n i within tags s h
    tags_or_rest-IsParsing raw_line trimmed s none h =
        feature_or_header-IsParsing raw_line trimmed s (feature_line raw_line) h

    plain_line-IsParsing :
        (raw_line trimmed : Text) (s : Parser.ParserState)
        → IsParsing n s
        → IsParsing n (Parser.plain_line spec_slug i raw_line trimmed s)
    plain_line-IsParsing raw_line trimmed s h =
        elim (Bool-cases (text_beq trimmed [] || starts_with trimmed (text "#"))) [
          | inl empty ↦ rw empty h
          | inr filled ↦
              rw filled
                (elim (Bool-cases
                  (starts_with trimmed (text "|") && not (is_some s.current && s.in_examples))) [
                    | inl row ↦ rw row h
                    | inr other ↦ rw other (tags_or_rest-IsParsing raw_line trimmed s _ h)
                  ])
        ]

    docstring_or_plain-IsParsing :
        (raw_line trimmed : Text) (s : Parser.ParserState) (o : Option Text)
        → IsParsing n s
        → IsParsing n (Parser.docstring_or_plain spec_slug i raw_line trimmed s o)
    docstring_or_plain-IsParsing raw_line trimmed s (some marker) h =
        docstring-IsParsing (some marker) s h
    docstring_or_plain-IsParsing raw_line trimmed s none h =
        plain_line-IsParsing raw_line trimmed s h

    outside_or_inside-IsParsing :
        (raw_line trimmed : Text) (s : Parser.ParserState) (o : Option Text)
        → IsParsing n s
        → IsParsing n (Parser.outside_or_inside spec_slug i raw_line trimmed s o)
    outside_or_inside-IsParsing raw_line trimmed s (some marker) h =
        elim (Bool-cases (starts_with trimmed marker)) [
          | inl closes ↦ rw closes (docstring-IsParsing none s h)
          | inr inside ↦ rw inside h
        ]
    outside_or_inside-IsParsing raw_line trimmed s none h =
        docstring_or_plain-IsParsing raw_line trimmed s (docstring_marker raw_line) h

    reported :
        (d : List Parser.GherkinDiagnostic) (s : Parser.ParserState)
        → IsParsing n s
        → IsParsing n (record s { dialect_reported = true; diagnostics = d })
    unfolding IsParsing
    reported d s h = h

    parse_line-IsParsing :
        (raw_line : Text) (s : Parser.ParserState)
        → IsParsing n s
        → IsParsing n (Parser.parse_line spec_slug i raw_line s)
    unfolding Parser.parse_line
    parse_line-IsParsing raw_line s h =
        elim (Bool-cases (
          not s.dialect_reported
          && not (starts_with (trim raw_line) (text "#"))
          && is_foreign (trim raw_line))) [
            | inl foreign ↦ rw foreign (reported _ s h)
            | inr known ↦
                rw known (outside_or_inside-IsParsing raw_line (trim raw_line) s s.open_docstring h)
          ]

  parse_lines-IsParsing :
      (i : ℕ) (lines : List Text) (s : Parser.ParserState)
      → i + length lines ≤ n
      → IsParsing n s
      → IsParsing n (Parser.parse_lines spec_slug i lines s)
  unfolding Parser.parse_lines
  parse_lines-IsParsing i [] s room h = flush_all s h
  parse_lines-IsParsing i (line ∷ lines) s room h =
      parse_lines-IsParsing (suc i) lines (Parser.parse_line spec_slug i line s) (omega arith)
        (parse_line-IsParsing i (omega arith) line s h)

-- The scenario is rejected, or named by exactly one of its tags.
abbrev pub IsJudged : FinalScenario → Type 0
IsJudged f =
    ((code : Rejection) × (f.judgement ≡ rejected code))
    ⊎ ((local_id : Text) × (f.judgement ≡ identified local_id) × IsNamed f.scenario.tags local_id)

unfoldable pub IsScenario : ℕ → FinalScenario → Type 0
IsScenario n f = IsPlaced n f.scenario × All (IsTrace n) f.trace_refs × IsJudged f

judgement_cases :
    (f : FinalScenario) (j : Judgement)
    → f.judgement ≡ j
    → f.judgement ≡ judge (filter is_id_tag f.scenario.tags)
    → IsJudged f
judgement_cases f (rejected code) h k = inl (code, h)
judgement_cases f (identified local_id) h k =
    inr (local_id, h, judge-IsNamed f.scenario.tags local_id (sym k ∙ h))

final-IsScenario : (n : ℕ) (f : FinalScenario) → IsFinal n f → IsScenario n f
unfolding IsFinal IsScenario
final-IsScenario n f (placed, traces, judged) =
    (placed, traces, judgement_cases f f.judgement refl judged)

initial-IsParsing : (n : ℕ) → IsParsing n Parser.initial_state
unfolding IsParsing
initial-IsParsing n = (tt, tt, tt, tt)

parsing-scenarios : (n : ℕ) (s : Parser.ParserState) → IsParsing n s → All (IsFinal n) s.scenarios
unfolding IsParsing
parsing-scenarios n s (done, _, _, _) = done

-- Every scenario of a feature file stands, with its tags and references, on lines of the file; a trace
-- reference asks for a test of a requirement or of a criterion by its valid ID, or is a plain reference;
-- and the scenario is rejected, or exactly one of its tags begins with `id:` and gives a valid scenario ID.
pub parse_gherkin_document-IsScenario :
    (spec_slug t : Text)
    → All (IsScenario (length (split_on 10 t))) (Parser.parse_gherkin_document spec_slug t).1
unfolding Parser.parse_gherkin_document
parse_gherkin_document-IsScenario spec_slug t =
    elim (Bool-cases (not (is_valid_spec_slug spec_slug))) [
      | inl bad ↦ rw bad tt
      | inr good ↦
          let n = length (split_on 10 t) in
          rw good (
            All-map _ (final-IsScenario n) (
              parsing-scenarios n _ (
                parse_lines-IsParsing spec_slug n 0 (split_on 10 t) Parser.initial_state
                  (omega arith) (initial-IsParsing n))))
    ]
