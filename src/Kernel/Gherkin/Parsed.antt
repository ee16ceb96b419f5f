-- ===== src/Kernel/Gherkin/Parsed.antt =====
-- What the parser keeps of a feature file from line to line.
pub mod Document
use omp_spec_kit.Prelude.{
  ℕ, suc, ◌+◌, ◌≤◌, ◌<◌, Text, text, text_beq, starts_with, trim, length, Bool, true, false, not,
  ◌&&◌, ◌||◌, ltb, Option, none, some, is_some, List, [], ◌∷◌, ◌++◌, if◌then◌else◌, map, split_on,
  filter, ◌≡◌, refl, inl, inr, All, All-append, All-map, Bool-cases, arith,
}
use omp_spec_kit.Kernel.Identity.{is_valid_spec_slug}
use omp_spec_kit.Kernel.Gherkin.{docstring_marker}
use omp_spec_kit.Kernel.Gherkin.Lines.{
  ScenarioKeyword, blank_tokens, tags_of, feature_line, is_background, scenario_header, is_examples,
  step_line, refs_line, is_unknown_block, is_foreign, split_table_row,
}
use omp_spec_kit.Kernel.Gherkin.Scenarios.{
  TagEntry, TraceRef, Scenario, FinalScenario, is_id_tag, judge, identified, finalize_scenario,
}
use omp_spec_kit.Kernel.Gherkin.Traces.{
  InRange, IsTrace, IsNamed, trace_refs_of-IsTrace, judge-IsNamed,
}
use omp_spec_kit.Kernel.Gherkin.Parser

-- A scenario of a document of `n` lines: its spans and those of its tags and references are lines of it.
unfoldable pub IsPlaced : ℕ → Scenario → Type 0
IsPlaced n scenario =
    (scenario.name_line < n)
    × All (InRange n) scenario.tags
    × All (λ r. r.at_line < n) scenario.refs

-- A scenario that is given back: placed, its trace references too, and judged by its tags.
unfoldable pub IsFinal : ℕ → FinalScenario → Type 0
IsFinal n f =
    IsPlaced n f.scenario
    × All (IsTrace n) f.trace_refs
    × (f.judgement ≡ judge (filter is_id_tag f.scenario.tags))

abbrev pub CurrentPlaced : ℕ → Option Scenario → Type 0
CurrentPlaced n none = Unit
CurrentPlaced n (some scenario) = IsPlaced n scenario

unfoldable pub IsParsing : ℕ → Parser.ParserState → Type 0
IsParsing n s =
    All (IsFinal n) s.scenarios
    × All (InRange n) s.feature_tags
    × All (InRange n) s.pending_tags
    × CurrentPlaced n s.current

pub current-IsPlaced : (n : ℕ) (s : Parser.ParserState) → IsParsing n s → CurrentPlaced n s.current
unfolding IsParsing
current-IsPlaced n s (_, _, _, placed) = placed

module _ (n i : ℕ) (within : i < n) where
  entries-InRange : (tags : List Text) → All (InRange n) (Parser.entries_at i tags)
  entries-InRange [] = tt
  entries-InRange (tag ∷ tags) = ((omega arith, omega arith), entries-InRange tags)

  refs-within : (targets : List Text) → All (λ r. r.at_line < n) (Parser.refs_at i targets)
  refs-within [] = tt
  refs-within (target ∷ targets) = (within, refs-within targets)

  pub add_pending-IsParsing :
      (tags : List Text) (s : Parser.ParserState)
      → IsParsing n s
      → IsParsing n (Parser.add_pending i tags s)
  unfolding IsParsing
  add_pending-IsParsing tags s (done, feature, pending, current) = (
    done,
    feature,
    All-append (InRange n) s.pending_tags _ pending (entries-InRange tags),
    current,
  )

  -- Another scenario in the place of the current one.
  with_current :
      (scenario : Scenario) (s : Parser.ParserState)
      → IsParsing n s
      → IsPlaced n scenario
      → IsParsing n (record s { current = some scenario })
  unfolding IsParsing
  with_current scenario s (done, feature, pending, _) placed = (done, feature, pending, placed)

  table_row-IsParsing :
      (cells : List Text) (scenario : Scenario) (s : Parser.ParserState)
      → IsParsing n s
      → IsPlaced n scenario
      → IsParsing n (Parser.table_row cells scenario s)
  unfolding IsParsing IsPlaced
  table_row-IsParsing cells scenario s (done, feature, pending, _) placed =
      elim (Bool-cases s.in_table) [
        | inl old ↦ rw old (done, feature, pending, placed)
        | inr new ↦ rw new (done, feature, pending, placed)
      ]

  describe-IsParsing :
      (trimmed : Text) (scenario : Scenario) (s : Parser.ParserState)
      → IsParsing n s
      → IsPlaced n scenario
      → IsParsing n (Parser.describe i trimmed scenario s)
  unfolding IsParsing IsPlaced
  describe-IsParsing trimmed scenario s (done, feature, pending, _) placed =
      elim (Bool-cases
        (not s.in_examples && ltb s.malformed_reported 20 && is_unknown_block trimmed)) [
          | inl unknown ↦ rw unknown (done, feature, pending, placed)
          | inr known ↦ rw known (done, feature, pending, placed)
        ]

  prose-IsParsing :
      (trimmed : Text) (scenario : Scenario) (s : Parser.ParserState) (o : Option (List Text))
      → IsParsing n s
      → IsPlaced n scenario
      → IsParsing n (Parser.prose i trimmed scenario s o)
  unfolding IsPlaced
  prose-IsParsing trimmed scenario s (some targets) h (name, tags, refs) =
      with_current _ s h
        (name, tags, All-append (λ r. r.at_line < n) scenario.refs _ refs (refs-within targets))
  prose-IsParsing trimmed scenario s none h placed =
      elim (Bool-cases (starts_with trimmed (text "@"))) [
        | inl tag ↦ rw tag (add_pending-IsParsing (tags_of (blank_tokens trimmed)) s h)
        | inr other ↦ rw other (describe-IsParsing trimmed scenario s h placed)
      ]

  step-IsParsing :
      (trimmed : Text) (scenario : Scenario) (s : Parser.ParserState) (o : Option (Text × Text))
      → IsParsing n s
      → IsPlaced n scenario
      → IsParsing n (Parser.step_or_prose i trimmed scenario s o)
  unfolding IsPlaced
  step-IsParsing trimmed scenario s (some step) h placed = with_current _ s h placed
  step-IsParsing trimmed scenario s none h placed =
      prose-IsParsing trimmed scenario s (refs_line trimmed) h placed

  examples-IsParsing :
      (s : Parser.ParserState)
      → IsParsing n s
      → IsParsing n (record s { in_examples = true; in_table = false })
  unfolding IsParsing
  examples-IsParsing s h = h

  pub body_line-IsParsing :
      (raw_line trimmed : Text) (o : Option Scenario) (s : Parser.ParserState)
      → IsParsing n s
      → CurrentPlaced n o
      → IsParsing n (Parser.body_line i raw_line trimmed o s)
  body_line-IsParsing raw_line trimmed none s h placed = h
  body_line-IsParsing raw_line trimmed (some scenario) s h placed =
      elim (Bool-cases (is_examples raw_line)) [
        | inl examples ↦ rw examples (examples-IsParsing s h)
        | inr body ↦ rw body (elim (Bool-cases (not s.in_examples)) [
          | inl steps ↦ rw steps (step-IsParsing trimmed scenario s (step_line trimmed) h placed)
          | inr table ↦ rw table (elim (Bool-cases (starts_with trimmed (text "|"))) [
            | inl row ↦ rw row (table_row-IsParsing (split_table_row trimmed) scenario s h placed)
            | inr other ↦ rw other (prose-IsParsing trimmed scenario s (refs_line trimmed) h placed)
          ])
        ])
      ]

module _ (spec_slug : Text) (n : ℕ) where
  pub flush-IsParsing :
      (o : Option Scenario) (s : Parser.ParserState)
      → IsParsing n s
      → CurrentPlaced n o
      → IsParsing n (Parser.flush_with spec_slug o s)
  unfolding IsParsing IsPlaced IsFinal finalize_scenario
  flush-IsParsing none s h placed = h
  flush-IsParsing (some scenario) s (done, feature, pending, _) (name, tags, refs) = (
    All-append (IsFinal n) s.scenarios _ done
        (((name, tags, refs), trace_refs_of-IsTrace n scenario.tags tags, refl), tt),
    feature,
    pending,
    tt,
  )
