-- ===== src/Kernel/Gherkin.antt =====
-- src/kernel/gherkin-syntax.js: the recognition of scenario headers outside doc strings.
pub mod Lines
pub mod Scenarios
pub mod Parser
pub mod Traces
pub mod Parsed
use omp_spec_kit.Prelude.{
  Text, text, starts_with, strip_prefix, trim_start, Bool, true, false, not, ◌&&◌, ◌||◌, nat_beq,
  is_some, Option, none, some, List, [], ◌∷◌, ◌++◌, ◌≡◌, refl, arith, if◌then◌else◌, any, All,
}

-- `[ \t]*`
unfoldable pub skip_blanks : Text → Text
skip_blanks [] = []
skip_blanks (c ∷ cs) =
    let rest = skip_blanks cs in if nat_beq c 32 || nat_beq c 9 then rest else c ∷ cs

-- What ends the `(.*)$` of a pattern.
abbrev pub has_no_line_end : Text → Bool
has_no_line_end t =
    not (any (λ c. nat_beq c 10 || nat_beq c 13 || nat_beq c 0x2028 || nat_beq c 0x2029) t)

abbrev pub header_after : Option Text → Bool
header_after none = false
header_after (some rest) = has_no_line_end rest

-- GHERKIN_SCENARIO_HEADER_RE
unfoldable pub is_scenario_header : Text → Bool
is_scenario_header line =
    let t = skip_blanks line in
    header_after (strip_prefix (text "Scenario Outline:") t)
    || header_after (strip_prefix (text "Scenario Template:") t)
    || header_after (strip_prefix (text "Example:") t)
    || header_after (strip_prefix (text "Scenario:") t)

abbrev pub quotes : Text
quotes = 34 ∷ 34 ∷ 34 ∷ []

abbrev pub backticks : Text
backticks = 96 ∷ 96 ∷ 96 ∷ []

-- GHERKIN_DOCSTRING_RE; a line that begins with `#` after its blanks matches neither marker.
unfoldable pub docstring_marker : Text → Option Text
docstring_marker line =
    let t = skip_blanks line in
    if starts_with (trim_start line) (text "#")
    then none
    else if starts_with t quotes
    then some quotes
    else if starts_with t backticks
    then some backticks
    else none

-- One line: the marker that is open, or none, before and after it.
unfoldable pub next_marker : Option Text → Text → Option Text
next_marker (some marker) line = if starts_with (trim_start line) marker then none else some marker
next_marker none line = docstring_marker line

abbrev pub is_header_at : Option Text → Text → Bool
is_header_at (some marker) line = false
is_header_at none line = not (is_some (docstring_marker line)) && is_scenario_header line

unfoldable pub has_header_from : Option Text → List Text → Bool
has_header_from marker [] = false
has_header_from marker (line ∷ lines) =
    is_header_at marker line || has_header_from (next_marker marker line) lines

-- `hasGherkinScenarioHeader`, of the lines of the text.
unfoldable pub has_scenario_header : List Text → Bool
has_scenario_header lines = has_header_from none lines

-- The marker that is open after the lines.
abbrev pub marker_after : Option Text → List Text → Option Text
marker_after marker [] = marker
marker_after marker (line ∷ lines) = marker_after (next_marker marker line) lines

has_header_from-append :
    (marker : Option Text) (front back : List Text)
    → has_header_from marker (front ++ back)
      ≡ (has_header_from marker front || has_header_from (marker_after marker front) back)
unfolding has_header_from
has_header_from-append marker [] back = refl
has_header_from-append marker (line ∷ front) back =
    ground (arith, has_header_from-append (next_marker marker line) front back)

-- Lines before others that leave no doc string open are judged on their own: the whole has a scenario
-- header exactly if one of the parts has one.
has_scenario_header-append :
    (front back : List Text)
    → marker_after none front ≡ none
    → has_scenario_header (front ++ back) ≡ (has_scenario_header front || has_scenario_header back)
unfolding has_scenario_header
has_scenario_header-append front back closed =
    rw (has_header_from-append none front back, closed) refl

inside :
    (marker : Text) (body : List Text)
    → All (λ line. starts_with (trim_start line) marker ≡ false) body
    → (has_header_from (some marker) body ≡ false) × (marker_after (some marker) body ≡ some marker)
unfolding has_header_from next_marker
inside marker [] h = (refl, refl)
inside marker (line ∷ body) (h, hs) = rw h (inside marker body hs)

-- Nothing inside a doc string is a scenario header: lines between a marker and its closing line count
-- for nothing, and what follows is judged on its own.
has_scenario_header-docstring :
    (open_line close_line marker : Text) (body rest : List Text)
    → docstring_marker open_line ≡ some marker
    → All (λ line. starts_with (trim_start line) marker ≡ false) body
    → starts_with (trim_start close_line) marker ≡ true
    → has_scenario_header (open_line ∷ (body ++ close_line ∷ rest)) ≡ has_scenario_header rest
unfolding has_scenario_header has_header_from next_marker
has_scenario_header-docstring open_line close_line marker body rest opened within closed =
    let (quiet, still) = inside marker body within in
    rw (opened, has_header_from-append (some marker) body (close_line ∷ rest), quiet, still, closed)
      refl
