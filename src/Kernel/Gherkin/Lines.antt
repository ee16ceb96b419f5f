-- ===== src/Kernel/Gherkin/Lines.antt =====
-- src/kernel/parsers/gherkin.js with the expressions of src/kernel/gherkin-syntax.js: what one line of a
-- feature file is.
use omp_spec_kit.Prelude.{
  ℕ, Text, text, text_beq, starts_with, strip_prefix, trim, trim_start, is_space, length, take,
  Bool, true, false, not, ◌&&◌, ◌||◌, leb, nat_beq, Option, none, some, List, [], ◌∷◌, ◌++◌,
  if◌then◌else◌, all, any, filter, map, split_on,
}
use mathlib.Core.List.{reverse}
use omp_spec_kit.Kernel.Gherkin.{skip_blanks, has_no_line_end}

-- `bound`
abbrev pub bound : Text → ℕ → Text
bound value max_length =
    if leb (length value) max_length then value else take max_length value ++ text "..."

-- The texts between separators, less those that are empty.
abbrev pub is_nonempty : Text → Bool
is_nonempty t = not (text_beq t [])

unfoldable pub blank_tokens : Text → List Text
blank_tokens t = filter is_nonempty (split_on 32 (map (λ c. if nat_beq c 9 then 32 else c) t))

-- `(.*)$`
abbrev pub rest_of : Option Text → Option Text
rest_of none = none
rest_of (some rest) = if has_no_line_end rest then some rest else none

-- `@[^\s@][^\s]*`
abbrev pub is_tag_token : Text → Bool
is_tag_token (at ∷ (c ∷ cs)) = nat_beq at 64 && not (nat_beq c 64) && not (any is_space (c ∷ cs))
is_tag_token _ = false

-- What a token that begins with `@` tags.
abbrev pub tag_of : Text → List Text
tag_of [] = []
tag_of (c ∷ cs) = if nat_beq c 64 then cs ∷ [] else []

unfoldable pub tags_of : List Text → List Text
tags_of [] = []
tags_of (token ∷ tokens) = tag_of token ++ tags_of tokens

abbrev pub nonempty_list : List Text → Bool
nonempty_list [] = false
nonempty_list (t ∷ ts) = true

-- GHERKIN_TAG_LINE_RE: the tags of the line.
unfoldable pub tag_line : Text → Option (List Text)
tag_line line =
    let tokens = blank_tokens (skip_blanks line) in
    if nonempty_list tokens && all is_tag_token tokens then some (tags_of tokens) else none

-- `[ ]*`
unfoldable pub skip_spaces : Text → Text
skip_spaces [] = []
skip_spaces (c ∷ cs) = let rest = skip_spaces cs in if nat_beq c 32 then rest else c ∷ cs

abbrev pub skip_blanks? : Option Text → Option Text
skip_blanks? none = none
skip_blanks? (some t) = some (skip_blanks t)

abbrev pub trim? : Option Text → Option Text
trim? none = none
trim? (some t) = some (trim t)

-- `/^[ ]*Feature:[ \t]*(.*)$/u`: the name, trimmed.
unfoldable pub feature_line : Text → Option Text
feature_line line =
    trim? (rest_of (skip_blanks? (strip_prefix (text "Feature:") (skip_spaces line))))

-- `/^[ ]*(Background|Rule):/u`
unfoldable pub is_background : Text → Bool
is_background line =
    starts_with (skip_spaces line) (text "Background:")
    || starts_with (skip_spaces line) (text "Rule:")

pub data ScenarioKeyword : Type 0 where
  outline template example scenario : ScenarioKeyword

abbrev pub keyword_text : ScenarioKeyword → Text
keyword_text outline = text "Scenario Outline"
keyword_text template = text "Scenario Template"
keyword_text example = text "Example"
keyword_text scenario = text "Scenario"

abbrev pub header_with : ScenarioKeyword → Text → Option Text
header_with keyword t = rest_of (skip_blanks? (strip_prefix (keyword_text keyword ++ text ":") t))

abbrev pub first_header : List ScenarioKeyword → Text → Option (ScenarioKeyword × Text)
first_header [] t = none
first_header (keyword ∷ keywords) t = elim (header_with keyword t) [
  | some name ↦ some (keyword, name)
  | none ↦ first_header keywords t
]

-- GHERKIN_SCENARIO_HEADER_RE: the keyword and what follows it.
unfoldable pub scenario_header : Text → Option (ScenarioKeyword × Text)
scenario_header line =
    first_header (outline ∷ template ∷ example ∷ scenario ∷ []) (skip_blanks line)

abbrev pub is_colon_rest : Text → Bool
is_colon_rest [] = true
is_colon_rest (c ∷ cs) = nat_beq c 58 && has_no_line_end cs

-- GHERKIN_EXAMPLES_RE
unfoldable pub is_examples : Text → Bool
is_examples line = elim (strip_prefix (text "Examples") (skip_blanks line)) [
  | none ↦ false
  | some rest ↦ is_colon_rest (skip_blanks rest)
]

abbrev pub step_rest : Text → Option Text
step_rest [] = none
step_rest (c ∷ cs) = if nat_beq c 32 || nat_beq c 9 then rest_of (some (skip_blanks cs)) else none

abbrev pub step_with : Text → Text → Option (Text × Text)
step_with keyword trimmed = elim (strip_prefix keyword trimmed) [
  | none ↦ none
  | some rest ↦ elim (step_rest rest) [ none ↦ none | some step ↦ some (keyword, trim step) ]
]

abbrev pub first_step : List Text → Text → Option (Text × Text)
first_step [] trimmed = none
first_step (keyword ∷ keywords) trimmed = elim (step_with keyword trimmed) [
  | some step ↦ some step
  | none ↦ first_step keywords trimmed
]

-- STEP_RE: the keyword and the text of the step.
unfoldable pub step_line : Text → Option (Text × Text)
step_line trimmed =
    first_step (text "Given" ∷ text "When" ∷ text "Then" ∷ text "And" ∷ text "But" ∷ text "*" ∷ [])
      trimmed

-- `(?:\*\*)?`
abbrev pub skip_stars : Text → Text
skip_stars t = elim (strip_prefix (text "**") t) [ none ↦ t | some rest ↦ rest ]

abbrev pub refs_tokens : Text → List Text
refs_tokens t =
    filter is_nonempty (split_on 32 (map (λ c. if is_space c || nat_beq c 44 then 32 else c) t))

abbrev pub after_refs : Option Text → Option Text
after_refs none = none
after_refs (some rest) =
    rest_of (skip_blanks? (strip_prefix (text ":") (trim_start (skip_stars (trim_start rest)))))

-- A structured `Refs:` line: its targets.
unfoldable pub refs_line : Text → Option (List Text)
refs_line trimmed =
    elim (after_refs (strip_prefix (text "Refs") (trim_start (skip_stars trimmed)))) [
      | none ↦ none
      | some rest ↦ some (refs_tokens rest)
    ]

abbrev pub is_latin_letter : ℕ → Bool
is_latin_letter c = (leb 65 c && leb c 90) || (leb 97 c && leb c 122) || (leb 0xc0 c && leb c 0xff)

unfoldable pub block_tail : Text → Bool
block_tail [] = false
block_tail (c ∷ cs) =
    let rest = block_tail cs in
    if is_latin_letter c then rest else starts_with (skip_blanks (c ∷ cs)) (text ":")

-- `/^[A-Za-zÀ-ÿ]+[ \t]*:/u`
unfoldable pub is_unknown_block : Text → Bool
is_unknown_block [] = false
is_unknown_block (c ∷ cs) = is_latin_letter c && block_tail cs

-- FOREIGN_KEYWORDS
abbrev pub foreign_keywords : List Text
foreign_keywords =
    text "Funktion"
    ∷ text "Funktionalität"
    ∷ text "Eigenschaft"
    ∷ text "Funcionalidade"
    ∷ text "Característica"
    ∷ text "Escenario"
    ∷ text "Scénario"
    ∷ text "Fonctionnalité"
    ∷ text "Funzionalità"
    ∷ text "Сценарий"
    ∷ text "Функция"
    ∷ text "Функционал"
    ∷ []

unfoldable pub is_foreign : Text → Bool
is_foreign trimmed = any (λ keyword. starts_with trimmed keyword) foreign_keywords

-- The cells of a row; `cell` is the cell so far, backwards.
unfoldable pub cells_from : Bool → Text → Text → List Text
cells_from escaped cell [] = trim (reverse cell) ∷ []
cells_from escaped cell (c ∷ cs) =
    let rest = cells_from (not escaped && nat_beq c 92) (c ∷ cell) cs in
    let next = cells_from false [] cs in
    if not escaped && nat_beq c 124 then trim (reverse cell) ∷ next else rest

abbrev pub drop_first_empty : List Text → List Text
drop_first_empty (cell ∷ (next ∷ cells)) =
    if text_beq cell [] then next ∷ cells else cell ∷ next ∷ cells
drop_first_empty cells = cells

-- `splitTableRow`
unfoldable pub split_table_row : Text → List Text
split_table_row line =
    reverse (drop_first_empty (reverse (drop_first_empty (cells_from false [] line))))
