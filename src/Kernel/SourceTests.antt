-- ===== src/Kernel/SourceTests.antt =====
-- The theorems on source text and cursors at small inputs.
use omp_spec_kit.Prelude.{
  Text, text, true, false, ◌≡◌, refl, none, some, [], ◌∷◌, ◌++◌, ok, All, starts_with, strip_prefix,
  trim_start, is_space, arith,
}
use omp_spec_kit.Kernel.Gherkin.{skip_blanks, docstring_marker, next_marker, marker_after, quotes}
use omp_spec_kit.Prelude.{length, split_on}
use omp_spec_kit.Kernel.Gherkin.Parser.{parse_gherkin_document}
use omp_spec_kit.Kernel.Gherkin.Parsed.Document.{IsScenario, parse_gherkin_document-IsScenario}
use omp_spec_kit.Kernel.Cursor.{
  encode_cursor, decode_cursor, is_too_long, decode_cursor-encode_cursor,
}

abbrev header : Text
header = text "  Scenario: a"

opened : docstring_marker quotes ≡ some quotes
unfolding docstring_marker skip_blanks starts_with strip_prefix trim_start is_space
opened = refl

header_inside : All (λ line. starts_with (trim_start line) quotes ≡ false) (header ∷ [])
unfolding starts_with strip_prefix trim_start is_space
header_inside = (refl, tt)

closed : starts_with (trim_start quotes) quotes ≡ true
unfolding starts_with strip_prefix trim_start is_space
closed = refl

none_open : marker_after none (header ∷ []) ≡ none
unfolding next_marker docstring_marker skip_blanks starts_with strip_prefix trim_start is_space
none_open = refl

abbrev digest : Text → Text
digest t = text "0f"

short : is_too_long 100 (encode_cursor (λ t. t) some (λ t. t) some digest (text "{}")) ≡ false
unfolding encode_cursor
short = refl

decode_cursor-encode_cursor_example :
    decode_cursor
      (λ t. t)
      some
      (λ t. t)
      some
      digest
      100
      (encode_cursor (λ t. t) some (λ t. t) some digest (text "{}"))
    ≡ ok (text "{}")
decode_cursor-encode_cursor_example =
    decode_cursor-encode_cursor (λ t. t) some (λ t. t) some digest 100 (text "{}") refl refl
      (λ h. ground arith) (λ h. ground arith) ((λ h. ground arith), ((λ h. ground arith), tt)) short

abbrev feature_file : Text
feature_file =
    text "@id:SCEN-sign-in @feature1" ++ (10 ∷ (text "Scenario: a" ++ (10 ∷ text "  Given b")))

parse_gherkin_document-IsScenario_example :
    All
      (IsScenario (length (split_on 10 feature_file)))
      (parse_gherkin_document (text "auth") feature_file).1
parse_gherkin_document-IsScenario_example =
    parse_gherkin_document-IsScenario (text "auth") feature_file
