-- ===== src/Kernel/Diagnostics.antt =====
-- src/kernel/diagnostics.js: the bound on a message and the order of diagnostics. A diagnostic has the fields
-- that the order reads and its message; its code is the string.
pub mod Sorted
use omp_spec_kit.Prelude.{
  ℕ, Text, text, text_beq, Bool, true, false, not, leb, ltb, nat_beq, ◌≡◌, Option, none, some, List,
  [], ◌∷◌, ◌++◌, length, take, sort_by, if◌then◌else◌,
}
use omp_spec_kit.Kernel.Types.{Severity, error, warning, info}
use omp_spec_kit.Kernel.Normalize.{Order, before, same, after, order_of}

abbrev pub bounded_message : Text → Text
bounded_message value = if ltb 2048 (length value) then take 2048 value ++ text "..." else value

pub record Span : Type 0 where
  pub path : Text
  pub start_offset : ℕ

pub record Diagnostic : Type 0 where
  pub diagnostic_id : Text
  pub code : Text
  pub severity : Severity
  pub message : Text
  pub span : Option Span
  pub canonical_id : Option Text

abbrev pub severity_rank : Severity → ℕ
severity_rank error = 0
severity_rank warning = 1
severity_rank info = 2

-- `<` on strings, by their code units.
unfoldable pub text_ltb : Text → Text → Bool
text_ltb _ [] = false
text_ltb [] (v ∷ vs) = true
text_ltb (u ∷ us) (v ∷ vs) = let rest = text_ltb us vs in if nat_beq u v then rest else ltb u v

abbrev pub compare_texts : Text → Text → Order
compare_texts a b = if text_beq a b then same else if text_ltb a b then before else after

-- What is absent comes last.
abbrev pub compare_ids : Option Text → Option Text → Order
compare_ids none none = same
compare_ids none (some b) = after
compare_ids (some a) none = before
compare_ids (some a) (some b) = compare_texts a b

abbrev pub and_then : Order → Order → Order
and_then same rest = rest
and_then before rest = before
and_then after rest = after

abbrev pub compare_spans : Option Span → Option Span → Order
compare_spans none none = same
compare_spans none (some b) = after
compare_spans (some a) none = before
compare_spans (some a) (some b) =
    and_then (compare_texts a.path b.path) (order_of a.start_offset b.start_offset)

-- The comparison after the severities.
abbrev pub compare_details : Diagnostic → Diagnostic → Order
compare_details a b = and_then (compare_texts a.code b.code) (
    and_then (compare_spans a.span b.span) (
      and_then (compare_ids a.canonical_id b.canonical_id)
        (compare_texts a.diagnostic_id b.diagnostic_id)))

abbrev pub compare_diagnostics : Diagnostic → Diagnostic → Order
compare_diagnostics a b =
    and_then (order_of (severity_rank a.severity) (severity_rank b.severity)) (compare_details a b)

abbrev pub is_not_after : Order → Bool
is_not_after before = true
is_not_after same = true
is_not_after after = false

unfoldable pub sort_diagnostics : List Diagnostic → List Diagnostic
sort_diagnostics diagnostics = sort_by (λ a b. is_not_after (compare_diagnostics a b)) diagnostics
