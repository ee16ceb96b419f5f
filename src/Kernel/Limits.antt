-- ===== src/Kernel/Limits.antt =====
-- src/kernel/limits.js: caller-supplied limits, clamped to the hard maxima.
use omp_spec_kit.Prelude.{ℕ, ◌*◌, ◌≤◌, ◌≡◌, min, arith, leb, if◌then◌else◌}

pub data LimitName : Type 0 where
  max_specs max_documents max_bytes_per_document max_aggregate_bytes max_path_bytes : LimitName
  max_lines_per_document max_definition_occurrences max_reference_occurrences : LimitName
  max_markdown_heading_occurrences max_markdown_link_occurrences max_diagnostics : LimitName
  default_page_limit max_page_limit default_trace_depth max_trace_depth : LimitName
  default_trace_visited max_trace_visited max_search_scalars max_cursor_bytes : LimitName
  max_response_bytes : LimitName

unfoldable pub default_limits : LimitName → ℕ
default_limits max_specs = 100
default_limits max_documents = 2000
default_limits max_bytes_per_document = 2 * 1024 * 1024
default_limits max_aggregate_bytes = 50 * 1024 * 1024
default_limits max_path_bytes = 512
default_limits max_lines_per_document = 100000
default_limits max_definition_occurrences = 100000
default_limits max_reference_occurrences = 500000
default_limits max_markdown_heading_occurrences = 250000
default_limits max_markdown_link_occurrences = 500000
default_limits max_diagnostics = 10000
default_limits default_page_limit = 50
default_limits max_page_limit = 200
default_limits default_trace_depth = 2
default_limits max_trace_depth = 8
default_limits default_trace_visited = 1000
default_limits max_trace_visited = 5000
default_limits max_search_scalars = 256
default_limits max_cursor_bytes = 512
default_limits max_response_bytes = 1024 * 1024

-- What a caller puts under a name: an integer of at least 0, or anything else (nothing, a negative
-- number, a fraction, no number at all).
pub data Supplied : Type 0 where
  integer : ℕ → Supplied
  other : Supplied

abbrev pub clamp : ℕ → Supplied → ℕ
clamp limit other = limit
clamp limit (integer n) = if leb 1 n then min n limit else limit

unfoldable pub resolve_limits : (LimitName → Supplied) → LimitName → ℕ
resolve_limits partial name = clamp (default_limits name) (partial name)

default_limits-pos : (name : LimitName) → 1 ≤ default_limits name
unfolding default_limits
default_limits-pos max_specs = omega arith
default_limits-pos _ = omega arith

clamp_bounds :
    (limit : ℕ) (s : Supplied) → 1 ≤ limit → (1 ≤ clamp limit s) × (clamp limit s ≤ limit)
clamp_bounds limit other h = omega arith
clamp_bounds limit (integer n) h = ground arith

-- Whatever the caller supplies, every resolved limit is positive and at most the hard maximum.
resolve_limits_bounds :
    (partial : LimitName → Supplied) (name : LimitName)
    → (1 ≤ resolve_limits partial name) × (resolve_limits partial name ≤ default_limits name)
unfolding resolve_limits
resolve_limits_bounds partial name =
    clamp_bounds (default_limits name) (partial name) (default_limits-pos name)

clamp_idem :
    (limit : ℕ) (s : Supplied) → 1 ≤ limit → clamp limit (integer (clamp limit s)) ≡ clamp limit s
clamp_idem limit other h = ground arith
clamp_idem limit (integer n) h = ground arith

-- Limits that were resolved once are unchanged by a second resolution.
resolve_limits_idem :
    (partial : LimitName → Supplied) (name : LimitName)
    → resolve_limits (λ l. integer (resolve_limits partial l)) name ≡ resolve_limits partial name
unfolding resolve_limits
resolve_limits_idem partial name =
    clamp_idem (default_limits name) (partial name) (default_limits-pos name)
