-- ===== src/Kernel/Tests.antt =====
-- The kernel's theorems at a small corpus: one specification with a requirement and a scenario.
use omp_spec_kit.Prelude.{
  ℕ, List, length, filter, sort_by, insert_sorted, Text, text, text_beq, starts_with, strip_prefix,
  index_of, true, false, ◌≡◌, ◌⊎◌, ◌↔◌, refl, Option, none, some, is_some, [], ◌∷◌, ◌++◌,
  if◌then◌else◌, decide_eq, includes, arith, text_beq_iff,
}
use omp_spec_kit.Kernel.Types.{
  NodeKind, EdgeType, Severity, error, warning, info, NodeKind-discrete, EdgeType-discrete,
  edge_endpoint_matrix,
}
use omp_spec_kit.Kernel.Diagnostics.{Span, Diagnostic, sort_diagnostics}
use omp_spec_kit.Kernel.Diagnostics.Sorted.{IsBySeverity, sort_diagnostics-IsBySeverity}
use omp_spec_kit.Kernel.Identity
use omp_spec_kit.Kernel.Identity.RoundTrip.{split-make, split_sound, IsLocal}
use omp_spec_kit.Kernel.Edges.{
  Node, Group, Reference, Context, Edge, resolved, is_valid_target_syntax, endpoint_allowed,
  is_turned, connect, unqualified, resolve_target, resolve_reference,
}
use omp_spec_kit.Kernel.Edges.Sound.{IsBuilt, Joins, resolve_reference-Joins}
use omp_spec_kit.Kernel.Edges.Decided.{Resolves, resolve_reference_iff}
use omp_spec_kit.Kernel.Invariants.{BuildState, LinkOutcome, check_invariants}
use omp_spec_kit.Kernel.Invariants.Conservation.{IsConserved, check_invariants_iff}
use omp_spec_kit.Kernel.Limits.{LimitName, Supplied, integer}

abbrev slug : Text
slug = text "auth-flow"

abbrev requirement : Node
requirement = record {
  canonical_id = text "auth-flow:FR-1";
  kind = NodeKind.functional_requirement;
}

abbrev scenario : Node
scenario = record { canonical_id = text "auth-flow:SCN-1"; kind = NodeKind.scenario }

-- The scenario is tagged with the requirement's bare ID.
abbrev tag : Reference
tag = record {
  occurrence_id = text "o1";
  spec_slug = slug;
  source_canonical_id = scenario.canonical_id;
  raw_target = text "FR-1";
  requested_edge_type = EdgeType.tested_by;
  span = record { path = text "a.feature"; start_offset = 0; end_offset = 5 };
}

abbrev nodes : Text → Option Node
nodes id =
    if text_beq id requirement.canonical_id
    then some requirement
    else if text_beq id scenario.canonical_id
    then some scenario
    else none

abbrev groups : Text → Option Group
groups id =
    if text_beq id requirement.canonical_id
    then some (record { count = 1 })
    else if text_beq id scenario.canonical_id
    then some (record { count = 1 })
    else none

abbrev corpus : Context
corpus = record { groups = groups; node_by_id = nodes; spec_slugs_of_local_id = λ id. none }

abbrev edge : Edge
edge = record {
  edge_id = text "o1";
  from = requirement.canonical_id;
  to = scenario.canonical_id;
  type = EdgeType.tested_by;
  span = tag.span;
}

IsValid-slug : Identity.is_valid_spec_slug slug ≡ true
unfolding Identity.is_valid_spec_slug Identity.kebab_from
IsValid-slug = refl

IsLocal-requirement : IsLocal (text "FR-1")
unfolding Identity.is_valid_local_id Identity.local_id_kind Identity.local_id_role
    Identity.first_role Identity.matches_role Identity.role_suffix Identity.is_positive strip_prefix
IsLocal-requirement = refl

split-make_example :
    Identity.split_canonical_id (Identity.make_canonical_id slug (text "FR-1"))
    ≡ some (record { spec_slug = slug; local_id = text "FR-1" })
split-make_example = split-make slug (text "FR-1") IsValid-slug IsLocal-requirement

split_requirement :
    Identity.split_canonical_id (text "auth-flow:FR-1:x")
    ≡ some (record { spec_slug = slug; local_id = text "FR-1" })
unfolding Identity.is_valid_spec_slug Identity.kebab_from Identity.is_valid_local_id
    Identity.local_id_kind Identity.local_id_role Identity.first_role Identity.matches_role
    Identity.role_suffix Identity.is_positive strip_prefix Identity.split_canonical_id
    Identity.split_at Identity.accept_split Identity.local_part Identity.is_generated_local_id
    index_of starts_with
split_requirement = refl

edge_of_tag : resolve_reference tag corpus ≡ resolved edge
unfolding resolve_reference resolve_target connect endpoint_allowed is_turned is_valid_target_syntax
    Identity.is_valid_spec_slug Identity.kebab_from Identity.is_valid_local_id
    Identity.local_id_kind Identity.local_id_role Identity.first_role Identity.matches_role
    Identity.role_suffix Identity.is_positive strip_prefix index_of text_beq
    Identity.make_canonical_id decide_eq NodeKind-discrete EdgeType-discrete edge_endpoint_matrix
    includes unqualified starts_with Identity.is_generated_local_id
edge_of_tag = refl

IsBuilt-corpus : IsBuilt corpus
IsBuilt-corpus = record {
  keyed = λ id n h.
      ground
        (arith, text_beq_iff id requirement.canonical_id, text_beq_iff id scenario.canonical_id);
  elected = λ id g h k. ground arith;
}

split_sound_example :
    (Identity.is_valid_spec_slug slug ≡ true)
    × IsLocal (text "FR-1")
    × (tail : Text) × (text "auth-flow:FR-1:x"
        ≡ Identity.make_canonical_id slug (text "FR-1" ++ tail))
    × ((tail ≡ []) ⊎ (Identity.is_generated_local_id (text "FR-1" ++ tail) ≡ false))
split_sound_example =
    split_sound (text "auth-flow:FR-1:x") (record { spec_slug = slug; local_id = text "FR-1" })
      split_requirement

resolve_reference-Joins_example :
    (t : Text) × Joins corpus edge scenario.canonical_id t
    × (((t ≡ text "FR-1") × (is_some (index_of b':' (text "FR-1")) ≡ true))
        ⊎ ((t ≡ Identity.make_canonical_id slug (text "FR-1"))
            × (is_some (index_of b':' (text "FR-1")) ≡ false)))
resolve_reference-Joins_example = resolve_reference-Joins tag corpus IsBuilt-corpus edge edge_of_tag

resolve_reference_iff_example :
    (resolve_reference tag corpus ≡ resolved edge) ↔ Resolves tag corpus edge
resolve_reference_iff_example = resolve_reference_iff tag corpus edge

abbrev state : BuildState
state = record {
  documents_discovered = 3;
  documents_accepted = 2;
  documents_rejected = 1;
  definition_occurrences = 2;
  unique_authored_nodes = 2;
  ambiguous_count = 0;
  rejected_count = 0;
  reference_occurrences = 1;
  resolved_edges = edge ∷ [];
  unresolved_references = [];
  headings_total = 1;
  headings = text "Title" ∷ [];
  links = LinkOutcome.external ∷ [];
  node_by_id = nodes;
  groups = [];
}

check_invariants_iff_example : (check_invariants state ≡ []) ↔ IsConserved state
check_invariants_iff_example = check_invariants_iff state

abbrev supplied : LimitName → Supplied
supplied name = integer 7

abbrev span_at : ℕ → Option Span
span_at offset = some (record { path = text "FR.md"; start_offset = offset })

abbrev found : Severity → ℕ → Diagnostic
found severity offset = record {
  diagnostic_id = text "d";
  code = text "BROKEN_REFERENCE";
  severity = severity;
  message = [];
  span = span_at offset;
  canonical_id = none;
}

abbrev unsorted : List Diagnostic
unsorted = found info 1 ∷ found warning 9 ∷ found warning 4 ∷ found error 7 ∷ []

sorts_by_rank_and_offset :
    sort_diagnostics unsorted
    ≡ found error 7 ∷ found warning 4 ∷ found warning 9 ∷ found info 1 ∷ []
unfolding sort_diagnostics sort_by insert_sorted text_beq
sorts_by_rank_and_offset = refl

sort_diagnostics-IsBySeverity_example :
    IsBySeverity (sort_diagnostics unsorted)
    × (length (filter (λ d. is_some d.span) (sort_diagnostics unsorted))
        ≡ length (filter (λ d. is_some d.span) unsorted))
sort_diagnostics-IsBySeverity_example = sort_diagnostics-IsBySeverity unsorted (λ d. is_some d.span)
