-- ===== src/Kernel/Edges.antt =====
-- src/kernel/graph/resolve-edges.js: one outcome for each reference. The maps of the build context
-- are functions from keys, and a type error of the code is an outcome.
pub mod Sound
pub mod Decided
use omp_spec_kit.Prelude.{
  ℕ, suc, ◌+◌, Text, text, index_of, Bool, true, false, not, ◌&&◌, ◌||◌, ◌==◌, nat_beq, leb,
  includes, Option, none, some, is_some, List, [], ◌∷◌, length, take, drop, map, if◌then◌else◌,
}
use omp_spec_kit.Kernel.Types.{
  NodeKind, node_kind_eq, EdgeType, edge_type_eq, EndpointRule, edge_endpoint_matrix,
  RefUnresolvedReason, malformed_target, unqualified_cross_spec, missing_target, ambiguous_target,
  forbidden_endpoint, rejected_source, DiagnosticCode,
}
use omp_spec_kit.Kernel.Identity.{
  is_valid_spec_slug, local_id_kind, is_generated_local_id, make_canonical_id,
}

pub record Node : Type 0 where
  pub canonical_id : Text
  pub kind : NodeKind

-- The definition occurrences of one canonical ID. The builder gives a group no `nodeId`, so that the test
-- `group.nodeId === null` reads `undefined` and is false.
pub record Group : Type 0 where
  pub count : ℕ

pub record Span : Type 0 where
  pub path : Text
  pub start_offset : ℕ
  pub end_offset : ℕ

pub record Reference : Type 0 where
  pub occurrence_id : Text
  pub spec_slug : Text
  pub source_canonical_id : Text
  pub raw_target : Text
  pub requested_edge_type : EdgeType
  pub span : Span

-- `groups`, `nodeById` and `specSlugsOfLocalId`; a key that is missing in the last has no specs.
pub record Context : Type 0 where
  pub groups : Text → Option Group
  pub node_by_id : Text → Option Node
  pub spec_slugs_of_local_id : Text → Option (List Text)

pub record Edge : Type 0 where
  pub edge_id : Text
  pub from : Text
  pub to : Text
  pub type : EdgeType
  pub span : Span

pub data Resolution : Type 0 where
  resolved : Edge → Resolution
  unresolved : RefUnresolvedReason → List Text → DiagnosticCode → Resolution
  -- `targetNode.kind` of an undefined target node
  type_error : Resolution

abbrev pub has_local_syntax : Text → Bool
has_local_syntax local = is_some (local_id_kind local) || is_generated_local_id local

unfoldable pub is_valid_target_syntax : Text → Bool
is_valid_target_syntax raw_target = elim (index_of b':' raw_target) [
  | none ↦ has_local_syntax raw_target
  | some colon ↦
      is_valid_spec_slug (take colon raw_target) && has_local_syntax (drop (colon + 1) raw_target)
]

-- `null` allows any node kind.
abbrev pub matches_side : Option (List NodeKind) → NodeKind → Bool
matches_side none kind = true
matches_side (some list) kind = includes list kind

abbrev pub is_excepted : Option (List NodeKind) → NodeKind → Bool
is_excepted none kind = false
is_excepted (some list) kind = includes list kind

unfoldable pub endpoint_allowed : EdgeType → NodeKind → NodeKind → Bool
endpoint_allowed type from_kind to_kind =
    let rule = edge_endpoint_matrix type in
    if not (matches_side rule.from from_kind)
    then false
    else if is_excepted rule.to_except to_kind
    then false
    else if not (matches_side rule.to to_kind)
    then false
    else true

-- Step 2: a bare ID resolves only inside the source spec.
unfoldable pub unqualified : Reference → Context → Resolution
unqualified ref ctx = elim (ctx.spec_slugs_of_local_id ref.raw_target) [
  | none ↦ unresolved missing_target [] DiagnosticCode.broken_reference
  | some [] ↦ unresolved missing_target [] DiagnosticCode.broken_reference
  | some (slug ∷ slugs) ↦
      unresolved unqualified_cross_spec
        (take 16 (map (λ s. make_canonical_id s ref.raw_target) (slug ∷ slugs)))
        DiagnosticCode.unqualified_cross_spec_reference
]

-- Gherkin tags author TESTED_BY from the scenario's side.
unfoldable pub is_turned : Reference → Node → Node → Bool
is_turned ref source target =
    ref.requested_edge_type == EdgeType.tested_by
    && source.kind == NodeKind.scenario
    && not (target.kind == NodeKind.scenario)

-- Step 4: the endpoint matrix, with a scenario's TESTED_BY turned round.
unfoldable pub connect : Reference → Node → Node → Resolution
connect ref source target =
    let turned = is_turned ref source target in
    let from_endpoint = if turned then target else source in
    let to_endpoint = if turned then source else target in
    if not (endpoint_allowed ref.requested_edge_type from_endpoint.kind to_endpoint.kind)
    then unresolved forbidden_endpoint [] DiagnosticCode.forbidden_edge_endpoint
    else resolved (record {
      edge_id = ref.occurrence_id;
      from = from_endpoint.canonical_id;
      to = to_endpoint.canonical_id;
      type = ref.requested_edge_type;
      span = ref.span;
    })

abbrev pub connect_found : Reference → Node → Option Node → Resolution
connect_found ref source none = type_error
connect_found ref source (some target) = connect ref source target

abbrev pub is_ambiguous : Group → Bool
is_ambiguous group = leb 2 group.count

-- Step 3: existence and cardinality of the target, then of the source.
unfoldable pub resolve_target : Reference → Context → Text → Resolution
resolve_target ref ctx target = elim (ctx.groups target) [
  | none ↦ unresolved missing_target [] DiagnosticCode.broken_reference
  | some group ↦
      if nat_beq group.count 0
      then unresolved missing_target [] DiagnosticCode.broken_reference
      else if is_ambiguous group
      then unresolved ambiguous_target (target ∷ []) DiagnosticCode.ambiguous_reference
      else elim (ctx.node_by_id ref.source_canonical_id) [
        | none ↦ unresolved rejected_source [] DiagnosticCode.broken_reference
        | some source ↦ connect_found ref source (ctx.node_by_id target)
      ]
]

unfoldable pub resolve_reference : Reference → Context → Resolution
resolve_reference ref ctx =
    if not (is_valid_target_syntax ref.raw_target)
    then unresolved malformed_target [] DiagnosticCode.malformed_reference
    else if is_some (index_of b':' ref.raw_target)
    then resolve_target ref ctx ref.raw_target
    else let own_key = make_canonical_id ref.spec_slug ref.raw_target in
      if is_some (ctx.groups own_key) then resolve_target ref ctx own_key else unqualified ref ctx
