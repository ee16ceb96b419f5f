-- ===== src/Kernel/Roadmap.antt =====
-- src/kernel/roadmap/assemble.js: the scope, the items and the statuses of a roadmap, the rendering of
-- its block and the merge of the block into the document. The lower case of a text is a parameter.
pub mod Region
pub mod Status
pub mod Done
pub mod Tests
use omp_spec_kit.Prelude.{
  ℕ, ◌+◌, Text, text, text_eq, text_beq, starts_with, trim, trim_start, is_space, length, drop,
  take, index_of_text, index_of_text_from, sort_by, Bool, true, false, not, ◌&&◌, ◌||◌, nat_beq,
  Option, none, some, is_some, List, [], ◌∷◌, ◌++◌, if◌then◌else◌, Result, ok, err, includes, dedup,
  all, any, filter, find, ◌==◌, map,
}
use mathlib.Core.Option
use omp_spec_kit.Kernel.Types.{NodeKind, EdgeType, node_kind_eq, edge_type_eq}
use omp_spec_kit.Kernel.Normalize.{Order, before, same, after, compare_code_points}

pub record GraphNode : Type 0 where
  pub canonical_id : Text
  pub spec_slug : Text
  pub local_id : Text
  pub title : Text
  pub kind : NodeKind
  -- `attributes.status` and `body`, where they are strings.
  pub status : Option Text
  pub body : Option Text

pub record GraphEdge : Type 0 where
  pub edge_type : EdgeType
  pub from : Text
  pub to : Text

pub record Graph : Type 0 where
  pub nodes : List GraphNode
  pub edges : List GraphEdge

pub data ItemStatus : Type 0 where
  planned in_progress done : ItemStatus

pub record Item : Type 0 where
  pub canonical_id : Text
  pub spec_slug : Text
  pub local_id : Text
  pub title : Text
  pub kind : NodeKind
  pub status : ItemStatus

unfoldable pub node_of : Graph → Text → Option GraphNode
node_of g id = find (λ n. text_beq n.canonical_id id) g.nodes

-- `compareCodePoints(a, b) <= 0`
abbrev pub leads : Text → Text → Bool
leads a b = elim (compare_code_points a b) [ after ↦ false | _ ↦ true ]

-- The scope.
abbrev pub is_source_kind : NodeKind → Bool
is_source_kind kind = kind == NodeKind.functional_requirement || kind == NodeKind.task

abbrev pub is_scope_edge : EdgeType → Bool
is_scope_edge t = t == EdgeType.implements || t == EdgeType.refs

abbrev pub is_source : Text → Option GraphNode → Bool
is_source spec_slug none = false
is_source spec_slug (some n) = text_beq n.spec_slug spec_slug && is_source_kind n.kind

abbrev pub slug_of : Option GraphNode → List Text
slug_of none = []
slug_of (some n) = n.spec_slug ∷ []

abbrev pub scope_step : Graph → Text → GraphEdge → List Text
scope_step g spec_slug e =
    if is_scope_edge e.edge_type && is_source spec_slug (node_of g e.from)
    then slug_of (node_of g e.to)
    else []

unfoldable pub scope_slugs : Graph → Text → List GraphEdge → List Text
scope_slugs g spec_slug [] = []
scope_slugs g spec_slug (e ∷ es) = scope_step g spec_slug e ++ scope_slugs g spec_slug es

unfoldable pub derive_scope : Graph → Text → List Text
derive_scope g spec_slug = sort_by leads (dedup (scope_slugs g spec_slug g.edges))

-- `[^\n]+` and what `\s*` gives back where only blanks follow.
unfoldable pub line_of : Text → Text
line_of [] = []
line_of (c ∷ cs) = let rest = line_of cs in if nat_beq c 10 then [] else c ∷ rest

unfoldable pub last_kept : Text → Option Text
last_kept [] = none
last_kept (c ∷ cs) = elim (last_kept cs) [
  | some kept ↦ some kept
  | none ↦ if nat_beq c 10 then none else some (c ∷ [])
]

abbrev pub status_text : Text → Text → Option Text
status_text blanks [] = last_kept blanks
status_text blanks (c ∷ cs) = some (line_of (c ∷ cs))

abbrev pub status_label : Text
status_label = text "**Status:**"

-- `body.match(/\*\*Status:\*\*\s*([^\n]+)/u)?.[1]`
unfoldable pub body_status : Text → Option Text
body_status body = elim (index_of_text status_label body) [
  | none ↦ none
  | some i ↦
      let blanks = drop (i + length status_label) body in status_text blanks (trim_start blanks)
]

abbrev pub body_status? : Option Text → Option Text
body_status? none = none
body_status? (some body) = body_status body

abbrev pub known_status : Text → Text
known_status normalized =
    if text_beq normalized (text "completed")
    then text "done"
    else if includes
        (text "planned"
          ∷ text "todo"
          ∷ text "ready"
          ∷ text "in-progress"
          ∷ text "blocked"
          ∷ text "done"
          ∷ text "deferred"
          ∷ [])
        normalized
    then normalized
    else text "unknown"

-- The tasks that implement a node, in the order of the edges.
abbrev pub task_of : Option GraphNode → List GraphNode
task_of none = []
task_of (some n) = if n.kind == NodeKind.task then n ∷ [] else []

unfoldable pub implementing_tasks : Graph → Text → List GraphEdge → List GraphNode
implementing_tasks g id [] = []
implementing_tasks g id (e ∷ es) =
    let rest = implementing_tasks g id es in
    if e.edge_type == EdgeType.implements && text_beq e.to id
    then task_of (node_of g e.from) ++ rest
    else rest

abbrev pub is_done : Text → Bool
is_done s = text_beq s (text "done")

abbrev pub is_started : Text → Bool
is_started s =
    is_done s
    || text_beq s (text "todo")
    || text_beq s (text "ready")
    || text_beq s (text "in-progress")

unfoldable pub requirement_status : List Text → ItemStatus
requirement_status [] = planned
requirement_status (s ∷ ss) =
    if all is_done (s ∷ ss) then done else if any is_started (s ∷ ss) then in_progress else planned

abbrev pub is_requirement : NodeKind → Bool
is_requirement kind =
    kind == NodeKind.functional_requirement || kind == NodeKind.non_functional_requirement

abbrev pub requirement_of : Option GraphNode → List GraphNode
requirement_of none = []
requirement_of (some n) = if is_requirement n.kind then n ∷ [] else []

unfoldable pub ref_targets : Graph → Text → List GraphEdge → List GraphNode
ref_targets g id [] = []
ref_targets g id (e ∷ es) =
    let rest = ref_targets g id es in
    if text_beq e.from id && (e.edge_type == EdgeType.covers || e.edge_type == EdgeType.refs)
    then requirement_of (node_of g e.to) ++ rest
    else rest

abbrev pub item_done : ItemStatus → Bool
item_done done = true
item_done _ = false

abbrev pub item_started : ItemStatus → Bool
item_started planned = false
item_started _ = true

unfoldable pub aggregate_status : List ItemStatus → ItemStatus
aggregate_status [] = planned
aggregate_status (s ∷ ss) =
    if all item_done (s ∷ ss)
    then done
    else if any item_started (s ∷ ss)
    then in_progress
    else planned

-- The items.
abbrev pub is_item_kind : NodeKind → Bool
is_item_kind kind =
    kind == NodeKind.functional_requirement
    || kind == NodeKind.use_case
    || kind == NodeKind.user_story

abbrev pub title_of : GraphNode → Text
title_of n = if text_beq n.title [] then n.local_id else n.title

-- `lower` is `toLowerCase`.
module _ (lower : Text → Text) where
  -- `!raw || raw.trim().toLowerCase() === "unknown"`
  abbrev pub is_unknown : Option Text → Bool
  is_unknown none = true
  is_unknown (some raw) = text_beq raw [] || text_beq (lower (trim raw)) (text "unknown")

  abbrev pub normalized_status : Option Text → Text
  normalized_status none = text "unknown"
  normalized_status (some raw) = known_status (lower (trim raw))

  unfoldable pub task_status : GraphNode → Text
  task_status task =
      normalized_status (if is_unknown task.status then body_status? task.body else task.status)

  unfoldable pub derive_requirement_status : Graph → Text → ItemStatus
  derive_requirement_status g id =
      requirement_status (map task_status (implementing_tasks g id g.edges))

  unfoldable pub derive_aggregate_status : Graph → Text → ItemStatus
  derive_aggregate_status g id =
      aggregate_status
        (map (λ fr. derive_requirement_status g fr.canonical_id) (ref_targets g id g.edges))

  unfoldable pub derive_status : Graph → GraphNode → ItemStatus
  derive_status g n =
      if is_requirement n.kind
      then derive_requirement_status g n.canonical_id
      else if n.kind == NodeKind.use_case || n.kind == NodeKind.user_story
      then derive_aggregate_status g n.canonical_id
      else planned

  abbrev pub item_of : Graph → GraphNode → Item
  item_of g n = record {
    canonical_id = n.canonical_id;
    spec_slug = n.spec_slug;
    local_id = n.local_id;
    title = title_of n;
    kind = n.kind;
    status = derive_status g n;
  }

  unfoldable pub items_from : Graph → List Text → List GraphNode → List Item
  items_from g scope [] = []
  items_from g scope (n ∷ ns) =
      let rest = items_from g scope ns in
      if is_item_kind n.kind && includes scope n.spec_slug then item_of g n ∷ rest else rest

  unfoldable pub collect_items : Graph → List Text → List Item
  collect_items g scope =
      sort_by (λ a b. leads a.canonical_id b.canonical_id) (items_from g scope g.nodes)
