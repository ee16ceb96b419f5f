-- ===== src/Kernel/Roadmap/Status.antt =====
-- What the statuses and the items of a roadmap say of the graph.
use omp_spec_kit.Prelude.{
  Text, text_eq, text_beq, Bool, true, false, not, ◌&&◌, ◌||◌, Option, none, some, List, [], ◌∷◌,
  ◌++◌, map, All, All-sort_by, includes, all, any, ◌==◌, ◌≡◌, ◌↔◌, refl, ap, ◌∙◌, inl, inr,
  Bool-cases, arith, if◌then◌else◌, &&-left, &&-right, decide_eq,
}
use omp_spec_kit.Kernel.Types.{NodeKind, EdgeType, node_kind_eq, edge_type_eq, NodeKind-discrete}
use omp_spec_kit.Kernel.Roadmap.{
  Graph, GraphNode, GraphEdge, Item, ItemStatus, node_of, task_status, task_of, implementing_tasks,
  is_done, requirement_status, derive_requirement_status, derive_status, items_from, item_of,
  collect_items, is_item_kind,
}

abbrev pub is_task : Option GraphNode → Bool
is_task none = false
is_task (some n) = n.kind == NodeKind.task

-- The edge says that a task implements the node.
unfoldable pub is_implementation : Graph → Text → GraphEdge → Bool
is_implementation g id e =
    (e.edge_type == EdgeType.implements && text_beq e.to id) && is_task (node_of g e.from)

abbrev is_nonempty {ℓ} : {A : Type ℓ} → List A → Bool
is_nonempty [] = false
is_nonempty (x ∷ xs) = true

nonempty-step :
    (implements : Bool) (o : Option GraphNode) (rest : List GraphNode)
    → is_nonempty (if implements then task_of o ++ rest else rest)
      ≡ ((implements && is_task o) || is_nonempty rest)
nonempty-step false o rest = refl
nonempty-step true none rest = refl
nonempty-step true (some n) rest = elim (Bool-cases (n.kind == NodeKind.task)) [
  | inl task ↦ rw task refl
  | inr other ↦ rw other refl
]

module _ (lower : Text → Text) where
  abbrev pub source_done : Option GraphNode → Bool
  source_done none = true
  source_done (some n) = is_done (task_status lower n)

  -- If a task implements the node by this edge then the task is done.
  unfoldable pub is_settled : Graph → Text → GraphEdge → Bool
  is_settled g id e = not (is_implementation g id e) || source_done (node_of g e.from)

  done-step :
      (implements : Bool) (o : Option GraphNode) (rest : List GraphNode)
      → all is_done (map (task_status lower) (if implements then task_of o ++ rest else rest)) ≡ (
          (not (implements && is_task o) || source_done o)
          && all is_done (map (task_status lower) rest))
  done-step false o rest = refl
  done-step true none rest = refl
  done-step true (some n) rest = elim (Bool-cases (n.kind == NodeKind.task)) [
    | inl task ↦ rw task refl
    | inr other ↦ rw other refl
  ]

  nonempty-tasks :
      (g : Graph) (id : Text) (es : List GraphEdge)
      → is_nonempty (implementing_tasks g id es) ≡ any (is_implementation g id) es
  unfolding implementing_tasks is_implementation
  nonempty-tasks g id [] = refl
  nonempty-tasks g id (e ∷ es) =
      nonempty-step _ (node_of g e.from) (implementing_tasks g id es)
      ∙ ap (λ b. is_implementation g id e || b) (nonempty-tasks g id es)

  done-tasks :
      (g : Graph) (id : Text) (es : List GraphEdge)
      → all is_done (map (task_status lower) (implementing_tasks g id es))
        ≡ all (is_settled g id) es
  unfolding implementing_tasks is_implementation is_settled
  done-tasks g id [] = refl
  done-tasks g id (e ∷ es) =
      done-step _ (node_of g e.from) (implementing_tasks g id es)
      ∙ ap (λ b. is_settled g id e && b) (done-tasks g id es)

  requirement_status-done :
      (ts : List GraphNode)
      → (requirement_status (map (task_status lower) ts) ≡ ItemStatus.done)
        ↔ ((is_nonempty ts ≡ true) × (all is_done (map (task_status lower) ts) ≡ true))
  unfolding requirement_status
  requirement_status-done [] = ground arith
  requirement_status-done (t ∷ ts) = ground arith

  -- In the Boolean tests: a requirement is done exactly if a task implements it and all that do are done.
  pub derive_status-settled :
      (g : Graph) (n : GraphNode)
      → n.kind ≡ NodeKind.functional_requirement
      → (derive_status lower g n ≡ ItemStatus.done) ↔ (
          (any (is_implementation g n.canonical_id) g.edges ≡ true)
          × (all (is_settled g n.canonical_id) g.edges ≡ true))
  unfolding derive_status derive_requirement_status decide_eq NodeKind-discrete
  derive_status-settled g n kind =
      rw (kind, ← nonempty-tasks g n.canonical_id g.edges, ← done-tasks g n.canonical_id g.edges)
        (requirement_status-done (implementing_tasks g n.canonical_id g.edges))

  -- An item shows its node.
  unfoldable pub Shows : Graph → List Text → Item → Type 0
  Shows g scope item =
      (n : GraphNode) × (includes scope n.spec_slug ≡ true)
      × (is_item_kind n.kind ≡ true)
      × (item ≡ item_of lower g n)

  items_from-Shows :
      (g : Graph) (scope : List Text) (ns : List GraphNode)
      → All (Shows g scope) (items_from lower g scope ns)
  unfolding items_from Shows
  items_from-Shows g scope [] = tt
  items_from-Shows g scope (n ∷ ns) =
      elim (Bool-cases (is_item_kind n.kind && includes scope n.spec_slug)) [
        | inl kept ↦
            rw kept ((n, &&-right _ _ kept, &&-left _ _ kept, refl), items_from-Shows g scope ns)
        | inr left_out ↦ rw left_out (items_from-Shows g scope ns)
      ]

  -- Every item of a roadmap shows a node of the kind of an item in the scope, under the node's ID and
  -- title and with the status that is derived for it.
  pub collect_items-Shows :
      (g : Graph) (scope : List Text) → All (Shows g scope) (collect_items lower g scope)
  unfolding collect_items
  collect_items-Shows g scope =
      All-sort_by _ (Shows g scope) (items_from lower g scope g.nodes)
        (items_from-Shows g scope g.nodes)
