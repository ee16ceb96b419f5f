-- ===== src/Kernel/Edges/Sound.antt =====
-- What an outcome of reference resolution says about the graph.
use omp_spec_kit.Prelude.{
  Text, index_of, true, false, ◌≡◌, ◌≢◌, ◌⊎◌, refl, inl, inr, some, is_some, arith, &&-left,
  Bool-cases, Option-cases,
}
use omp_spec_kit.Kernel.Types.{EdgeType, node_kind_eq, edge_type_eq}
use omp_spec_kit.Kernel.Identity.{make_canonical_id}
use omp_spec_kit.Kernel.Edges.{
  Node, Group, Reference, Context, Edge, resolved, type_error, endpoint_allowed, is_turned,
  unqualified, connect, is_ambiguous, resolve_target, resolve_reference,
}

-- The graph that the builder hands over: a node is found under its own ID, and an ID with a group that
-- is not ambiguous has a node.
pub record IsBuilt (ctx : Context) : Type 0 where
  pub keyed : (id : Text) (n : Node) → ctx.node_by_id id ≡ some n → n.canonical_id ≡ id
  pub elected :
      (id : Text) (g : Group)
      → ctx.groups id ≡ some g
      → is_ambiguous g ≡ false
      → is_some (ctx.node_by_id id) ≡ true

-- An edge between two nodes of the graph, in a direction that the endpoint matrix allows.
pub record Joins (ctx : Context) (e : Edge) (source target : Text) : Type 0 where
  pub from_node : Node
  pub to_node : Node
  pub ends :
      ((e.from ≡ source) × (e.to ≡ target))
      ⊎ ((e.from ≡ target) × (e.to ≡ source) × (e.type ≡ EdgeType.tested_by))
  pub from_known : ctx.node_by_id e.from ≡ some from_node
  pub to_known : ctx.node_by_id e.to ≡ some to_node
  pub allowed : endpoint_allowed e.type from_node.kind to_node.kind ≡ true

is_turned-tested_by :
    (ref : Reference) (source target : Node)
    → is_turned ref source target ≡ true
    → ref.requested_edge_type ≡ EdgeType.tested_by
unfolding is_turned
is_turned-tested_by ref source target h =
    (edge_type_eq.test_iff ref.requested_edge_type EdgeType.tested_by).0
      (&&-left _ _ (&&-left _ _ h))

module _ (ref : Reference) (ctx : Context) (built : IsBuilt ctx) where
  connect-Joins :
      (source target : Node) (t : Text) (e : Edge)
      → ctx.node_by_id ref.source_canonical_id ≡ some source
      → ctx.node_by_id t ≡ some target
      → connect ref source target ≡ resolved e
      → Joins ctx e ref.source_canonical_id t
  unfolding connect
  connect-Joins source target t e hs ht h =
      let ks = built.keyed ref.source_canonical_id source hs in
      let kt = built.keyed t target ht in
      elim (Bool-cases (is_turned ref source target)) [
        | inl turned ↦ record {
          from_node = target;
          to_node = source;
          ends =
              inr
                (ground arith, ground arith, ground (arith, is_turned-tested_by ref source target));
          from_known = let same : e.from ≡ t = ground arith in rw same ht;
          to_known = let same : e.to ≡ ref.source_canonical_id = ground arith in rw same hs;
          allowed = ground arith;
        }
        | inr straight ↦ record {
          from_node = source;
          to_node = target;
          ends = inl (ground arith, ground arith);
          from_known = let same : e.from ≡ ref.source_canonical_id = ground arith in rw same hs;
          to_known = let same : e.to ≡ t = ground arith in rw same ht;
          allowed = ground arith;
        }
      ]

  unqualified-ne-resolved : (e : Edge) → unqualified ref ctx ≢ resolved e
  unfolding unqualified
  unqualified-ne-resolved e h = ground arith

  unqualified-ne-type_error : unqualified ref ctx ≢ type_error
  unfolding unqualified
  unqualified-ne-type_error h = ground arith

  connect-ne-type_error : (source target : Node) → connect ref source target ≢ type_error
  unfolding connect
  connect-ne-type_error source target = ground arith

  resolve_target-Joins :
      (t : Text) (e : Edge)
      → resolve_target ref ctx t ≡ resolved e
      → Joins ctx e ref.source_canonical_id t
  unfolding resolve_target
  resolve_target-Joins t e h = elim (Option-cases (ctx.groups t)) [
    | inl missing ↦ absurd (ground arith)
    | inr (g, known) ↦ elim (Option-cases (ctx.node_by_id ref.source_canonical_id)) [
      | inl missing ↦ absurd (ground arith)
      | inr (source, hs) ↦ elim (Option-cases (ctx.node_by_id t)) [
        | inl missing ↦ absurd (ground arith)
        | inr (target, ht) ↦ connect-Joins source target t e hs ht (ground arith)
      ]
    ]
  ]

  resolve_target-ne-type_error : (t : Text) → resolve_target ref ctx t ≢ type_error
  unfolding resolve_target
  resolve_target-ne-type_error t h = elim (Option-cases (ctx.groups t)) [
    | inl missing ↦ ground arith
    | inr (g, known) ↦ elim (Option-cases (ctx.node_by_id ref.source_canonical_id)) [
      | inl missing ↦ ground arith
      | inr (source, hs) ↦ elim (Option-cases (ctx.node_by_id t)) [
        | inl missing ↦ ground (arith, built.elected t g known)
        | inr (target, ht) ↦ ground (arith, connect-ne-type_error source target)
      ]
    ]
  ]

  -- On a built graph, a reference that is resolved gives an edge between known nodes, from the reference's source to
  -- its target (turned round for a scenario's TESTED_BY), that the endpoint matrix allows. The
  -- target is the qualified ID as written, or the bare ID in the source's own spec.
  pub resolve_reference-Joins :
      (e : Edge)
      → resolve_reference ref ctx ≡ resolved e
      → (t : Text) × Joins ctx e ref.source_canonical_id t
        × (((t ≡ ref.raw_target) × (is_some (index_of b':' ref.raw_target) ≡ true))
            ⊎ ((t ≡ make_canonical_id ref.spec_slug ref.raw_target)
                × (is_some (index_of b':' ref.raw_target) ≡ false)))
  unfolding resolve_reference
  resolve_reference-Joins e h = elim (Bool-cases (is_some (index_of b':' ref.raw_target))) [
    | inl qualified ↦ (
      ref.raw_target,
      resolve_target-Joins ref.raw_target e (ground arith),
      inl (refl, qualified),
    )
    | inr bare ↦ (
      make_canonical_id ref.spec_slug ref.raw_target,
      resolve_target-Joins (make_canonical_id ref.spec_slug ref.raw_target) e
          (ground (arith, unqualified-ne-resolved e)),
      inr (refl, bare),
    )
  ]

  -- On a built graph the resolution of a reference never reads the kind of an undefined node.
  resolve_reference-ne-type_error : resolve_reference ref ctx ≢ type_error
  unfolding resolve_reference
  resolve_reference-ne-type_error h = ground (
    arith,
    resolve_target-ne-type_error ref.raw_target,
    resolve_target-ne-type_error (make_canonical_id ref.spec_slug ref.raw_target),
    unqualified-ne-type_error,
  )
