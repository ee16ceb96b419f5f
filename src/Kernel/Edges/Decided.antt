-- ===== src/Kernel/Edges/Decided.antt =====
-- Exactly when a reference resolves, and to which edge (src/kernel/graph/resolve-edges.js).
use omp_spec_kit.Prelude.{
  Text, index_of, true, ◌&&◌, not, ◌≡◌, ◌≢◌, ◌⊎◌, ◌↔◌, refl, sym, ◌∙◌, inl, inr, some, is_some,
  arith, &&-left, &&-right, Bool-cases, Option-cases, if◌then◌else◌,
}
use omp_spec_kit.Kernel.Types.{NodeKind, EdgeType, node_kind_eq, edge_type_eq}
use omp_spec_kit.Kernel.Identity.{make_canonical_id}
use omp_spec_kit.Kernel.Edges.{
  Node, Group, Reference, Context, Edge, resolved, is_valid_target_syntax, endpoint_allowed,
  is_turned, unqualified, connect, resolve_target, resolve_reference,
}

-- The canonical ID that a reference stands for.
abbrev pub target_key : Reference → Text
target_key ref =
    if is_some (index_of b':' ref.raw_target)
    then ref.raw_target
    else make_canonical_id ref.spec_slug ref.raw_target

-- A scenario names what it tests.
abbrev pub IsScenarioTag : Reference → Node → Node → Type 0
IsScenarioTag ref source target =
    (ref.requested_edge_type ≡ EdgeType.tested_by)
    × (source.kind ≡ NodeKind.scenario)
    × (target.kind ≢ NodeKind.scenario)

abbrev pub edge_of : Reference → Node → Node → Edge
edge_of ref from to = record {
  edge_id = ref.occurrence_id;
  from = from.canonical_id;
  to = to.canonical_id;
  type = ref.requested_edge_type;
  span = ref.span;
}

-- The edge runs from the source to the target, or back for the tag of a scenario, and the matrix allows it.
abbrev pub IsAllowed : Reference → Node → Node → Edge → Type 0
IsAllowed ref source target e =
    (IsScenarioTag ref source target
      × (e ≡ edge_of ref target source)
      × (endpoint_allowed ref.requested_edge_type target.kind source.kind ≡ true))
    ⊎ ((¬ IsScenarioTag ref source target)
        × (e ≡ edge_of ref source target)
        × (endpoint_allowed ref.requested_edge_type source.kind target.kind ≡ true))

-- A well-formed reference, from a node to the node of an ID that is defined once.
pub record Resolves (ref : Reference) (ctx : Context) (e : Edge) : Type 0 where
  pub valid : is_valid_target_syntax ref.raw_target ≡ true
  pub group : Group
  pub known : ctx.groups (target_key ref) ≡ some group
  pub once : group.count ≡ 1
  pub source : Node
  pub source_known : ctx.node_by_id ref.source_canonical_id ≡ some source
  pub target : Node
  pub target_known : ctx.node_by_id (target_key ref) ≡ some target
  pub allowed : IsAllowed ref source target e

is_turned_iff :
    (ref : Reference) (source target : Node)
    → (is_turned ref source target ≡ true) ↔ IsScenarioTag ref source target
unfolding is_turned
is_turned_iff ref source target = (
  (λ h. (
    (edge_type_eq.test_iff _ _).0 (&&-left _ _ (&&-left _ _ h)),
    (node_kind_eq.test_iff _ _).0 (&&-right _ _ (&&-left _ _ h)),
    (λ same.
        let t = (node_kind_eq.test_iff target.kind NodeKind.scenario).1 same in
        let u =
          &&-right
            (edge_type_eq.test ref.requested_edge_type EdgeType.tested_by
              && node_kind_eq.test source.kind NodeKind.scenario)
            (not (node_kind_eq.test target.kind NodeKind.scenario)) h in
        ground arith),
  )),
  (λ h.
      let a = (edge_type_eq.test_iff ref.requested_edge_type EdgeType.tested_by).1 h.0 in
      let b = (node_kind_eq.test_iff source.kind NodeKind.scenario).1 h.1 in
      elim (Bool-cases (node_kind_eq.test target.kind NodeKind.scenario)) [
        | inl same ↦ absurd (h.2 ((node_kind_eq.test_iff _ _).0 same))
        | inr other ↦ rw (a, b, other) refl
      ]),
)

connect_iff :
    (ref : Reference) (source target : Node) (e : Edge)
    → (connect ref source target ≡ resolved e) ↔ IsAllowed ref source target e
unfolding connect
connect_iff ref source target e =
    let (tag, turn) = is_turned_iff ref source target in
    elim (Bool-cases (is_turned ref source target)) [
      | inl turned ↦ rw turned (
        (λ h. inl (tag turned, ground arith, ground arith)),
        (λ h. elim h [
          | inl (_, same, allowed) ↦ ground arith
          | inr (untagged, same, allowed) ↦ absurd (untagged (tag turned))
        ]),
      )
      | inr straight ↦ rw straight (
        (λ h. inr ((λ t. let y = turn t in cc), ground arith, ground arith)),
        (λ h. elim h [
          | inl (tagged, same, allowed) ↦ absurd (let y = turn tagged in cc)
          | inr (_, same, allowed) ↦ ground arith
        ]),
      )
    ]

-- The target's ID is known to the resolution, whether it is written with its specification or without.
module _ (ref : Reference) (ctx : Context) (e : Edge) where
  target_iff :
      (t : Text)
      → (resolve_target ref ctx t ≡ resolved e) ↔ (
          (group : Group) × (ctx.groups t ≡ some group)
          × (group.count ≡ 1)
          × (source : Node) × (ctx.node_by_id ref.source_canonical_id ≡ some source)
          × (target : Node) × (ctx.node_by_id t ≡ some target)
          × (connect ref source target ≡ resolved e))
  unfolding resolve_target
  target_iff t = (
    (λ h. elim (Option-cases (ctx.groups t)) [
      | inl missing ↦ absurd (ground arith)
      | inr (g, known) ↦ elim (Option-cases (ctx.node_by_id ref.source_canonical_id)) [
        | inl missing ↦ absurd (ground arith)
        | inr (source, hs) ↦ elim (Option-cases (ctx.node_by_id t)) [
          | inl missing ↦ absurd (ground arith)
          | inr (target, ht) ↦ (g, known, ground arith, source, hs, target, ht, ground arith)
        ]
      ]
    ]),
    (λ (g, known, one, source, hs, target, ht, h). ground arith),
  )

  reference-eq-target :
      is_valid_target_syntax ref.raw_target ≡ true
      → is_some (ctx.groups (target_key ref)) ≡ true
      → resolve_reference ref ctx ≡ resolve_target ref ctx (target_key ref)
  unfolding resolve_reference
  reference-eq-target valid known = ground arith

  resolved-known :
      resolve_reference ref ctx ≡ resolved e
      → (is_valid_target_syntax ref.raw_target ≡ true)
        × (is_some (ctx.groups (target_key ref)) ≡ true)
  unfolding resolve_reference resolve_target unqualified
  resolved-known h = elim (Bool-cases (is_valid_target_syntax ref.raw_target)) [
    | inr bad ↦ absurd (ground arith)
    | inl valid ↦ (
      valid,
      elim (Option-cases (ctx.groups (target_key ref))) [
        | inr (g, known) ↦ rw known refl
        | inl missing ↦ absurd (elim (Bool-cases (is_some (index_of b':' ref.raw_target))) [
          | inl qualified ↦ ground arith
          | inr bare ↦ ground arith
        ])
      ],
    )
  ]

  -- A reference resolves to an edge exactly when it is well formed, the canonical ID that it stands for (as
  -- written, or in the source's own specification) is defined once, it leads from a known node to a known
  -- node, and the edge joins these two in a direction that the endpoint matrix allows: from the source to
  -- the target, or back if a scenario asks for TESTED_BY of what is no scenario.
  pub resolve_reference_iff : (resolve_reference ref ctx ≡ resolved e) ↔ Resolves ref ctx e
  resolve_reference_iff = (
    (λ h.
        let (valid, known') = resolved-known h in
        let (g, known, one, source, hs, target, ht, made) =
          (target_iff (target_key ref)).0 (sym (reference-eq-target valid known') ∙ h) in
        record {
          valid = valid;
          group = g;
          known = known;
          once = one;
          source = source;
          source_known = hs;
          target = target;
          target_known = ht;
          allowed = (connect_iff ref source target e).0 made;
        }),
    (λ r.
        let known' : is_some (ctx.groups (target_key ref)) ≡ true = rw r.known refl in
        reference-eq-target r.valid known'
        ∙ (target_iff (target_key ref)).1 (
          r.group,
          r.known,
          r.once,
          r.source,
          r.source_known,
          r.target,
          r.target_known,
          (connect_iff ref r.source r.target e).1 r.allowed,
        )),
  )
