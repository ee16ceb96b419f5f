-- ===== src/Kernel/Invariants/Conservation.antt =====
-- When the invariant check reports nothing.
use omp_spec_kit.Prelude.{
  ℕ, ◌+◌, ◌≤◌, Text, Bool, true, false, ◌≡◌, ◌≢◌, ◌↔◌, refl, sym, ◌∙◌, Option, none, some, List, [],
  ◌∷◌, ◌++◌, length, All, arith, Option-cases, inl, inr,
}
use omp_spec_kit.Kernel.Edges.{Node, Group, Edge, endpoint_allowed}
use omp_spec_kit.Kernel.Invariants.{
  LinkOutcome, OutcomeCounts, BuildState, Violation, count_outcome, count_outcomes, no_outcomes,
  outcome_sum, violation_unless, check_edge, check_edges, check_group, check_groups, check_counts,
  check_invariants,
}

-- An edge whose ends are known and allowed.
pub record IsSoundEdge (node_by_id : Text → Option Node) (e : Edge) : Type 0 where
  pub from_node : Node
  pub to_node : Node
  pub from_known : node_by_id e.from ≡ some from_node
  pub to_known : node_by_id e.to ≡ some to_node
  pub allowed : endpoint_allowed e.type from_node.kind to_node.kind ≡ true

-- An ambiguous identity has no elected node.
abbrev pub IsElectedOnce : (Text → Option Node) → Text × Group → Type 0
IsElectedOnce node_by_id (id, group) = 2 ≤ group.count → node_by_id id ≡ none

-- The link was resolved, to one of the four outcomes.
abbrev pub HasOutcome : LinkOutcome → Type 0
HasOutcome link = link ≢ LinkOutcome.not_yet

pub record IsConserved (s : BuildState) : Type 0 where
  pub documents : s.documents_accepted + s.documents_rejected ≡ s.documents_discovered
  pub definitions :
      s.definition_occurrences ≡ s.unique_authored_nodes + s.ambiguous_count + s.rejected_count
  pub references :
      s.reference_occurrences ≡ length s.resolved_edges + length s.unresolved_references
  pub headings : s.headings_total ≡ length s.headings
  pub links : All HasOutcome s.links
  pub edges : All (IsSoundEdge s.node_by_id) s.resolved_edges
  pub groups : All (IsElectedOnce s.node_by_id) s.groups

-- The links with an outcome.
abbrev resolved_links : List LinkOutcome → ℕ
resolved_links [] = 0
resolved_links (LinkOutcome.not_yet ∷ links) = resolved_links links
resolved_links (link ∷ links) = 1 + resolved_links links

count_outcomes-sum :
    (n : OutcomeCounts) (links : List LinkOutcome)
    → outcome_sum (count_outcomes n links) ≡ outcome_sum n + resolved_links links
unfolding count_outcomes count_outcome
count_outcomes-sum n [] = omega arith
count_outcomes-sum n (LinkOutcome.not_yet ∷ links) = count_outcomes-sum n links
count_outcomes-sum n (link ∷ links) = omega (arith, count_outcomes-sum (count_outcome n link) links)

resolved_links-le : (links : List LinkOutcome) → resolved_links links ≤ length links
resolved_links-le [] = omega arith
resolved_links-le (LinkOutcome.not_yet ∷ links) = omega (arith, resolved_links-le links)
resolved_links-le (link ∷ links) = omega (arith, resolved_links-le links)

resolved_links_iff :
    (links : List LinkOutcome) → (resolved_links links ≡ length links) ↔ All HasOutcome links
resolved_links_iff [] = ((λ h. tt), (λ h. refl))
resolved_links_iff (LinkOutcome.not_yet ∷ links) =
    ((λ h. absurd (omega (arith, resolved_links-le links))), (λ h. absurd (h.0 refl)))
resolved_links_iff (link ∷ links) = (
  (λ h. ((λ e. cc), (resolved_links_iff links).0 (omega arith))),
  (λ h. omega (arith, (resolved_links_iff links).1 h.1)),
)

append-eq-nil {ℓ} : {A : Type ℓ} (xs ys : List A) → (xs ++ ys ≡ []) ↔ ((xs ≡ []) × (ys ≡ []))
append-eq-nil [] ys = ((λ h. (refl, h)), (λ h. h.1))
append-eq-nil (x ∷ xs) ys = ((λ h. absurd (cc)), (λ h. absurd (cc (h.0))))

violation_unless_iff : (b : Bool) (v : Violation) → (violation_unless b v ≡ []) ↔ (b ≡ true)
violation_unless_iff true v = ((λ h. refl), (λ h. refl))
violation_unless_iff false v = ((λ h. absurd (cc)), (λ h. absurd (cc)))

check_edge_iff :
    (node_by_id : Text → Option Node) (e : Edge)
    → (check_edge node_by_id e ≡ []) ↔ IsSoundEdge node_by_id e
unfolding check_edge
check_edge_iff node_by_id e = elim (Option-cases (node_by_id e.from)) [
  | inl missing ↦ ((λ h. absurd (ground arith)), (λ sound. absurd (cc (missing, sound.from_known))))
  | inr (from, hf) ↦ elim (Option-cases (node_by_id e.to)) [
    | inl missing ↦ ((λ h. absurd (ground arith)), (λ sound. absurd (cc (missing, sound.to_known))))
    | inr (to, ht) ↦ (
      (λ h. record {
        from_node = from;
        to_node = to;
        from_known = hf;
        to_known = ht;
        allowed = ground arith;
      }),
      (λ sound.
          let f : some sound.from_node ≡ some from = sym sound.from_known ∙ hf in
          let t : some sound.to_node ≡ some to = sym sound.to_known ∙ ht in
          ground (arith, sound.allowed)),
    )
  ]
]

check_edges_iff :
    (node_by_id : Text → Option Node) (es : List Edge)
    → (check_edges node_by_id es ≡ []) ↔ All (IsSoundEdge node_by_id) es
unfolding check_edges
check_edges_iff node_by_id [] = ((λ h. tt), (λ h. refl))
check_edges_iff node_by_id (e ∷ es) =
    let (split, join) = append-eq-nil (check_edge node_by_id e) (check_edges node_by_id es) in
    (
      (λ h. (
        (check_edge_iff node_by_id e).0 (split h).0,
        (check_edges_iff node_by_id es).0 (split h).1,
      )),
      (λ h. join ((check_edge_iff node_by_id e).1 h.0, (check_edges_iff node_by_id es).1 h.1)),
    )

check_group_iff :
    (node_by_id : Text → Option Node) (g : Text × Group)
    → (check_group node_by_id g ≡ []) ↔ IsElectedOnce node_by_id g
unfolding check_group
check_group_iff node_by_id (id, g) = elim (Option-cases (node_by_id id)) [
  | inl missing ↦ ((λ h. λ two. missing), (λ h. ground arith))
  | inr (n, known) ↦ ((λ h. λ two. absurd (ground arith)), (λ h. ground arith))
]

check_groups_iff :
    (node_by_id : Text → Option Node) (gs : List (Text × Group))
    → (check_groups node_by_id gs ≡ []) ↔ All (IsElectedOnce node_by_id) gs
unfolding check_groups
check_groups_iff node_by_id [] = ((λ h. tt), (λ h. refl))
check_groups_iff node_by_id (g ∷ gs) =
    let (split, join) = append-eq-nil (check_group node_by_id g) (check_groups node_by_id gs) in
    (
      (λ h. (
        (check_group_iff node_by_id g).0 (split h).0,
        (check_groups_iff node_by_id gs).0 (split h).1,
      )),
      (λ h. join ((check_group_iff node_by_id g).1 h.0, (check_groups_iff node_by_id gs).1 h.1)),
    )

-- The five counts.
check_counts_iff :
    (s : BuildState)
    → (check_counts s ≡ []) ↔ (
        (s.documents_accepted + s.documents_rejected ≡ s.documents_discovered)
        × (s.definition_occurrences
            ≡ s.unique_authored_nodes + s.ambiguous_count + s.rejected_count)
        × (s.reference_occurrences ≡ length s.resolved_edges + length s.unresolved_references)
        × (s.headings_total ≡ length s.headings)
        × All HasOutcome s.links)
unfolding check_counts
check_counts_iff s =
    let sums = count_outcomes-sum no_outcomes s.links in
    let (all', every) = resolved_links_iff s.links in
    (
      (λ h. (ground arith, ground arith, ground arith, ground arith, all' (ground arith))),
      (λ (d, f, r, k, l). let whole = every l in ground arith),
    )

-- The check reports nothing exactly when documents, definitions, references and headings are
-- conserved, every link has an outcome, every resolved edge has known ends that the endpoint matrix allows, and no ambiguous
-- identity has an elected node.
pub check_invariants_iff : (s : BuildState) → (check_invariants s ≡ []) ↔ IsConserved s
unfolding check_invariants
check_invariants_iff s =
    let (split, join) =
      append-eq-nil (check_counts s)
        (check_edges s.node_by_id s.resolved_edges ++ check_groups s.node_by_id s.groups) in
    let (split', join') =
      append-eq-nil (check_edges s.node_by_id s.resolved_edges)
        (check_groups s.node_by_id s.groups) in
    (
      (λ h.
          let (counts, rest) = split h in
          let (edges, groups) = split' rest in
          let (d, f, r, k, l) = (check_counts_iff s).0 counts in
          record {
            documents = d;
            definitions = f;
            references = r;
            headings = k;
            links = l;
            edges = (check_edges_iff s.node_by_id s.resolved_edges).0 edges;
            groups = (check_groups_iff s.node_by_id s.groups).0 groups;
          }),
      (λ c. join (
        (check_counts_iff s).1 (c.documents, c.definitions, c.references, c.headings, c.links),
        join' (
          (check_edges_iff s.node_by_id s.resolved_edges).1 c.edges,
          (check_groups_iff s.node_by_id s.groups).1 c.groups,
        ),
      )),
    )
