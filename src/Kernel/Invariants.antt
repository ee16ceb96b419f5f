-- ===== src/Kernel/Invariants.antt =====
-- src/kernel/graph/invariants.js: conservation and cardinality checks over the assembled state.
-- A violation is a value in place of its message.
pub mod Conservation
use omp_spec_kit.Prelude.{
  ℕ, ◌+◌, Text, Bool, true, false, not, ◌&&◌, nat_beq, leb, Option, none, some, is_some, List, [],
  ◌∷◌, ◌++◌, length, if◌then◌else◌,
}
use omp_spec_kit.Kernel.Edges.{Node, Group, Edge, endpoint_allowed}

-- `not_yet` is the empty outcome that a link carries until it is resolved.
pub data LinkOutcome : Type 0 where
  internal_heading internal_document external unresolved not_yet : LinkOutcome

pub record OutcomeCounts : Type 0 where
  pub internal_heading : ℕ
  pub internal_document : ℕ
  pub external : ℕ
  pub unresolved : ℕ

pub record BuildState : Type 0 where
  pub documents_discovered : ℕ
  pub documents_accepted : ℕ
  pub documents_rejected : ℕ
  pub definition_occurrences : ℕ
  pub unique_authored_nodes : ℕ
  pub ambiguous_count : ℕ
  pub rejected_count : ℕ
  pub reference_occurrences : ℕ
  pub resolved_edges : List Edge
  pub unresolved_references : List Text
  pub headings_total : ℕ
  pub headings : List Text
  pub links : List LinkOutcome
  pub node_by_id : Text → Option Node
  pub groups : List (Text × Group)

pub data Violation : Type 0 where
  document_conservation definition_conservation reference_conservation : Violation
  heading_count link_outcome_conservation : Violation
  missing_endpoint endpoint_matrix : Text → Violation
  elected_ambiguous : Text → Violation

-- `outcomeCounts[link.outcome] += 1`; the empty outcome counts under none of the four.
unfoldable pub count_outcome : OutcomeCounts → LinkOutcome → OutcomeCounts
count_outcome n LinkOutcome.internal_heading = record n {
  internal_heading = n.internal_heading + 1;
}
count_outcome n LinkOutcome.internal_document = record n {
  internal_document = n.internal_document + 1;
}
count_outcome n LinkOutcome.external = record n { external = n.external + 1 }
count_outcome n LinkOutcome.unresolved = record n { unresolved = n.unresolved + 1 }
count_outcome n LinkOutcome.not_yet = n

unfoldable pub count_outcomes : OutcomeCounts → List LinkOutcome → OutcomeCounts
count_outcomes n [] = n
count_outcomes n (link ∷ links) = count_outcomes (count_outcome n link) links

abbrev pub no_outcomes : OutcomeCounts
no_outcomes = record { internal_heading = 0; internal_document = 0; external = 0; unresolved = 0 }

abbrev pub outcome_sum : OutcomeCounts → ℕ
outcome_sum n = n.internal_heading + n.internal_document + n.external + n.unresolved

abbrev pub violation_unless : Bool → Violation → List Violation
violation_unless true v = []
violation_unless false v = v ∷ []

abbrev pub check_ends : Edge → Option Node → Option Node → List Violation
check_ends edge (some from) (some to) =
    violation_unless (endpoint_allowed edge.type from.kind to.kind) (endpoint_matrix edge.edge_id)
check_ends edge _ _ = missing_endpoint edge.edge_id ∷ []

unfoldable pub check_edge : (Text → Option Node) → Edge → List Violation
check_edge node_by_id edge = check_ends edge (node_by_id edge.from) (node_by_id edge.to)

unfoldable pub check_edges : (Text → Option Node) → List Edge → List Violation
check_edges node_by_id [] = []
check_edges node_by_id (edge ∷ edges) = check_edge node_by_id edge ++ check_edges node_by_id edges

unfoldable pub check_group : (Text → Option Node) → Text × Group → List Violation
check_group node_by_id (canonical_id, group) =
    violation_unless (not (leb 2 group.count && is_some (node_by_id canonical_id)))
      (elected_ambiguous canonical_id)

unfoldable pub check_groups : (Text → Option Node) → List (Text × Group) → List Violation
check_groups node_by_id [] = []
check_groups node_by_id (group ∷ groups) =
    check_group node_by_id group ++ check_groups node_by_id groups

unfoldable pub check_counts : BuildState → List Violation
check_counts s =
    violation_unless (nat_beq (s.documents_accepted + s.documents_rejected) s.documents_discovered)
      document_conservation
    ++ (violation_unless
          (nat_beq s.definition_occurrences
            (s.unique_authored_nodes + s.ambiguous_count + s.rejected_count))
          definition_conservation
        ++ (violation_unless
              (nat_beq s.reference_occurrences
                (length s.resolved_edges + length s.unresolved_references))
              reference_conservation
            ++ (violation_unless (nat_beq s.headings_total (length s.headings)) heading_count
                ++ violation_unless
                    (nat_beq (outcome_sum (count_outcomes no_outcomes s.links)) (length s.links))
                    link_outcome_conservation)))

unfoldable pub check_invariants : BuildState → List Violation
check_invariants s =
    check_counts s
    ++ (check_edges s.node_by_id s.resolved_edges ++ check_groups s.node_by_id s.groups)
