-- ===== src/Kernel/Roadmap/Tests.antt =====
-- The theorems on roadmaps at a small graph and a small document.
use omp_spec_kit.Prelude.{
  Text, text, true, ◌≡◌, ◌↔◌, refl, some, none, [], ◌∷◌, ◌++◌, ok, index_of_text,
  index_of_text_from, starts_with, strip_prefix, trim, trim_start, is_space, decide_eq, any, arith,
  All, text_beq, includes,
}
use omp_spec_kit.Kernel.Types.{NodeKind, EdgeType, NodeKind-discrete, EdgeType-discrete}
use omp_spec_kit.Kernel.Roadmap.{
  Graph, GraphNode, ItemStatus, derive_status, derive_requirement_status, implementing_tasks,
  node_of, task_status, body_status, requirement_status, collect_items, line_of,
}
use omp_spec_kit.Kernel.Roadmap.Status.{is_implementation, collect_items-Shows, Shows}
use omp_spec_kit.Kernel.Roadmap.Done.{IsSettled, derive_status-done_iff}
use omp_spec_kit.Kernel.Roadmap.Region.{start_marker, end_marker, merge_region, newline}
use omp_spec_kit.Kernel.Roadmap.Region.Merge.{
  Parts, document_of, with_block, IsRegion, merge_region-merge_region, merge_region_iff,
}

abbrev requirement : GraphNode
requirement = record {
  canonical_id = text "auth:FR-1";
  spec_slug = text "auth";
  local_id = text "FR-1";
  title = text "Sign in";
  kind = NodeKind.functional_requirement;
  status = none;
  body = none;
}

abbrev task : GraphNode
task = record {
  canonical_id = text "auth:T1";
  spec_slug = text "auth";
  local_id = text "T1";
  title = [];
  kind = NodeKind.task;
  status = some (text "unknown");
  body = some (text "**Status:** completed ");
}

abbrev graph : Graph
graph = record {
  nodes = requirement ∷ task ∷ [];
  edges =
      record {
        edge_type = EdgeType.implements;
        from = task.canonical_id;
        to = requirement.canonical_id;
      }
      ∷ [];
}

task_done : task_status (λ t. t) task ≡ text "done"
unfolding task_status body_status line_of index_of_text starts_with strip_prefix trim trim_start
    is_space text_beq includes
task_done = refl

requirement_done : derive_status (λ t. t) graph requirement ≡ ItemStatus.done
unfolding derive_status derive_requirement_status implementing_tasks node_of requirement_status
    decide_eq NodeKind-discrete EdgeType-discrete task_status body_status line_of index_of_text
    starts_with strip_prefix trim trim_start is_space text_beq includes
requirement_done = refl

derive_status-done_iff_example : (derive_status (λ t. t) graph requirement ≡ ItemStatus.done) ↔ (
    (any (is_implementation graph (text "auth:FR-1")) graph.edges ≡ true)
    × All (IsSettled (λ t. t) graph (text "auth:FR-1")) graph.edges)
derive_status-done_iff_example = derive_status-done_iff (λ t. t) graph requirement refl

collect_items-Shows_example :
    All (Shows (λ t. t) graph (text "auth" ∷ [])) (collect_items (λ t. t) graph (text "auth" ∷ []))
collect_items-Shows_example = collect_items-Shows (λ t. t) graph (text "auth" ∷ [])

abbrev parts : Parts
parts = record { front = text "x"; old = text "old"; tail = text "y" }

abbrev block : Text
block = text "new" ++ newline

merged : merge_region (document_of parts) block ≡ ok (document_of (with_block parts block))
unfolding merge_region document_of start_marker end_marker index_of_text index_of_text_from
    starts_with strip_prefix
merged = refl

merge_region-merge_region_example :
    merge_region (document_of (with_block parts block)) (text "z")
    ≡ merge_region (document_of parts) (text "z")
merge_region-merge_region_example =
    merge_region-merge_region (document_of parts) block (text "z")
      (document_of (with_block parts block))
      ((λ e. ground arith), ((λ e. ground arith), ((λ e. ground arith), ((λ e. ground arith), tt))))
      merged

merge_region_iff_example :
    (merge_region (document_of parts) block ≡ ok (document_of (with_block parts block))) ↔ (
      (p : Parts) × (document_of parts ≡ document_of p)
      × IsRegion p
      × (document_of (with_block parts block) ≡ document_of (with_block p block)))
merge_region_iff_example =
    merge_region_iff (document_of parts) block (document_of (with_block parts block))
