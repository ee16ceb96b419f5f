-- ===== src/Kernel/Types.antt =====
-- The closed unions and tables of src/kernel/types.js. A union of string literals is a data type
-- with one constructor for each literal.
use omp_spec_kit.Prelude.{Option, none, some, List, [], ◌∷◌, Equality, decide_eq, decide_eq_iff}

pub data NodeKind : Type 0 where
  document roadmap user_story use_case research_finding risk functional_requirement : NodeKind
  non_functional_requirement acceptance_criterion decision task file_change file : NodeKind
  scenario fixture schema_entity : NodeKind

unfoldable pub NodeKind-discrete : Discrete NodeKind
NodeKind-discrete = hlevel

instance abbrev pub node_kind_eq : Equality NodeKind
node_kind_eq = record {
  test = decide_eq NodeKind-discrete;
  test_iff = decide_eq_iff NodeKind-discrete;
}

pub data EdgeType : Type 0 where
  refs covers tested_by implements depends_on documents declares contains : EdgeType

unfoldable pub EdgeType-discrete : Discrete EdgeType
EdgeType-discrete = hlevel

instance abbrev pub edge_type_eq : Equality EdgeType
edge_type_eq = record {
  test = decide_eq EdgeType-discrete;
  test_iff = decide_eq_iff EdgeType-discrete;
}

-- One row of the matrix; `none` stands for a key that is null or absent.
pub record EndpointRule : Type 0 where
  pub from : Option (List NodeKind)
  pub to : Option (List NodeKind)
  pub to_except : Option (List NodeKind)

unfoldable pub edge_endpoint_matrix : EdgeType → EndpointRule
edge_endpoint_matrix refs = record { from = none; to = none; to_except = none }
edge_endpoint_matrix covers = record {
  from = some (acceptance_criterion ∷ use_case ∷ user_story ∷ []);
  to = some (functional_requirement ∷ non_functional_requirement ∷ []);
  to_except = none;
}
edge_endpoint_matrix tested_by = record {
  from = some (functional_requirement ∷ non_functional_requirement ∷ acceptance_criterion ∷ []);
  to = some (scenario ∷ []);
  to_except = none;
}
edge_endpoint_matrix implements = record {
  from = some (task ∷ file_change ∷ file ∷ []);
  to = some (functional_requirement ∷ non_functional_requirement ∷ acceptance_criterion ∷ []);
  to_except = none;
}
edge_endpoint_matrix depends_on = record {
  from = some (task ∷ []);
  to = some (task ∷ []);
  to_except = none;
}
edge_endpoint_matrix documents = record {
  from = some (research_finding ∷ decision ∷ file_change ∷ fixture ∷ schema_entity ∷ []);
  to = none;
  to_except = some (document ∷ []);
}
edge_endpoint_matrix declares = record {
  from = some (document ∷ []);
  to = none;
  to_except = some (document ∷ []);
}
edge_endpoint_matrix contains = record {
  from = some (roadmap ∷ []);
  to = none;
  to_except = some (roadmap ∷ document ∷ []);
}

pub data RefUnresolvedReason : Type 0 where
  malformed_target unqualified_cross_spec missing_target : RefUnresolvedReason
  ambiguous_target forbidden_endpoint rejected_source : RefUnresolvedReason

pub data DiagnosticCode : Type 0 where
  unsupported_document invalid_utf8 hash_mismatch file_too_large corpus_limit_exceeded :
      DiagnosticCode
  invalid_spec_slug path_mismatch path_escape symlink_rejected non_regular_file : DiagnosticCode
  io_read_failed unsupported_gherkin_dialect malformed_gherkin missing_scenario_id : DiagnosticCode
  duplicate_scenario_id_tag malformed_heading invalid_local_id : DiagnosticCode
  id_not_allowed_in_document duplicate_definition malformed_reference : DiagnosticCode
  unqualified_cross_spec_reference broken_reference ambiguous_reference : DiagnosticCode
  forbidden_edge_endpoint malformed_markdown_link broken_markdown_link : DiagnosticCode
  invalid_ac_parent invariant_violation diagnostic_limit_reached : DiagnosticCode

pub data Severity : Type 0 where
  error warning info : Severity

unfoldable pub diagnostic_default_severity : DiagnosticCode → Severity
diagnostic_default_severity unsupported_document = info
diagnostic_default_severity invalid_utf8 = error
diagnostic_default_severity hash_mismatch = error
diagnostic_default_severity file_too_large = error
diagnostic_default_severity corpus_limit_exceeded = error
diagnostic_default_severity invalid_spec_slug = error
diagnostic_default_severity path_mismatch = error
diagnostic_default_severity path_escape = error
diagnostic_default_severity symlink_rejected = error
diagnostic_default_severity non_regular_file = error
diagnostic_default_severity io_read_failed = error
diagnostic_default_severity unsupported_gherkin_dialect = error
diagnostic_default_severity malformed_gherkin = error
diagnostic_default_severity missing_scenario_id = error
diagnostic_default_severity duplicate_scenario_id_tag = error
diagnostic_default_severity invariant_violation = error
diagnostic_default_severity malformed_heading = warning
diagnostic_default_severity invalid_local_id = warning
diagnostic_default_severity id_not_allowed_in_document = warning
diagnostic_default_severity duplicate_definition = warning
diagnostic_default_severity malformed_reference = warning
diagnostic_default_severity unqualified_cross_spec_reference = warning
diagnostic_default_severity broken_reference = warning
diagnostic_default_severity ambiguous_reference = warning
diagnostic_default_severity forbidden_edge_endpoint = warning
diagnostic_default_severity malformed_markdown_link = warning
diagnostic_default_severity broken_markdown_link = warning
diagnostic_default_severity invalid_ac_parent = warning
diagnostic_default_severity diagnostic_limit_reached = warning
