-- ===== src/Kernel/Remediations.antt =====
-- REMEDIATIONS of src/kernel/types.js: the advice for each diagnostic.
use omp_spec_kit.Prelude.{Text, text}
use omp_spec_kit.Kernel.Types.{DiagnosticCode}

unfoldable pub remediation : DiagnosticCode → Text
remediation DiagnosticCode.unsupported_document = text "rename-to-canonical-document"
remediation DiagnosticCode.invalid_utf8 = text "re-encode-as-utf8"
remediation DiagnosticCode.hash_mismatch = text "refresh-source-bytes"
remediation DiagnosticCode.file_too_large = text "reduce-document-size"
remediation DiagnosticCode.corpus_limit_exceeded = text "reduce-corpus-scope"
remediation DiagnosticCode.invalid_spec_slug = text "use-lowercase-kebab-slug"
remediation DiagnosticCode.path_mismatch = text "align-path-and-document-kind"
remediation DiagnosticCode.path_escape = text "keep-paths-inside-root"
remediation DiagnosticCode.symlink_rejected = text "replace-link-with-regular-file"
remediation DiagnosticCode.non_regular_file = text "use-regular-file"
remediation DiagnosticCode.io_read_failed = text "fix-read-permissions"
remediation DiagnosticCode.unsupported_gherkin_dialect = text "use-english-gherkin"
remediation DiagnosticCode.malformed_gherkin = text "fix-gherkin-structure"
remediation DiagnosticCode.missing_scenario_id = text "add-id-tag"
remediation DiagnosticCode.duplicate_scenario_id_tag = text "keep-one-id-tag"
remediation DiagnosticCode.malformed_heading = text "use-canonical-heading-production"
remediation DiagnosticCode.invalid_local_id = text "use-valid-local-id"
remediation DiagnosticCode.id_not_allowed_in_document = text "move-definition-to-owning-document"
remediation DiagnosticCode.duplicate_definition = text "remove-duplicate-definition"
remediation DiagnosticCode.malformed_reference = text "use-valid-target-syntax"
remediation DiagnosticCode.unqualified_cross_spec_reference = text "use-qualified-id"
remediation DiagnosticCode.broken_reference = text "define-target-or-fix-spelling"
remediation DiagnosticCode.ambiguous_reference = text "remove-duplicate-target-definition"
remediation DiagnosticCode.forbidden_edge_endpoint = text "use-allowed-endpoint-kinds"
remediation DiagnosticCode.malformed_markdown_link = text "fix-markdown-link-destination"
remediation DiagnosticCode.broken_markdown_link = text "fix-link-target-or-anchor"
remediation DiagnosticCode.invalid_ac_parent = text "align-ac-parent-numbering"
remediation DiagnosticCode.invariant_violation = text "report-kernel-defect"
remediation DiagnosticCode.diagnostic_limit_reached = text "reduce-diagnostic-volume"
