-- ===== src/Kernel/Documents.antt =====
-- The document tables of src/kernel/types.js: kinds, fixed file names, the roles that a kind may define,
-- the headings that define them, reference fields and task statuses.
use omp_spec_kit.Prelude.{
  ℕ, Text, text, text_beq, Bool, true, false, Option, none, some, List, [], ◌∷◌, if◌then◌else◌,
}
use omp_spec_kit.Kernel.Types.{EdgeType}
use omp_spec_kit.Kernel.Identity
use omp_spec_kit.Kernel.Identity.{LocalIdRole}

pub data DocumentKind : Type 0 where
  readme user_stories use_cases research requirements functional_requirements : DocumentKind
  non_functional_requirements acceptance_criteria design tasks file_changes changelog : DocumentKind
  feature fixtures schema roadmap : DocumentKind

unfoldable pub fixed_document_file : DocumentKind → Option Text
fixed_document_file readme = some (text "README.md")
fixed_document_file user_stories = some (text "USER_STORIES.md")
fixed_document_file use_cases = some (text "USE_CASES.md")
fixed_document_file research = some (text "RESEARCH.md")
fixed_document_file requirements = some (text "REQUIREMENTS.md")
fixed_document_file functional_requirements = some (text "FR.md")
fixed_document_file non_functional_requirements = some (text "NFR.md")
fixed_document_file acceptance_criteria = some (text "ACCEPTANCE_CRITERIA.md")
fixed_document_file design = some (text "DESIGN.md")
fixed_document_file tasks = some (text "TASKS.md")
fixed_document_file file_changes = some (text "FILE_CHANGES.md")
fixed_document_file changelog = some (text "CHANGELOG.md")
fixed_document_file fixtures = some (text "FIXTURES.md")
fixed_document_file roadmap = some (text "ROADMAP.md")
fixed_document_file feature = none
fixed_document_file schema = none

unfoldable pub is_markdown : DocumentKind → Bool
is_markdown feature = false
is_markdown _ = true

unfoldable pub document_definition_roles : DocumentKind → List LocalIdRole
document_definition_roles user_stories = Identity.user_story ∷ []
document_definition_roles use_cases = Identity.use_case ∷ []
document_definition_roles research = Identity.research_finding ∷ Identity.risk ∷ []
document_definition_roles functional_requirements = Identity.functional_requirement ∷ []
document_definition_roles non_functional_requirements = Identity.non_functional_requirement ∷ []
document_definition_roles acceptance_criteria = Identity.acceptance_criterion ∷ []
document_definition_roles design = Identity.decision ∷ []
document_definition_roles tasks = Identity.task ∷ []
document_definition_roles file_changes = Identity.file_change ∷ []
document_definition_roles fixtures = Identity.fixture ∷ []
document_definition_roles schema = Identity.schema_entity ∷ []
document_definition_roles _ = []

pub data Separator : Type 0 where
  colon emdash bare : Separator

pub record HeadingProduction : Type 0 where
  pub levels : List ℕ
  pub separators : List Separator

abbrev pub level_two : HeadingProduction
level_two = record { levels = 2 ∷ []; separators = colon ∷ emdash ∷ [] }

-- A role without an entry, the roadmap's, has no production.
unfoldable pub role_heading_production : LocalIdRole → Option HeadingProduction
role_heading_production Identity.acceptance_criterion =
    some (record { levels = 2 ∷ 3 ∷ []; separators = colon ∷ emdash ∷ bare ∷ [] })
role_heading_production Identity.scenario = some (record { levels = []; separators = [] })
role_heading_production Identity.roadmap = none
role_heading_production _ = some level_two

unfoldable pub reference_field_edge_type : Text → Option EdgeType
reference_field_edge_type field =
    if text_beq field (text "Refs")
    then some EdgeType.refs
    else if text_beq field (text "Related")
    then some EdgeType.refs
    else if text_beq field (text "Covers")
    then some EdgeType.covers
    else if text_beq field (text "Implements")
    then some EdgeType.implements
    else if text_beq field (text "Depends On")
    then some EdgeType.depends_on
    else none

unfoldable pub has_reference_table : DocumentKind → Bool
has_reference_table requirements = true
has_reference_table tasks = true
has_reference_table file_changes = true
has_reference_table _ = false

pub data TaskStatus : Type 0 where
  planned todo ready in_progress blocked done deferred unknown : TaskStatus

unfoldable pub normalize_task_status : Text → Option TaskStatus
normalize_task_status spelling =
    if text_beq spelling (text "Planned")
    then some planned
    else if text_beq spelling (text "planned")
    then some planned
    else if text_beq spelling (text "todo")
    then some todo
    else if text_beq spelling (text "Ready")
    then some ready
    else if text_beq spelling (text "ready")
    then some ready
    else if text_beq spelling (text "In-progress")
    then some in_progress
    else if text_beq spelling (text "in-progress")
    then some in_progress
    else if text_beq spelling (text "Blocked")
    then some blocked
    else if text_beq spelling (text "blocked")
    then some blocked
    else if text_beq spelling (text "Done")
    then some done
    else if text_beq spelling (text "done")
    then some done
    else if text_beq spelling (text "Completed")
    then some done
    else if text_beq spelling (text "completed")
    then some done
    else if text_beq spelling (text "Deferred")
    then some deferred
    else if text_beq spelling (text "deferred")
    then some deferred
    else none
