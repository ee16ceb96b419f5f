-- ===== src/Service/Dispatch.antt =====
-- src/service/dispatch.js: `callTool`, the gates before a call is run; with the normalisation of
-- arguments and the annotations of src/adapters/tool-contracts.js.
pub mod Gates
pub mod Tests
use omp_spec_kit.Prelude.{
  ℕ, Text, text, text_eq, text_beq, Bool, true, false, not, ◌&&◌, ◌||◌, leb, Option, none, some,
  is_some, List, [], ◌∷◌, ◌++◌, if◌then◌else◌, any, Result, ok, err,
}
use omp_spec_kit.Service.Scope.{
  Value, null, other, str, RequestScope, Selection, selected, all_scopes, refused, Refusal, Source,
  resolve,
}
use omp_spec_kit.Service.Auth.{Role, reader, writer, owner}

-- `annotations.readOnlyHint` of a variant, where it has annotations.
pub record Variant : Type 0 where
  pub operation : Option Text
  pub read_only : Option Bool
  pub listing : Bool
  pub setup_exempt : Bool

pub record Contract : Type 0 where
  pub tool : Text
  pub operation : Text
  pub mutating : Bool
  pub has_request_id : Bool
  pub discriminator : Option Text
  pub variants : List (Text × Variant)

abbrev pub Arguments : Type 0
Arguments = List (Text × Value)

unfoldable pub argument_of : Arguments → Text → Option Value
argument_of [] name = none
argument_of ((key, value) ∷ arguments) name =
    let rest = argument_of arguments name in if text_beq key name then some value else rest

-- TOOL_ARGUMENT_ALIASES
abbrev pub argument_aliases : List (Text × Text)
argument_aliases =
    (text "spec_slugs", text "specSlugs")
    ∷ (text "include_documents", text "includeDocuments")
    ∷ (text "canonical_id", text "canonicalId")
    ∷ (text "include_incident_counts", text "includeIncidentCounts")
    ∷ (text "max_depth", text "maxDepth")
    ∷ (text "max_visited", text "maxVisited")
    ∷ (text "focus_path", text "focusPath")
    ∷ (text "focus_anchor", text "focusAnchor")
    ∷ (text "include_headings", text "includeHeadings")
    ∷ (text "include_links", text "includeLinks")
    ∷ (text "read_for_edit", text "readForEdit")
    ∷ (text "declared_worktree", text "declaredWorktree")
    ∷ (text "verification_method", text "verificationMethod")
    ∷ (text "safety_class", text "safetyClass")
    ∷ (text "status_view", text "statusView")
    ∷ (text "verification_method_missing", text "verificationMethodMissing")
    ∷ (text "scenario_id", text "scenarioId")
    ∷ (text "actor_ref", text "actorRef")
    ∷ (text "repository_root_fingerprint", text "repositoryRootFingerprint")
    ∷ (text "expected_sha", text "expectedSha")
    ∷ (text "old_string", text "oldText")
    ∷ (text "new_string", text "newText")
    ∷ (text "replace_all", text "replaceAll")
    ∷ (text "new_doc", text "newDoc")
    ∷ (text "node_id", text "canonicalId")
    ∷ (text "design_review", text "designReview")
    ∷ []

unfoldable pub alias_in : List (Text × Text) → Text → Text
alias_in [] name = name
alias_in ((alias, canonical) ∷ aliases) name =
    let rest = alias_in aliases name in if text_beq alias name then canonical else rest

pub data DispatchError : Type 0 where
  unsupported_schema_version invalid_request_id worktree_routing_unsupported : DispatchError
  duplicate_field role_denied invalid_project project_not_configured setup_required : DispatchError
  mount_refused invalid_arguments : DispatchError
  scope_refused : Refusal → DispatchError

-- `normalizeToolArguments`, after the arguments in `normalized`.
unfoldable pub normalize_from : Arguments → Arguments → Result DispatchError Arguments
normalize_from normalized [] = ok normalized
normalize_from normalized ((name, value) ∷ arguments) =
    let canonical = alias_in argument_aliases name in
    let rest = normalize_from (normalized ++ (canonical, value) ∷ []) arguments in
    if is_some (argument_of normalized canonical) then err duplicate_field else rest

unfoldable pub normalize_tool_arguments : Arguments → Result DispatchError Arguments
normalize_tool_arguments arguments = normalize_from [] arguments

-- `contract.variants?.[args?.[contract.discriminator]]`: JavaScript takes any value as a property key. The
-- names that every object inherits are left out.
unfoldable pub variant_named : List (Text × Variant) → Text → Option Variant
variant_named [] action = none
variant_named ((key, variant) ∷ variants) action =
    let rest = variant_named variants action in if text_beq key action then some variant else rest

abbrev pub property_key : Value → Text
property_key null = text "null"
property_key (other key) = key
property_key (str key) = key

abbrev pub variant_at : Contract → Option Value → Option Variant
variant_at contract none = variant_named contract.variants (text "undefined")
variant_at contract (some value) = variant_named contract.variants (property_key value)

unfoldable pub variant_of : Contract → Arguments → Option Variant
variant_of contract arguments = elim contract.discriminator [
  | none ↦ none
  | some name ↦ variant_at contract (argument_of arguments name)
]

abbrev pub says_writes : Variant → Bool
says_writes variant = elim variant.read_only [ some false ↦ true | _ ↦ false ]

-- `contractIsMutating`
unfoldable pub contract_is_mutating : Contract → Bool
contract_is_mutating contract =
    contract.mutating || any (λ entry. says_writes entry.1) contract.variants

abbrev pub writes_with : Contract → Option Variant → Bool
writes_with contract none = contract_is_mutating contract
writes_with contract (some variant) = elim variant.read_only [
  | none ↦ contract_is_mutating contract
  | some read_only ↦ not read_only
]

-- `annotationsFor(contract, action).readOnlyHint === false`
unfoldable pub call_writes : Contract → Arguments → Bool
call_writes contract arguments = writes_with contract (variant_of contract arguments)

-- ROLE_RANK, of a role that is known.
abbrev pub role_rank : Role → ℕ
role_rank reader = 0
role_rank writer = 1
role_rank owner = 2

-- `roleAllows`; `none` is a role without a rank.
unfoldable pub role_allows : Option Role → Bool → Bool → Bool
role_allows none writes force = false
role_allows (some role) writes force =
    if writes && not (leb 1 (role_rank role))
    then false
    else not (force && not (leb 2 (role_rank role)))

-- What the caller sends, `project`, `force === true`, `schemaVersion` and `requestId` taken out of it.
pub record ToolCall : Type 0 where
  pub project : Option Value
  pub force : Bool
  pub schema_version : Option Value
  pub request_id : Option Value
  pub rest : Arguments

abbrev pub is_supported_version : Option Value → Bool
is_supported_version none = true
is_supported_version (some (str version)) =
    text_beq version (text "spec-kernel@1") || text_beq version (text "spec-kernel@2")
is_supported_version (some _) = false

abbrev pub is_request_id : Option Value → Bool
is_request_id (some (other key)) = false
is_request_id _ = true

abbrev pub is_project_argument : Option Value → Bool
is_project_argument none = true
is_project_argument (some (str t)) = true
is_project_argument (some _) = false

abbrev pub project_value : Option Value → Value
project_value none = null
project_value (some v) = v

-- How `requireConfigured` and `requireRepoReady` of the mounts fail.
pub data MountError : Type 0 where
  not_configured binding_required other_failure : MountError

-- What the dispatcher is made of: the mounts, the listing flag of the service's operations, and the
-- validation of a contract's arguments.
pub record Services : Type 0 where
  pub require_configured : Text → Option MountError
  pub require_repo_ready : Text → Option MountError
  pub service_listing : Text → Bool
  pub accepts_arguments : Contract → Arguments → Bool
  pub allow_declared_worktree : Bool

-- A call that is run: by the service's operation, by a wrapper or by the kernel.
pub record Run : Type 0 where
  pub operation : Text
  pub arguments : Arguments
  pub project : Option Text
  pub all_projects : Bool
  pub force : Bool

abbrev pub is_setup_operation : Text → Bool
is_setup_operation operation = text_beq operation (text "mcpPreflight")

abbrev pub is_exempt_variant : Option Variant → Bool
is_exempt_variant none = false
is_exempt_variant (some variant) = variant.setup_exempt

unfoldable pub is_setup_exempt : Contract → Arguments → Bool
is_setup_exempt contract arguments =
    is_setup_operation contract.operation || is_exempt_variant (variant_of contract arguments)

abbrev pub mount_error : Contract → MountError → DispatchError
mount_error contract not_configured = project_not_configured
mount_error contract binding_required =
    if is_setup_operation contract.operation then mount_refused else setup_required
mount_error contract other_failure = mount_refused

module _ (services : Services) (scope : RequestScope) (role : Option Role)
    (contract : Contract) where
  abbrev pub listing_with : Option Variant → Bool
  listing_with none = services.service_listing contract.operation
  listing_with (some variant) = variant.listing

  unfoldable pub is_listing : Arguments → Bool
  is_listing arguments = listing_with (variant_of contract arguments)

  -- `injectRequestId`
  abbrev pub inject_request_id : Option Value → Arguments → Arguments
  inject_request_id (some (str id)) arguments =
      if contract.has_request_id && not (is_some (argument_of arguments (text "requestId")))
      then arguments ++ (text "requestId", str id) ∷ []
      else arguments
  inject_request_id _ arguments = arguments

  abbrev pub run_if_valid : Run → Result DispatchError Run
  run_if_valid run =
      if services.accepts_arguments contract run.arguments then ok run else err invalid_arguments

  abbrev pub check_ready : Run → Option MountError → Result DispatchError Run
  check_ready run (some e) = err (mount_error contract e)
  check_ready run none = run_if_valid run

  abbrev pub check_mount : Arguments → Run → Text → Option MountError → Result DispatchError Run
  check_mount arguments run project (some e) = err (mount_error contract e)
  check_mount arguments run project none =
      if is_setup_exempt contract arguments
      then run_if_valid run
      else check_ready run (services.require_repo_ready project)

  abbrev pub run_selected : ToolCall → Arguments → Selection → Result DispatchError Run
  run_selected call arguments (refused refusal) = err (scope_refused refusal)
  run_selected call arguments all_scopes = run_if_valid (record {
    operation = contract.operation;
    arguments = inject_request_id call.request_id arguments;
    project = none;
    all_projects = true;
    force = call.force;
  })
  run_selected call arguments (selected project source) =
      check_mount arguments
        (record {
          operation = contract.operation;
          arguments = inject_request_id call.request_id arguments;
          project = some project;
          all_projects = false;
          force = call.force;
        })
        project (services.require_configured project)

  abbrev pub run_normalized : ToolCall → Result DispatchError Arguments → Result DispatchError Run
  run_normalized call (err e) = err e
  run_normalized call (ok arguments) =
      if not (role_allows role (call_writes contract arguments) call.force)
      then err role_denied
      else if not (is_project_argument call.project)
      then err invalid_project
      else run_selected call arguments
          (resolve scope (project_value call.project) (is_listing arguments))

  -- `callTool`, of a contract that is known and a scope that is given.
  unfoldable pub call_tool : ToolCall → Result DispatchError Run
  call_tool call =
      if not (is_supported_version call.schema_version)
      then err unsupported_schema_version
      else if not (is_request_id call.request_id)
      then err invalid_request_id
      else if not services.allow_declared_worktree
          && is_some (argument_of call.rest (text "declaredWorktree"))
      then err worktree_routing_unsupported
      else run_normalized call (normalize_tool_arguments call.rest)
