-- ===== src/Service/Dispatch/Tests.antt =====
-- The gates of a call at a small service with one project.
use omp_spec_kit.Prelude.{
  text, text_eq, text_beq, true, false, ◌≡◌, refl, some, none, [], ◌∷◌, ok, includes,
}
use omp_spec_kit.Service.Scope.{str, RequestScope, request_context, resolve, allows, nonblank}
use omp_spec_kit.Service.Auth.{writer}
use omp_spec_kit.Service.Dispatch.{
  Contract, Services, ToolCall, Run, Arguments, argument_of, alias_in, normalize_from,
  normalize_tool_arguments, variant_of, contract_is_mutating, call_writes, role_allows,
  is_setup_exempt, is_listing, call_tool,
}
use omp_spec_kit.Service.Dispatch.Gates.{MayRun, ServesProject, call_tool-run}

abbrev contract : Contract
contract = record {
  tool = text "spec_patch";
  operation = text "patch";
  mutating = true;
  has_request_id = false;
  discriminator = none;
  variants = [];
}

abbrev services : Services
services = record {
  require_configured = λ p. none;
  require_repo_ready = λ p. none;
  service_listing = λ o. false;
  accepts_arguments = λ c a. true;
  allow_declared_worktree = false;
}

abbrev scope : RequestScope
scope = record {
  projects = text "me/it" ∷ [];
  session_project = some (text "me/it");
  session_source = some request_context;
}

abbrev call : ToolCall
call = record {
  project = none;
  force = false;
  schema_version = none;
  request_id = none;
  rest = (text "declared_worktree", str (text "/w")) ∷ [];
}

abbrev call_run : Run
call_run = record {
  operation = text "patch";
  arguments = (text "declaredWorktree", str (text "/w")) ∷ [];
  project = some (text "me/it");
  all_projects = false;
  force = false;
}

-- A worktree that is named by its alias passes the gate that refuses worktrees, and is run with.
worktree_by_alias : call_tool services scope (some writer) contract call ≡ ok call_run
unfolding call_tool argument_of normalize_tool_arguments normalize_from alias_in variant_of
    contract_is_mutating call_writes role_allows is_setup_exempt is_listing resolve allows nonblank
    includes text_beq
worktree_by_alias = refl

call_tool-run_example :
    (arguments : Arguments) × (normalize_tool_arguments call.rest ≡ ok arguments)
    × MayRun (some writer) (call_writes contract arguments) call.force
    × ServesProject services scope (some writer) contract arguments call_run
call_tool-run_example =
    call_tool-run services scope (some writer) contract call call_run worktree_by_alias
