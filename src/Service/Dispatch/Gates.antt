-- ===== src/Service/Dispatch/Gates.antt =====
-- What a call that is run has passed.
use omp_spec_kit.Prelude.{
  ◌≤◌, Text, text, text_eq, Bool, true, false, not, ◌&&◌, Option, none, some, is_some, Result, ok,
  err, ◌≡◌, ◌⊎◌, inl, inr, refl, sym, ap, Bool-cases, arith,
}
use omp_spec_kit.Service.Scope.{
  str, RequestScope, Selection, selected, all_scopes, refused, resolve, allows,
}
use omp_spec_kit.Service.Scope.Isolation.{resolve-allows}
use omp_spec_kit.Service.Auth.{Role, reader, writer, owner}
use omp_spec_kit.Service.Dispatch.{
  Contract, Arguments, DispatchError, normalize_tool_arguments, call_writes, role_rank, role_allows,
  ToolCall, project_value, is_project_argument, is_supported_version, is_request_id, MountError,
  Services, Run, is_setup_exempt, is_listing, run_if_valid, check_ready, check_mount, run_selected,
  run_normalized, call_tool, argument_of,
}

-- A role that may write where the call writes, and force where it forces.
abbrev pub MayRun : Option Role → Bool → Bool → Type 0
MayRun role writes force =
    (r : Role) × (role ≡ some r)
    × ((writes ≡ false) ⊎ (1 ≤ role_rank r))
    × ((force ≡ false) ⊎ (2 ≤ role_rank r))

role_allows-MayRun :
    (role : Option Role) (writes force : Bool)
    → role_allows role writes force ≡ true
    → MayRun role writes force
unfolding role_allows
role_allows-MayRun none writes force h = absurd (cc)
role_allows-MayRun (some reader) false false h = (reader, refl, inl refl, inl refl)
role_allows-MayRun (some reader) false true h = absurd (cc)
role_allows-MayRun (some reader) true force h = absurd (cc)
role_allows-MayRun (some writer) writes false h = (writer, refl, inr (omega arith), inl refl)
role_allows-MayRun (some writer) false true h = absurd (cc)
role_allows-MayRun (some writer) true true h = absurd (cc)
role_allows-MayRun (some owner) writes force h = (owner, refl, inr (omega arith), inr (omega arith))

module _ (services : Services) (scope : RequestScope) (role : Option Role)
    (contract : Contract) where
  -- The project of the run is in the scope, configured, and bound to a repository unless the call sets
  -- one up; a run without a project is of a listing call.
  abbrev pub ServesProject : Arguments → Run → Type 0
  ServesProject arguments run =
      ((run.project ≡ none) × (run.all_projects ≡ true))
      ⊎ ((p : Text) × (run.project ≡ some p)
          × (allows scope (str p) ≡ true)
          × (services.require_configured p ≡ none)
          × ((is_setup_exempt contract arguments ≡ true) ⊎ (services.require_repo_ready p ≡ none)))

  valid-run :
      (run run' : Run) → run_if_valid services scope role contract run ≡ ok run' → run ≡ run'
  valid-run run run' h = elim (Bool-cases (services.accepts_arguments contract run.arguments)) [
    | inl accepted ↦
        let h' : ◌≡◌ {A = Result DispatchError Run} (ok run) (ok run') = rw accepted at h in cc
    | inr refused' ↦ absurd (
        let h' : ◌≡◌ {A = Result DispatchError Run} (err DispatchError.invalid_arguments)
            (ok run') =
          rw refused' at h in
        cc)
  ]

  ready-run :
      (run run' : Run) (o : Option MountError)
      → check_ready services scope role contract run o ≡ ok run'
      → (o ≡ none) × (run ≡ run')
  ready-run run run' none h = (refl, valid-run run run' h)
  ready-run run run' (some e) h = absurd (cc)

  mounted-run :
      (arguments : Arguments) (run run' : Run) (p : Text) (o : Option MountError)
      → check_mount services scope role contract arguments run p o ≡ ok run'
      → (o ≡ none)
        × ((is_setup_exempt contract arguments ≡ true) ⊎ (services.require_repo_ready p ≡ none))
        × (run ≡ run')
  mounted-run arguments run run' p (some e) h = absurd (cc)
  mounted-run arguments run run' p none h = elim (Bool-cases (is_setup_exempt contract arguments)) [
    | inl exempt ↦ (refl, inl exempt, valid-run run run' (rw exempt at h))
    | inr bound ↦
        let (ready, same) = ready-run run run' (services.require_repo_ready p) (rw bound at h) in
        (refl, inr ready, same)
  ]

  selected-run :
      (call : ToolCall) (arguments : Arguments) (run : Run) (selection : Selection)
      → selection
        ≡ resolve scope
            (project_value call.project)
            (is_listing services scope role contract arguments)
      → run_selected services scope role contract call arguments selection ≡ ok run
      → ServesProject arguments run
  selected-run call arguments run (refused refusal) e h = absurd (cc)
  selected-run call arguments run all_scopes e h =
      let same = valid-run _ run h in
      inl (ap (λ r. r.project) (sym same), ap (λ r. r.all_projects) (sym same))
  selected-run call arguments run (selected p source) e h =
      let (configured, ready, same) = mounted-run arguments _ run p _ h in
      inr (
        p,
        ap (λ r. r.project) (sym same),
        resolve-allows scope (project_value call.project) _ p source (sym e),
        configured,
        ready,
      )

  normalized-run :
      (call : ToolCall) (run : Run) (r : Result DispatchError Arguments)
      → run_normalized services scope role contract call r ≡ ok run
      → (arguments : Arguments) × (r ≡ ok arguments)
        × MayRun role (call_writes contract arguments) call.force
        × ServesProject arguments run
  normalized-run call run (err e) h = absurd (cc)
  normalized-run call run (ok arguments) h =
      elim (Bool-cases (role_allows role (call_writes contract arguments) call.force)) [
        | inr denied ↦ absurd (
            let h' : ◌≡◌ {A = Result DispatchError Run} (err DispatchError.role_denied) (ok run) =
              rw denied at h in
            cc)
        | inl allowed ↦ elim (Bool-cases (is_project_argument call.project)) [
          | inr wrong ↦ absurd (
              let h' : ◌≡◌ {A = Result DispatchError Run} (err DispatchError.invalid_project)
                  (ok run) =
                rw (allowed, wrong) at h in
              cc)
          | inl good ↦ (
            arguments,
            refl,
            role_allows-MayRun role _ call.force allowed,
            selected-run call arguments run _ refl (rw (allowed, good) at h),
          )
        ]
      ]

  -- A call is run only with a role that may write where its action writes and that is an owner's where it
  -- forces; and only for a project that the caller's scope allows, that the mounts know and, unless the
  -- call sets it up, that is bound to a repository, or for all projects at once.
  pub call_tool-run :
      (call : ToolCall) (run : Run)
      → call_tool services scope role contract call ≡ ok run
      → (arguments : Arguments) × (normalize_tool_arguments call.rest ≡ ok arguments)
        × MayRun role (call_writes contract arguments) call.force
        × ServesProject arguments run
  unfolding call_tool
  call_tool-run call run h = elim (Bool-cases (is_supported_version call.schema_version)) [
    | inr old ↦ absurd (
        let h' : ◌≡◌ {A = Result DispatchError Run} (err DispatchError.unsupported_schema_version)
            (ok run) =
          rw old at h in
        cc)
    | inl version ↦ elim (Bool-cases (is_request_id call.request_id)) [
      | inr wrong ↦ absurd (
          let h' : ◌≡◌ {A = Result DispatchError Run} (err DispatchError.invalid_request_id)
              (ok run) =
            rw (version, wrong) at h in
          cc)
      | inl id ↦
          elim (Bool-cases (
            not services.allow_declared_worktree
            && is_some (argument_of call.rest (text "declaredWorktree")))) [
              | inl routed ↦ absurd (
                  let h' : ◌≡◌ {A = Result DispatchError Run}
                      (err DispatchError.worktree_routing_unsupported) (ok run) =
                    rw (version, id, routed) at h in
                  cc)
              | inr plain ↦ normalized-run call run _ (rw (version, id, plain) at h)
            ]
    ]
  ]
