-- ===== src/Service/Scope.antt =====
-- src/service/scope.js: the projects that a request may touch, and the one that it targets.
pub mod Isolation
pub mod Tests
use omp_spec_kit.Prelude.{
  Text, trim, Bool, true, false, ◌&&◌, includes, add_unique, text_eq, filter, Option, none, some,
  List, [], ◌∷◌, ◌++◌, map, Result, ok, err, ◌>>=◌, if◌then◌else◌,
}

-- A value of the caller's where the code expects a string; `null` stands for undefined too.
-- Any other value has the text that it has as a property key.
pub data Value : Type 0 where
  null : Value
  other : Text → Value
  str : Text → Value

pub data ScopeError : Type 0 where
  projects_missing project_invalid session_invalid scope_missing : ScopeError

pub data SessionSource : Type 0 where
  request_context default_scope : SessionSource

pub record RequestScope : Type 0 where
  pub projects : List Text
  pub session_project : Option Text
  pub session_source : Option SessionSource

-- The loop of the constructor over the caller's projects.
unfoldable pub collect_projects : List Text → List Value → Result ScopeError (List Text)
collect_projects unique [] = ok unique
collect_projects unique (str (c ∷ cs) ∷ rest) = collect_projects (add_unique unique (c ∷ cs)) rest
collect_projects unique (_ ∷ rest) = err project_invalid

unfoldable pub session_of : Value → Result ScopeError (Option Text)
session_of null = ok none
session_of (str (c ∷ cs)) = ok (some (c ∷ cs))
session_of _ = err session_invalid

abbrev pub source_of : Option Text → Option SessionSource → Option SessionSource
source_of none source = none
source_of (some p) none = some request_context
source_of (some p) (some source) = some source

-- `new RequestScope`; projects that are no array are `none`.
unfoldable pub new_scope :
    Option (List Value) → Value → Option SessionSource → Result ScopeError RequestScope
new_scope none session source = err projects_missing
new_scope (some given) session source = do
  unique ← collect_projects [] given
  project ← session_of session
  ok (record {
    projects = unique;
    session_project = project;
    session_source = source_of project source;
  })

unfoldable pub allows : RequestScope → Value → Bool
allows s (str project) = includes s.projects project
allows s _ = false

pub data Refusal : Type 0 where
  project_not_allowed : Text → Refusal
  project_selection_required project_required : Refusal

pub data Source : Type 0 where
  explicit : Source
  session : Option SessionSource → Source

pub data Selection : Type 0 where
  selected : Text → Source → Selection
  all_scopes : Selection
  refused : Refusal → Selection

abbrev pub nonempty : Text → Option Text
nonempty [] = none
nonempty (c ∷ cs) = some (c ∷ cs)

-- A string that is not blank, trimmed.
unfoldable pub nonblank : Value → Option Text
nonblank (str t) = nonempty (trim t)
nonblank _ = none

abbrev pub select : RequestScope → Text → Source → Selection
select s project source =
    if allows s (str project)
    then selected project source
    else refused (project_not_allowed project)

abbrev pub without_project : List Text → Bool → Selection
without_project projects true = all_scopes
without_project (p ∷ q ∷ rest) false = refused project_selection_required
without_project projects false = refused project_required

unfoldable pub resolve : RequestScope → Value → Bool → Selection
resolve s explicit_project listing = elim (nonblank explicit_project) [
  | some project ↦ select s project explicit
  | none ↦ elim s.session_project [
    | some project ↦ select s project (session s.session_source)
    | none ↦ without_project s.projects listing
  ]
]

unfoldable pub with_session_project :
    RequestScope → Value → Option SessionSource → Result ScopeError RequestScope
with_session_project s project source = new_scope (some (map str s.projects)) project source

-- The session project, if the restriction keeps it.
abbrev pub kept_session : List Text → Option Text → Value
kept_session keep none = null
kept_session keep (some p) = if includes keep p then str p else null

unfoldable pub restrict : RequestScope → List Text → Result ScopeError RequestScope
restrict s keep =
    new_scope (some (map str (filter (includes keep) s.projects)))
      (kept_session keep s.session_project) s.session_source

-- What authentication hands over.
pub record RequestContext : Type 0 where
  pub scopes : Option (List Value)
  pub project : Value
  pub default_scope : Value

abbrev pub scope_list : Option (List Value) → List Value
scope_list none = []
scope_list (some scopes) = scopes

abbrev pub session_value : Option Text → Option Text → Value
session_value (some requested) fallback = str requested
session_value none (some fallback) = str fallback
session_value none none = null

abbrev pub session_source_of : Option Text → Option Text → Option SessionSource
session_source_of (some requested) fallback = some request_context
session_source_of none (some fallback) = some default_scope
session_source_of none none = none

unfoldable pub scope_from_context : RequestContext → Result ScopeError RequestScope
scope_from_context ctx =
    let requested = nonblank ctx.project in
    let fallback = nonblank ctx.default_scope in
    new_scope (some (scope_list ctx.scopes)) (session_value requested fallback)
      (session_source_of requested fallback)

-- A scope, or anything else that a caller threads through.
unfoldable pub require_scope : Option RequestScope → Result ScopeError RequestScope
require_scope (some s) = ok s
require_scope none = err scope_missing
