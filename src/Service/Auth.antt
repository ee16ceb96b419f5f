-- ===== src/Service/Auth.antt =====
-- src/service/auth.js (who a request is, and what it may touch) and src/service/tenants.js. A user
-- and the tables of groups are what the identity provider and the configuration answer.
pub mod Authority
pub mod Providers
pub mod Tests
use omp_spec_kit.Prelude.{
  ℕ, ◌≤◌, Text, text_beq, text_eq, Bool, true, false, not, ◌&&◌, ◌||◌, includes, dedup, any, filter,
  find, length, nat_beq, Option, none, some, List, [], ◌∷◌, ◌++◌, map, Result, ok, err, ◌>>=◌,
  if◌then◌else◌,
}

pub record Tenant : Type 0 where
  pub tenant : Text
  pub projects : List Text
  pub hub_groups : List Text
  pub default_project : Option Text

pub data Role : Type 0 where
  reader writer owner : Role

pub record RoleGroups : Type 0 where
  pub owner : List Text
  pub writer : List Text
  pub reader : List Text

pub record User : Type 0 where
  pub login : Text
  pub banned : Bool
  pub groups : List Text

-- An identity provider: the default one, or an external one bound to one tenant.
pub record Idp : Type 0 where
  pub is_default : Bool
  pub tenant : Text
  pub hub_groups : List Text
  pub role_groups : RoleGroups
  pub projects : List Text
  pub default_project : Option Text
  pub bridge_token_hash : Text

pub data AuthError : Type 0 where
  banned no_scopes no_role : AuthError

pub record AuthContext : Type 0 where
  pub tenant : List Text
  pub scopes : List Text
  pub default_scope : Option Text
  pub login : Text
  pub role : Role
  pub idp : Option Text

-- `groups.some((group) => listed.includes(group))`
abbrev pub shares : List Text → List Text → Bool
shares groups listed = any (includes listed) groups

unfoldable pub role_for : List Text → RoleGroups → Option Role
role_for groups mapping =
    if shares groups mapping.owner
    then some owner
    else if shares groups mapping.writer
    then some writer
    else if shares groups mapping.reader
    then some reader
    else none

abbrev pub head_or : Option Text → List Text → Option Text
head_or (some p) projects = some p
head_or none [] = none
head_or none (p ∷ ps) = some p

abbrev pub require_role : Option Role → Result AuthError Role
require_role none = err no_role
require_role (some role) = ok role

unfoldable pub matched_tenants : List Text → List Tenant → List Tenant
matched_tenants groups tenants = filter (λ t. shares groups t.hub_groups) tenants

unfoldable pub flat_projects : List Tenant → List Text
flat_projects [] = []
flat_projects (t ∷ ts) = t.projects ++ flat_projects ts

abbrev pub sole_default : List Tenant → Option Text
sole_default (t ∷ []) = t.default_project
sole_default _ = none

unfoldable pub external_context : User → Idp → Result AuthError AuthContext
external_context user idp = if not (shares user.groups idp.hub_groups) then err no_scopes else do
  role ← require_role (role_for user.groups idp.role_groups)
  ok (record {
    tenant = idp.tenant ∷ [];
    scopes = idp.projects;
    default_scope = head_or idp.default_project idp.projects;
    login = user.login;
    role = role;
    idp = some idp.tenant;
  })

abbrev pub tenant_context : User → List Tenant → RoleGroups → Result AuthError AuthContext
tenant_context user [] role_groups = err no_scopes
tenant_context user (t ∷ ts) role_groups = do
  role ← require_role (role_for user.groups role_groups)
  ok (record {
    tenant = map (λ m. m.tenant) (t ∷ ts);
    scopes = dedup (flat_projects (t ∷ ts));
    default_scope = sole_default (t ∷ ts);
    login = user.login;
    role = role;
    idp = none;
  })

unfoldable pub resolve_context :
    List Tenant → RoleGroups → User → Idp → Result AuthError AuthContext
resolve_context tenants role_groups user idp =
    if user.banned
    then err banned
    else if not idp.is_default
    then external_context user idp
    else tenant_context user (matched_tenants user.groups tenants) role_groups

-- `resolveTenantScopes` of tenants.js
pub record TenantScopes : Type 0 where
  pub matched : List Text
  pub scopes : List Text
  pub default_scope : Option Text

unfoldable pub resolve_tenant_scopes : List Text → List Tenant → TenantScopes
resolve_tenant_scopes groups tenants =
    let matched = matched_tenants groups tenants in
    record {
      matched = map (λ t. t.tenant) matched;
      scopes = dedup (flat_projects matched);
      default_scope = sole_default matched;
    }

-- The candidates in the order in which a direct token is tried: a hint only moves its tenant's
-- provider to the front.
unfoldable pub order_candidates : Option Text → List Idp → List Idp
order_candidates none candidates = candidates
order_candidates (some hint) candidates =
    filter (λ idp. text_beq idp.tenant hint) candidates
    ++ filter (λ idp. not (text_beq idp.tenant hint)) candidates

-- What one provider says of a token: a login, a rejection, or no answer (503).
pub data Verdict : Type 0 where
  identity : Text → Verdict
  rejected unreachable : Verdict

pub data DirectResult : Type 0 where
  verified : Text → Idp → DirectResult
  unavailable invalid_token : DirectResult

abbrev pub give_up : Bool → DirectResult
give_up true = unavailable
give_up false = invalid_token

-- The loop over the candidates; `dead` says whether one was unreachable so far.
unfoldable pub verify_direct : (Idp → Verdict) → Bool → List Idp → DirectResult
verify_direct verify dead [] = give_up dead
verify_direct verify dead (idp ∷ idps) =
    let next = verify_direct verify dead idps in
    let next_dead = verify_direct verify true idps in
    elim (verify idp) [
      | identity login ↦ verified login idp
      | rejected ↦ next
      | unreachable ↦ next_dead
    ]

pub data RequestKind : Type 0 where
  anonymous : RequestKind
  direct : Text → RequestKind
  bridge : Idp → Option Text → RequestKind

abbrev pub nonempty_login : Option Text → Option Text
nonempty_login (some (c ∷ cs)) = some (c ∷ cs)
nonempty_login _ = none

-- `classifyRequest`; `hash` is SHA-256, and `token` what `bearerToken` finds in the header.
unfoldable pub classify_request : (Text → Text) → Option Text → Option Text → List Idp → RequestKind
classify_request hash none asserted idps = anonymous
classify_request hash (some token) asserted idps =
    elim (find (λ idp. text_beq (hash token) idp.bridge_token_hash) idps) [
      | none ↦ direct token
      | some idp ↦ bridge idp (nonempty_login asserted)
    ]
