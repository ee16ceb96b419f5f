-- ===== src/Service/Auth/Tests.antt =====
-- The theorems on authority at a tenant with one group, and at two providers.
use omp_spec_kit.Prelude.{
  text, text_beq, text_eq, true, false, ◌≡◌, refl, none, some, [], ◌∷◌, includes, dedup, dedup_from,
  All, ok, if◌then◌else◌,
}
use omp_spec_kit.Service.Auth.{
  Tenant, Role, RoleGroups, User, Idp, AuthContext, shares, role_for, matched_tenants,
  flat_projects, resolve_context, order_candidates, Verdict, DirectResult, verify_direct,
}
use omp_spec_kit.Service.Auth.Authority.{
  grants, HasDefault, IsConfigured, resolve_context-scopes, resolve_context-HasDefault,
}

abbrev acme : Tenant
acme = record {
  tenant = text "acme";
  projects = text "acme/one" ∷ [];
  hub_groups = text "dev" ∷ [];
  default_project = some (text "acme/one");
}

abbrev role_groups : RoleGroups
role_groups = record { owner = []; writer = text "dev" ∷ []; reader = [] }

abbrev ann : User
ann = record { login = text "ann"; banned = false; groups = text "dev" ∷ [] }

abbrev default_idp : Idp
default_idp = record {
  is_default = true;
  tenant = text "default";
  hub_groups = [];
  role_groups = role_groups;
  projects = [];
  default_project = none;
  bridge_token_hash = text "h";
}

abbrev context : AuthContext
context = record {
  tenant = text "acme" ∷ [];
  scopes = text "acme/one" ∷ [];
  default_scope = some (text "acme/one");
  login = text "ann";
  role = Role.writer;
  idp = none;
}

context_of_ann : resolve_context (acme ∷ []) role_groups ann default_idp ≡ ok context
unfolding resolve_context matched_tenants flat_projects role_for dedup dedup_from includes text_beq
context_of_ann = refl

resolve_context-scopes_example :
    (includes context.scopes (text "acme/one") ≡ grants ann.groups (text "acme/one") (acme ∷ []))
    × (role_for ann.groups role_groups ≡ some context.role)
    × (ann.banned ≡ false)
resolve_context-scopes_example =
    resolve_context-scopes (acme ∷ []) role_groups ann default_idp context (text "acme/one") refl
      context_of_ann

IsConfigured-acme : All IsConfigured (acme ∷ [])
unfolding includes text_beq
IsConfigured-acme = (refl, tt)

resolve_context-HasDefault_example : HasDefault context.default_scope context.scopes
resolve_context-HasDefault_example =
    resolve_context-HasDefault (acme ∷ []) role_groups ann default_idp context IsConfigured-acme tt
      context_of_ann

abbrev verdict : Idp → Verdict
verdict idp = if idp.is_default then Verdict.rejected else Verdict.identity (text "ann")

abbrev bound_idp : Idp
bound_idp = record default_idp { is_default = false; tenant = text "acme" }

writers :
    All
      (λ (idp : Idp). shares (text "dev" ∷ []) idp.role_groups.writer ≡ true)
      (default_idp ∷ bound_idp ∷ [])
unfolding includes text_beq
writers = (refl, (refl, tt))

verified_hinted :
    verify_direct verdict false
      (order_candidates (some (text "acme")) (default_idp ∷ bound_idp ∷ []))
    ≡ DirectResult.verified (text "ann") bound_idp
unfolding verify_direct order_candidates text_beq
verified_hinted = refl
