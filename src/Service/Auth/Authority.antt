-- ===== src/Service/Auth/Authority.antt =====
-- What a verified context may touch, and with which role.
use omp_spec_kit.Prelude.{
  Text, text_beq_refl, text_eq, append-nil, All, Bool, true, false, ◌&&◌, ◌||◌, includes,
  includes-append, includes-dedup, dedup, ◌≡◌, ◌↔◌, refl, ◌∙◌, ap, Option, none, some, List, [],
  ◌∷◌, ◌++◌, ok, arith, Bool-cases, Option-cases, inl, inr,
}
use omp_spec_kit.Service.Auth.{
  Tenant, writer, owner, RoleGroups, User, Idp, AuthContext, shares, head_or, role_for,
  matched_tenants, flat_projects, sole_default, external_context, tenant_context, resolve_context,
}

-- Some tenant of the user's groups owns the project.
abbrev pub grants : List Text → Text → List Tenant → Bool
grants groups project [] = false
grants groups project (t ∷ ts) =
    (shares groups t.hub_groups && includes t.projects project) || grants groups project ts

includes-flat_projects :
    (groups : List Text) (p : Text) (ts : List Tenant)
    → includes (flat_projects (matched_tenants groups ts)) p ≡ grants groups p ts
unfolding flat_projects matched_tenants
includes-flat_projects groups p [] = unfold includes in refl
includes-flat_projects groups p (t ∷ ts) = elim (Bool-cases (shares groups t.hub_groups)) [
  | inl yes' ↦ rw yes' (
      includes-append t.projects (flat_projects (matched_tenants groups ts)) p
      ∙ ap (λ b. includes t.projects p || b) (includes-flat_projects groups p ts))
  | inr no' ↦ rw no' (includes-flat_projects groups p ts)
]

tenant_context-scopes :
    (user : User) (ts : List Tenant) (rg : RoleGroups) (ctx : AuthContext)
    → tenant_context user ts rg ≡ ok ctx
    → (ctx.scopes ≡ dedup (flat_projects ts)) × (role_for user.groups rg ≡ some ctx.role)
tenant_context-scopes user [] rg ctx h = absurd (cc)
tenant_context-scopes user (t ∷ ts) rg ctx h = elim (Option-cases (role_for user.groups rg)) [
  | inl nothing ↦ absurd (ground arith)
  | inr (role, e) ↦ (ground arith, ground arith)
]

-- A context of the default provider has exactly the projects of the tenants that list a group of the
-- user, and the role of the user's groups; a banned user has no context.
pub resolve_context-scopes :
    (tenants : List Tenant) (rg : RoleGroups) (user : User) (idp : Idp) (ctx : AuthContext)
    (p : Text)
    → idp.is_default ≡ true
    → resolve_context tenants rg user idp ≡ ok ctx
    → (includes ctx.scopes p ≡ grants user.groups p tenants)
      × (role_for user.groups rg ≡ some ctx.role)
      × (user.banned ≡ false)
unfolding resolve_context
resolve_context-scopes tenants rg user idp ctx p default h =
    let free : user.banned ≡ false = ground arith in
    let inner : tenant_context user (matched_tenants user.groups tenants) rg ≡ ok ctx =
      ground arith in
    let (scopes, role) =
      tenant_context-scopes user (matched_tenants user.groups tenants) rg ctx inner in
    (
      rw scopes (
          includes-dedup (flat_projects (matched_tenants user.groups tenants)) p
          ∙ includes-flat_projects user.groups p tenants),
      role,
      free,
    )

-- The default, if there is one, is listed.
abbrev pub HasDefault : Option Text → List Text → Type 0
HasDefault none projects = Unit
HasDefault (some p) projects = includes projects p ≡ true

-- What `parseTenants` and the binding of a provider make sure of.
abbrev pub IsConfigured : Tenant → Type 0
IsConfigured t = HasDefault t.default_project t.projects

HasDefault-head_or :
    (default_project : Option Text) (projects : List Text)
    → HasDefault default_project projects
    → HasDefault (head_or default_project projects) projects
unfolding includes
HasDefault-head_or (some p) projects h = h
HasDefault-head_or none [] h = tt
HasDefault-head_or none (p ∷ ps) h = ground (arith, text_beq_refl p)

HasDefault-same :
    (d : Option Text) (projects : List Text)
    → HasDefault d projects
    → HasDefault d (dedup (projects ++ []))
HasDefault-same none projects h = tt
HasDefault-same (some p) projects h = includes-dedup (projects ++ []) p ∙ rw append-nil h

HasDefault-sole_default :
    (ts : List Tenant)
    → All IsConfigured ts
    → HasDefault (sole_default ts) (dedup (flat_projects ts))
unfolding flat_projects
HasDefault-sole_default [] h = tt
HasDefault-sole_default (t ∷ []) (h, _) = HasDefault-same t.default_project t.projects h
HasDefault-sole_default (t ∷ u ∷ ts) h = tt

All-matched :
    (groups : List Text) (ts : List Tenant)
    → All IsConfigured ts
    → All IsConfigured (matched_tenants groups ts)
unfolding matched_tenants
All-matched groups [] h = tt
All-matched groups (t ∷ ts) (h, hs) = elim (Bool-cases (shares groups t.hub_groups)) [
  | inl kept ↦ rw kept (h, All-matched groups ts hs)
  | inr gone ↦ rw gone (All-matched groups ts hs)
]

tenant_context-HasDefault :
    (user : User) (ts : List Tenant) (rg : RoleGroups) (ctx : AuthContext)
    → All IsConfigured ts
    → tenant_context user ts rg ≡ ok ctx
    → HasDefault ctx.default_scope ctx.scopes
tenant_context-HasDefault user [] rg ctx ok' h = absurd (cc)
tenant_context-HasDefault user (t ∷ ts) rg ctx ok' h =
    elim (Option-cases (role_for user.groups rg)) [
      | inl nothing ↦ absurd (ground arith)
      | inr (role, e) ↦
          let scopes : ctx.scopes ≡ dedup (flat_projects (t ∷ ts)) = ground arith in
          let default : ctx.default_scope ≡ sole_default (t ∷ ts) = ground arith in
          rw (scopes, default) (HasDefault-sole_default (t ∷ ts) ok')
    ]

external_context-HasDefault :
    (user : User) (idp : Idp) (ctx : AuthContext)
    → HasDefault idp.default_project idp.projects
    → external_context user idp ≡ ok ctx
    → HasDefault ctx.default_scope ctx.scopes
unfolding external_context
external_context-HasDefault user idp ctx hi h =
    elim (Option-cases (role_for user.groups idp.role_groups)) [
      | inl nothing ↦ absurd (ground arith)
      | inr (role, e) ↦
          let scopes : ctx.scopes ≡ idp.projects = ground arith in
          let default : ctx.default_scope ≡ head_or idp.default_project idp.projects =
            ground arith in
          rw (scopes, default) (HasDefault-head_or idp.default_project idp.projects hi)
    ]

-- The default scope of a context is one of its scopes, for every provider, if the configuration
-- keeps each default project among the projects of its tenant or binding.
pub resolve_context-HasDefault :
    (tenants : List Tenant) (rg : RoleGroups) (user : User) (idp : Idp) (ctx : AuthContext)
    → All IsConfigured tenants
    → HasDefault idp.default_project idp.projects
    → resolve_context tenants rg user idp ≡ ok ctx
    → HasDefault ctx.default_scope ctx.scopes
unfolding resolve_context
resolve_context-HasDefault tenants rg user idp ctx ht hi h = elim (Bool-cases idp.is_default) [
  | inl default ↦
      tenant_context-HasDefault user (matched_tenants user.groups tenants) rg ctx
        (All-matched user.groups tenants ht) (ground arith)
  | inr external ↦ external_context-HasDefault user idp ctx hi (ground arith)
]

-- The role is the highest one that a group of the user gives.
role_for_iff :
    (groups : List Text) (m : RoleGroups)
    → ((role_for groups m ≡ some owner) ↔ (shares groups m.owner ≡ true))
      × ((role_for groups m ≡ some writer)
          ↔ ((shares groups m.owner ≡ false) × (shares groups m.writer ≡ true)))
      × ((role_for groups m ≡ none) ↔ (
          (shares groups m.owner ≡ false)
          × (shares groups m.writer ≡ false)
          × (shares groups m.reader ≡ false)))
unfolding role_for
role_for_iff groups m = elim (Bool-cases (shares groups m.owner)) [
  | inl o ↦ rw o (
    ((λ h. refl), (λ h. refl)),
    ((λ h. absurd (cc)), (λ h. absurd (cc (h.0)))),
    ((λ h. absurd (cc)), (λ h. absurd (cc (h.0)))),
  )
  | inr o ↦ elim (Bool-cases (shares groups m.writer)) [
    | inl w ↦
        rw (o, w)
          (
            ((λ h. absurd (cc)), (λ h. absurd (cc))),
            ((λ h. (refl, refl)), (λ h. refl)),
            ((λ h. absurd (cc)), (λ h. absurd (cc (h.1)))),
          )
    | inr w ↦ elim (Bool-cases (shares groups m.reader)) [
      | inl r ↦
          rw (o, w, r)
            (
              ((λ h. absurd (cc)), (λ h. absurd (cc))),
              ((λ h. absurd (cc)), (λ h. absurd (cc (h.1)))),
              ((λ h. absurd (cc)), (λ h. absurd (cc (h.2)))),
            )
      | inr r ↦
          rw (o, w, r)
            (
              ((λ h. absurd (cc)), (λ h. absurd (cc))),
              ((λ h. absurd (cc)), (λ h. absurd (cc (h.1)))),
              ((λ h. (refl, refl, refl)), (λ h. refl)),
            )
    ]
  ]
]
