-- ===== src/Service/Scope/Isolation.antt =====
-- No request selects a project outside the projects of its caller.
use omp_spec_kit.Prelude.{
  Text, text_beq, text_eq, Bool, true, false, ◌&&◌, ◌||◌, includes, add_unique, includes-add_unique,
  includes-filter, filter, ◌≡◌, ◌≢◌, refl, Option, some, List, [], ◌∷◌, map, ok, arith, sym, ap,
  ◌∙◌, ||-assoc, &&-left, &&-right, >>=-eq-ok, Option-cases, inl, inr,
}
use omp_spec_kit.Service.Scope.{
  Value, str, SessionSource, RequestScope, RequestContext, collect_projects, session_of, new_scope,
  allows, selected, Source, resolve, nonblank, restrict, scope_list, scope_from_context,
  without_project,
}

-- The value is the string.
abbrev pub is_str : Text → Value → Bool
is_str p (str t) = text_beq t p
is_str p _ = false

-- The caller's list names the project.
abbrev pub names : List Value → Text → Bool
names [] p = false
names (v ∷ vs) p = is_str p v || names vs p

without_project-ne-selected :
    (projects : List Text) (listing : Bool) (p : Text) (source : Source)
    → without_project projects listing ≢ selected p source
without_project-ne-selected projects true p source h = cc
without_project-ne-selected [] false p source h = cc
without_project-ne-selected (q ∷ []) false p source h = cc
without_project-ne-selected (q ∷ q' ∷ qs) false p source h = cc

collect_projects-includes :
    (unique : List Text) (given : List Value) (projects : List Text) (p : Text)
    → collect_projects unique given ≡ ok projects
    → includes projects p ≡ (includes unique p || names given p)
unfolding collect_projects
collect_projects-includes unique [] projects p h = ground arith
collect_projects-includes unique (str (c ∷ cs) ∷ rest) projects p h =
    collect_projects-includes (add_unique unique (c ∷ cs)) rest projects p h
    ∙ ap (λ b. b || names rest p) (includes-add_unique unique (c ∷ cs) p)
    ∙ ||-assoc (includes unique p) (text_beq (c ∷ cs) p) (names rest p)
collect_projects-includes unique (_ ∷ rest) projects p h = absurd (cc)

-- A scope that was built has exactly the projects that were given.
new_scope-includes :
    (given : List Value) (session : Value) (source : Option SessionSource) (s : RequestScope)
    (p : Text)
    → new_scope (some given) session source ≡ ok s
    → includes s.projects p ≡ names given p
unfolding new_scope includes
new_scope-includes given session source s p h =
    let (projects, e, k) = >>=-eq-ok (collect_projects [] given) _ h in
    let (found, _, same) = >>=-eq-ok (session_of session) _ k in
    let q : projects ≡ s.projects = ground arith in
    rw (← q) (collect_projects-includes [] given projects p e)

names-map : (ps : List Text) (p : Text) → names (map str ps) p ≡ includes ps p
unfolding includes
names-map [] p = refl
names-map (q ∷ ps) p = ap (λ b. text_beq q p || b) (names-map ps p)

-- A project that is selected is one of the scope's, wherever the selection comes from.
pub resolve-allows :
    (s : RequestScope) (explicit : Value) (listing : Bool) (p : Text) (source : Source)
    → resolve s explicit listing ≡ selected p source
    → allows s (str p) ≡ true
unfolding resolve
resolve-allows s explicit listing p source h = elim (Option-cases (nonblank explicit)) [
  | inl blank ↦ elim (Option-cases s.session_project) [
    | inl nothing ↦ absurd (without_project-ne-selected s.projects listing p source (ground arith))
    | inr (q, e) ↦ ground arith
  ]
  | inr (q, e) ↦ ground arith
]

-- A restricted scope allows exactly the scope's projects that the restriction keeps.
restrict-allows :
    (s r : RequestScope) (keep : List Text) (p : Text)
    → restrict s keep ≡ ok r
    → allows r (str p) ≡ (allows s (str p) && includes keep p)
unfolding restrict allows
restrict-allows s r keep p h =
    new_scope-includes (map str (filter (includes keep) s.projects)) _ _ r p h
    ∙ names-map (filter (includes keep) s.projects) p
    ∙ includes-filter (includes keep) s.projects p

-- Whatever a request asks for, the project that it is served is one that authentication put in its
-- caller's scopes, also after the scope was restricted, and then one that the restriction keeps.
pub resolve-of-context :
    (ctx : RequestContext) (s r : RequestScope) (keep : List Text) (explicit : Value)
    (listing : Bool) (p : Text) (source : Source)
    → scope_from_context ctx ≡ ok s
    → restrict s keep ≡ ok r
    → resolve r explicit listing ≡ selected p source
    → (names (scope_list ctx.scopes) p ≡ true) × (includes keep p ≡ true)
unfolding scope_from_context allows
resolve-of-context ctx s r keep explicit listing p source built narrowed h =
    let both =
      sym (restrict-allows s r keep p narrowed) ∙ resolve-allows r explicit listing p source h in
    let known = new_scope-includes (scope_list ctx.scopes) _ _ s p built in
    (sym known ∙ &&-left _ _ both, &&-right _ _ both)
