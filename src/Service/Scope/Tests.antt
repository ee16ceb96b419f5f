-- ===== src/Service/Scope/Tests.antt =====
-- The isolation theorems at a caller with two projects.
use omp_spec_kit.Prelude.{
  Text, text, text_beq, text_eq, true, false, ◌≡◌, refl, none, some, [], ◌∷◌, includes, ok, trim,
  trim_start, is_space,
}
use omp_spec_kit.Service.Scope.{
  null, str, RequestScope, RequestContext, Source, collect_projects, session_of, new_scope, allows,
  selected, resolve, nonblank, restrict, scope_list, scope_from_context,
}
use omp_spec_kit.Service.Scope.Isolation.{names, resolve-of-context}

abbrev one : Text
one = text "acme/one"

abbrev two : Text
two = text "acme/two"

abbrev caller : RequestContext
caller = record { scopes = some (str one ∷ str two ∷ []); project = null; default_scope = null }

abbrev full : RequestScope
full = record { projects = one ∷ two ∷ []; session_project = none; session_source = none }

abbrev narrow : RequestScope
narrow = record { projects = one ∷ []; session_project = none; session_source = none }

full_of_caller : scope_from_context caller ≡ ok full
unfolding scope_from_context new_scope collect_projects session_of nonblank includes text_beq
full_of_caller = refl

narrow_of_full : restrict full (one ∷ []) ≡ ok narrow
unfolding restrict new_scope collect_projects session_of nonblank includes text_beq
narrow_of_full = refl

one_selected : resolve narrow (str one) false ≡ selected one Source.explicit
unfolding resolve nonblank allows includes text_beq trim trim_start is_space
one_selected = refl

resolve-of-context_example :
    (names (scope_list caller.scopes) one ≡ true) × (includes (one ∷ []) one ≡ true)
resolve-of-context_example =
    resolve-of-context caller full narrow (one ∷ []) (str one) false one Source.explicit
      full_of_caller narrow_of_full one_selected
