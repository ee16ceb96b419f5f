-- ===== src/Kernel/Identity/Grammar.antt =====
-- What the identity grammars exclude: a colon occurs in no slug and in no authored local ID.
use omp_spec_kit.Prelude.{
  not, Text, Free, strip_prefix, strip_prefix-eq-some, text_beq_iff, Bool, true, ◌≡◌, ◌≢◌, List, [],
  ◌∷◌, all, All-append, arith, Option-cases, Bool-cases, inl, inr, is_some,
}
use omp_spec_kit.Kernel.Identity.{
  is_digit, is_lower_alnum, kebab_from, is_valid_spec_slug, is_positive, dotted_tail, is_dotted,
  nfr_tail, is_nfr, LocalIdRole, user_story, non_functional_requirement, acceptance_criterion,
  scenario, roadmap, local_id_roles, local_id_role, role_prefix, role_suffix, matches_role,
  first_role, is_valid_local_id,
}

kebab_from-Free : (need : Bool) (t : Text) → kebab_from need t ≡ true → Free b':' t
unfolding kebab_from
kebab_from-Free need [] h = tt
kebab_from-Free need (c ∷ cs) h =
    ((λ e. ground arith), kebab_from-Free (not (is_lower_alnum c)) cs (ground arith))

pub is_valid_spec_slug-Free : (slug : Text) → is_valid_spec_slug slug ≡ true → Free b':' slug
unfolding is_valid_spec_slug
is_valid_spec_slug-Free slug h = kebab_from-Free true slug h

pub is_valid_spec_slug-ne-nil : (slug : Text) → is_valid_spec_slug slug ≡ true → slug ≢ []
unfolding is_valid_spec_slug kebab_from
is_valid_spec_slug-ne-nil [] h = cc
is_valid_spec_slug-ne-nil (c ∷ cs) h = cc

digits-Free : (t : Text) → all is_digit t ≡ true → Free b':' t
digits-Free [] h = tt
digits-Free (c ∷ cs) h = ((λ e. ground arith), digits-Free cs (ground arith))

is_positive-Free : (t : Text) → is_positive t ≡ true → Free b':' t
unfolding is_positive
is_positive-Free [] h = tt
is_positive-Free (c ∷ cs) h = ((λ e. ground arith), digits-Free cs (ground arith))

dotted_tail-Free : (t : Text) → dotted_tail t ≡ true → Free b':' t
unfolding dotted_tail
dotted_tail-Free [] h = tt
dotted_tail-Free (c ∷ cs) h =
    ((λ e. ground arith), ground (arith, dotted_tail-Free cs, is_positive-Free cs))

is_dotted-Free : (t : Text) → is_dotted t ≡ true → Free b':' t
unfolding is_dotted
is_dotted-Free [] h = tt
is_dotted-Free (c ∷ cs) h = ((λ e. ground arith), dotted_tail-Free cs (ground arith))

nfr_tail-Free : (t : Text) → nfr_tail t ≡ true → Free b':' t
unfolding nfr_tail
nfr_tail-Free [] h = tt
nfr_tail-Free (c ∷ cs) h =
    ((λ e. ground arith), ground (arith, nfr_tail-Free cs, is_positive-Free cs))

is_nfr-Free : (t : Text) → is_nfr t ≡ true → Free b':' t
unfolding is_nfr
is_nfr-Free [] h = tt
is_nfr-Free (c ∷ cs) h = ((λ e. ground arith), nfr_tail-Free cs (ground arith))

role_suffix-Free : (role : LocalIdRole) (t : Text) → role_suffix role t ≡ true → Free b':' t
unfolding role_suffix
role_suffix-Free non_functional_requirement t h = is_nfr-Free t h
role_suffix-Free acceptance_criterion t h = is_dotted-Free t h
role_suffix-Free scenario t h = is_valid_spec_slug-Free t h
role_suffix-Free roadmap [] h = tt
role_suffix-Free roadmap (c ∷ cs) h = absurd (cc ((text_beq_iff (c ∷ cs) []).0 h))
role_suffix-Free _ t h = is_positive-Free t h

role_prefix-Free : (role : LocalIdRole) → Free b':' (role_prefix role)
role_prefix-Free user_story = omega arith
role_prefix-Free _ = omega arith

matches_role-Free : (role : LocalIdRole) (t : Text) → matches_role t role ≡ true → Free b':' t
unfolding matches_role
matches_role-Free role t h = elim (Option-cases (strip_prefix (role_prefix role) t)) [
  | inl other ↦ absurd (cc (rw (other, matches_role) at h))
  | inr (rest, e) ↦ rw (strip_prefix-eq-some (role_prefix role) t rest e) (
      All-append _ (role_prefix role) rest (role_prefix-Free role)
        (role_suffix-Free role rest (rw (e, matches_role) at h)))
]

first_role-Free :
    (roles : List LocalIdRole) (t : Text) → is_some (first_role roles t) ≡ true → Free b':' t
unfolding first_role
first_role-Free [] t h = absurd (cc)
first_role-Free (role ∷ roles) t h = elim (Bool-cases (matches_role t role)) [
  | inl here ↦ matches_role-Free role t here
  | inr later ↦ first_role-Free roles t (rw later at h)
]

pub is_valid_local_id-Free : (t : Text) → is_valid_local_id t ≡ true → Free b':' t
unfolding is_valid_local_id local_id_role
is_valid_local_id-Free t h = first_role-Free local_id_roles t h
