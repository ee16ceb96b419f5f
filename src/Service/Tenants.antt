-- ===== src/Service/Tenants.antt =====
-- src/service/tenants.js: the validation of the tenants of a configuration.
use omp_spec_kit.Prelude.{
  Text, text_eq, nat_eq, nat_beq, Bool, not, ◌≡◌, Option, none, some, List, [], ◌∷◌, ◌++◌, length,
  includes, dedup, All, all, Result, ok, err, ◌>>=◌, >>=-eq-ok, arith, Bool-cases, Option-cases,
  inl, inr, if◌then◌else◌,
}
use omp_spec_kit.Service.Scope.{Value, str, other, null}
use omp_spec_kit.Service.Auth.{Tenant}
use omp_spec_kit.Service.Auth.Authority.{IsConfigured}

-- An entry as the configuration has it; a list that is no array is `none`, and so is an entry that is no
-- object.
pub record RawTenant : Type 0 where
  pub tenant : Value
  pub projects : Option (List Value)
  pub hub_groups : Option (List Value)
  pub default_project : Value

pub data TenantError : Type 0 where
  not_an_array not_an_object tenant_required duplicate_tenant bad_projects duplicate_projects :
      TenantError
  bad_hub_groups default_outside : TenantError

-- The strings of a list of non-empty strings.
unfoldable pub nonempty_strings : List Value → Option (List Text)
nonempty_strings [] = some []
nonempty_strings (str [] ∷ vs) = none
nonempty_strings (str (c ∷ cs) ∷ vs) =
    let rest = nonempty_strings vs in elim rest [ none ↦ none | some ts ↦ some ((c ∷ cs) ∷ ts) ]
nonempty_strings (_ ∷ vs) = none

abbrev pub nonempty_list : Option (List Text) → Option (List Text)
nonempty_list none = none
nonempty_list (some []) = none
nonempty_list (some (t ∷ ts)) = some (t ∷ ts)

abbrev pub strings_of : Option (List Value) → Option (List Text)
strings_of none = none
strings_of (some vs) = nonempty_list (nonempty_strings vs)

abbrev pub has_slash : Text → Bool
has_slash t = includes t 47

abbrev pub check_default : Value → List Text → Result TenantError (Option Text)
check_default null projects = ok none
check_default (str t) projects = if includes projects t then ok (some t) else err default_outside
check_default (other key) projects = err default_outside

abbrev pub finish_tenant : Text → Value → List Text → List Text → Result TenantError Tenant
finish_tenant name default projects groups = check_default default projects >>= λ d.
    ok (record { tenant = name; projects = projects; hub_groups = groups; default_project = d })

abbrev pub check_groups_of : Text → RawTenant → List Text → Result TenantError Tenant
check_groups_of name raw projects = elim (strings_of raw.hub_groups) [
  | none ↦ err bad_hub_groups
  | some groups ↦ finish_tenant name raw.default_project projects groups
]

abbrev pub check_projects : Text → RawTenant → Option (List Text) → Result TenantError Tenant
check_projects name raw none = err bad_projects
check_projects name raw (some projects) =
    if not (all has_slash projects)
    then err bad_projects
    else if not (nat_beq (length (dedup projects)) (length projects))
    then err duplicate_projects
    else check_groups_of name raw projects

abbrev pub check_name : List Text → RawTenant → Value → Result TenantError Tenant
check_name names raw (str (c ∷ cs)) =
    if includes names (c ∷ cs)
    then err duplicate_tenant
    else check_projects (c ∷ cs) raw (strings_of raw.projects)
check_name names raw _ = err tenant_required

unfoldable pub parse_tenant : List Text → RawTenant → Result TenantError Tenant
parse_tenant names raw = check_name names raw raw.tenant

unfoldable pub parse_entries :
    List Text → List (Option RawTenant) → Result TenantError (List Tenant)
parse_entries names [] = ok []
parse_entries names (none ∷ entries) = err not_an_object
parse_entries names (some raw ∷ entries) = parse_tenant names raw >>= λ t.
    parse_entries (names ++ t.tenant ∷ []) entries >>= λ ts. ok (t ∷ ts)

unfoldable pub parse_tenants : Option (List (Option RawTenant)) → Result TenantError (List Tenant)
parse_tenants none = err not_an_array
parse_tenants (some entries) = parse_entries [] entries

finish_tenant-IsConfigured :
    (name : Text) (default : Value) (projects groups : List Text) (t : Tenant)
    → finish_tenant name default projects groups ≡ ok t
    → IsConfigured t
finish_tenant-IsConfigured name null projects groups t h =
    let e : t.default_project ≡ none = ground arith in rw e tt
finish_tenant-IsConfigured name (str d) projects groups t h =
    elim (Bool-cases (includes projects d)) [
      | inl inside ↦
          let same : ◌≡◌ {A = Tenant}
              (record {
                tenant = name;
                projects = projects;
                hub_groups = groups;
                default_project = some d;
              })
              t =
            cc (rw inside at h) in
          rw (← same) inside
      | inr outside ↦ absurd (cc (rw outside at h))
    ]
finish_tenant-IsConfigured name (other key) projects groups t h = absurd (cc)

check_groups_of-IsConfigured :
    (name : Text) (raw : RawTenant) (projects : List Text) (t : Tenant)
    → check_groups_of name raw projects ≡ ok t
    → IsConfigured t
check_groups_of-IsConfigured name raw projects t h =
    elim (Option-cases (strings_of raw.hub_groups)) [
      | inl e ↦ absurd (cc (rw (e, check_groups_of) at h))
      | inr (groups, e) ↦
          finish_tenant-IsConfigured name raw.default_project projects groups t
            (rw (e, check_groups_of) at h)
    ]

check_projects-IsConfigured :
    (name : Text) (raw : RawTenant) (o : Option (List Text)) (t : Tenant)
    → check_projects name raw o ≡ ok t
    → IsConfigured t
check_projects-IsConfigured name raw none t h = absurd (cc)
check_projects-IsConfigured name raw (some projects) t h =
    elim (Bool-cases (all has_slash projects)) [
      | inr bad ↦ absurd (cc (rw bad at h))
      | inl slashes ↦ elim (Bool-cases (nat_beq (length (dedup projects)) (length projects))) [
        | inr twice ↦ absurd (cc (rw (slashes, twice) at h))
        | inl once ↦ check_groups_of-IsConfigured name raw projects t (rw (slashes, once) at h)
      ]
    ]

check_name-IsConfigured :
    (names : List Text) (raw : RawTenant) (v : Value) (t : Tenant)
    → check_name names raw v ≡ ok t
    → IsConfigured t
check_name-IsConfigured names raw null t h = absurd (cc)
check_name-IsConfigured names raw (other key) t h = absurd (cc)
check_name-IsConfigured names raw (str []) t h = absurd (cc)
check_name-IsConfigured names raw (str (c ∷ cs)) t h = elim (Bool-cases (includes names (c ∷ cs))) [
  | inl known ↦ absurd (cc (rw known at h))
  | inr fresh ↦ check_projects-IsConfigured (c ∷ cs) raw (strings_of raw.projects) t (rw fresh at h)
]

parse_entries-IsConfigured :
    (names : List Text) (entries : List (Option RawTenant)) (ts : List Tenant)
    → parse_entries names entries ≡ ok ts
    → All IsConfigured ts
unfolding parse_entries parse_tenant
parse_entries-IsConfigured names [] ts h = let e : [] ≡ ts = cc in rw (← e) tt
parse_entries-IsConfigured names (none ∷ entries) ts h = absurd (cc)
parse_entries-IsConfigured names (some raw ∷ entries) ts h =
    let (t, one, rest) = >>=-eq-ok (parse_tenant names raw) _ h in
    let (us, more, same) = >>=-eq-ok (parse_entries (names ++ t.tenant ∷ []) entries) _ rest in
    let e : (t ∷ us) ≡ ts = cc in
    rw (← e) (
      check_name-IsConfigured names raw raw.tenant t one,
      parse_entries-IsConfigured (names ++ t.tenant ∷ []) entries us more,
    )

-- The tenants of a configuration that is accepted have their default projects, where they have one, among
-- their projects.
pub parse_tenants-IsConfigured :
    (raw : List (Option RawTenant)) (ts : List Tenant)
    → parse_tenants (some raw) ≡ ok ts
    → All IsConfigured ts
unfolding parse_tenants
parse_tenants-IsConfigured raw ts h = parse_entries-IsConfigured [] raw ts h
