-- ===== src/Service/Store/Idps.antt =====
-- src/service/ledger.js: the JSONL driver's tables of identity providers and their credentials.
use omp_spec_kit.Prelude.{
  ℕ, Text, text_beq, text_beq_iff, Bool, false, not, ◌≡◌, refl, Option, none, some, List, [], ◌∷◌,
  find, filter, arith, Bool-cases, inl, inr, if◌then◌else◌,
}
use omp_spec_kit.Service.Auth.{RoleGroups}
use omp_spec_kit.Service.Store.{Field, or_null, upsert}

pub record IdpRow : Type 0 where
  pub tenant : Text
  pub youtrack_url : Text
  pub projects : List Text
  pub hub_groups : List Text
  pub role_groups : RoleGroups
  pub status : Text
  pub bridge_token_hash : Text
  pub default_project : Option Text
  pub bound_by : Option Text
  pub bound_at : Option Text
  pub last_error : Option Text
  pub updated_at : ℕ

pub record IdpEntry : Type 0 where
  pub tenant : Text
  pub youtrack_url : Text
  pub projects : List Text
  pub hub_groups : List Text
  pub role_groups : RoleGroups
  pub status : Text
  pub bridge_token_hash : Text
  pub default_project : Field
  pub bound_by : Field
  pub bound_at : Field
  pub last_error : Field

pub record IdpCredentialRow : Type 0 where
  pub tenant : Text
  pub service_token_enc : Text
  pub created_at : ℕ

pub record IdpTables : Type 0 where
  pub idp_bindings : List IdpRow
  pub idp_credentials : List IdpCredentialRow

-- Every column is in `record`, so that the row before it leaves no trace.
unfoldable pub idp_row : IdpEntry → ℕ → IdpRow
idp_row entry now = record {
  tenant = entry.tenant;
  youtrack_url = entry.youtrack_url;
  projects = entry.projects;
  hub_groups = entry.hub_groups;
  role_groups = entry.role_groups;
  status = entry.status;
  bridge_token_hash = entry.bridge_token_hash;
  default_project = or_null entry.default_project;
  bound_by = or_null entry.bound_by;
  bound_at = or_null entry.bound_at;
  last_error = or_null entry.last_error;
  updated_at = now;
}

abbrev pub idp_of : Text → IdpRow → Bool
idp_of tenant row = text_beq row.tenant tenant

unfoldable pub put_idp_binding : IdpEntry → ℕ → IdpTables → IdpTables
put_idp_binding entry now s = record s {
  idp_bindings =
      upsert (idp_of entry.tenant) (λ old. idp_row entry now) (idp_row entry now) s.idp_bindings;
}

unfoldable pub get_idp_binding : Text → IdpTables → Option IdpRow
get_idp_binding tenant s = find (idp_of tenant) s.idp_bindings

unfoldable pub get_idp_binding_by_url : Text → IdpTables → Option IdpRow
get_idp_binding_by_url url s = find (λ row. text_beq row.youtrack_url url) s.idp_bindings

unfoldable pub list_idp_bindings : IdpTables → List IdpRow
list_idp_bindings s = s.idp_bindings

unfoldable pub delete_idp_binding : Text → IdpTables → IdpTables
delete_idp_binding tenant s = record s {
  idp_bindings = filter (λ row. not (idp_of tenant row)) s.idp_bindings;
}

abbrev pub idp_credential_of : Text → IdpCredentialRow → Bool
idp_credential_of tenant row = text_beq row.tenant tenant

unfoldable pub put_idp_credential : Text → Text → ℕ → IdpTables → IdpTables
put_idp_credential tenant token now s = record s {
  idp_credentials =
      upsert (idp_credential_of tenant) (λ old. record old { service_token_enc = token })
        (record { tenant = tenant; service_token_enc = token; created_at = now }) s.idp_credentials;
}

abbrev pub token_view : Option IdpCredentialRow → Option Text
token_view none = none
token_view (some row) = some row.service_token_enc

unfoldable pub get_idp_credential : Text → IdpTables → Option Text
get_idp_credential tenant s = token_view (find (idp_credential_of tenant) s.idp_credentials)

unfoldable pub delete_idp_credential : Text → IdpTables → IdpTables
delete_idp_credential tenant s = record s {
  idp_credentials = filter (λ row. not (idp_credential_of tenant row)) s.idp_credentials;
}

find-put :
    (tenant token : Text) (now : ℕ) (rows : List IdpCredentialRow) (key : Text)
    → token_view (
        find (idp_credential_of key) (
          upsert
            (idp_credential_of tenant)
            (λ old. record old { service_token_enc = token })
            (record { tenant = tenant; service_token_enc = token; created_at = now })
            rows))
      ≡ (if text_beq tenant key then some token else token_view (find (idp_credential_of key) rows))
unfolding upsert
find-put tenant token now [] key = ground arith
find-put tenant token now (row ∷ rows) key = elim (Bool-cases (text_beq row.tenant tenant)) [
  | inl same ↦
      rw (same, (text_beq_iff row.tenant tenant).0 same)
        (elim (Bool-cases (text_beq tenant key)) [
          | inl here ↦ rw here refl
          | inr there ↦ rw there refl
        ])
  | inr other ↦ rw other (elim (Bool-cases (text_beq row.tenant key)) [
    | inr passed ↦ rw passed (find-put tenant token now rows key)
    | inl found ↦
        let away : text_beq tenant key ≡ false = ground (
          arith,
          text_beq_iff tenant key,
          text_beq_iff row.tenant key,
          text_beq_iff row.tenant tenant,
        ) in
        rw (found, away) refl
  ])
]

-- A credential that is put is read back, and the credentials of other tenants are what they were.
get_idp_credential-put_idp_credential :
    (tenant token : Text) (now : ℕ) (s : IdpTables) (key : Text)
    → get_idp_credential key (put_idp_credential tenant token now s)
      ≡ (if text_beq tenant key then some token else get_idp_credential key s)
unfolding put_idp_credential get_idp_credential
get_idp_credential-put_idp_credential tenant token now s key =
    find-put tenant token now s.idp_credentials key
