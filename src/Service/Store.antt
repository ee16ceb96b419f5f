-- ===== src/Service/Store.antt =====
-- src/service/ledger.js: the JSONL driver of the service's own store. The state is the object that
-- `persist` writes to disk; times are arguments. Writing the file is not modelled.
pub mod Ledger
pub mod Insertion
pub mod AccessLog
pub mod Bindings
pub mod Idps
use mathlib.Core.List.{reverse}
use omp_spec_kit.Prelude.{
  ℕ, ◌-◌, Text, text, text_beq, starts_with, Bool, true, false, not, ◌&&◌, ltb, Option, none, some,
  is_some, List, [], ◌∷◌, ◌++◌, length, drop, filter, find, if◌then◌else◌,
}

pub record ClaimRow : Type 0 where
  pub spec_key : Text
  pub holder : Text
  pub expires_at_ms : ℕ
  pub created_at : ℕ

pub record LedgerRow : Type 0 where
  pub spec_key : Text
  pub version : Text
  pub digest : Text
  pub commit_sha : Option Text
  pub published_at : ℕ
  pub repo_url : Option Text
  pub repo_branch : Option Text

-- An entry as a caller gives it; a field that it leaves out is `none`.
pub record LedgerEntry : Type 0 where
  pub spec_key : Text
  pub version : Text
  pub digest : Text
  pub commit_sha : Option Text
  pub published_at : Option ℕ
  pub repo_url : Option Text
  pub repo_branch : Option Text

pub record AccessEntry : Type 0 where
  pub ts : ℕ
  pub login : Option Text
  pub role : Option Text
  pub tenant : Option Text
  pub project : Option Text
  pub op : Option Text
  pub spec : Option Text
  pub request_id : Option Text
  pub result : Option Text

pub record BindingRow : Type 0 where
  pub project : Text
  pub repo_url : Text
  pub branch : Text
  pub status : Text
  pub bound_by : Option Text
  pub bound_at : Option Text
  pub migrated_from : Option Text
  pub migrated_from_branch : Option Text
  pub last_error : Option Text
  pub updated_at : ℕ

-- A field of the caller's object: left out, or given (as null or as a text).
pub data Field : Type 0 where
  absent : Field
  given : Option Text → Field

pub record BindingEntry : Type 0 where
  pub project : Text
  pub repo_url : Text
  pub branch : Text
  pub status : Text
  pub bound_by : Field
  pub bound_at : Field
  pub migrated_from : Field
  pub migrated_from_branch : Field
  pub last_error : Field

pub record CredentialRow : Type 0 where
  pub project : Text
  pub repo_url : Option Text
  pub token_enc : Text
  pub username : Option Text
  pub created_at : ℕ

pub record Store : Type 0 where
  pub claims : List ClaimRow
  pub ledger : List LedgerRow
  pub access_log : List AccessEntry
  pub repo_bindings : List BindingRow
  pub repo_credentials : List CredentialRow

abbrev pub empty_store : Store
empty_store = record {
  claims = [];
  ledger = [];
  access_log = [];
  repo_bindings = [];
  repo_credentials = [];
}

-- `const existing = rows.find(same); if (existing) Object.assign(existing, …) else rows.push(…)`
unfoldable pub upsert {ℓ} : {A : Type ℓ} → (A → Bool) → (A → A) → A → List A → List A
upsert same assign fresh [] = fresh ∷ []
upsert same assign fresh (row ∷ rows) =
    if same row then assign row ∷ rows else row ∷ upsert same assign fresh rows

abbrev pub claim_has_key : Text → ClaimRow → Bool
claim_has_key key row = text_beq row.spec_key key

unfoldable pub get_claim : Text → Store → Option ClaimRow
get_claim key s = find (claim_has_key key) s.claims

unfoldable pub put_claim : ClaimRow → Store → Store
put_claim row s = record s {
  claims = upsert (claim_has_key row.spec_key) (λ old. row) row s.claims;
}

unfoldable pub delete_claim : Text → Store → Store
delete_claim key s = record s { claims = filter (λ row. not (claim_has_key key row)) s.claims }

unfoldable pub list_claims : Store → List ClaimRow
list_claims s = s.claims

abbrev pub is_version : Text → Text → LedgerRow → Bool
is_version spec_key version row = text_beq row.spec_key spec_key && text_beq row.version version

abbrev pub or_else {ℓ} : {A : Type ℓ} → Option A → A → A
or_else none d = d
or_else (some a) d = a

abbrev pub or_old {ℓ} : {A : Type ℓ} → Option A → Option A → Option A
or_old none old = old
or_old (some a) old = some a

unfoldable pub new_row : LedgerEntry → ℕ → LedgerRow
new_row entry now = record {
  spec_key = entry.spec_key;
  version = entry.version;
  digest = entry.digest;
  commit_sha = entry.commit_sha;
  published_at = or_else entry.published_at now;
  repo_url = entry.repo_url;
  repo_branch = entry.repo_branch;
}

-- `Object.assign` keeps what the entry leaves out; the time is always there.
unfoldable pub assign_row : LedgerEntry → ℕ → LedgerRow → LedgerRow
assign_row entry now old = record {
  spec_key = entry.spec_key;
  version = entry.version;
  digest = entry.digest;
  commit_sha = or_old entry.commit_sha old.commit_sha;
  published_at = or_else entry.published_at now;
  repo_url = or_old entry.repo_url old.repo_url;
  repo_branch = or_old entry.repo_branch old.repo_branch;
}

unfoldable pub append_ledger : LedgerEntry → ℕ → Store → Store
append_ledger entry now s = record s {
  ledger =
      upsert (is_version entry.spec_key entry.version) (assign_row entry now) (new_row entry now)
        s.ledger;
}

unfoldable pub insert_ledger_if_absent : LedgerEntry → ℕ → Store → Bool × Store
insert_ledger_if_absent entry now s =
    if is_some (find (is_version entry.spec_key entry.version) s.ledger)
    then (false, s)
    else (true, record s { ledger = s.ledger ++ new_row entry now ∷ [] })

-- `sort` by `a.publishedAt < b.publishedAt ? 1 : -1`: the newest first.
unfoldable pub insert_newest : LedgerRow → List LedgerRow → List LedgerRow
insert_newest row [] = row ∷ []
insert_newest row (r ∷ rows) =
    if ltb row.published_at r.published_at then r ∷ insert_newest row rows else row ∷ r ∷ rows

unfoldable pub sort_newest : List LedgerRow → List LedgerRow
sort_newest [] = []
sort_newest (r ∷ rows) = insert_newest r (sort_newest rows)

unfoldable pub get_ledger : Text → Store → List LedgerRow
get_ledger spec_key s = sort_newest (filter (λ row. text_beq row.spec_key spec_key) s.ledger)

abbrev pub access_limit : ℕ
access_limit = 10000

-- `slice(-n)`: the last n entries, and all of them for n = 0.
unfoldable pub slice_last {ℓ} : {A : Type ℓ} → ℕ → List A → List A
slice_last n xs = if ltb 0 n then drop (length xs - n) xs else xs

unfoldable pub bound_log : List AccessEntry → List AccessEntry
bound_log log = if ltb access_limit (length log) then slice_last access_limit log else log

unfoldable pub log_access : AccessEntry → Store → Store
log_access entry s = record s { access_log = bound_log (s.access_log ++ entry ∷ []) }

abbrev pub has_result_prefix : Text → AccessEntry → Bool
has_result_prefix prefix entry = elim entry.result [ none ↦ false | some r ↦ starts_with r prefix ]

unfoldable pub list_access : Text → ℕ → Store → List AccessEntry
list_access prefix limit s =
    reverse (slice_last limit (filter (has_result_prefix prefix) s.access_log))

abbrev pub or_null : Field → Option Text
or_null absent = none
or_null (given v) = v

abbrev pub or_kept : Field → Option Text → Option Text
or_kept absent old = old
or_kept (given v) old = v

-- The defaults of `record` name every optional field but `migratedFromBranch`.
unfoldable pub assign_binding : BindingEntry → ℕ → BindingRow → BindingRow
assign_binding entry now old = record {
  project = entry.project;
  repo_url = entry.repo_url;
  branch = entry.branch;
  status = entry.status;
  bound_by = or_null entry.bound_by;
  bound_at = or_null entry.bound_at;
  migrated_from = or_null entry.migrated_from;
  migrated_from_branch = or_kept entry.migrated_from_branch old.migrated_from_branch;
  last_error = or_null entry.last_error;
  updated_at = now;
}

unfoldable pub new_binding : BindingEntry → ℕ → BindingRow
new_binding entry now = record {
  project = entry.project;
  repo_url = entry.repo_url;
  branch = entry.branch;
  status = entry.status;
  bound_by = or_null entry.bound_by;
  bound_at = or_null entry.bound_at;
  migrated_from = or_null entry.migrated_from;
  migrated_from_branch = or_null entry.migrated_from_branch;
  last_error = or_null entry.last_error;
  updated_at = now;
}

abbrev pub binding_of : Text → BindingRow → Bool
binding_of project row = text_beq row.project project

unfoldable pub put_binding : BindingEntry → ℕ → Store → Store
put_binding entry now s = record s {
  repo_bindings =
      upsert (binding_of entry.project) (assign_binding entry now) (new_binding entry now)
        s.repo_bindings;
}

unfoldable pub get_binding : Text → Store → Option BindingRow
get_binding project s = find (binding_of project) s.repo_bindings

unfoldable pub list_bindings : Store → List BindingRow
list_bindings s = s.repo_bindings

unfoldable pub delete_binding : Text → Store → Store
delete_binding project s = record s {
  repo_bindings = filter (λ row. not (binding_of project row)) s.repo_bindings;
}

abbrev pub credential_of : Text → CredentialRow → Bool
credential_of project row = text_beq row.project project

unfoldable pub put_credential : Text → Option Text → Text → Option Text → ℕ → Store → Store
put_credential project repo_url token_enc username now s = record s {
  repo_credentials =
      upsert (credential_of project)
        (λ old. record old { repo_url = repo_url; token_enc = token_enc; username = username })
        (record {
          project = project;
          repo_url = repo_url;
          token_enc = token_enc;
          username = username;
          created_at = now;
        })
        s.repo_credentials;
}

-- What a reader of a credential is given.
pub record Credential : Type 0 where
  pub repo_url : Option Text
  pub token_enc : Text
  pub username : Option Text

abbrev pub credential_view : Option CredentialRow → Option Credential
credential_view none = none
credential_view (some row) =
    some (record { repo_url = row.repo_url; token_enc = row.token_enc; username = row.username })

unfoldable pub get_credential : Text → Store → Option Credential
get_credential project s = credential_view (find (credential_of project) s.repo_credentials)

unfoldable pub delete_credential : Text → Store → Store
delete_credential project s = record s {
  repo_credentials = filter (λ row. not (credential_of project row)) s.repo_credentials;
}
