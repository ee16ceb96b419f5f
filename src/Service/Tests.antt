-- ===== src/Service/Tests.antt =====
-- The theorems of the service at small stores, scopes and providers.
use omp_spec_kit.Prelude.{
  ◌+◌, ◌*◌, ◌≤◌, Text, text, text_beq, text_beq_iff, text_eq, false, ◌≡◌, ◌≢◌, refl, none, some,
  List, [], ◌∷◌, ◌++◌, ◌&&◌, All, arith, if◌then◌else◌,
}
use omp_spec_kit.Service.Store
use omp_spec_kit.Service.Store.{
  Store, ClaimRow, LedgerEntry, AccessEntry, empty_store, get_claim, put_claim,
}
use omp_spec_kit.Service.Store.Ledger.{served}
use omp_spec_kit.Service.Store.Insertion.{is_empty, is_for, row_of, insert_ledger_if_absent-served}
use omp_spec_kit.Service.Store.AccessLog.{log_access-eq-newest, log_all, newest}
use omp_spec_kit.Service.Store.Bindings.{get_binding-put_binding}
use omp_spec_kit.Service.Claims
use omp_spec_kit.Service.Claims.{claim_key, claim, claimed, claim_held, get, sweep}
use omp_spec_kit.Service.Claims.Lease.{
  Holds, Op, run_all, IsForeign, run_all-Holds, claim-gives-Holds, claim_excludes,
}
use omp_spec_kit.Service.Claims.Expiry.{EndsBy, claim-free}
use omp_spec_kit.Service.Claims.Sweep.{get-sweep}

abbrev project : Text
project = text "acme/app"

abbrev spec : Text
spec = text "auth-flow"

abbrev lease_of_ann : ClaimRow
lease_of_ann = Claims.lease project spec (text "ann") 30 1000

abbrev leased : Store
leased = record empty_store { claims = lease_of_ann ∷ [] }

ann_claims : (claim project spec (text "ann") none 1000 1000 empty_store).0 ≡ claimed lease_of_ann
unfolding claim get Claims.resolve_ttl get_claim put_claim
ann_claims = refl

apart : (s t : Text) → text_beq s t ≡ false → s ≢ t
apart s t e h = ground (arith, (text_beq_iff s t).1 h)

bob_is_not_ann : text "bob" ≢ text "ann"
bob_is_not_ann = apart (text "bob") (text "ann") (unfold text_beq in refl)

abbrev foreign_ops : List Op
foreign_ops = Op.release_op project spec (text "bob") 2000 ∷ Op.sweep_op 3000 ∷ []

IsForeign-ops : All (IsForeign (text "ann") (1000 + 60000)) foreign_ops
IsForeign-ops = ((bob_is_not_ann, omega arith), (omega arith, tt))

claim_excludes_example :
    (held : ClaimRow) × ((claim project spec
        (text "bob")
        none
        4000
        4000
        (run_all foreign_ops (claim project spec (text "ann") none 1000 1000 empty_store).1)).0
      ≡ claim_held held)
    × (held.holder ≡ text "ann")
claim_excludes_example =
    claim_excludes project spec (text "ann") (text "bob") none none 1000 1000 4000 4000 empty_store
      lease_of_ann foreign_ops tt ann_claims IsForeign-ops bob_is_not_ann (omega arith)

claim-gives-Holds_example :
    Holds
      (claim_key project spec)
      (text "ann")
      (1000 + 60000)
      (claim project spec (text "ann") none 1000 1000 empty_store).1
    × (get_claim
          (claim_key project spec)
          (claim project spec (text "ann") none 1000 1000 empty_store).1
        ≡ some lease_of_ann)
    × (lease_of_ann.holder ≡ text "ann")
    × (1000 + 60000 ≤ lease_of_ann.expires_at_ms)
    × (lease_of_ann.expires_at_ms ≤ 1000 + 24 * 60 * 60000)
claim-gives-Holds_example =
    claim-gives-Holds project spec (text "ann") none 1000 1000 empty_store lease_of_ann tt
      ann_claims

leased_row : get_claim (claim_key project spec) leased ≡ some lease_of_ann
unfolding get_claim claim_key text_beq
leased_row = refl

Holds-leased : Holds (claim_key project spec) (text "ann") (1000 + 60000) leased
Holds-leased = record {
  row = lease_of_ann;
  found = leased_row;
  mine = refl;
  alive = omega arith;
  distinct = (tt, tt);
}

run_all-Holds_example :
    Holds (claim_key project spec) (text "ann") (1000 + 60000) (run_all foreign_ops leased)
run_all-Holds_example = run_all-Holds foreign_ops leased IsForeign-ops Holds-leased

get-sweep_example :
    (get project spec 3000000 (sweep 2000000 leased).1).0 ≡ (get project spec 3000000 leased).0
get-sweep_example = get-sweep project spec 2000000 3000000 leased (tt, tt) (omega arith)

abbrev entry : LedgerEntry
entry = record {
  spec_key = text "acme/app/auth-flow";
  version = text "1.0.0";
  digest = text "d1";
  commit_sha = some (text "c1");
  published_at = none;
  repo_url = none;
  repo_branch = none;
}

abbrev access : AccessEntry
access = record {
  ts = 1;
  login = none;
  role = none;
  tenant = none;
  project = none;
  op = none;
  spec = none;
  request_id = none;
  result = none;
}

log_access-eq-newest_example :
    (log_all (access ∷ []) empty_store).access_log ≡ newest Store.access_limit ([] ++ access ∷ [])
log_access-eq-newest_example = log_access-eq-newest (access ∷ []) empty_store (omega arith)

abbrev recorded : Store
recorded = record empty_store { ledger = Store.new_row entry 4 ∷ [] }

-- The version is recorded with the digest `d1`, and another publisher comes with `d2`.
abbrev other_entry : LedgerEntry
other_entry = record entry { digest = text "d2" }

insert_ledger_if_absent-served_example :
    ((Store.insert_ledger_if_absent other_entry 5 recorded).0
      ≡ is_empty (served entry.spec_key entry.version recorded))
    × (served entry.spec_key entry.version (Store.insert_ledger_if_absent other_entry 5 recorded).1
        ≡ (if is_for other_entry entry.spec_key entry.version
              && is_empty (served entry.spec_key entry.version recorded)
            then row_of other_entry 5 ∷ []
            else served entry.spec_key entry.version recorded))
insert_ledger_if_absent-served_example =
    insert_ledger_if_absent-served other_entry 5 recorded entry.spec_key entry.version

first_row_stays :
    served entry.spec_key entry.version (Store.insert_ledger_if_absent other_entry 5 recorded).1
    ≡ row_of entry 4 ∷ []
unfolding Store.insert_ledger_if_absent Store.new_row Store.get_ledger Store.sort_newest
    Store.insert_newest text_beq
first_row_stays = refl

abbrev binding : Store.BindingEntry
binding = record {
  project = project;
  repo_url = text "https://git/x";
  branch = text "main";
  status = text "active";
  bound_by = Store.absent;
  bound_at = Store.absent;
  migrated_from = Store.absent;
  migrated_from_branch = Store.given (some (text "old"));
  last_error = Store.absent;
}

get_binding-put_binding_example :
    Store.get_binding project (Store.put_binding binding 9 empty_store) ≡ (
      if text_beq project project
      then some (record {
        project = project;
        repo_url = text "https://git/x";
        branch = text "main";
        status = text "active";
        bound_by = none;
        bound_at = none;
        migrated_from = none;
        migrated_from_branch = some (text "old");
        last_error = none;
        updated_at = 9;
      })
      else Store.get_binding project empty_store)
get_binding-put_binding_example = get_binding-put_binding binding 9 project empty_store

abbrev a_day_of_ops : List Op
a_day_of_ops = Op.claim_op project spec (text "ann") none 1000 1000 ∷ foreign_ops

EndsBy-empty_store : EndsBy 87000000 empty_store
unfolding EndsBy
EndsBy-empty_store = tt

claim-free_example :
    (claim project spec (text "bob") none 90000000 90000000 (run_all a_day_of_ops empty_store)).0
    ≡ claimed (Claims.lease project spec (text "bob") (Claims.resolve_ttl none) 90000000)
claim-free_example =
    claim-free 87000000 project spec (text "bob") none 90000000 90000000 a_day_of_ops empty_store
      EndsBy-empty_store (omega arith, (tt, (tt, tt))) (omega arith)
