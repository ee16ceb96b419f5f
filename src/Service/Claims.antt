-- ===== src/Service/Claims.antt =====
-- src/service/claims.js: soft write leases, one holder for each project and spec, kept in the
-- service's store. The clock is an argument; where a call reads it twice there are two.
pub mod Table
pub mod Lease
pub mod Sweep
pub mod Expiry
use omp_spec_kit.Prelude.{
  ℕ, ◌+◌, ◌*◌, Text, text_beq, Bool, true, false, not, ◌&&◌, leb, Option, none, some, List, [], ◌∷◌,
  ◌++◌, length, filter, if◌then◌else◌,
}
use omp_spec_kit.Service.Store.{Store, ClaimRow, get_claim, put_claim, delete_claim, list_claims}

abbrev pub default_ttl_minutes : ℕ
default_ttl_minutes = 30

abbrev pub max_ttl_minutes : ℕ
max_ttl_minutes = 24 * 60

unfoldable pub claim_key : Text → Text → Text
claim_key project spec = project ++ b'/' ∷ spec

abbrev pub live_claim : ℕ → Text → Option ClaimRow → Store → Option ClaimRow × Store
live_claim now key none s = (none, s)
live_claim now key (some row) s =
    if leb row.expires_at_ms now then (none, delete_claim key s) else (some row, s)

-- `get`: an expired lease is dropped when it is read.
unfoldable pub get : Text → Text → ℕ → Store → Option ClaimRow × Store
get project spec now s = let key = claim_key project spec in live_claim now key (get_claim key s) s

-- A lifetime that is no safe integer is `none`.
unfoldable pub resolve_ttl : Option ℕ → ℕ
resolve_ttl none = default_ttl_minutes
resolve_ttl (some minutes) =
    if leb 1 minutes && leb minutes max_ttl_minutes then minutes else default_ttl_minutes

pub data ClaimOutcome : Type 0 where
  claimed : ClaimRow → ClaimOutcome
  claim_held : ClaimRow → ClaimOutcome

abbrev pub lease : Text → Text → Text → ℕ → ℕ → ClaimRow
lease project spec holder ttl now = record {
  spec_key = claim_key project spec;
  holder = holder;
  expires_at_ms = now + ttl * 60000;
  created_at = now;
}

abbrev pub finish_claim : Option ClaimRow → ClaimRow → Store → ClaimOutcome × Store
finish_claim none row s = (claimed row, put_claim row s)
finish_claim (some existing) row s =
    if text_beq existing.holder row.holder
    then (claimed row, put_claim row s)
    else (claim_held existing, s)

-- `read_at` is the clock of the read, `now` that of the lease.
unfoldable pub claim : Text → Text → Text → Option ℕ → ℕ → ℕ → Store → ClaimOutcome × Store
claim project spec holder ttl_minutes read_at now s =
    let (existing, s') = get project spec read_at s in
    finish_claim existing (lease project spec holder (resolve_ttl ttl_minutes) now) s'

pub data ReleaseOutcome : Type 0 where
  released not_held : ReleaseOutcome
  held_by : ClaimRow → ReleaseOutcome

abbrev pub finish_release : Text → Text → Option ClaimRow → Store → ReleaseOutcome × Store
finish_release key holder none s = (not_held, s)
finish_release key holder (some existing) s =
    if text_beq existing.holder holder
    then (released, delete_claim key s)
    else (held_by existing, s)

unfoldable pub release : Text → Text → Text → ℕ → Store → ReleaseOutcome × Store
release project spec holder now s =
    let (existing, s') = get project spec now s in
    finish_release (claim_key project spec) holder existing s'

unfoldable pub sweep_rows : ℕ → List ClaimRow → Store → Store
sweep_rows now [] s = s
sweep_rows now (row ∷ rows) s =
    sweep_rows now rows (if leb row.expires_at_ms now then delete_claim row.spec_key s else s)

unfoldable pub sweep : ℕ → Store → ℕ × Store
sweep now s = let s' = sweep_rows now (list_claims s) s in (length (list_claims s'), s')
