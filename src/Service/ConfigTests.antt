-- ===== src/Service/ConfigTests.antt =====
-- The theorems on project ids, tenants and ports at small inputs.
use omp_spec_kit.Prelude.{
  zero, suc, ℕ, text, true, ◌≡◌, refl, none, some, [], ◌∷◌, ok, All, includes, dedup, dedup_from,
  text_beq, index_of,
}
use omp_spec_kit.Service.Ports.{
  Probe, busy, free, responded, port_busy, foreign_service, allocated, scan_ports,
}
use omp_spec_kit.Service.Scope.{str}
use omp_spec_kit.Service.Auth.{Tenant}
use omp_spec_kit.Service.Auth.Authority.{IsConfigured}
use omp_spec_kit.Service.Tenants.{
  RawTenant, nonempty_strings, parse_tenant, parse_entries, parse_tenants,
  parse_tenants-IsConfigured,
}
use omp_spec_kit.Service.Projects.{ends_segment, project_id_error, is_valid_project_id}

valid_id : is_valid_project_id (text "acme/app") ≡ true
unfolding is_valid_project_id project_id_error index_of ends_segment text_beq
valid_id = refl

abbrev raw : RawTenant
raw = record {
  tenant = str (text "acme");
  projects = some (str (text "acme/app") ∷ []);
  hub_groups = some (str (text "dev") ∷ []);
  default_project = str (text "acme/app");
}

abbrev acme : Tenant
acme = record {
  tenant = text "acme";
  projects = text "acme/app" ∷ [];
  hub_groups = text "dev" ∷ [];
  default_project = some (text "acme/app");
}

accepted : parse_tenants (some (some raw ∷ [])) ≡ ok (acme ∷ [])
unfolding parse_tenants parse_entries parse_tenant nonempty_strings includes dedup dedup_from
    text_beq
accepted = refl

parse_tenants-IsConfigured_example : All IsConfigured (acme ∷ [])
parse_tenants-IsConfigured_example = parse_tenants-IsConfigured (some raw ∷ []) (acme ∷ []) accepted

abbrev probe : ℕ → Probe
probe zero = busy
probe (suc zero) = responded (some (text "other"))
probe (suc (suc n)) = free

third_port : scan_ports probe none 0 5 [] ≡ allocated 2 ((0, port_busy) ∷ (1, foreign_service) ∷ [])
unfolding scan_ports
third_port = refl
