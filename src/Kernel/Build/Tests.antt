-- ===== src/Kernel/Build/Tests.antt =====
-- The theorems on the graph builder at a small corpus: one file, and two definitions of one ID.
use omp_spec_kit.Prelude.{
  text, true, ◌≡◌, ◌↔◌, ◌+◌, ◌≤◌, refl, some, List, [], ◌∷◌, length, All, text_beq, includes, map,
  leb, ◌&&◌, if◌then◌else◌,
}
use omp_spec_kit.Kernel.Identity
use omp_spec_kit.Kernel.Limits
use omp_spec_kit.Kernel.Limits.{default_limits}
use omp_spec_kit.Kernel.Build.Sources.{Host, SourceFile, no_sources, read_sources}
use omp_spec_kit.Kernel.Build.Sources.Bounded.{accepted_bytes, IsAdmissible, read_sources-bound}
use omp_spec_kit.Kernel.Build.Election
use omp_spec_kit.Kernel.Build.Election.Assembled.{HasRoles}
use omp_spec_kit.Kernel.Build.Election.Counted.{has_key, elect_definitions-conserved}
use omp_spec_kit.Kernel.Build.Election.Elected.{definitions_of, elect_definitions-elected_iff}

abbrev host : Host
host = record { lower = λ t. t; nfc = λ t. t; digest = λ b. text "0f"; decode = λ b. some b }

abbrev source : SourceFile
source = record {
  path = some (text ".specs/auth/FR.md");
  bytes = some (text "# FR");
  sha256 = some (text "0f");
}

read_sources-bound_example :
    (accepted_bytes (read_sources host default_limits (source ∷ []) no_sources).entries
      ≤ default_limits Limits.max_aggregate_bytes)
    × All
        (IsAdmissible host default_limits)
        (read_sources host default_limits (source ∷ []) no_sources).entries
read_sources-bound_example = read_sources-bound host default_limits (source ∷ [])

-- `fr.md`, which SCHEMA.md calls an unsupported document.
abbrev host_of_ascii : Host
host_of_ascii = record host { lower = λ t. map (λ c. if leb 65 c && leb c 90 then c + 32 else c) t }

abbrev variant_source : SourceFile
variant_source = record source { path = some (text ".specs/auth/fr.md") }

abbrev definition : Election.MarkdownDefinition
definition = record {
  role = Identity.functional_requirement;
  local_id = text "FR-1";
  title = text "Sign in";
  body = [];
  start_offset = 0;
}

abbrev documents : List Election.ParsedDocument
documents =
    Election.markdown (text ".specs/auth/FR.md") (text "auth") (9 ∷ [])
      (definition ∷ definition ∷ (record definition { local_id = text "FR-2" }) ∷ [])
    ∷ []

have_roles : All HasRoles documents
have_roles = ((refl, (refl, (refl, tt))), tt)

elect_definitions-conserved_example :
    length (Election.elect_definitions documents).judged
    ≡ Election.unique_definition_nodes (Election.elect_definitions documents).candidates
      + Election.ambiguous_occurrences (Election.elect_definitions documents).judged
      + Election.rejected_occurrences (Election.elect_definitions documents).judged
elect_definitions-conserved_example = elect_definitions-conserved documents have_roles

elect_definitions-elected_iff_example :
    (has_key (text "auth:FR-2") (Election.elect_definitions documents).candidates ≡ true)
    ↔ (definitions_of (text "auth:FR-2") documents ≡ 1)
elect_definitions-elected_iff_example =
    elect_definitions-elected_iff documents (text "auth:FR-2") have_roles

-- Two definitions of one ID are both ambiguous.
two_ambiguous : Election.ambiguous_occurrences (Election.elect_definitions documents).judged ≡ 2
unfolding Election.ambiguous_occurrences Election.elect_definitions Election.elect
    Election.assemble_documents Election.assemble_document Election.push_definitions
    Election.push_all_rejected Election.count_of Election.bump Identity.make_canonical_id text_beq
    includes Election.put_candidate
two_ambiguous = refl
