-- ===== src/Kernel/Build/Election.antt =====
-- src/kernel/graph/build.js: the third phase, from the definitions of the parsed documents to at most one
-- elected definition for each canonical ID, and the counts of the eighth phase.
pub mod Assembled
pub mod Counted
pub mod Elected
use omp_spec_kit.Prelude.{
  ℕ, suc, ◌+◌, Text, text, text_eq, text_beq, length, Bool, true, false, not, ◌&&◌, ◌||◌, leb,
  Option, none, some, List, [], ◌∷◌, ◌++◌, if◌then◌else◌, includes, add_unique, filter, map,
}
use omp_spec_kit.Kernel.Types.{NodeKind}
use omp_spec_kit.Kernel.Identity.{LocalIdRole, role_kind, make_canonical_id}
use omp_spec_kit.Kernel.Gherkin.Scenarios.{FinalScenario, rejected, identified, Judgement}

-- A definition of a Markdown document, as its parser gives it.
pub record MarkdownDefinition : Type 0 where
  pub role : LocalIdRole
  pub local_id : Text
  pub title : Text
  pub body : Text
  pub start_offset : ℕ

-- A parsed document of a specification; of the definitions that a Markdown parser rejects, the offsets.
pub data ParsedDocument : Type 0 where
  markdown : Text → Text → List ℕ → List MarkdownDefinition → ParsedDocument
  feature : Text → Text → List FinalScenario → ParsedDocument

pub data Outcome : Type 0 where
  pending unique ambiguous refused : Outcome

-- A definition occurrence; one that is rejected has no ID and no kind. The offset of a scenario is the
-- number of its line.
pub record Occurrence : Type 0 where
  pub path : Text
  pub spec_slug : Text
  pub canonical_id : Option Text
  pub node_kind : Option NodeKind
  pub title : Text
  pub body : Text
  pub start_offset : ℕ
  pub outcome : Outcome

-- `groups`: the counts, in the order in which the IDs came.
abbrev pub Groups : Type 0
Groups = List (Text × ℕ)

pub record Assembly : Type 0 where
  pub occurrences : List Occurrence
  pub groups : Groups

unfoldable pub count_of : Groups → Text → ℕ
count_of [] id = 0
count_of ((key, n) ∷ groups) id =
    let rest = count_of groups id in if text_beq key id then n else rest

-- `group.count += 1` of a group that is there or is made.
unfoldable pub bump : Text → Groups → Groups
bump id [] = (id, 1) ∷ []
bump id ((key, n) ∷ groups) =
    let rest = bump id groups in if text_beq key id then (key, suc n) ∷ groups else (key, n) ∷ rest

abbrev pub push_rejected : Text → Text → ℕ → Assembly → Assembly
push_rejected path spec_slug start_offset a = record a {
  occurrences =
      a.occurrences
      ++ (record {
        path = path;
        spec_slug = spec_slug;
        canonical_id = none;
        node_kind = none;
        title = [];
        body = [];
        start_offset = start_offset;
        outcome = refused;
      })
        ∷ [];
}

-- `pushCandidate`
abbrev pub push_candidate : Text → Text → Text → NodeKind → Text → Text → ℕ → Assembly → Assembly
push_candidate path spec_slug local_id kind title body start_offset a =
    let id = make_canonical_id spec_slug local_id in
    record {
      occurrences =
          a.occurrences
          ++ (record {
            path = path;
            spec_slug = spec_slug;
            canonical_id = some id;
            node_kind = some kind;
            title = title;
            body = body;
            start_offset = start_offset;
            outcome = pending;
          })
            ∷ [];
      groups = bump id a.groups;
    }

unfoldable pub push_all_rejected : Text → Text → List ℕ → Assembly → Assembly
push_all_rejected path spec_slug [] a = a
push_all_rejected path spec_slug (offset ∷ offsets) a =
    push_all_rejected path spec_slug offsets (push_rejected path spec_slug offset a)

unfoldable pub push_definitions : Text → Text → List MarkdownDefinition → Assembly → Assembly
push_definitions path spec_slug [] a = a
push_definitions path spec_slug (d ∷ ds) a =
    push_definitions path spec_slug ds
      (push_candidate path spec_slug d.local_id (role_kind d.role) d.title d.body d.start_offset a)

abbrev pub scenario_title : Text → Text → Text
scenario_title name local_id = if text_beq name [] then local_id else name

abbrev pub push_scenario : Text → Text → FinalScenario → Judgement → Assembly → Assembly
push_scenario path spec_slug f (rejected code) a =
    push_rejected path spec_slug f.scenario.name_line a
push_scenario path spec_slug f (identified local_id) a =
    push_candidate path spec_slug local_id NodeKind.scenario
      (scenario_title f.scenario.name local_id) [] f.scenario.name_line a

unfoldable pub push_scenarios : Text → Text → List FinalScenario → Assembly → Assembly
push_scenarios path spec_slug [] a = a
push_scenarios path spec_slug (f ∷ fs) a =
    push_scenarios path spec_slug fs (push_scenario path spec_slug f f.judgement a)

-- `assembleDefinitionOccurrences`
unfoldable pub assemble_document : ParsedDocument → Assembly → Assembly
assemble_document (markdown path spec_slug offsets definitions) a =
    push_definitions path spec_slug definitions (push_all_rejected path spec_slug offsets a)
assemble_document (feature path spec_slug scenarios) a = push_scenarios path spec_slug scenarios a

unfoldable pub assemble_documents : List ParsedDocument → Assembly → Assembly
assemble_documents [] a = a
assemble_documents (d ∷ ds) a = assemble_documents ds (assemble_document d a)

-- The election: the occurrences with their outcomes, the candidates for nodes, the groups whose
-- duplicates are reported.
pub record Ballot : Type 0 where
  pub judged : List Occurrence
  pub candidates : List (Text × Occurrence)
  pub processed : List Text

abbrev pub no_ballot : Ballot
no_ballot = record { judged = []; candidates = []; processed = [] }

-- `nodeCandidates.set(id, definition)`
unfoldable pub put_candidate :
    Text → Occurrence → List (Text × Occurrence) → List (Text × Occurrence)
put_candidate id o [] = (id, o) ∷ []
put_candidate id o ((key, old) ∷ entries) =
    let rest = put_candidate id o entries in
    if text_beq key id then (key, o) ∷ entries else (key, old) ∷ rest

abbrev pub with_outcome : Outcome → Occurrence → Occurrence
with_outcome outcome o = record o { outcome = outcome }

abbrev pub elect_pending : Groups → Occurrence → Text → Ballot → Ballot
elect_pending groups o id b =
    if leb 2 (count_of groups id)
    then record b {
      judged = b.judged ++ with_outcome ambiguous o ∷ [];
      processed = add_unique b.processed id;
    }
    else record b {
      judged = b.judged ++ with_outcome unique o ∷ [];
      candidates = put_candidate id (with_outcome unique o) b.candidates;
    }

abbrev pub keep_outcome : Occurrence → Ballot → Ballot
keep_outcome o b = record b { judged = b.judged ++ o ∷ [] }

abbrev pub elect_one : Groups → Occurrence → Outcome → Option Text → Ballot → Ballot
elect_one groups o pending (some id) b = elect_pending groups o id b
elect_one groups o _ _ b = keep_outcome o b

unfoldable pub elect : Groups → List Occurrence → Ballot → Ballot
elect groups [] b = b
elect groups (o ∷ os) b = elect groups os (elect_one groups o o.outcome o.canonical_id b)

abbrev pub empty_assembly : Assembly
empty_assembly = record { occurrences = []; groups = [] }

unfoldable pub elect_definitions : List ParsedDocument → Ballot
elect_definitions documents =
    let a = assemble_documents documents empty_assembly in elect a.groups a.occurrences no_ballot

-- Of `computeCounts`: the nodes that are no generated ones, and the occurrences of an outcome.
abbrev pub is_authored : Option NodeKind → Bool
is_authored (some NodeKind.document) = false
is_authored (some NodeKind.file) = false
is_authored (some NodeKind.roadmap) = false
is_authored _ = true

unfoldable pub unique_definition_nodes : List (Text × Occurrence) → ℕ
unique_definition_nodes candidates =
    length (filter (λ entry. is_authored entry.1.node_kind) candidates)

abbrev pub is_ambiguous : Outcome → Bool
is_ambiguous ambiguous = true
is_ambiguous _ = false

abbrev pub is_refused : Outcome → Bool
is_refused refused = true
is_refused _ = false

unfoldable pub ambiguous_occurrences : List Occurrence → ℕ
ambiguous_occurrences os = length (filter (λ o. is_ambiguous o.outcome) os)

unfoldable pub rejected_occurrences : List Occurrence → ℕ
rejected_occurrences os = length (filter (λ o. is_refused o.outcome) os)
