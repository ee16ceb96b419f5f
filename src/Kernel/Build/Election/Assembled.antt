-- ===== src/Kernel/Build/Election/Assembled.antt =====
-- Before the election: the groups count the occurrences of each ID.
use omp_spec_kit.Prelude.{
  ℕ, suc, ◌+◌, Text, text_eq, text_beq, text_beq_iff, Bool, true, false, Option, none, some, List,
  [], ◌∷◌, ◌++◌, if◌then◌else◌, ◌≡◌, ◌⊎◌, inl, inr, refl, sym, ◌∙◌, All, All-append, Bool-cases,
  arith,
}
use omp_spec_kit.Kernel.Identity.{role_kind, make_canonical_id}
use omp_spec_kit.Kernel.Types.{NodeKind}
use omp_spec_kit.Kernel.Gherkin.Scenarios.{FinalScenario, rejected, identified, Judgement}
use omp_spec_kit.Kernel.Build.Election

abbrev pub names : Text → Option Text → Bool
names id none = false
names id (some key) = text_beq key id

-- The occurrences of an ID.
abbrev pub named : Text → List Election.Occurrence → ℕ
named id [] = 0
named id (o ∷ os) = if names id o.canonical_id then suc (named id os) else named id os

pub named-append :
    (id : Text) (os rs : List Election.Occurrence) → named id (os ++ rs) ≡ named id os + named id rs
named-append id [] rs = omega arith
named-append id (o ∷ os) rs = elim (Bool-cases (names id o.canonical_id)) [
  | inl here ↦ rw here (omega (arith, named-append id os rs))
  | inr other ↦ rw other (named-append id os rs)
]

pub apart :
    (key id other' : Text)
    → text_beq key id ≡ false
    → text_beq key other' ≡ true
    → text_beq id other' ≡ false
apart key id other' different here = elim (Bool-cases (text_beq id other')) [
  | inl same ↦ absurd (
      let h : text_beq key id ≡ true =
        (text_beq_iff key id).1
          ((text_beq_iff key other').0 here ∙ sym ((text_beq_iff id other').0 same)) in
      cc)
  | inr done ↦ done
]

count_of-bump :
    (id other' : Text) (groups : Election.Groups)
    → Election.count_of (Election.bump id groups) other' ≡ (
        if text_beq id other'
        then suc (Election.count_of groups other')
        else Election.count_of groups other')
unfolding Election.count_of Election.bump
count_of-bump id other' [] = refl
count_of-bump id other' ((key, n) ∷ groups) = elim (Bool-cases (text_beq key id)) [
  | inl same ↦
      let same' : key ≡ id = (text_beq_iff key id).0 same in
      rw (same, same')
        (elim (Bool-cases (text_beq id other')) [
          | inl here ↦ rw here refl
          | inr there ↦ rw there refl
        ])
  | inr different ↦ rw different (elim (Bool-cases (text_beq key other')) [
    | inl here ↦
        let apart : text_beq id other' ≡ false = apart key id other' different here in
        rw (here, apart) refl
    | inr there ↦ rw there (count_of-bump id other' groups)
  ])
]

-- An occurrence before the election.
abbrev pub IsFresh : Election.Occurrence → Type 0
IsFresh o =
    ((id : Text) × (o.canonical_id ≡ some id)
      × (o.outcome ≡ Election.pending)
      × (Election.is_authored o.node_kind ≡ true))
    ⊎ ((o.canonical_id ≡ none) × (o.outcome ≡ Election.refused))

unfoldable pub IsAssembled : Election.Assembly → Type 0
IsAssembled a =
    ((id : Text) → Election.count_of a.groups id ≡ named id a.occurrences)
    × All IsFresh a.occurrences

push_rejected-IsAssembled :
    (path spec_slug : Text) (offset : ℕ) (a : Election.Assembly)
    → IsAssembled a
    → IsAssembled (Election.push_rejected path spec_slug offset a)
unfolding IsAssembled
push_rejected-IsAssembled path spec_slug offset a (counts, fresh) = (
  (λ id. omega (arith, counts id, named-append id a.occurrences _)),
  All-append IsFresh a.occurrences _ fresh (inr (refl, refl), tt),
)

bumped :
    (id made : Text) (groups : Election.Groups) (os : List Election.Occurrence)
    (o : Election.Occurrence)
    → o.canonical_id ≡ some made
    → Election.count_of groups id ≡ named id os
    → Election.count_of (Election.bump made groups) id ≡ named id (os ++ o ∷ [])
bumped id made groups os o cid h =
    rw (count_of-bump made id groups, named-append id os (o ∷ []), cid)
      (elim (Bool-cases (text_beq made id)) [
        | inl here ↦ rw here (omega (arith, h))
        | inr there ↦ rw there (omega (arith, h))
      ])

push_candidate-IsAssembled :
    (path spec_slug local_id : Text) (kind : NodeKind) (title body : Text) (offset : ℕ)
    (a : Election.Assembly)
    → Election.is_authored (some kind) ≡ true
    → IsAssembled a
    → IsAssembled (Election.push_candidate path spec_slug local_id kind title body offset a)
unfolding IsAssembled
push_candidate-IsAssembled path spec_slug local_id kind title body offset a authored
      (counts, fresh) =
    (
      (λ id.
          bumped id (make_canonical_id spec_slug local_id) a.groups a.occurrences _ refl
            (counts id)),
      All-append IsFresh a.occurrences _ fresh
          (inl (make_canonical_id spec_slug local_id, refl, refl, authored), tt),
    )

-- The parser gives a definition the role of an authored node.
abbrev pub HasRole : Election.MarkdownDefinition → Type 0
HasRole d = Election.is_authored (some (role_kind d.role)) ≡ true

abbrev pub HasRoles : Election.ParsedDocument → Type 0
HasRoles (Election.markdown path spec_slug offsets definitions) = All HasRole definitions
HasRoles (Election.feature path spec_slug scenarios) = Unit

all_rejected-IsAssembled :
    (path spec_slug : Text) (offsets : List ℕ) (a : Election.Assembly)
    → IsAssembled a
    → IsAssembled (Election.push_all_rejected path spec_slug offsets a)
unfolding Election.push_all_rejected
all_rejected-IsAssembled path spec_slug [] a h = h
all_rejected-IsAssembled path spec_slug (offset ∷ offsets) a h =
    all_rejected-IsAssembled path spec_slug offsets _
      (push_rejected-IsAssembled path spec_slug offset a h)

definitions-IsAssembled :
    (path spec_slug : Text) (ds : List Election.MarkdownDefinition) (a : Election.Assembly)
    → All HasRole ds
    → IsAssembled a
    → IsAssembled (Election.push_definitions path spec_slug ds a)
unfolding Election.push_definitions
definitions-IsAssembled path spec_slug [] a roles h = h
definitions-IsAssembled path spec_slug (d ∷ ds) a (role, roles) h =
    definitions-IsAssembled path spec_slug ds _ roles (
      push_candidate-IsAssembled path spec_slug d.local_id (role_kind d.role) d.title d.body
        d.start_offset a role h)

scenario-IsAssembled :
    (path spec_slug : Text) (f : FinalScenario) (j : Judgement) (a : Election.Assembly)
    → IsAssembled a
    → IsAssembled (Election.push_scenario path spec_slug f j a)
scenario-IsAssembled path spec_slug f (rejected code) a h =
    push_rejected-IsAssembled path spec_slug f.scenario.name_line a h
scenario-IsAssembled path spec_slug f (identified local_id) a h =
    push_candidate-IsAssembled path spec_slug local_id NodeKind.scenario _ [] f.scenario.name_line a
      refl h

scenarios-IsAssembled :
    (path spec_slug : Text) (fs : List FinalScenario) (a : Election.Assembly)
    → IsAssembled a
    → IsAssembled (Election.push_scenarios path spec_slug fs a)
unfolding Election.push_scenarios
scenarios-IsAssembled path spec_slug [] a h = h
scenarios-IsAssembled path spec_slug (f ∷ fs) a h =
    scenarios-IsAssembled path spec_slug fs _
      (scenario-IsAssembled path spec_slug f f.judgement a h)

document-IsAssembled :
    (d : Election.ParsedDocument) (a : Election.Assembly)
    → HasRoles d
    → IsAssembled a
    → IsAssembled (Election.assemble_document d a)
unfolding Election.assemble_document
document-IsAssembled (Election.markdown path spec_slug offsets definitions) a roles h =
    definitions-IsAssembled path spec_slug definitions _ roles
      (all_rejected-IsAssembled path spec_slug offsets a h)
document-IsAssembled (Election.feature path spec_slug scenarios) a roles h =
    scenarios-IsAssembled path spec_slug scenarios a h

-- The groups count the occurrences of each ID, and every occurrence is fresh.
pub documents-IsAssembled :
    (ds : List Election.ParsedDocument) (a : Election.Assembly)
    → All HasRoles ds
    → IsAssembled a
    → IsAssembled (Election.assemble_documents ds a)
unfolding Election.assemble_documents
documents-IsAssembled [] a roles h = h
documents-IsAssembled (d ∷ ds) a (role, roles) h =
    documents-IsAssembled ds (Election.assemble_document d a) roles
      (document-IsAssembled d a role h)
