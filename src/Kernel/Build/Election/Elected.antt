-- ===== src/Kernel/Build/Election/Elected.antt =====
-- Which IDs elect a node: those that the documents define once.
use omp_spec_kit.Prelude.{
  ℕ, ◌+◌, Text, text_eq, text_beq, text_beq_iff, Bool, true, false, ◌&&◌, ◌||◌, leb, Option, none,
  some, List, [], ◌∷◌, ◌++◌, if◌then◌else◌, ◌≡◌, ◌↔◌, inl, inr, refl, ap, ◌∙◌, All, Bool-cases,
  arith, append_assoc, append-nil,
}
use omp_spec_kit.Kernel.Identity.{make_canonical_id}
use omp_spec_kit.Kernel.Gherkin.Scenarios.{FinalScenario, rejected, identified, Judgement}
use omp_spec_kit.Kernel.Build.Election
use omp_spec_kit.Kernel.Build.Election.Assembled.{
  named, named-append, IsFresh, IsAssembled, HasRoles, documents-IsAssembled,
}
use omp_spec_kit.Kernel.Build.Election.Counted.{has_key, start-IsAssembled}

-- The definitions of an ID in the documents, as their parsers give them.
abbrev pub in_markdown : Text → Text → List Election.MarkdownDefinition → ℕ
in_markdown id spec_slug [] = 0
in_markdown id spec_slug (d ∷ ds) =
    (if text_beq (make_canonical_id spec_slug d.local_id) id then 1 else 0)
    + in_markdown id spec_slug ds

abbrev pub by_judgement : Text → Text → Judgement → ℕ
by_judgement id spec_slug (rejected code) = 0
by_judgement id spec_slug (identified local_id) =
    if text_beq (make_canonical_id spec_slug local_id) id then 1 else 0

abbrev pub in_scenarios : Text → Text → List FinalScenario → ℕ
in_scenarios id spec_slug [] = 0
in_scenarios id spec_slug (f ∷ fs) =
    by_judgement id spec_slug f.judgement + in_scenarios id spec_slug fs

abbrev pub definitions_of : Text → List Election.ParsedDocument → ℕ
definitions_of id [] = 0
definitions_of id (Election.markdown path spec_slug offsets definitions ∷ documents) =
    in_markdown id spec_slug definitions + definitions_of id documents
definitions_of id (Election.feature path spec_slug scenarios ∷ documents) =
    in_scenarios id spec_slug scenarios + definitions_of id documents

-- The assembly adds an occurrence for each definition.
module _ (id path spec_slug : Text) where
  named-offsets :
      (offsets : List ℕ) (a : Election.Assembly)
      → named id (Election.push_all_rejected path spec_slug offsets a).occurrences
        ≡ named id a.occurrences
  unfolding Election.push_all_rejected
  named-offsets [] a = refl
  named-offsets (offset ∷ offsets) a =
      named-offsets offsets (Election.push_rejected path spec_slug offset a)
      ∙ named-append id a.occurrences _
      ∙ omega arith

  named-one :
      (made : Text) (os : List Election.Occurrence) (o : Election.Occurrence)
      → o.canonical_id ≡ some made
      → named id (os ++ o ∷ []) ≡ named id os + (if text_beq made id then 1 else 0)
  named-one made os o h =
      named-append id os (o ∷ [])
      ∙ rw h (elim (Bool-cases (text_beq made id)) [
        | inl same ↦ rw same refl
        | inr other ↦ rw other refl
      ])

  named-definitions :
      (ds : List Election.MarkdownDefinition) (a : Election.Assembly)
      → named id (Election.push_definitions path spec_slug ds a).occurrences
        ≡ named id a.occurrences + in_markdown id spec_slug ds
  unfolding Election.push_definitions
  named-definitions [] a = omega arith
  named-definitions (d ∷ ds) a = omega (
    arith,
    named-definitions ds _,
    named-one (make_canonical_id spec_slug d.local_id) a.occurrences _ refl,
  )

  named-scenario :
      (f : FinalScenario) (j : Judgement) (a : Election.Assembly)
      → named id (Election.push_scenario path spec_slug f j a).occurrences
        ≡ named id a.occurrences + by_judgement id spec_slug j
  named-scenario f (rejected code) a = named-append id a.occurrences _
  named-scenario f (identified local_id) a =
      named-one (make_canonical_id spec_slug local_id) a.occurrences _ refl

  named-scenarios :
      (fs : List FinalScenario) (a : Election.Assembly)
      → named id (Election.push_scenarios path spec_slug fs a).occurrences
        ≡ named id a.occurrences + in_scenarios id spec_slug fs
  unfolding Election.push_scenarios
  named-scenarios [] a = omega arith
  named-scenarios (f ∷ fs) a = omega (arith, named-scenarios fs _, named-scenario f f.judgement a)

named-documents :
    (id : Text) (ds : List Election.ParsedDocument) (a : Election.Assembly)
    → named id (Election.assemble_documents ds a).occurrences
      ≡ named id a.occurrences + definitions_of id ds
unfolding Election.assemble_documents Election.assemble_document
named-documents id [] a = omega arith
named-documents id (Election.markdown path spec_slug offsets definitions ∷ ds) a = omega (
  arith,
  named-documents id ds _,
  named-definitions id path spec_slug definitions
      (Election.push_all_rejected path spec_slug offsets a),
  named-offsets id path spec_slug offsets a,
)
named-documents id (Election.feature path spec_slug scenarios ∷ ds) a =
    omega (arith, named-documents id ds _, named-scenarios id path spec_slug scenarios a)

-- The election puts exactly the IDs of single occurrences.
has_key-put :
    (id k : Text) (o : Election.Occurrence) (es : List (Text × Election.Occurrence))
    → has_key k (Election.put_candidate id o es) ≡ (text_beq id k || has_key k es)
unfolding Election.put_candidate
has_key-put id k o [] = refl
has_key-put id k o ((key, old) ∷ es) = elim (Bool-cases (text_beq key id)) [
  | inl same ↦ rw (same, (text_beq_iff key id).0 same) (ground arith)
  | inr other' ↦ rw other' (ground (arith, has_key-put id k o es))
]

-- After the occurrences `seen`.
abbrev chosen : Election.Groups → List Election.Occurrence → Text → Bool
chosen groups seen k = leb 1 (named k seen) && leb (Election.count_of groups k) 1

module _ (groups : Election.Groups) (k : Text) where
  pending-chosen :
      (seen : List Election.Occurrence) (o : Election.Occurrence) (b : Election.Ballot) (id : Text)
      (outcome : Election.Outcome) (key : Option Text)
      → outcome ≡ Election.pending
      → key ≡ some id
      → o.canonical_id ≡ some id
      → has_key k b.candidates ≡ chosen groups seen k
      → has_key k (Election.elect_one groups o outcome key b).candidates
        ≡ chosen groups (seen ++ o ∷ []) k
  pending-chosen seen o b id outcome key out same cid h =
      let one = named-one k [] [] id seen o cid in
      rw (out, same)
        (elim (Bool-cases (text_beq id k)) [
          | inl here ↦
              let e : id ≡ k = (text_beq_iff id k).0 here in
              elim (Bool-cases (leb 2 (Election.count_of groups id))) [
                | inl many ↦ rw many (
                    let many' : leb 2 (Election.count_of groups k) ≡ true = rw e at many in
                    ground (arith, h, many'))
                | inr single ↦
                    rw (single, has_key-put id k _ b.candidates, here)
                      (let single' : leb 2 (Election.count_of groups k) ≡ false = rw e at single in
                        ground (arith, one, here, single'))
              ]
          | inr there ↦ elim (Bool-cases (leb 2 (Election.count_of groups id))) [
            | inl many ↦ rw many (ground (arith, h, one, there))
            | inr single ↦
                rw (single, has_key-put id k _ b.candidates, there) (ground (arith, h, one, there))
          ]
        ])

  refused-chosen :
      (seen : List Election.Occurrence) (o : Election.Occurrence) (b : Election.Ballot)
      (outcome : Election.Outcome) (key : Option Text)
      → outcome ≡ Election.refused
      → o.canonical_id ≡ none
      → has_key k b.candidates ≡ chosen groups seen k
      → has_key k (Election.elect_one groups o outcome key b).candidates
        ≡ chosen groups (seen ++ o ∷ []) k
  refused-chosen seen o b outcome key out cid h =
      let none' : named k (o ∷ []) ≡ 0 = rw cid refl in
      rw out (ground (arith, h, named-append k seen (o ∷ []), none'))

  one-chosen :
      (seen : List Election.Occurrence) (o : Election.Occurrence) (b : Election.Ballot)
      → IsFresh o
      → has_key k b.candidates ≡ chosen groups seen k
      → has_key k (Election.elect_one groups o o.outcome o.canonical_id b).candidates
        ≡ chosen groups (seen ++ o ∷ []) k
  one-chosen seen o b (inl (id, cid, out, authored)) h =
      pending-chosen seen o b id o.outcome o.canonical_id out cid cid h
  one-chosen seen o b (inr (cid, out)) h =
      refused-chosen seen o b o.outcome o.canonical_id out cid h

  elect-chosen :
      (os seen : List Election.Occurrence) (b : Election.Ballot)
      → All IsFresh os
      → has_key k b.candidates ≡ chosen groups seen k
      → has_key k (Election.elect groups os b).candidates ≡ chosen groups (seen ++ os) k
  unfolding Election.elect
  elect-chosen [] seen b fresh h = rw append-nil h
  elect-chosen (o ∷ os) seen b (first, fresh) h =
      elect-chosen os (seen ++ o ∷ []) (Election.elect_one groups o o.outcome o.canonical_id b)
        fresh (one-chosen seen o b first h)
      ∙ ap (λ t. chosen groups t k) (append_assoc seen (o ∷ []) os)

assembled-chosen :
    (a : Election.Assembly) (id : Text)
    → IsAssembled a
    → (has_key id (Election.elect a.groups a.occurrences Election.no_ballot).candidates ≡ true)
      ↔ (named id a.occurrences ≡ 1)
unfolding IsAssembled
assembled-chosen a id (counts, fresh) =
    let total = counts id in
    let e = elect-chosen a.groups id a.occurrences [] Election.no_ballot fresh refl in
    ((λ h. ground (arith, e, h, total)), (λ h. e ∙ ground (arith, h, total)))

-- Whatever documents are parsed, if no definition of them has the role of a roadmap: a canonical ID has an
-- elected definition exactly if the documents define it once. So a definition that has a duplicate anywhere is
-- never elected, and one without is never lost.
pub elect_definitions-elected_iff :
    (documents : List Election.ParsedDocument) (id : Text)
    → All HasRoles documents
    → (has_key id (Election.elect_definitions documents).candidates ≡ true)
      ↔ (definitions_of id documents ≡ 1)
unfolding Election.elect_definitions
elect_definitions-elected_iff documents id roles =
    let a = Election.assemble_documents documents Election.empty_assembly in
    let counted = named-documents id documents Election.empty_assembly in
    let (there, back) =
      assembled-chosen a id
        (documents-IsAssembled documents Election.empty_assembly roles start-IsAssembled) in
    ((λ h. omega (arith, there h, counted)), (λ h. back (omega (arith, h, counted))))
