-- ===== src/Kernel/Build/Election/Counted.antt =====
-- Every definition occurrence ends as one elected node, as an ambiguous or as a rejected one.
use omp_spec_kit.Prelude.{
  suc, ◌+◌, ◌≤◌, Text, text_eq, text_beq, text_beq_refl, length, length-append, Bool, true, false,
  ◌||◌, leb, Option, some, List, [], ◌∷◌, ◌++◌, filter, ◌≡◌, inl, inr, refl, sym, ap, ◌∙◌, All,
  All-append, Bool-cases, arith, add_unique, append_assoc,
}
use omp_spec_kit.Kernel.Build.Election
use omp_spec_kit.Kernel.Build.Election.Assembled.{
  named, named-append, IsFresh, IsAssembled, HasRoles, documents-IsAssembled,
}

abbrev pub has_key : Text → List (Text × Election.Occurrence) → Bool
has_key id [] = false
has_key id ((key, o) ∷ entries) = text_beq key id || has_key id entries

has_key-append :
    (id : Text) (es ds : List (Text × Election.Occurrence))
    → has_key id (es ++ ds) ≡ (has_key id es || has_key id ds)
has_key-append id [] ds = refl
has_key-append id ((key, o) ∷ es) ds = ground (arith, has_key-append id es ds)

-- A candidate under a new ID comes last.
put_candidate-new :
    (id : Text) (o : Election.Occurrence) (es : List (Text × Election.Occurrence))
    → has_key id es ≡ false
    → Election.put_candidate id o es ≡ es ++ (id, o) ∷ []
unfolding Election.put_candidate
put_candidate-new id o [] h = refl
put_candidate-new id o ((key, old) ∷ es) h = elim (Bool-cases (text_beq key id)) [
  | inl same ↦ absurd (ground arith)
  | inr other' ↦ rw other' (ap (λ t. (key, old) ∷ t) (put_candidate-new id o es (rw other' at h)))
]

filter-length-append {ℓ} :
    {A : Type ℓ} (p : A → Bool) (xs ys : List A)
    → length (filter p (xs ++ ys)) ≡ length (filter p xs) + length (filter p ys)
filter-length-append p [] ys = omega arith
filter-length-append p (x ∷ xs) ys = elim (Bool-cases (p x)) [
  | inl kept ↦ rw kept (omega (arith, filter-length-append p xs ys))
  | inr gone ↦ rw gone (filter-length-append p xs ys)
]

filter-length-All {ℓ} :
    {A : Type ℓ} (p : A → Bool) (xs : List A)
    → All (λ x. p x ≡ true) xs
    → length (filter p xs) ≡ length xs
filter-length-All p [] h = refl
filter-length-All p (x ∷ xs) (h, hs) = rw h (ap suc (filter-length-All p xs hs))

-- Every judged occurrence is a candidate, ambiguous or rejected.
abbrev pub IsConserved : Election.Ballot → Type 0
IsConserved b =
    length b.judged
    ≡ length b.candidates
      + Election.ambiguous_occurrences b.judged
      + Election.rejected_occurrences b.judged

-- The candidate is the only occurrence of its ID, and no generated node.
abbrev IsSingle : Election.Groups → Text × Election.Occurrence → Type 0
IsSingle groups (id, o) =
    (Election.count_of groups id ≤ 1) × (Election.is_authored o.node_kind ≡ true)

-- After the occurrences `seen`.
abbrev pub IsJudged : Election.Groups → List Election.Occurrence → Election.Ballot → Type 0
IsJudged groups seen b =
    IsConserved b
    × All (IsSingle groups) b.candidates
    × ((id : Text) → named id seen ≡ 0 → has_key id b.candidates ≡ false)

module _ (groups : Election.Groups) (seen : List Election.Occurrence)
    (o : Election.Occurrence) where
  seen_before : (id : Text) → named id (seen ++ o ∷ []) ≡ 0 → named id seen ≡ 0
  seen_before id h = omega (arith, h, named-append id seen (o ∷ []))

  ambiguous-IsJudged :
      (id : Text) (b : Election.Ballot)
      → IsJudged groups seen b
      → IsJudged groups (seen ++ o ∷ []) (record b {
        judged = b.judged ++ Election.with_outcome Election.ambiguous o ∷ [];
        processed = add_unique b.processed id;
      })
  unfolding Election.ambiguous_occurrences Election.rejected_occurrences
  ambiguous-IsJudged id b (conserved, single, fresh) = (
    omega (
      arith,
      conserved,
      length-append b.judged (Election.with_outcome Election.ambiguous o ∷ []),
      filter-length-append (λ q. Election.is_ambiguous q.outcome) b.judged
          (Election.with_outcome Election.ambiguous o ∷ []),
      filter-length-append (λ q. Election.is_refused q.outcome) b.judged
          (Election.with_outcome Election.ambiguous o ∷ []),
    ),
    single,
    (λ k h. fresh k (seen_before k h)),
  )

  refused-IsJudged :
      (b : Election.Ballot)
      → o.outcome ≡ Election.refused
      → IsJudged groups seen b
      → IsJudged groups (seen ++ o ∷ []) (Election.keep_outcome o b)
  unfolding Election.ambiguous_occurrences Election.rejected_occurrences
  refused-IsJudged b refused (conserved, single, fresh) =
      let one : length (filter (λ q. Election.is_refused q.outcome) (o ∷ [])) ≡ 1 =
        rw refused refl in
      let zero' : length (filter (λ q. Election.is_ambiguous q.outcome) (o ∷ [])) ≡ 0 =
        rw refused refl in
      (
        omega (
          arith,
          conserved,
          one,
          zero',
          length-append b.judged (o ∷ []),
          filter-length-append (λ q. Election.is_ambiguous q.outcome) b.judged (o ∷ []),
          filter-length-append (λ q. Election.is_refused q.outcome) b.judged (o ∷ []),
        ),
        single,
        (λ k h. fresh k (seen_before k h)),
      )

  unique-IsJudged :
      (id : Text) (b : Election.Ballot)
      → o.canonical_id ≡ some id
      → Election.is_authored o.node_kind ≡ true
      → Election.count_of groups id ≤ 1
      → named id seen ≡ 0
      → IsJudged groups seen b
      → IsJudged groups (seen ++ o ∷ []) (record b {
        judged = b.judged ++ Election.with_outcome Election.unique o ∷ [];
        candidates =
            Election.put_candidate id (Election.with_outcome Election.unique o) b.candidates;
      })
  unfolding Election.ambiguous_occurrences Election.rejected_occurrences
  unique-IsJudged id b cid authored once absent (conserved, single, fresh) =
      let elected = Election.with_outcome Election.unique o in
      let added : Election.put_candidate id elected b.candidates
          ≡ b.candidates ++ (id, elected) ∷ [] =
        put_candidate-new id elected b.candidates (fresh id absent) in
      rw added (
        omega (
          arith,
          conserved,
          length-append b.judged (elected ∷ []),
          length-append b.candidates ((id, elected) ∷ []),
          filter-length-append (λ q. Election.is_ambiguous q.outcome) b.judged (elected ∷ []),
          filter-length-append (λ q. Election.is_refused q.outcome) b.judged (elected ∷ []),
        ),
        All-append (IsSingle groups) b.candidates _ single ((once, authored), tt),
        (λ k h.
            rw (has_key-append k b.candidates ((id, elected) ∷ []), fresh k (seen_before k h))
              (key-absent k h)),
      )
    where
      key-absent :
          (k : Text) → named k (seen ++ o ∷ []) ≡ 0 → (false || (text_beq id k || false)) ≡ false
      key-absent k h = elim (Bool-cases (text_beq id k)) [
        | inl here ↦ absurd (
            let one : named k (o ∷ []) ≡ 1 = rw (cid, here) refl in
            omega (arith, h, one, named-append k seen (o ∷ [])))
        | inr there ↦ rw there refl
      ]

named-here :
    (id : Text) (seen os : List Election.Occurrence) (o : Election.Occurrence)
    → o.canonical_id ≡ some id
    → named id (seen ++ o ∷ os) ≡ named id seen + suc (named id os)
named-here id seen os o cid =
    let one : named id (o ∷ os) ≡ suc (named id os) = rw (cid, text_beq_refl id) refl in
    named-append id seen (o ∷ os) ∙ ap (λ n. named id seen + n) one

-- Two steps of the election, with the outcome and the ID of the occurrence apart from it.
pending-IsJudged :
    (groups : Election.Groups) (seen os : List Election.Occurrence) (o : Election.Occurrence)
    (b : Election.Ballot) (id : Text) (outcome : Election.Outcome) (key : Option Text)
    → outcome ≡ Election.pending
    → key ≡ some id
    → o.canonical_id ≡ some id
    → Election.is_authored o.node_kind ≡ true
    → Election.count_of groups id ≡ named id seen + suc (named id os)
    → IsJudged groups seen b
    → IsJudged groups (seen ++ o ∷ []) (Election.elect_one groups o outcome key b)
pending-IsJudged groups seen os o b id outcome key out same cid authored total h =
    rw (out, same)
      (elim (Bool-cases (leb 2 (Election.count_of groups id))) [
        | inl many ↦ rw many (ambiguous-IsJudged groups seen o id b h)
        | inr single ↦ rw single (
            unique-IsJudged groups seen o id b cid authored (ground arith) (ground (arith, total))
              h)
      ])

rejected-IsJudged :
    (groups : Election.Groups) (seen : List Election.Occurrence) (o : Election.Occurrence)
    (b : Election.Ballot) (outcome : Election.Outcome) (key : Option Text)
    → outcome ≡ Election.refused
    → o.outcome ≡ Election.refused
    → IsJudged groups seen b
    → IsJudged groups (seen ++ o ∷ []) (Election.elect_one groups o outcome key b)
rejected-IsJudged groups seen o b outcome key out own h =
    rw out (refused-IsJudged groups seen o b own h)

elect_one-IsJudged :
    (groups : Election.Groups) (seen os : List Election.Occurrence) (o : Election.Occurrence)
    (b : Election.Ballot)
    → ((id : Text) → Election.count_of groups id ≡ named id (seen ++ o ∷ os))
    → IsFresh o
    → IsJudged groups seen b
    → IsJudged groups (seen ++ o ∷ []) (Election.elect_one groups o o.outcome o.canonical_id b)
elect_one-IsJudged groups seen os o b counts (inl (id, cid, out, authored)) h =
    pending-IsJudged groups seen os o b id o.outcome o.canonical_id out cid cid authored
      (counts id ∙ named-here id seen os o cid) h
elect_one-IsJudged groups seen os o b counts (inr (cid, out)) h =
    rejected-IsJudged groups seen o b o.outcome o.canonical_id out out h

elect-IsConserved :
    (groups : Election.Groups) (os seen : List Election.Occurrence) (b : Election.Ballot)
    → ((id : Text) → Election.count_of groups id ≡ named id (seen ++ os))
    → All IsFresh os
    → IsJudged groups seen b
    → IsConserved (Election.elect groups os b)
      × All (IsSingle groups) (Election.elect groups os b).candidates
unfolding Election.elect
elect-IsConserved groups [] seen b counts fresh h = (h.0, h.1)
elect-IsConserved groups (o ∷ os) seen b counts (first, fresh) h =
    elect-IsConserved groups os (seen ++ o ∷ [])
      (Election.elect_one groups o o.outcome o.canonical_id b)
      (λ k. counts k ∙ ap (λ t. named k t) (sym (append_assoc seen (o ∷ []) os))) fresh
      (elect_one-IsJudged groups seen os o b counts first h)

single-nodes :
    (groups : Election.Groups) (candidates : List (Text × Election.Occurrence))
    → All (IsSingle groups) candidates
    → Election.unique_definition_nodes candidates ≡ length candidates
unfolding Election.unique_definition_nodes
single-nodes groups [] h = refl
single-nodes groups (c ∷ cs) (h, hs) = rw h.1 (ap suc (single-nodes groups cs hs))

start-IsJudged : (groups : Election.Groups) → IsJudged groups [] Election.no_ballot
unfolding Election.ambiguous_occurrences Election.rejected_occurrences
start-IsJudged groups = (refl, tt, (λ k h. refl))

pub start-IsAssembled : IsAssembled Election.empty_assembly
unfolding IsAssembled Election.count_of
start-IsAssembled = ((λ id. refl), tt)

assembled-counts :
    (a : Election.Assembly)
    → IsAssembled a
    → IsConserved (Election.elect a.groups a.occurrences Election.no_ballot)
      × All
          (IsSingle a.groups)
          (Election.elect a.groups a.occurrences Election.no_ballot).candidates
unfolding IsAssembled
assembled-counts a (counts, fresh) =
    elect-IsConserved a.groups a.occurrences [] Election.no_ballot counts fresh
      (start-IsJudged a.groups)

-- Whatever documents are parsed, if no definition of them has the role of a roadmap: the definition
-- occurrences are as many as the elected nodes, the ambiguous and the rejected occurrences together, as
-- the invariants of the graph ask.
pub elect_definitions-conserved :
    (documents : List Election.ParsedDocument)
    → All HasRoles documents
    → length (Election.elect_definitions documents).judged
      ≡ Election.unique_definition_nodes (Election.elect_definitions documents).candidates
        + Election.ambiguous_occurrences (Election.elect_definitions documents).judged
        + Election.rejected_occurrences (Election.elect_definitions documents).judged
unfolding Election.elect_definitions
elect_definitions-conserved documents roles =
    let a = Election.assemble_documents documents Election.empty_assembly in
    let (conserved, single) =
      assembled-counts a
        (documents-IsAssembled documents Election.empty_assembly roles start-IsAssembled) in
    rw (single-nodes a.groups _ single) conserved
