-- ===== src/Kernel/Gherkin/Traces.antt =====
-- What the tags of a scenario make of it: its local ID and its trace references.
use omp_spec_kit.Prelude.{
  ℕ, ◌≤◌, ◌<◌, Text, text, text_eq, strip_prefix, strip_prefix-eq-some, starts_with-eq-append, drop,
  Bool, true, false, Option, none, some, List, [], ◌∷◌, ◌++◌, if◌then◌else◌, filter, ◌≡◌, ◌⊎◌, inl,
  inr, refl, ap, sym, ◌∙◌, All, All-append, Bool-cases, Option-cases, arith,
}
use omp_spec_kit.Kernel.Types.{NodeKind, EdgeType}
use omp_spec_kit.Kernel.Identity.{
  is_valid_spec_slug, is_positive, is_dotted, local_id_kind, local_id_role, first_role,
  matches_role, role_suffix,
}
use omp_spec_kit.Kernel.Gherkin.Scenarios.{
  TagEntry, TraceRef, is_id_tag, is_scen_id, judge, judge_id, rejected, identified, feature_ref,
  is_ac_tag_ref, is_qualified_tag, plain_trace, trace_of, trace_refs_of,
}

-- Identities of the three forms have the kinds that they say.
fr_kind :
    (number : Text)
    → is_positive number ≡ true
    → local_id_kind (text "FR-" ++ number) ≡ some NodeKind.functional_requirement
unfolding local_id_kind local_id_role first_role matches_role role_suffix strip_prefix
fr_kind number h = rw (h, local_id_kind, local_id_role, first_role) refl

ac_kind :
    (rest : Text)
    → is_dotted rest ≡ true
    → local_id_kind (text "AC-" ++ rest) ≡ some NodeKind.acceptance_criterion
unfolding local_id_kind local_id_role first_role matches_role role_suffix strip_prefix
ac_kind rest h = rw (h, local_id_kind, local_id_role, first_role) refl

scen_kind :
    (rest : Text)
    → is_valid_spec_slug rest ≡ true
    → local_id_kind (text "SCEN-" ++ rest) ≡ some NodeKind.scenario
unfolding local_id_kind local_id_role first_role matches_role role_suffix strip_prefix
scen_kind rest h = rw (h, local_id_kind, local_id_role, first_role) refl

abbrev pub InRange : ℕ → TagEntry → Type 0
InRange n entry = (1 ≤ entry.line) × (entry.line ≤ n)

-- A trace reference stands on a line of the document; it asks for a test of a requirement or a criterion,
-- or it is a reference.
abbrev pub AsksTest : TraceRef → Type 0
AsksTest ref =
    (ref.requested_edge_type ≡ EdgeType.tested_by)
    × ((local_id_kind ref.raw_target ≡ some NodeKind.functional_requirement)
        ⊎ (local_id_kind ref.raw_target ≡ some NodeKind.acceptance_criterion))

abbrev pub IsTrace : ℕ → TraceRef → Type 0
IsTrace n ref = (ref.at_line < n) × (AsksTest ref ⊎ (ref.requested_edge_type ≡ EdgeType.refs))

feature_ref-number :
    (tag number target : Text)
    → (if is_positive number then some (text "FR-" ++ number) else none) ≡ some target
    → local_id_kind target ≡ some NodeKind.functional_requirement
feature_ref-number tag number target h = elim (Bool-cases (is_positive number)) [
  | inl good ↦
      let h' : some (text "FR-" ++ number) ≡ some target = rw good at h in
      let same : text "FR-" ++ number ≡ target = cc in rw (← same) (fr_kind number good)
  | inr bad ↦ absurd (let h' : none ≡ some target = rw bad at h in cc)
]

feature_ref-kind :
    (tag target : Text)
    → feature_ref tag ≡ some target
    → local_id_kind target ≡ some NodeKind.functional_requirement
unfolding feature_ref
feature_ref-kind tag target h = elim (Option-cases (strip_prefix (text "feature") tag)) [
  | inl other ↦ absurd (let h' : none ≡ some target = rw (other, feature_ref) at h in cc)
  | inr (number, e) ↦ feature_ref-number tag number target (rw (e, feature_ref) at h)
]

ac_tag-kind :
    (tag : Text) → is_ac_tag_ref tag ≡ true → local_id_kind tag ≡ some NodeKind.acceptance_criterion
unfolding is_ac_tag_ref
ac_tag-kind tag h = elim (Option-cases (strip_prefix (text "AC-") tag)) [
  | inl other ↦ absurd (let h' : false ≡ true = rw (other, is_ac_tag_ref) at h in cc)
  | inr (rest, e) ↦
      rw (strip_prefix-eq-some (text "AC-") tag rest e) (ac_kind rest (rw (e, is_ac_tag_ref) at h))
]

plain_trace-IsTrace :
    (n : ℕ) (entry : TagEntry) (o : Option Text)
    → InRange n entry
    → o ≡ feature_ref entry.tag
    → All (IsTrace n) (plain_trace entry o)
plain_trace-IsTrace n entry (some target) (low, high) h =
    ((omega arith, inl (refl, inl (feature_ref-kind entry.tag target (sym h)))), tt)
plain_trace-IsTrace n entry none (low, high) h = elim (Bool-cases (is_ac_tag_ref entry.tag)) [
  | inl ac ↦ rw ac ((omega arith, inl (refl, inr (ac_tag-kind entry.tag ac))), tt)
  | inr no_ac ↦ rw no_ac (elim (Bool-cases (is_qualified_tag entry.tag)) [
    | inl qualified ↦ rw qualified ((omega arith, inr refl), tt)
    | inr plain ↦ rw plain tt
  ])
]

trace_of-IsTrace : (n : ℕ) (entry : TagEntry) → InRange n entry → All (IsTrace n) (trace_of entry)
unfolding trace_of
trace_of-IsTrace n entry h = elim (Bool-cases (is_id_tag entry)) [
  | inl id ↦ rw id tt
  | inr other ↦ rw other (plain_trace-IsTrace n entry (feature_ref entry.tag) h refl)
]

pub trace_refs_of-IsTrace :
    (n : ℕ) (entries : List TagEntry)
    → All (InRange n) entries
    → All (IsTrace n) (trace_refs_of entries)
unfolding trace_refs_of
trace_refs_of-IsTrace n [] h = tt
trace_refs_of-IsTrace n (entry ∷ entries) (h, hs) =
    All-append (IsTrace n) (trace_of entry) (trace_refs_of entries) (trace_of-IsTrace n entry h)
      (trace_refs_of-IsTrace n entries hs)

-- Of the tags exactly one begins with `id:`, and it gives a valid ID of a scenario.
unfoldable pub IsNamed : List TagEntry → Text → Type 0
IsNamed tags local_id =
    (entry : TagEntry) × (filter is_id_tag tags ≡ entry ∷ [])
    × (entry.tag ≡ text "id:" ++ local_id)
    × (local_id_kind local_id ≡ some NodeKind.scenario)

filter-All {ℓ} : {A : Type ℓ} (p : A → Bool) (xs : List A) → All (λ x. p x ≡ true) (filter p xs)
filter-All p [] = tt
filter-All p (x ∷ xs) = elim (Bool-cases (p x)) [
  | inl kept ↦ rw kept (kept, filter-All p xs)
  | inr gone ↦ rw gone (filter-All p xs)
]

scen_id-kind : (t : Text) → is_scen_id t ≡ true → local_id_kind t ≡ some NodeKind.scenario
unfolding is_scen_id
scen_id-kind t h = elim (Option-cases (strip_prefix (text "SCEN-") t)) [
  | inl other ↦ absurd (let h' : false ≡ true = rw (other, is_scen_id) at h in cc)
  | inr (rest, e) ↦
      rw (strip_prefix-eq-some (text "SCEN-") t rest e) (scen_kind rest (rw (e, is_scen_id) at h))
]

judge_id-identified :
    (t local_id : Text) → judge_id t ≡ identified local_id → (t ≡ local_id) × (is_scen_id t ≡ true)
judge_id-identified t local_id h = elim (Bool-cases (is_scen_id t)) [
  | inl good ↦ let h' : identified t ≡ identified local_id = rw good at h in (cc, good)
  | inr bad ↦ absurd (let h' : rejected _ ≡ identified local_id = rw bad at h in cc)
]

judge-named :
    (ids : List TagEntry) (local_id : Text)
    → All (λ e. is_id_tag e ≡ true) ids
    → judge ids ≡ identified local_id
    → (entry : TagEntry) × (ids ≡ entry ∷ [])
      × (entry.tag ≡ text "id:" ++ local_id)
      × (local_id_kind local_id ≡ some NodeKind.scenario)
unfolding judge
judge-named [] local_id h k = absurd (cc)
judge-named (entry ∷ []) local_id (h, _) k =
    let (rest, split) = starts_with-eq-append entry.tag (text "id:") h in
    let (same, good) = judge_id-identified (drop 3 entry.tag) local_id k in
    let cut : drop 3 entry.tag ≡ rest = ap (λ t. drop 3 t) split in
    let here : rest ≡ local_id = sym cut ∙ same in
    (
      entry,
      refl,
      split ∙ ap (λ t. text "id:" ++ t) here,
      rw (← same) (scen_id-kind (drop 3 entry.tag) good),
    )
judge-named (entry ∷ (next ∷ entries)) local_id h k = absurd (cc)

-- A scenario that gets a local ID is named by exactly one of its tags.
pub judge-IsNamed :
    (tags : List TagEntry) (local_id : Text)
    → judge (filter is_id_tag tags) ≡ identified local_id
    → IsNamed tags local_id
unfolding IsNamed
judge-IsNamed tags local_id h =
    judge-named (filter is_id_tag tags) local_id (filter-All is_id_tag tags) h
