-- ===== src/Enforcement/Handler/Selected.antt =====
-- What the handler lets a call run with.
use omp_spec_kit.Prelude.{
  Text, text, text_beq, text_beq_refl, trim, Bool, true, false, Option, none, some, [], not, All,
  split_on, ◌≡◌, refl, inl, inr, ◌⊎◌, ◌||◌, includes, text_eq, Bool-cases,
}
use omp_spec_kit.Enforcement.Values.{
  Value, str, array, object, undef, null, other, Entries, no_entry, entry, entry_of, field_of,
}
use omp_spec_kit.Enforcement.Features.{Files, is_nullish}
use omp_spec_kit.Enforcement.Classify.{
  Call, Verdict, blocked, allowed, continued, classify_tool_call,
}
use omp_spec_kit.Enforcement.Authority.{tool_names, family_has}
use omp_spec_kit.Enforcement.Values.{text_values, has_embedded}
use omp_spec_kit.Enforcement.Classify.{family_a, family_b, read_targets}
use omp_spec_kit.Enforcement.Classify.FailClosed.{IsElsewhere, classify_tool_call-continued}
use omp_spec_kit.Enforcement.Handler.{
  is_project_identity, identity_of, bound_project, set_entry, with_project, passed, replaced,
  read_project_binding, are_identity_parts, is_str, project_binding_schema, project_binding_path,
  parsed_file, with_binding, after_verdict, handle_tool_call,
}

entry_of-set_entry :
    (name : Text) (value : Value) (entries : Entries)
    → entry_of (set_entry name value entries) name ≡ value
unfolding set_entry entry_of
entry_of-set_entry name value no_entry = rw (text_beq_refl name) refl
entry_of-set_entry name value (entry key old entries) = elim (Bool-cases (text_beq key name)) [
  | inl same ↦ rw (same, set_entry) (rw (same, entry_of) refl)
  | inr other' ↦
      rw (other', set_entry) (rw (other', entry_of) (entry_of-set_entry name value entries))
]

field_of-with_project :
    (input : Value) (project : Text)
    → field_of (with_project input project) (text "project") ≡ str project
unfolding entry_of text_beq
field_of-with_project undef project = refl
field_of-with_project null project = refl
field_of-with_project other project = refl
field_of-with_project (str t) project = refl
field_of-with_project (array es) project = refl
field_of-with_project (object entries) project =
    entry_of-set_entry (text "project") (str project) entries

-- `owner/project`, both of the letters of a registry identity.
abbrev pub IsIdentity : Text → Type 0
IsIdentity project = are_identity_parts (split_on 47 project) ≡ true

identity_of-some : (v : Value) (project : Text) → identity_of v ≡ some project → IsIdentity project
unfolding is_project_identity
identity_of-some (str t) project h = elim (Bool-cases (is_project_identity t)) [
  | inl valid ↦
      let h' : some (trim t) ≡ some project = rw valid at h in
      let same : trim t ≡ project = cc in rw (← same) valid
  | inr bad ↦ absurd (let h' : none ≡ some project = rw bad at h in cc)
]
identity_of-some undef project h = absurd (cc)
identity_of-some null project h = absurd (cc)
identity_of-some other project h = absurd (cc)
identity_of-some (array es) project h = absurd (cc)
identity_of-some (object es) project h = absurd (cc)

bound_project-some :
    (o : Option Value) (project : Text) → bound_project o ≡ some project → IsIdentity project
bound_project-some none project h = absurd (cc)
bound_project-some (some v) project h =
    elim (Bool-cases (is_str (field_of v (text "schema")) project_binding_schema)) [
      | inl right ↦ identity_of-some (field_of v (text "project")) project (rw right at h)
      | inr wrong ↦ absurd (let h' : none ≡ some project = rw wrong at h in cc)
    ]

module _ (files : Files) (root : Text) where
  parsed_file-some :
      (o : Option Text) (project : Text)
      → parsed_file files root o ≡ some project
      → IsIdentity project
  parsed_file-some none project h = absurd (cc)
  parsed_file-some (some content) project h =
      bound_project-some (files.parse_json content) project h

  read_project_binding-some :
      (project : Text) → read_project_binding files root ≡ some project → IsIdentity project
  unfolding read_project_binding
  read_project_binding-some project h = elim (Bool-cases (text_beq root [])) [
    | inl empty ↦ absurd (let h' : none ≡ some project = rw empty at h in cc)
    | inr given ↦ elim (Bool-cases (not (files.exists_file (project_binding_path files root)))) [
      | inl absent ↦ absurd (let h' : none ≡ some project = rw (given, absent) at h in cc)
      | inr there ↦ parsed_file-some _ project (rw (given, there) at h)
    ]
  ]

  with_binding-replaced :
      (o : Option Text) (input input' : Value)
      → with_binding files root input o ≡ replaced input'
      → (project : Text) × (o ≡ some project) × (field_of input' (text "project") ≡ str project)
  with_binding-replaced none input input' h = absurd (cc)
  with_binding-replaced (some project) input input' h =
      let same : with_project input project ≡ input' = cc in
      (project, refl, rw (← same) (field_of-with_project input project))

  -- What the input that is run instead has.
  abbrev pub Selects : Value → Value → Type 0
  Selects input input' =
      (is_nullish (field_of input (text "project")) ≡ true)
      × ((project : Text) × (read_project_binding files root ≡ some project)
          × (field_of input' (text "project") ≡ str project)
          × IsIdentity project)

  after-replaced :
      (input input' : Value) (v : Verdict)
      → after_verdict files root input v ≡ replaced input'
      → ((logical_name : Text) × (v ≡ allowed logical_name)) × Selects input input'
  after-replaced input input' (blocked b) h = absurd (cc)
  after-replaced input input' (continued b) h = absurd (cc)
  after-replaced input input' (allowed name) h =
      elim (Bool-cases (is_nullish (field_of input (text "project")))) [
        | inl absent ↦
            let h' : with_binding files root input (read_project_binding files root)
                ≡ replaced input' =
              rw absent at h in
            let (project, bound, chosen) = with_binding-replaced _ input input' h' in
            (
              (name, refl),
              (absent, (project, bound, chosen, read_project_binding-some project bound)),
            )
        | inr explicit ↦ absurd (let h' : passed ≡ replaced input' = rw explicit at h in cc)
      ]

  -- A call runs with another input only if it is a call of an authoring tool that selects no project of its
  -- own; the other input then selects the project of the workspace's record, which has the form
  -- `owner/project`.
  pub handle_tool_call-replaced :
      (call : Call) (input : Value)
      → handle_tool_call files root call ≡ replaced input
      → ((logical_name : Text) × (classify_tool_call files root call ≡ allowed logical_name))
        × Selects call.input input
  unfolding handle_tool_call
  handle_tool_call-replaced call input h = after-replaced call.input input _ h

  binding-ne-passed :
      (input : Value) (o : Option Text) → with_binding files root input o ≡ passed → ⊥
  binding-ne-passed input none h = cc
  binding-ne-passed input (some project) h = cc

  after-passed :
      (input : Value) (v : Verdict)
      → after_verdict files root input v ≡ passed
      → ((b : Bool) × (v ≡ continued b))
        ⊎ ((logical_name : Text) × (v ≡ allowed logical_name)
            × (is_nullish (field_of input (text "project")) ≡ false))
  after-passed input (blocked b) h = absurd (cc)
  after-passed input (continued b) h = inl (b, refl)
  after-passed input (allowed name) h =
      elim (Bool-cases (is_nullish (field_of input (text "project")))) [
        | inl absent ↦
            absurd (binding-ne-passed input (read_project_binding files root) (rw absent at h))
        | inr explicit ↦ inr (name, refl, explicit)
      ]

  -- A call passes as it is only if one of two holds. Either it is none of an authoring tool, under its short
  -- name or a name of a family, its input names the folder of specifications in no code and no command, and
  -- every path in it leads elsewhere than to that folder; or it is an allowed call of an authoring tool that
  -- selects a project of its own.
  pub handle_tool_call-passed :
      (call : Call)
      → handle_tool_call files root call ≡ passed
      → ((includes tool_names call.tool_name ≡ false)
          × ((family_has family_a call.tool_name || family_has family_b call.tool_name) ≡ false)
          × (has_embedded [] call.input ≡ false)
          × All
              (IsElsewhere files root)
              (read_targets files root call.tool_name (text_values [] call.input)))
        ⊎ ((logical_name : Text) × (classify_tool_call files root call ≡ allowed logical_name)
            × (is_nullish (field_of call.input (text "project")) ≡ false))
  unfolding handle_tool_call
  handle_tool_call-passed call h = elim (after-passed call.input _ h) [
    | inl (b, verdict) ↦ inl (classify_tool_call-continued files root call b verdict)
    | inr explicit ↦ inr explicit
  ]
