-- ===== src/Kernel/Roadmap/Done.antt =====
-- When src/kernel/roadmap/assemble.js shows a requirement as done.
use omp_spec_kit.Prelude.{
  Text, text, text_beq, text_beq_iff, trim, true, false, Option, none, some, List, [], ◌∷◌, All,
  all, any, includes, ◌≡◌, ◌≢◌, ◌⊎◌, ◌↔◌, refl, inl, inr, Bool-cases, Option-cases, arith, &&-left,
  &&-right,
}
use omp_spec_kit.Kernel.Types.{NodeKind}
use omp_spec_kit.Kernel.Roadmap.{
  Graph, GraphNode, GraphEdge, ItemStatus, node_of, task_status, known_status, normalized_status,
  is_unknown, body_status, body_status?, is_done, derive_status,
}
use omp_spec_kit.Kernel.Roadmap.Status.{is_implementation, is_settled, derive_status-settled}

unknown-ne-done : text_beq (text "unknown") (text "done") ≡ false
unfolding text_beq
unknown-ne-done = refl

known_status-done :
    (t : Text) → is_done (known_status t) ≡ true → (t ≡ text "done") ⊎ (t ≡ text "completed")
known_status-done t h = elim (Bool-cases (text_beq t (text "completed"))) [
  | inl completed ↦ inr ((text_beq_iff t (text "completed")).0 completed)
  | inr other ↦ elim (Bool-cases (text_beq t (text "done"))) [
    | inl done ↦ inl ((text_beq_iff t (text "done")).0 done)
    | inr other' ↦ absurd (ground (arith, unknown-ne-done))
  ]
]

done-known_status :
    (t : Text) → (t ≡ text "done") ⊎ (t ≡ text "completed") → is_done (known_status t) ≡ true
unfolding text_beq includes
done-known_status t (inl e) = rw e refl
done-known_status t (inr e) = rw e refl

module _ (lower : Text → Text) where
  -- No attribute, an empty one or `unknown`.
  abbrev pub IsUnknown : Option Text → Type 0
  IsUnknown status =
      (status ≡ none)
      ⊎ ((raw : Text) × (status ≡ some raw) × ((raw ≡ []) ⊎ (lower (trim raw) ≡ text "unknown")))

  -- The status that a task gives: its attribute, or the line of its body where the attribute is unknown.
  abbrev pub HasStatus : GraphNode → Text → Type 0
  HasStatus n raw =
      ((n.status ≡ some raw) × (raw ≢ []) × (lower (trim raw) ≢ text "unknown"))
      ⊎ (IsUnknown n.status
          × ((body : Text) × (n.body ≡ some body) × (body_status body ≡ some raw)))

  -- The task says that it is `done` or `completed`, in any case and between blanks.
  abbrev pub IsDone : GraphNode → Type 0
  IsDone n =
      (raw : Text) × HasStatus n raw
      × ((lower (trim raw) ≡ text "done") ⊎ (lower (trim raw) ≡ text "completed"))

  -- The edge is no implementation of the node by a task, or one by a task that is done.
  abbrev pub IsSettled : Graph → Text → GraphEdge → Type 0
  IsSettled g id e =
      (is_implementation g id e ≡ false)
      ⊎ ((task : GraphNode) × (node_of g e.from ≡ some task) × IsDone task)

  is_unknown-some :
      (raw : Text)
      → raw ≢ []
      → lower (trim raw) ≢ text "unknown"
      → is_unknown lower (some raw) ≡ false
  is_unknown-some raw full known =
      ground (arith, text_beq_iff raw [], text_beq_iff (lower (trim raw)) (text "unknown"))

  IsUnknown-is_unknown : (o : Option Text) → IsUnknown o → is_unknown lower o ≡ true
  IsUnknown-is_unknown o (inl e) = rw e refl
  IsUnknown-is_unknown o (inr (raw, e, inl empty)) = rw (e, (text_beq_iff raw []).1 empty) refl
  IsUnknown-is_unknown o (inr (raw, e, inr says)) =
      let said = (text_beq_iff (lower (trim raw)) (text "unknown")).1 says in
      rw e (ground (arith, said))

  normalized-done :
      (o : Option Text)
      → is_done (normalized_status lower o) ≡ true
      → (raw : Text) × (o ≡ some raw)
        × ((lower (trim raw) ≡ text "done") ⊎ (lower (trim raw) ≡ text "completed"))
  normalized-done none h = absurd (ground (arith, unknown-ne-done))
  normalized-done (some raw) h = (raw, refl, known_status-done (lower (trim raw)) h)

  body-some :
      (o : Option Text) (raw : Text)
      → body_status? o ≡ some raw
      → (body : Text) × (o ≡ some body) × (body_status body ≡ some raw)
  body-some none raw h = absurd (cc)
  body-some (some body) raw h = (body, refl, h)

  is_unknown-IsUnknown : (o : Option Text) → is_unknown lower o ≡ true → IsUnknown o
  is_unknown-IsUnknown none h = inl refl
  is_unknown-IsUnknown (some raw) h = inr (
    raw,
    refl,
    elim (Bool-cases (text_beq raw [])) [
      | inl empty ↦ inl ((text_beq_iff raw []).0 empty)
      | inr full ↦ inr ((text_beq_iff (lower (trim raw)) (text "unknown")).0 (ground arith))
    ],
  )

  task_status-IsDone : (n : GraphNode) → (is_done (task_status lower n) ≡ true) ↔ IsDone n
  unfolding task_status
  task_status-IsDone n = (
    (λ h. elim (Bool-cases (is_unknown lower n.status)) [
      | inl unknown ↦
          let (raw, e, said) = normalized-done (body_status? n.body) (rw unknown at h) in
          (raw, inr (is_unknown-IsUnknown n.status unknown, body-some n.body raw e), said)
      | inr known ↦
          let (raw, e, said) = normalized-done n.status (rw known at h) in
          let known' : is_unknown lower (some raw) ≡ false = rw e at known in
          (
            raw,
            inl (
              e,
              (λ empty. let u = (text_beq_iff raw []).1 empty in ground arith),
              (λ says.
                  let u = (text_beq_iff (lower (trim raw)) (text "unknown")).1 says in
                  ground arith),
            ),
            said,
          )
    ]),
    (λ (raw, status, said).
        let result = done-known_status (lower (trim raw)) said in
        elim status [
          | inl (e, full, known) ↦ rw (e, is_unknown-some raw full known) result
          | inr (unknown, (body, b, line)) ↦
              rw (IsUnknown-is_unknown n.status unknown, b, line) result
        ]),
  )

  is_settled-IsSettled :
      (g : Graph) (id : Text) (e : GraphEdge) → (is_settled lower g id e ≡ true) ↔ IsSettled g id e
  unfolding is_settled is_implementation
  is_settled-IsSettled g id e = elim (Option-cases (node_of g e.from)) [
    | inl gone ↦ rw gone ((λ h. inl (ground arith)), (λ h. ground arith))
    | inr (task, there) ↦
        let (says, done) = task_status-IsDone task in
        (
          (λ h. elim (Bool-cases (is_implementation g id e)) [
            | inr other ↦ inl other
            | inl implements ↦ inr (task, there, says (ground arith))
          ]),
          (λ h. elim h [
            | inl other ↦ ground arith
            | inr (task', there', said) ↦
                let same : task' ≡ task = cc in
                let finished : is_done (task_status lower task) ≡ true = done (rw same at said) in
                ground arith
          ]),
        )
  ]

  all-All :
      (g : Graph) (id : Text) (es : List GraphEdge)
      → (all (is_settled lower g id) es ≡ true) ↔ All (IsSettled g id) es
  all-All g id [] = ((λ h. tt), (λ h. refl))
  all-All g id (e ∷ es) =
      let (there, back) = is_settled-IsSettled g id e in
      let (there', back') = all-All g id es in
      (
        (λ h. (there (&&-left _ _ h), there' (&&-right _ _ h))),
        (λ (h, hs). rw (back h, back' hs) refl),
      )

  -- A functional requirement is shown as done exactly if a task implements it and every task that
  -- implements it says that it is `done` or `completed`: in its attribute, or, where that is missing, empty
  -- or `unknown`, in the status line of its body.
  pub derive_status-done_iff :
      (g : Graph) (n : GraphNode)
      → n.kind ≡ NodeKind.functional_requirement
      → (derive_status lower g n ≡ ItemStatus.done) ↔ (
          (any (is_implementation g n.canonical_id) g.edges ≡ true)
          × All (IsSettled g n.canonical_id) g.edges)
  derive_status-done_iff g n kind =
      let (there, back) = derive_status-settled lower g n kind in
      let (every, all') = all-All g n.canonical_id g.edges in
      ((λ h. ((there h).0, every (there h).1)), (λ h. back (h.0, all' h.1)))
