-- ===== src/Service/Projects/Segments.antt =====
-- What a valid project id is made of.
use omp_spec_kit.Prelude.{
  ℕ, ◌+◌, Text, Free, index_of, index_of_sound, true, ◌≡◌, none, some, [], ◌∷◌, ◌++◌, take, drop,
  arith, Option-cases, inl, inr,
}
use omp_spec_kit.Service.Projects.{
  ends_segment, is_segment, check_slash, project_id_error, is_valid_project_id,
}

ends_segment-Free : (t : Text) → ends_segment t ≡ true → Free 47 t
unfolding ends_segment
ends_segment-Free [] h = tt
ends_segment-Free (c ∷ []) h = ((λ e. ground arith), tt)
ends_segment-Free (c ∷ d ∷ cs) h = ((λ e. ground arith), ends_segment-Free (d ∷ cs) (ground arith))

is_segment-Free : (t : Text) → is_segment t ≡ true → Free 47 t
is_segment-Free [] h = tt
is_segment-Free (c ∷ []) h = ((λ e. ground arith), tt)
is_segment-Free (c ∷ d ∷ cs) h = ((λ e. ground arith), ends_segment-Free (d ∷ cs) (ground arith))

check_slash_sound :
    (id : Text) (slash : ℕ)
    → check_slash id (some slash) ≡ none
    → (is_segment (take slash id) ≡ true) × (is_segment (drop (slash + 1) id) ≡ true)
check_slash_sound id slash h = ground arith

-- A valid project id is an owner and a project with one slash between them: both parts are segments, and
-- neither contains a slash.
is_valid_project_id_sound :
    (id : Text)
    → is_valid_project_id id ≡ true
    → (owner project : Text) × (id ≡ owner ++ 47 ∷ project)
      × (is_segment owner ≡ true)
      × (is_segment project ≡ true)
      × Free 47 owner
      × Free 47 project
unfolding is_valid_project_id project_id_error
is_valid_project_id_sound id h = elim (Option-cases (index_of 47 id)) [
  | inl none' ↦ absurd (cc (rw (none', project_id_error, is_valid_project_id) at h))
  | inr (slash, e) ↦ elim (Option-cases (check_slash id (some slash))) [
    | inr (error, bad) ↦ absurd (cc (rw (e, bad, project_id_error, is_valid_project_id) at h))
    | inl fine ↦
        let (owner, project) = check_slash_sound id slash fine in
        (
          take slash id,
          drop (slash + 1) id,
          index_of_sound 47 id slash e,
          owner,
          project,
          is_segment-Free (take slash id) owner,
          is_segment-Free (drop (slash + 1) id) project,
        )
  ]
]
