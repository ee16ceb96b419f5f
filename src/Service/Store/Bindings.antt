-- ===== src/Service/Store/Bindings.antt =====
-- Repository bindings: one row for each project, read back as it was put.
use omp_spec_kit.Prelude.{
  ℕ, Text, text_beq, text_beq_iff, text_beq_refl, false, not, ◌≡◌, refl, Option, none, some, List,
  [], ◌∷◌, find, filter, arith, Bool-cases, inl, inr, if◌then◌else◌,
}
use omp_spec_kit.Service.Store.{
  Store, Field, absent, given, BindingRow, BindingEntry, upsert, binding_of, new_binding,
  assign_binding, put_binding, get_binding, delete_binding,
}

-- The row that a put leaves, from the row that was there.
abbrev put_row : BindingEntry → ℕ → Option BindingRow → BindingRow
put_row entry now none = new_binding entry now
put_row entry now (some old) = assign_binding entry now old

find-upsert :
    (entry : BindingEntry) (now : ℕ) (key : Text) (rows : List BindingRow)
    → find
        (binding_of key)
        (upsert (binding_of entry.project) (assign_binding entry now) (new_binding entry now) rows)
      ≡ (if text_beq entry.project key
          then some (put_row entry now (find (binding_of entry.project) rows))
          else find (binding_of key) rows)
unfolding upsert new_binding assign_binding
find-upsert entry now key [] = ground arith
find-upsert entry now key (row ∷ rows) = elim (Bool-cases (text_beq row.project entry.project)) [
  | inl same ↦ rw same (elim (Bool-cases (text_beq entry.project key)) [
    | inl here ↦ rw here refl
    | inr there ↦ rw ((text_beq_iff row.project entry.project).0 same, there) refl
  ])
  | inr other ↦ rw other (elim (Bool-cases (text_beq entry.project key)) [
    | inl here ↦
        let away : text_beq row.project key ≡ false =
          rw ((text_beq_iff entry.project key).0 here) at other in
        rw away (find-upsert entry now key rows)
    | inr there ↦ elim (Bool-cases (text_beq row.project key)) [
      | inl found ↦ rw (there, found) refl
      | inr passed ↦ rw (there, passed) (ground (arith, find-upsert entry now key rows, there))
    ]
  ])
]

find-filter :
    (project key : Text) (rows : List BindingRow)
    → find (binding_of key) (filter (λ row. not (binding_of project row)) rows)
      ≡ (if text_beq project key then none else find (binding_of key) rows)
find-filter project key [] = ground arith
find-filter project key (row ∷ rows) = elim (Bool-cases (text_beq row.project project)) [
  | inl same ↦
      rw ((text_beq_iff row.project project).0 same, text_beq_refl project)
        (elim (Bool-cases (text_beq project key)) [
          | inl here ↦ ground (arith, find-filter project key rows, here)
          | inr there ↦ ground (arith, find-filter project key rows, there)
        ])
  | inr other ↦ rw other (elim (Bool-cases (text_beq row.project key)) [
    | inl found ↦
        rw (← (text_beq_iff row.project key).0 found, text_beq_refl row.project)
          (ground (arith, text_beq_iff project row.project, other, text_beq_refl project))
    | inr passed ↦ rw passed (find-filter project key rows)
  ])
]

-- The branch that a project was migrated from, after a put.
abbrev pub kept_branch : Field → Option BindingRow → Option Text
kept_branch (given v) old = v
kept_branch absent none = none
kept_branch absent (some old) = old.migrated_from_branch

-- What the entry gives, or null where it leaves the field out.
abbrev pub given_or_null : Field → Option Text
given_or_null absent = none
given_or_null (given v) = v

put_row-fields :
    (entry : BindingEntry) (now : ℕ) (old : Option BindingRow)
    → put_row entry now old ≡ record {
      project = entry.project;
      repo_url = entry.repo_url;
      branch = entry.branch;
      status = entry.status;
      bound_by = given_or_null entry.bound_by;
      bound_at = given_or_null entry.bound_at;
      migrated_from = given_or_null entry.migrated_from;
      migrated_from_branch = kept_branch entry.migrated_from_branch old;
      last_error = given_or_null entry.last_error;
      updated_at = now;
    }
unfolding new_binding assign_binding
put_row-fields entry now none = ground arith
put_row-fields entry now (some old) = ground arith

-- A put is read back: the project's row has the project, the repository, the branch and the status of the
-- entry, each optional field of the entry or null where the entry leaves it out, and the time of the put; but
-- migrated_from_branch, where it is left out, keeps its value if the project has a row already. The row of
-- every other project is what it was.
pub get_binding-put_binding :
    (entry : BindingEntry) (now : ℕ) (key : Text) (s : Store)
    → get_binding key (put_binding entry now s) ≡ (
        if text_beq entry.project key
        then some (record {
          project = entry.project;
          repo_url = entry.repo_url;
          branch = entry.branch;
          status = entry.status;
          bound_by = given_or_null entry.bound_by;
          bound_at = given_or_null entry.bound_at;
          migrated_from = given_or_null entry.migrated_from;
          migrated_from_branch =
              kept_branch entry.migrated_from_branch (get_binding entry.project s);
          last_error = given_or_null entry.last_error;
          updated_at = now;
        })
        else get_binding key s)
unfolding put_binding get_binding
get_binding-put_binding entry now key s =
    rw (← put_row-fields entry now (find (binding_of entry.project) s.repo_bindings))
      (find-upsert entry now key s.repo_bindings)

-- A deletion removes the binding of its project and keeps every other.
get_binding-delete_binding :
    (project key : Text) (s : Store)
    → get_binding key (delete_binding project s)
      ≡ (if text_beq project key then none else get_binding key s)
unfolding delete_binding get_binding
get_binding-delete_binding project key s = find-filter project key s.repo_bindings
