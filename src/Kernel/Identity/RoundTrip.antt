-- ===== src/Kernel/Identity/RoundTrip.antt =====
-- Canonical IDs are split into the parts that they were made of.
use omp_spec_kit.Prelude.{
  ℕ, suc, ◌+◌, Text, index_of, index_of-Free, index_of-append, true, false, ◌||◌, ◌≡◌, ◌≢◌, ◌⊎◌,
  refl, some, [], ◌∷◌, ◌++◌, length, length-append, take, take-append, take-append-drop, drop,
  index_of_sound, arith, Option-cases, Bool-cases, inl, inr, starts_with, strip_prefix, append-nil,
  sym, ◌∙◌,
}
use omp_spec_kit.Kernel.Identity.{
  is_valid_spec_slug, is_valid_local_id, is_generated_local_id, local_id_role, matches_role,
  first_role, make_canonical_id, SplitId, local_part, accept_split, split_at, split_canonical_id,
}
use omp_spec_kit.Kernel.Identity.Grammar.{
  is_valid_spec_slug-Free, is_valid_spec_slug-ne-nil, is_valid_local_id-Free,
}

-- A local ID that a canonical ID may carry.
abbrev pub IsLocal : Text → Type 0
IsLocal local = (is_valid_local_id local || is_generated_local_id local) ≡ true

IsLocal-ne-nil : (local : Text) → IsLocal local → local ≢ []
unfolding is_valid_local_id local_id_role first_role matches_role is_generated_local_id starts_with
    strip_prefix
IsLocal-ne-nil [] h = absurd (cc)
IsLocal-ne-nil (c ∷ cs) h = cc

drop_past : (s : Text) (c : ℕ) (r : Text) → drop (length s + 1) (s ++ c ∷ r) ≡ r
drop_past [] c r = refl
drop_past (x ∷ xs) c r =
    let e : length xs + 1 ≡ suc (length xs) = omega arith in ground (arith, drop_past xs c r, e)

local_part-of-IsLocal : (local : Text) → IsLocal local → local_part local ≡ local
unfolding local_part
local_part-of-IsLocal local h = elim (Bool-cases (is_generated_local_id local)) [
  | inl generated ↦ ground arith
  | inr authored ↦
      rw (index_of-Free b':' local (is_valid_local_id-Free local (ground arith)), local_part) refl
]

accept_split_of_IsLocal :
    (slug local : Text)
    → is_valid_spec_slug slug ≡ true
    → IsLocal local
    → accept_split slug local ≡ some (record { spec_slug = slug; local_id = local })
unfolding accept_split
accept_split_of_IsLocal slug local valid h = rw (valid, h) refl

length-ne-zero : (t : Text) → t ≢ [] → length t ≢ 0
length-ne-zero [] h = absurd (h refl)
length-ne-zero (c ∷ cs) h = omega arith

split_at-make :
    (slug local : Text)
    → slug ≢ []
    → local ≢ []
    → local_part local ≡ local
    → split_at (slug ++ b':' ∷ local) (length slug) ≡ accept_split slug local
unfolding split_at
split_at-make slug local h k e =
    rw
      (
        take-append slug (b':' ∷ local),
        drop_past slug b':' local,
        e,
        length-append slug (b':' ∷ local),
      )
      (ground (arith, length-ne-zero slug h, length-ne-zero local k))

-- Splitting the canonical ID made of a valid slug and of a valid or generated local ID gives both
-- back, also where a generated local ID contains further colons.
pub split-make :
    (slug local : Text)
    → is_valid_spec_slug slug ≡ true
    → IsLocal local
    → split_canonical_id (make_canonical_id slug local)
      ≡ some (record { spec_slug = slug; local_id = local })
unfolding make_canonical_id split_canonical_id
split-make slug local valid h =
    rw (index_of-append b':' slug local (is_valid_spec_slug-Free slug valid), split_canonical_id)
      (split_at-make slug local (is_valid_spec_slug-ne-nil slug valid) (IsLocal-ne-nil local h)
          (local_part-of-IsLocal local h)
        ∙ accept_split_of_IsLocal slug local valid h)

accept_split_sound :
    (slug local : Text) (r : SplitId)
    → accept_split slug local ≡ some r
    → (is_valid_spec_slug slug ≡ true)
      × IsLocal local
      × (r ≡ record { spec_slug = slug; local_id = local })
unfolding accept_split
accept_split_sound slug local r h = ground arith

local_part-prefix :
    (rest : Text)
    → (tail : Text) × (rest ≡ local_part rest ++ tail)
      × ((tail ≡ []) ⊎ (is_generated_local_id rest ≡ false))
unfolding local_part
local_part-prefix rest = elim (Option-cases (index_of b':' rest)) [
  | inl free ↦ ([], rw (free, local_part) (sym (append-nil rest)), inl refl)
  | inr (i, e) ↦ elim (Bool-cases (is_generated_local_id rest)) [
    | inl generated ↦ ([], rw (e, generated, local_part) (sym (append-nil rest)), inl refl)
    | inr authored ↦
        (drop i rest, rw (e, authored, local_part) (sym (take-append-drop i rest)), inr authored)
  ]
]

split_at_sound :
    (id : Text) (index : ℕ) (r : SplitId)
    → split_at id index ≡ some r
    → accept_split (take index id) (local_part (drop (index + 1) id)) ≡ some r
unfolding split_at
split_at_sound id index r h = ground arith

-- What is split has a valid slug and a valid or generated local ID, and is made of both, followed by
-- text that is ignored; after a generated local ID nothing is ignored.
pub split_sound :
    (id : Text) (r : SplitId)
    → split_canonical_id id ≡ some r
    → (is_valid_spec_slug r.spec_slug ≡ true)
      × IsLocal r.local_id
      × (tail : Text) × (id ≡ make_canonical_id r.spec_slug (r.local_id ++ tail))
      × ((tail ≡ []) ⊎ (is_generated_local_id (r.local_id ++ tail) ≡ false))
unfolding split_canonical_id make_canonical_id
split_sound id r h = elim (Option-cases (index_of b':' id)) [
  | inl free ↦ absurd (cc (rw (free, split_canonical_id) at h))
  | inr (i, e) ↦
      let (valid, local, same) =
        accept_split_sound (take i id) (local_part (drop (i + 1) id)) r
          (split_at_sound id i r (rw (e, split_canonical_id) at h)) in
      let (tail, whole, ending) = local_part-prefix (drop (i + 1) id) in
      rw same (valid, local, tail, rw (← whole) (index_of_sound b':' id i e), rw (← whole) ending)
]
