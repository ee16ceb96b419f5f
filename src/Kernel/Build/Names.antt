-- ===== src/Kernel/Build/Names.antt =====
-- src/kernel/graph/build.js: which file names are documents of a specification; `normalizePublicPath` of
-- src/kernel/identity.js.
use omp_spec_kit.Prelude.{
  Text, text, text_beq, starts_with, Bool, true, false, not, ◌&&◌, ◌||◌, leb, nat_beq, Option, none,
  some, is_some, List, [], ◌∷◌, ◌++◌, if◌then◌else◌, any, map, split_on, contains_text, ends_with,
  ◌≡◌, ◌↔◌, refl,
}
use omp_spec_kit.Kernel.Documents.{DocumentKind, fixed_document_file}

-- `Object.keys(FIXED_DOCUMENT_FILES)`, in the order of the table.
abbrev pub fixed_kinds : List DocumentKind
fixed_kinds =
    DocumentKind.readme ∷ DocumentKind.user_stories ∷ DocumentKind.use_cases ∷ DocumentKind.research
    ∷ DocumentKind.requirements ∷ DocumentKind.functional_requirements
    ∷ DocumentKind.non_functional_requirements ∷ DocumentKind.acceptance_criteria
    ∷ DocumentKind.design ∷ DocumentKind.tasks ∷ DocumentKind.file_changes ∷ DocumentKind.changelog
    ∷ DocumentKind.fixtures ∷ DocumentKind.roadmap ∷ []

abbrev pub is_file_of : Text → DocumentKind → Bool
is_file_of filename kind = elim (fixed_document_file kind) [
  | none ↦ false
  | some file ↦ text_beq file filename
]

unfoldable pub first_kind : List DocumentKind → Text → Option DocumentKind
first_kind [] filename = none
first_kind (kind ∷ kinds) filename =
    if is_file_of filename kind then some kind else first_kind kinds filename

-- `fixedDocumentKind`
unfoldable pub fixed_document_kind : Text → Option DocumentKind
fixed_document_kind filename = first_kind fixed_kinds filename

pub data NameMatch : Type 0 where
  exact case_variant unrelated : NameMatch

abbrev pub is_feature_file : Text → Text → Bool
is_feature_file filename spec_slug = text_beq filename (spec_slug ++ text ".feature")

abbrev pub is_schema_file : Text → Text → Bool
is_schema_file filename spec_slug = text_beq filename (spec_slug ++ text "_SCHEMA.md")

abbrev pub varies_from : (Text → Text) → Text → DocumentKind → Bool
varies_from lower filename kind = elim (fixed_document_file kind) [
  | none ↦ false
  | some file ↦ text_beq (lower filename) (lower file) && not (text_beq filename file)
]

-- `canonicalNameMatches`; `lower` is `toLowerCase`.
unfoldable pub canonical_name_matches : (Text → Text) → Text → Text → NameMatch
canonical_name_matches lower filename spec_slug =
    if is_some (fixed_document_kind filename)
    then exact
    else if is_feature_file filename spec_slug || is_schema_file filename spec_slug
    then exact
    else if any (varies_from lower filename) fixed_kinds
    then case_variant
    else if text_beq (lower filename) (lower (spec_slug ++ text ".feature"))
        || text_beq (lower filename) (lower (spec_slug ++ text "_schema.md"))
    then case_variant
    else unrelated

abbrev pub kind_or : Option DocumentKind → Option DocumentKind → Option DocumentKind
kind_or (some kind) other = some kind
kind_or none other = other

-- `deriveDocumentKind`
unfoldable pub derive_document_kind : Text → Text → Option DocumentKind
derive_document_kind filename spec_slug = kind_or (fixed_document_kind filename) (
    if is_feature_file filename spec_slug
    then some DocumentKind.feature
    else if is_schema_file filename spec_slug
    then some DocumentKind.schema
    else none)

exact-cases :
    (o : Option DocumentKind) (feature' schema' varies differs : Bool)
    → (is_some (
          kind_or o (
            if feature'
            then some DocumentKind.feature
            else if schema'
            then some DocumentKind.schema
            else none))
        ≡ true)
      ↔ ((if is_some o
            then exact
            else if feature' || schema'
            then exact
            else if varies
            then case_variant
            else if differs
            then case_variant
            else unrelated)
          ≡ exact)
exact-cases (some kind) feature' schema' varies differs = ((λ h. refl), (λ h. refl))
exact-cases none true schema' varies differs = ((λ h. refl), (λ h. refl))
exact-cases none false true varies differs = ((λ h. refl), (λ h. refl))
exact-cases none false false true differs = ((λ h. absurd (cc)), (λ h. absurd (cc)))
exact-cases none false false false true = ((λ h. absurd (cc)), (λ h. absurd (cc)))
exact-cases none false false false false = ((λ h. absurd (cc)), (λ h. absurd (cc)))

-- A file name gives a document kind exactly if it is the exact name of a document.
pub derive_document_kind-exact :
    (lower : Text → Text) (filename spec_slug : Text)
    → (is_some (derive_document_kind filename spec_slug) ≡ true)
      ↔ (canonical_name_matches lower filename spec_slug ≡ exact)
unfolding derive_document_kind canonical_name_matches
derive_document_kind-exact lower filename spec_slug =
    exact-cases (fixed_document_kind filename) _ _ (any (varies_from lower filename) fixed_kinds) _

abbrev pub has_drive_prefix : Text → Bool
has_drive_prefix (a ∷ (b ∷ (c ∷ rest))) =
    ((leb 65 a && leb a 90) || (leb 97 a && leb a 122))
    && nat_beq b 58
    && (nat_beq c 47 || nat_beq c 92)
has_drive_prefix _ = false

abbrev pub is_bad_segment : Text → Bool
is_bad_segment segment =
    text_beq segment []
    || text_beq segment (text ".")
    || text_beq segment (text "..")
    || any (λ c. leb c 31) segment

abbrev pub checked_path : Text → Option Text
checked_path replaced =
    if starts_with replaced (text "/") || ends_with replaced (text "/")
    then none
    else if contains_text replaced (text "//")
    then none
    else if any is_bad_segment (split_on 47 replaced)
    then none
    else some replaced

-- `normalizePublicPath`; `nfc` is the platform's normal form. `none` stands for what is no string.
unfoldable pub normalize_public_path : (Text → Text) → Option Text → Option Text
normalize_public_path nfc none = none
normalize_public_path nfc (some input_path) =
    if text_beq input_path [] || has_drive_prefix (nfc input_path)
    then none
    else checked_path (map (λ c. if nat_beq c 92 then 47 else c) (nfc input_path))
