-- ===== src/Enforcement/Values.antt =====
-- src/enforcement/classifier.js: what JavaScript hands over as the input of a call, the texts in it that
-- name paths, and the references to the specification folder inside code.
use omp_spec_kit.Prelude.{
  ℕ, ◌+◌, Text, text, text_eq, text_beq, Bool, true, false, not, ◌&&◌, ◌||◌, leb, nat_beq, Option,
  none, some, List, [], ◌∷◌, ◌++◌, if◌then◌else◌, includes,
}

-- `other` stands for numbers, Booleans and functions.
mutual
  pub data Value : Type 0 where
    undef null other : Value
    str : Text → Value
    array : Elements → Value
    object : Entries → Value

  pub data Elements : Type 0 where
    no_element : Elements
    element : Value → Elements → Elements

  pub data Entries : Type 0 where
    no_entry : Entries
    entry : Text → Value → Entries → Entries

-- `value.name`, and `(value ?? {}).name`: a value without entries has no fields of its own.
unfoldable pub entry_of : Entries → Text → Value
entry_of no_entry name = undef
entry_of (entry key value entries) name =
    let rest = entry_of entries name in if text_beq key name then value else rest

abbrev pub field_of : Value → Text → Value
field_of (object entries) name = entry_of entries name
field_of _ name = undef

abbrev pub string_or_empty : Value → Text
string_or_empty (str t) = t
string_or_empty _ = []

abbrev pub is_path_key : Text → Bool
is_path_key key =
    includes
      (text "path"
        ∷ text "paths"
        ∷ text "file"
        ∷ text "files"
        ∷ text "document"
        ∷ text "documents"
        ∷ [])
      key

-- `textValues`: `key` is the name of the entry that the value stands under.
unfoldable mutual
  pub text_values : Text → Value → List Text
  text_values key undef = []
  text_values key null = []
  text_values key other = []
  text_values key (str t) = if is_path_key key || text_beq key [] then t ∷ [] else []
  text_values key (array elements) = element_texts key elements
  text_values key (object entries) = entry_texts entries

  pub element_texts : Text → Elements → List Text
  element_texts key no_element = []
  element_texts key (element value elements) = text_values key value ++ element_texts key elements

  pub entry_texts : Entries → List Text
  entry_texts no_entry = []
  entry_texts (entry name value entries) = text_values name value ++ entry_texts entries

-- `[a-z]` of an expression with the flags `iu`: case folding adds the long s and the Kelvin sign.
abbrev pub is_folded_letter : ℕ → Bool
is_folded_letter c =
    (leb 97 c && leb c 122) || (leb 65 c && leb c 90) || nat_beq c 0x17f || nat_beq c 0x212a

abbrev pub is_folded_alnum : ℕ → Bool
is_folded_alnum c = is_folded_letter c || (leb 48 c && leb c 57)

-- The case-insensitive prefix `.specs`, and what follows it.
abbrev pub folds_to : ℕ → ℕ → Bool
folds_to letter c =
    nat_beq c letter
    || (leb 97 letter && leb letter 122 && nat_beq (c + 32) letter)
    || (nat_beq letter 115 && nat_beq c 0x17f)

unfoldable pub strip_folded : Text → Text → Option Text
strip_folded [] t = some t
strip_folded (p ∷ ps) [] = none
strip_folded (p ∷ ps) (c ∷ cs) =
    let rest = strip_folded ps cs in if folds_to p c then rest else none

abbrev pub is_boundary : Text → Bool
is_boundary [] = true
is_boundary (c ∷ cs) = not (is_folded_alnum c)

abbrev pub names_specs : Text → Bool
names_specs t = elim (strip_folded (text ".specs") t) [
  | none ↦ false
  | some rest ↦ is_boundary rest
]

-- SPEC_PATH_REFERENCE; `open_left` says that the text begins here or the unit before is no letter or digit.
unfoldable pub references_specs : Bool → Text → Bool
references_specs open_left [] = false
references_specs open_left (c ∷ cs) =
    (open_left && names_specs (c ∷ cs)) || references_specs (not (is_folded_alnum c)) cs

abbrev pub is_code_key : Text → Bool
is_code_key key = text_beq key (text "code") || text_beq key (text "command")

-- `hasEmbeddedSpecReference`
unfoldable mutual
  pub has_embedded : Text → Value → Bool
  has_embedded key undef = false
  has_embedded key null = false
  has_embedded key other = false
  has_embedded key (str t) = is_code_key key && references_specs true t
  has_embedded key (array elements) = element_embedded key elements
  has_embedded key (object entries) = entry_embedded entries

  pub element_embedded : Text → Elements → Bool
  element_embedded key no_element = false
  element_embedded key (element value elements) =
      has_embedded key value || element_embedded key elements

  pub entry_embedded : Entries → Bool
  entry_embedded no_entry = false
  entry_embedded (entry name value entries) = has_embedded name value || entry_embedded entries
