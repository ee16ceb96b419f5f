-- ===== src/Enforcement/Features.antt =====
-- src/enforcement/classifier.js: whether a patch touches scenarios and so needs a design review. The file
-- system is a parameter.
use omp_spec_kit.Prelude.{
  Text, text, text_eq, text_beq, Bool, true, false, not, ◌&&◌, ◌||◌, Option, none, some, List, [],
  ◌∷◌, ◌++◌, if◌then◌else◌, includes, split_on, ends_with,
}
use omp_spec_kit.Kernel.Identity.{is_valid_spec_slug}
use omp_spec_kit.Kernel.Gherkin.{has_scenario_header}
use omp_spec_kit.Enforcement.Values.{
  Value, undef, null, str, array, Elements, no_element, element, field_of, string_or_empty,
}
use omp_spec_kit.Enforcement.Paths.{Platform}

-- `readFileSync(p, "utf8")` and `readdirSync(p)`, `none` where they throw, `existsSync` and `JSON.parse`.
pub record Files : Type 0 where
  pub platform : Platform
  pub read_text : Text → Option Text
  pub list_names : Text → Option (List Text)
  pub exists_file : Text → Bool
  pub parse_json : Text → Option Value

-- `hasGherkinScenarioHeader` of a text.
abbrev pub has_header : Text → Bool
has_header t = has_scenario_header (split_on 10 t)

abbrev pub is_nullish : Value → Bool
is_nullish undef = true
is_nullish null = true
is_nullish _ = false

abbrev pub or_else : Value → Value → Value
or_else value fallback = if is_nullish value then fallback else value

abbrev pub feature_content : Value → Bool
feature_content (str t) = has_header t
feature_content _ = false

abbrev pub is_byte_op : Value → Bool
is_byte_op (str kind) =
    includes
      (text "delete_document"
        ∷ text "rename_document"
        ∷ text "deleteDocument"
        ∷ text "renameDocument"
        ∷ [])
      kind
is_byte_op _ = false

abbrev pub document_of_op : Value → Value → Text
document_of_op (str t) doc = t
document_of_op _ doc = string_or_empty doc

abbrev pub intent_of : Value → Text
intent_of (str t) = t
intent_of _ = text "patch"

module _ (files : Files) where
  abbrev pub spec_folder : Text → Text → Text
  spec_folder root spec =
      files.platform.join_path (files.platform.join_path root (text ".specs")) spec

  abbrev pub header_in : Text → Bool
  header_in file = elim (files.read_text file) [ none ↦ false | some t ↦ has_header t ]

  -- `featureFileHasScenario`
  unfoldable pub feature_file_has_scenario : Text → Text → Text → Bool
  feature_file_has_scenario root spec document =
      not (text_beq root [])
      && is_valid_spec_slug spec
      && text_beq document (spec ++ text ".feature")
      && header_in (files.platform.join_path (spec_folder root spec) document)

  -- The loop over the names of a folder; a file that cannot be read ends it.
  unfoldable pub scan_names : Text → Text → List Text → Bool
  scan_names folder spec [] = false
  scan_names folder spec (name ∷ names) =
      let rest = scan_names folder spec names in
      if text_beq name (spec ++ text ".feature")
      then elim (files.read_text (files.platform.join_path folder name)) [
        | none ↦ false
        | some t ↦ has_header t || rest
      ]
      else rest

  -- `specDirHasScenarioFeature`
  unfoldable pub spec_dir_has_scenario_feature : Text → Text → Bool
  spec_dir_has_scenario_feature root spec =
      not (text_beq root [])
      && is_valid_spec_slug spec
      && elim (files.list_names (spec_folder root spec)) [
        | none ↦ false
        | some names ↦ scan_names (spec_folder root spec) spec names
      ]

  abbrev pub is_feature_name : Text → Bool
  is_feature_name document = ends_with (files.platform.lower document) (text ".feature")

  unfoldable pub op_needs_review : Text → Text → Value → Bool
  op_needs_review root spec op =
      let document = document_of_op (field_of op (text "document")) (field_of op (text "doc")) in
      is_feature_name document
      && (feature_content (field_of op (text "content"))
          || feature_content (field_of op (text "text"))
          || feature_content (field_of op (text "newText"))
          || (is_byte_op (field_of op (text "kind"))
              && not (text_beq spec [])
              && feature_file_has_scenario root spec document))

  unfoldable pub ops_need_review : Text → Text → Elements → Bool
  ops_need_review root spec no_element = false
  ops_need_review root spec (element op ops) =
      op_needs_review root spec op || ops_need_review root spec ops

  abbrev pub operations_need_review : Text → Text → Value → Bool
  operations_need_review root spec (array ops) = ops_need_review root spec ops
  operations_need_review root spec _ = false

  -- `featurePatchNeedsDesignReview`
  unfoldable pub feature_patch_needs_design_review : Text → Value → Bool
  feature_patch_needs_design_review root input =
      let spec = string_or_empty (field_of input (text "spec")) in
      let intent = intent_of (field_of input (text "intent")) in
      let doc = string_or_empty (field_of input (text "doc")) in
      if not (
        is_nullish
          (or_else (field_of input (text "designReview")) (field_of input (text "design_review"))))
      then false
      else if text_beq intent (text "archiveSpec")
      then spec_dir_has_scenario_feature root spec
      else if text_beq intent (text "deleteSpecDoc") || text_beq intent (text "renameSpecDoc")
      then is_feature_name doc && feature_file_has_scenario root spec doc
      else operations_need_review root spec (field_of input (text "operations"))
