-- ===== src/Enforcement/Handler.antt =====
-- src/enforcement/adapter.js and src/enforcement/project-binding.js: the handler of tool calls and the
-- record of the workspace's project.
pub mod Selected
use omp_spec_kit.Prelude.{
  Text, text, text_beq, trim, Bool, true, false, not, ◌&&◌, ◌||◌, leb, nat_beq, Option, none, some,
  List, [], ◌∷◌, ◌++◌, if◌then◌else◌, all, split_on, join_with, Result, ok, err,
}
use omp_spec_kit.Enforcement.Values.{
  Value, undef, null, other, str, array, object, Entries, no_entry, entry, field_of,
}
use omp_spec_kit.Enforcement.Features.{Files, is_nullish}
use omp_spec_kit.Enforcement.Classify.{
  Call, Verdict, Block, blocked, allowed, continued, classify_tool_call,
}

abbrev pub is_identity_start : Text → Bool
is_identity_start [] = false
is_identity_start (c ∷ cs) =
    (leb 97 c && leb c 122) || (leb 65 c && leb c 90) || (leb 48 c && leb c 57)

abbrev pub is_identity_part : Text → Bool
is_identity_part part =
    is_identity_start part
    && all (λ c. is_identity_start (c ∷ []) || nat_beq c 46 || nat_beq c 95 || nat_beq c 45) part

abbrev pub are_identity_parts : List Text → Bool
are_identity_parts (owner ∷ (project ∷ [])) = is_identity_part owner && is_identity_part project
are_identity_parts _ = false

-- `isProjectIdentity` of a string.
unfoldable pub is_project_identity : Text → Bool
is_project_identity value = are_identity_parts (split_on 47 (trim value))

abbrev pub project_binding_schema : Text
project_binding_schema = text "omp-spec-kit/project-binding@1"

abbrev pub is_str : Value → Text → Bool
is_str (str t) expected = text_beq t expected
is_str _ expected = false

abbrev pub identity_of : Value → Option Text
identity_of (str t) = if is_project_identity t then some (trim t) else none
identity_of _ = none

abbrev pub bound_project : Option Value → Option Text
bound_project none = none
bound_project (some parsed) =
    if is_str (field_of parsed (text "schema")) project_binding_schema
    then identity_of (field_of parsed (text "project"))
    else none

-- `{ ...input, project }` of an input that is an object or absent.
unfoldable pub set_entry : Text → Value → Entries → Entries
set_entry name value no_entry = entry name value no_entry
set_entry name value (entry key old entries) =
    let rest = set_entry name value entries in
    if text_beq key name then entry key value entries else entry key old rest

abbrev pub with_project : Value → Text → Value
with_project (object entries) project = object (set_entry (text "project") (str project) entries)
with_project _ project = object (entry (text "project") (str project) no_entry)

pub data Handled : Type 0 where
  refused : Text → Handled
  passed : Handled
  replaced : Value → Handled

module _ (files : Files) (root : Text) where
  -- `projectBindingPath`
  unfoldable pub project_binding_path : Text
  project_binding_path =
      files.platform.join_path (files.platform.join_path root (text ".omp-spec-kit"))
        (text "project.json")

  abbrev pub parsed_file : Option Text → Option Text
  parsed_file none = none
  parsed_file (some content) = bound_project (files.parse_json content)

  -- `readProjectBinding`, the project of it.
  unfoldable pub read_project_binding : Option Text
  read_project_binding =
      if text_beq root []
      then none
      else if not (files.exists_file project_binding_path)
      then none
      else parsed_file (files.read_text project_binding_path)

  abbrev pub quote : Text → Text
  quote t = 34 ∷ (t ++ 34 ∷ [])

  -- `projectRequiredMessage`
  unfoldable pub project_required_message : Text
  project_required_message = join_with (10 ∷ []) (
      text "PROJECT_REQUIRED: this session's workspace has no project selection record."
      ∷ (text "Write "
          ++ (project_binding_path
              ++ (text " as {"
                  ++ (quote (text "schema")
                      ++ (text ":"
                          ++ (quote project_binding_schema
                              ++ (text ","
                                  ++ (quote (text "project")
                                      ++ (text ":"
                                          ++ (quote (text "owner/project")
                                              ++ text
                                                  "} (or run the installer with --project owner/project),"))))))))))
      ∷ (text "then bind the repository: spec_repo {"
          ++ (quote (text "action")
              ++ (text ":"
                  ++ (quote (text "bind")
                      ++ (text ","
                          ++ (quote (text "project")
                              ++ (text ":"
                                  ++ (quote (text "owner/project")
                                      ++ (text ","
                                          ++ (quote (text "repoUrl")
                                              ++ (text ":"
                                                  ++ (quote (text "<git-url>")
                                                      ++ (text ","
                                                          ++ (quote (text "token")
                                                            ++ (text ":"
                                                            ++ (quote (
                                                            text
                                                            "<fine-grained-pat-with-contents-rw>")
                                                            ++ text "}."))))))))))))))))
      ∷ [])

  abbrev pub with_binding : Value → Option Text → Handled
  with_binding input none = refused project_required_message
  with_binding input (some project) = replaced (with_project input project)

  abbrev pub after_verdict : Value → Verdict → Handled
  after_verdict input (blocked b) = refused b.reason
  after_verdict input (continued code) = passed
  after_verdict input (allowed logical_name) =
      if is_nullish (field_of input (text "project"))
      then with_binding input read_project_binding
      else passed

  -- The handler of `createSpecEnforcementHandler`; an explicit project, even a blank one, is left alone.
  unfoldable pub handle_tool_call : Call → Handled
  handle_tool_call call = after_verdict call.input (classify_tool_call files root call)
