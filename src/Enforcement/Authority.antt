-- ===== src/Enforcement/Authority.antt =====
-- src/enforcement/classifier.js and the names of src/adapters/tool-contracts.js: under which names the
-- host registers the tools, and whether the tools that it shows are one whole family of them.
pub mod Provenance
use omp_spec_kit.Prelude.{
  ℕ, zero, suc, ◌+◌, Text, text, text_eq, text_beq, starts_with, strip_prefix, length, take, Bool,
  true, false, not, ◌&&◌, ◌||◌, leb, nat_beq, Option, none, some, is_some, List, [], ◌∷◌, ◌++◌,
  if◌then◌else◌, map, Result, ok, err,
}
use Prim.Native.Nat.{◌/◌, ◌%◌}

-- The tools of TOOL_CONTRACTS.
abbrev pub tool_names : List Text
tool_names =
    text "mcp_preflight"
    ∷ text "spec_catalog"
    ∷ text "spec_entities"
    ∷ text "spec_graph"
    ∷ text "spec_documents"
    ∷ text "spec_inspect"
    ∷ text "spec_tasks"
    ∷ text "spec_evidence"
    ∷ text "spec_markdown"
    ∷ text "spec_patch"
    ∷ []

abbrev pub is_name_char : ℕ → Bool
is_name_char c = (leb 97 c && leb c 122) || (leb 65 c && leb c 90) || (leb 48 c && leb c 57)

-- Both replacements at once: what is no letter or digit, a dash or a line below, and a run of these, is
-- one line below. `in_run` says that the run has begun.
unfoldable pub sanitize_from : Bool → Text → Text
sanitize_from in_run [] = []
sanitize_from in_run (c ∷ cs) =
    let rest = sanitize_from (not (is_name_char c)) cs in
    if is_name_char c then c ∷ rest else if in_run then rest else 95 ∷ rest

unfoldable pub sanitize_part : Text → Text
sanitize_part part = sanitize_from false part

abbrev pub hex_digit : ℕ → ℕ
hex_digit d = if leb 10 d then d + 87 else d + 48

-- `Buffer.from(t).toString("hex")` of code units below 128.
unfoldable pub hex_of : Text → Text
hex_of [] = []
hex_of (c ∷ cs) = hex_digit (c / 16) ∷ hex_digit (c % 16) ∷ hex_of cs

abbrev pub without_prefix : Text → Text → Text
without_prefix prefix name = elim (strip_prefix prefix name) [ none ↦ name | some rest ↦ rest ]

unfoldable pub full_name : Text → Text → Text
full_name server tool =
    text "mcp__"
    ++ (sanitize_part server
        ++ (text "_" ++ without_prefix (sanitize_part server ++ text "_") (sanitize_part tool)))

unfoldable pub create_mcp_tool_name : Text → Text → Text
create_mcp_tool_name server tool =
    let name = full_name server tool in
    if leb (length name) 64 then name else take 56 name ++ (text "_" ++ take 7 (hex_of name))

-- A family: the names under which the host registers the tools, each with the tool.
abbrev pub Family : Type 0
Family = List (Text × Text)

unfoldable pub family_of : Text → List Text → Family
family_of server tools = map (λ tool. (create_mcp_tool_name server tool, tool)) tools

-- `Map.prototype.get`: the entry that was set last.
unfoldable pub family_get : Family → Text → Option Text
family_get [] name = none
family_get ((key, tool) ∷ family) name = elim (family_get family name) [
  | some later ↦ some later
  | none ↦ if text_beq key name then some tool else none
]

abbrev pub family_has : Family → Text → Bool
family_has family name = is_some (family_get family name)

-- A tool that the host shows; `none` stands for a field that is absent.
pub record ObservedTool : Type 0 where
  pub name : Text
  pub source : Option Text
  pub path : Option Text

pub data AuthorityError : Type 0 where
  not_authorized spoof_detected not_in_active_family : AuthorityError
  incomplete_family : ℕ → ℕ → ℕ → AuthorityError

abbrev pub is_text : Option Text → Text → Bool
is_text none t = false
is_text (some s) t = text_beq s t

unfoldable pub is_registered : ObservedTool → Bool
is_registered tool =
    is_text tool.source (text "mcp") && is_text tool.path (text "<mcp:" ++ (tool.name ++ text ">"))

abbrev pub tally : Bool → ℕ → ℕ
tally true n = suc n
tally false n = n

module _ (family_a family_b : Family) where
  unfoldable pub count_families : ℕ → ℕ → List ObservedTool → Option (ℕ × ℕ)
  count_families count_a count_b [] = some (count_a, count_b)
  count_families count_a count_b (tool ∷ tools) =
      let is_a = family_has family_a tool.name in
      let is_b = family_has family_b tool.name in
      let rest = count_families (tally is_a count_a) (tally is_b count_b) tools in
      if (is_a || is_b) && not (is_registered tool) then none else rest

  abbrev pub in_family : Option Text → Result AuthorityError Text
  in_family none = err not_in_active_family
  in_family (some logical_name) = ok logical_name

  abbrev pub judge_counts : Text → ℕ → Option (ℕ × ℕ) → Result AuthorityError Text
  judge_counts tool_name expected none = err spoof_detected
  judge_counts tool_name expected (some (count_a, count_b)) =
      if nat_beq count_a expected && nat_beq count_b 0
      then in_family (family_get family_a tool_name)
      else if nat_beq count_b expected && nat_beq count_a 0
      then in_family (family_get family_b tool_name)
      else err (incomplete_family count_a count_b expected)

  abbrev pub unobserved : Option Text → Option Text → Result AuthorityError Text
  unobserved (some logical_name) from_b = ok logical_name
  unobserved none (some logical_name) = ok logical_name
  unobserved none none = err not_authorized

  -- `resolveAuthority`; `none` stands for a host that shows no tools.
  unfoldable pub resolve_authority :
      Text → Option (List ObservedTool) → ℕ → Result AuthorityError Text
  resolve_authority tool_name none expected =
      unobserved (family_get family_a tool_name) (family_get family_b tool_name)
  resolve_authority tool_name (some tools) expected =
      judge_counts tool_name expected (count_families 0 0 tools)
