-- ===== src/Enforcement/Paths.antt =====
-- src/enforcement/resolve-targets.js: where a path of a tool call leads. The file system and the
-- functions of `node:path` are parameters.
pub mod Decided
pub mod Ancestors
use omp_spec_kit.Prelude.{
  ℕ, zero, suc, ◌+◌, Text, text, text_eq, text_beq, starts_with, trim, length, drop, Bool, true,
  false, not, ◌&&◌, ◌||◌, leb, nat_beq, Option, none, some, is_some, List, [], ◌∷◌, ◌++◌,
  if◌then◌else◌, includes, any, all, filter, map, split_on,
}
use omp_spec_kit.Enforcement.Values.{is_folded_letter, is_folded_alnum}

-- What `lstatSync` and `realpathSync` answer: `missing` for ENOENT and ENOTDIR, `failed` for other errors.
pub data Probe (A : Type 0) : Type 0 where
  found : A → Probe A
  missing failed : Probe A

pub record Platform : Type 0 where
  pub on_windows : Bool
  pub lower : Text → Text
  -- `path.resolve(p)`, `path.resolve(base, p)`, `path.join`, `path.relative`, `path.normalize`,
  -- `path.dirname`, `path.isAbsolute`.
  pub resolve_path : Text → Text
  pub resolve_in : Text → Text → Text
  pub join_path : Text → Text → Text
  pub relative_path_of : Text → Text → Text
  pub normalize_path : Text → Text
  pub parent_of : Text → Text
  pub is_absolute : Text → Bool
  pub lstat : Text → Probe Unit
  pub real_path : Text → Probe Text

pub data Resolution : Type 0 where
  spec non_spec indeterminate : Resolution

pub record TargetResolution : Type 0 where
  pub resolution : Resolution
  pub relative_path : Option Text
  pub raw_target : Option Text

-- INDETERMINATE_INPUT
abbrev pub has_nul : Text → Bool
has_nul raw = any (λ c. nat_beq c 0) raw

abbrev pub is_slash : ℕ → Bool
is_slash c = nat_beq c 47 || nat_beq c 92

-- URI_SHAPED: the scheme before `://`.
unfoldable pub scheme_tail : Text → Option Text
scheme_tail [] = none
scheme_tail (c ∷ cs) =
    let rest = scheme_tail cs in
    if nat_beq c 58
    then (if starts_with cs (text "//") then some [] else none)
    else if is_folded_alnum c || nat_beq c 43 || nat_beq c 46 || nat_beq c 45
    then elim rest [ none ↦ none | some tail ↦ some (c ∷ tail) ]
    else none

unfoldable pub uri_scheme : Text → Option Text
uri_scheme [] = none
uri_scheme (c ∷ cs) =
    if is_folded_letter c
    then elim (scheme_tail cs) [ none ↦ none | some tail ↦ some (c ∷ tail) ]
    else none

-- WINDOWS_UNSAFE_PATH, its three alternatives.
abbrev pub device_end : Text → Bool
device_end [] = true
device_end (c ∷ cs) = nat_beq c 63 || nat_beq c 46

abbrev pub is_device_path : Text → Bool
is_device_path (a ∷ (b ∷ rest)) = is_slash a && is_slash b && device_end rest
is_device_path _ = false

abbrev pub is_drive_relative : Text → Bool
is_drive_relative (a ∷ (b ∷ (c ∷ rest))) = is_folded_letter a && nat_beq b 58 && not (is_slash c)
is_drive_relative _ = false

unfoldable pub has_last_colon : Text → Bool
has_last_colon [] = false
has_last_colon (c ∷ cs) =
    (nat_beq c 58 && not (any is_slash cs))
    || (not (nat_beq c 10 || nat_beq c 13 || nat_beq c 0x2028 || nat_beq c 0x2029)
        && has_last_colon cs)

unfoldable pub is_windows_unsafe : Text → Bool
is_windows_unsafe raw = is_device_path raw || is_drive_relative raw || has_last_colon raw

abbrev pub xd_prefix : Text
xd_prefix = text "xd://"

-- OMP_INTERNAL_URI_SCHEMES
abbrev pub internal_schemes : List Text
internal_schemes =
    text "agent"
    ∷ text "artifact"
    ∷ text "conflict"
    ∷ text "history"
    ∷ text "issue"
    ∷ text "local"
    ∷ text "mcp"
    ∷ text "memory"
    ∷ text "omp"
    ∷ text "pr"
    ∷ text "rule"
    ∷ text "security"
    ∷ text "skill"
    ∷ text "ssh"
    ∷ text "vault"
    ∷ text "xd"
    ∷ []

-- The nonempty parts of a path.
unfoldable pub path_parts : Text → List Text
path_parts value =
    filter (λ part. not (text_beq part []))
      (split_on 47 (map (λ c. if nat_beq c 92 then 47 else c) value))

unfoldable pub is_prefix_of : List Text → List Text → Bool
is_prefix_of [] candidate = true
is_prefix_of (part ∷ root) [] = false
is_prefix_of (part ∷ root) (first ∷ candidate) = text_beq first part && is_prefix_of root candidate

-- What the search for an ancestor that exists ends with.
pub data Ancestor : Type 0 where
  exists_at : Text → Ancestor
  no_ancestor io_error out_of_fuel : Ancestor

abbrev pub ancestor_step : Text → Probe Unit → Bool → Ancestor → Ancestor
ancestor_step current (found _) is_root next = exists_at current
ancestor_step current failed is_root next = io_error
ancestor_step current missing is_root next = if is_root then no_ancestor else next

module _ (w : Platform) where
  unfoldable pub is_xd_device_target : Text → Bool
  is_xd_device_target raw =
      let trimmed = trim raw in
      let name = drop (length xd_prefix) trimmed in
      starts_with (w.lower trimmed) xd_prefix
      && not (any (λ c. nat_beq c 47 || nat_beq c 63 || nat_beq c 35) name)

  abbrev pub is_internal_scheme : Text → Text → Bool
  is_internal_scheme raw scheme =
      includes internal_schemes scheme
      && (if text_beq scheme (text "xd") then is_xd_device_target raw else true)

  unfoldable pub is_omp_internal_target : Text → Bool
  is_omp_internal_target raw =
      not (text_beq (trim raw) [] || has_nul raw) && elim (uri_scheme (trim raw)) [
        | none ↦ false
        | some scheme ↦ is_internal_scheme raw (w.lower scheme)
      ]

  unfoldable pub unsafe_target : Text → Bool
  unsafe_target raw =
      text_beq (trim raw) []
      || has_nul raw
      || starts_with (w.lower (trim raw)) xd_prefix
      || is_some (uri_scheme (trim raw))
      || (w.on_windows && is_windows_unsafe raw)

  abbrev pub components : Text → List Text
  components value = map w.lower (path_parts (w.resolve_path value))

  unfoldable pub inside : Text → Text → Bool
  inside candidate root =
      leb (length (components root)) (length (components candidate))
      && is_prefix_of (components root) (components candidate)

  abbrev pub forward_slashes : Text → Text
  forward_slashes t = map (λ c. if nat_beq c 92 then 47 else c) t

  unfoldable pub relative_target : Text → Text → Text
  relative_target root absolute =
      let relative = forward_slashes (w.relative_path_of root absolute) in
      if text_beq relative [] then text "." else relative

  -- `existingAncestor`
  unfoldable pub existing_ancestor : ℕ → Text → Ancestor
  existing_ancestor zero current = out_of_fuel
  existing_ancestor (suc fuel) current =
      let next = existing_ancestor fuel (w.parent_of current) in
      ancestor_step current (w.lstat current) (text_beq (w.parent_of current) current) next

  abbrev pub resolved_existing_path : Text → Text → Probe Text
  resolved_existing_path absolute ancestor =
      if text_beq ancestor absolute then w.real_path absolute else elim (w.real_path ancestor) [
        | found base ↦ found (w.join_path base (w.relative_path_of ancestor absolute))
        | missing ↦ missing
        | failed ↦ failed
      ]

  -- `resolveSpecsRoot`: a folder that does not exist stands for itself.
  abbrev pub resolve_specs_root : Text → Probe Text
  resolve_specs_root project_root =
      let specs_candidate = w.join_path project_root (text ".specs") in
      elim (w.real_path specs_candidate) [
        | found specs ↦ found specs
        | missing ↦ found specs_candidate
        | failed ↦ failed
      ]

  abbrev pub undecided : Text → TargetResolution
  undecided raw = record { resolution = indeterminate; relative_path = none; raw_target = some raw }

  abbrev pub placed : Text → Text → Text → Probe Text → TargetResolution
  placed raw project_root specs_root (found resolved) = record {
    resolution = if inside resolved specs_root then spec else non_spec;
    relative_path =
        if inside resolved project_root then some (relative_target project_root resolved) else none;
    raw_target = some raw;
  }
  placed raw project_root specs_root _ = undecided raw

  abbrev pub from_ancestor : Text → Text → Text → Text → Ancestor → TargetResolution
  from_ancestor raw project_root specs_root absolute (exists_at ancestor) =
      placed raw project_root specs_root (resolved_existing_path absolute ancestor)
  from_ancestor raw project_root specs_root absolute _ = undecided raw

  abbrev pub absolute_of : Text → Text → Text
  absolute_of project_root raw =
      if w.is_absolute raw then w.normalize_path raw else w.resolve_in project_root raw

  abbrev pub from_specs_root : Text → Text → Probe Text → TargetResolution
  from_specs_root raw project_root (found specs_root) =
      let absolute = absolute_of project_root raw in
      from_ancestor raw project_root specs_root absolute
        (existing_ancestor (suc (length absolute)) absolute)
  from_specs_root raw project_root _ = undecided raw

  abbrev pub from_project_root : Text → Probe Text → TargetResolution
  from_project_root raw (found project_root) =
      from_specs_root raw project_root (resolve_specs_root project_root)
  from_project_root raw _ = undecided raw

  -- `resolveTarget`
  unfoldable pub resolve_target : Text → Text → TargetResolution
  resolve_target root raw =
      if is_omp_internal_target raw
      then record { resolution = non_spec; relative_path = none; raw_target = some raw }
      else if unsafe_target raw
      then undecided raw
      else from_project_root raw (w.real_path (w.resolve_path root))

  -- `resolveTargets`
  unfoldable pub resolve_targets : Text → List Text → List TargetResolution
  resolve_targets root [] =
      record { resolution = indeterminate; relative_path = none; raw_target = none } ∷ []
  resolve_targets root (target ∷ targets) = map (λ t. resolve_target root t) (target ∷ targets)

abbrev pub is_indeterminate : TargetResolution → Bool
is_indeterminate item = elim item.resolution [ indeterminate ↦ true | _ ↦ false ]

abbrev pub is_spec : TargetResolution → Bool
is_spec item = elim item.resolution [ spec ↦ true | _ ↦ false ]

pub data Decision : Type 0 where
  allow block_indeterminate block_spec : Decision

-- `decidePathPolicy`, of the resolutions.
unfoldable pub decide_path_policy : List TargetResolution → Decision
decide_path_policy resolutions =
    if any is_indeterminate resolutions
    then block_indeterminate
    else if any is_spec resolutions
    then block_spec
    else allow
