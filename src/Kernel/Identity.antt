-- ===== src/Kernel/Identity.antt =====
-- src/kernel/identity.js with the grammars of LOCAL_ID_ROLES (src/kernel/types.js). A regular
-- expression is the function that decides it on code units. The proofs are in the child modules.
pub mod Grammar
pub mod RoundTrip
use omp_spec_kit.Prelude.{
  ℕ, zero, suc, ◌+◌, Text, text, starts_with, strip_prefix, index_of, text_beq, Bool, true, false,
  not, ◌&&◌, ◌||◌, nat_beq, leb, if◌then◌else◌, Option, none, some, is_some, List, [], ◌∷◌, ◌++◌,
  length, take, drop, all,
}
use omp_spec_kit.Kernel.Types.{NodeKind}

abbrev pub is_digit : ℕ → Bool
is_digit c = leb b'0' c && leb c b'9'

abbrev pub is_lower_alnum : ℕ → Bool
is_lower_alnum c = (leb b'a' c && leb c b'z') || is_digit c

abbrev pub is_upper : ℕ → Bool
is_upper c = leb b'A' c && leb c b'Z'

-- [a-z0-9]+(-[a-z0-9]+)*; `need` says that a letter or digit has to come next.
unfoldable pub kebab_from : Bool → Text → Bool
kebab_from need [] = not need
kebab_from need (c ∷ cs) =
    (is_lower_alnum c || (not need && nat_beq c b'-')) && kebab_from (not (is_lower_alnum c)) cs

-- SPEC_SLUG_RE
unfoldable pub is_valid_spec_slug : Text → Bool
is_valid_spec_slug slug = kebab_from true slug

-- [1-9][0-9]*
unfoldable pub is_positive : Text → Bool
is_positive [] = false
is_positive (c ∷ cs) = (leb b'1' c && leb c b'9') && all is_digit cs

-- [0-9]*\.[1-9][0-9]*
unfoldable pub dotted_tail : Text → Bool
dotted_tail [] = false
dotted_tail (c ∷ cs) =
    let rest = dotted_tail cs in if nat_beq c b'.' then is_positive cs else is_digit c && rest

-- [1-9][0-9]*\.[1-9][0-9]*
unfoldable pub is_dotted : Text → Bool
is_dotted [] = false
is_dotted (c ∷ cs) = (leb b'1' c && leb c b'9') && dotted_tail cs

-- [A-Z0-9-]*-[1-9][0-9]*
unfoldable pub nfr_tail : Text → Bool
nfr_tail [] = false
nfr_tail (c ∷ cs) =
    (nat_beq c b'-' && is_positive cs)
    || ((is_upper c || is_digit c || nat_beq c b'-') && nfr_tail cs)

-- [A-Z][A-Z0-9-]*-[1-9][0-9]*
unfoldable pub is_nfr : Text → Bool
is_nfr [] = false
is_nfr (c ∷ cs) = is_upper c && nfr_tail cs

pub data LocalIdRole : Type 0 where
  user_story use_case research_finding risk functional_requirement : LocalIdRole
  non_functional_requirement acceptance_criterion decision task file_change : LocalIdRole
  fixture schema_entity scenario roadmap : LocalIdRole

-- `Object.keys(LOCAL_ID_ROLES)`, in declaration order.
abbrev pub local_id_roles : List LocalIdRole
local_id_roles =
    user_story ∷ use_case ∷ research_finding ∷ risk ∷ functional_requirement
    ∷ non_functional_requirement ∷ acceptance_criterion ∷ decision ∷ task ∷ file_change ∷ fixture
    ∷ schema_entity ∷ scenario ∷ roadmap ∷ []

abbrev pub role_kind : LocalIdRole → NodeKind
role_kind user_story = NodeKind.user_story
role_kind use_case = NodeKind.use_case
role_kind research_finding = NodeKind.research_finding
role_kind risk = NodeKind.risk
role_kind functional_requirement = NodeKind.functional_requirement
role_kind non_functional_requirement = NodeKind.non_functional_requirement
role_kind acceptance_criterion = NodeKind.acceptance_criterion
role_kind decision = NodeKind.decision
role_kind task = NodeKind.task
role_kind file_change = NodeKind.file_change
role_kind fixture = NodeKind.fixture
role_kind schema_entity = NodeKind.schema_entity
role_kind scenario = NodeKind.scenario
role_kind roadmap = NodeKind.roadmap

-- What an expression of the table fixes at the start, and the grammar of what follows.
abbrev pub role_prefix : LocalIdRole → Text
role_prefix user_story = text "US-"
role_prefix use_case = text "UC-"
role_prefix research_finding = text "RF-"
role_prefix risk = text "RISK-"
role_prefix functional_requirement = text "FR-"
role_prefix non_functional_requirement = text "NFR-"
role_prefix acceptance_criterion = text "AC-"
role_prefix decision = text "DEC-"
role_prefix task = text "TASK-"
role_prefix file_change = text "FC-"
role_prefix fixture = text "FIXTURE-"
role_prefix schema_entity = text "SCHEMA-"
role_prefix scenario = text "SCEN-"
role_prefix roadmap = text "ROADMAP"

unfoldable pub role_suffix : LocalIdRole → Text → Bool
role_suffix non_functional_requirement t = is_nfr t
role_suffix acceptance_criterion t = is_dotted t
role_suffix scenario t = is_valid_spec_slug t
role_suffix roadmap t = text_beq t []
role_suffix _ t = is_positive t

-- `LOCAL_ID_ROLES[role].re.test(localId)`
unfoldable pub matches_role : Text → LocalIdRole → Bool
matches_role local_id role = elim (strip_prefix (role_prefix role) local_id) [
  | none ↦ false
  | some rest ↦ role_suffix role rest
]

unfoldable pub first_role : List LocalIdRole → Text → Option LocalIdRole
first_role [] local_id = none
first_role (role ∷ roles) local_id =
    if matches_role local_id role then some role else first_role roles local_id

unfoldable pub local_id_role : Text → Option LocalIdRole
local_id_role local_id = first_role local_id_roles local_id

unfoldable pub local_id_kind : Text → Option NodeKind
local_id_kind local_id = elim (local_id_role local_id) [
  | none ↦ none
  | some role ↦ some (role_kind role)
]

unfoldable pub is_valid_local_id : Text → Bool
is_valid_local_id local_id = is_some (local_id_role local_id)

unfoldable pub is_generated_local_id : Text → Bool
is_generated_local_id local_id =
    starts_with local_id (text "DOC:") || starts_with local_id (text "FILE:")

unfoldable pub make_canonical_id : Text → Text → Text
make_canonical_id spec_slug local_id = spec_slug ++ b':' ∷ local_id

unfoldable pub document_local_id : Text → Text
document_local_id filename = text "DOC:" ++ filename

unfoldable pub file_local_id : Text → Text
file_local_id path = text "FILE:" ++ path

pub record SplitId : Type 0 where
  pub spec_slug : Text
  pub local_id : Text

-- The local part of what follows the first colon.
unfoldable pub local_part : Text → Text
local_part rest = elim (index_of b':' rest) [
  | none ↦ rest
  | some second_colon ↦ if is_generated_local_id rest then rest else take second_colon rest
]

unfoldable pub accept_split : Text → Text → Option SplitId
accept_split slug local =
    if not (is_valid_spec_slug slug)
    then none
    else if is_valid_local_id local || is_generated_local_id local
    then some (record { spec_slug = slug; local_id = local })
    else none

unfoldable pub split_at : Text → ℕ → Option SplitId
split_at canonical_id index =
    if nat_beq index 0 || nat_beq (index + 1) (length canonical_id)
    then none
    else accept_split (take index canonical_id) (local_part (drop (index + 1) canonical_id))

unfoldable pub split_canonical_id : Text → Option SplitId
split_canonical_id canonical_id = elim (index_of b':' canonical_id) [
  | none ↦ none
  | some index ↦ split_at canonical_id index
]

unfoldable pub is_valid_canonical_id : Text → Bool
is_valid_canonical_id canonical_id = is_some (split_canonical_id canonical_id)
