-- ===== src/Service/Publish.antt =====
-- src/service/publish.js: `publishSpecNow` with the helpers it calls. Git is what the publisher is given
-- (`mount.git`): commands on a repository state `W`. A command that throws returns `none`, or `false`
-- with the state it leaves. The log output is not modelled.
pub mod Ledger
pub mod Targets
pub mod Settled
pub mod Tags
pub mod Projects
pub mod Tests
use omp_spec_kit.Prelude.{
  ℕ, Text, text, text_beq, Bool, true, false, not, ◌&&◌, Option, none, some, List, [], ◌∷◌, ◌++◌,
  find, if◌then◌else◌, Result, ok, err,
}
use omp_spec_kit.Service.Store.{
  Store, LedgerRow, LedgerEntry, AccessEntry, log_access, insert_ledger_if_absent, get_ledger,
}
use omp_spec_kit.Service.Authored.{authored_field, is_ref_safe_version, first_some}
use omp_spec_kit.Service.Branches.{spec_branch_name}

pub record Git (W : Type 0) : Type 0 where
  pub rev_parse : W → Text → Option Text
  pub show : W → Text → Text → Option Text
  pub object_id : W → Text → Text → Option Text
  pub ls_remote : W → Text → Option (List (Text × Text))
  -- A tag's name, the commit (left out where the ledger has none) and the message.
  pub tag : W → Text → Option Text → Text → Bool × W
  pub push : W → Text → Bool × W

pub record Mount : Type 0 where
  pub repo_url : Text
  pub identity_name : Text
  pub now : ℕ
  -- What other publishers do to the store before this one inserts its row.
  pub meanwhile : Store → Store

pub data RejectCode : Type 0 where
  version_missing version_invalid version_exists : RejectCode

pub data SkipReason : Type 0 where
  branch_missing unreadable : SkipReason
  inactive : Option Text → SkipReason

pub data Outcome : Type 0 where
  skipped : SkipReason → Outcome
  rejected : RejectCode → Option Text → Outcome
  noop healed heal_failed : Text → Outcome
  published : Text → Text → Text → Outcome
  adopted : Text → Text → Outcome
  failed : Outcome

abbrev pub code_text : RejectCode → Text
code_text version_missing = text "VERSION_MISSING"
code_text version_invalid = text "VERSION_INVALID"
code_text version_exists = text "VERSION_EXISTS"

unfoldable pub spec_key_of : Text → Text → Text
spec_key_of project slug = project ++ text "/" ++ slug

unfoldable pub spec_path_of : Text → Text
spec_path_of slug = text ".specs/" ++ slug

unfoldable pub publish_tag_name : Text → Text → Text → Text
publish_tag_name project slug version =
    text "spec/" ++ project ++ text "/" ++ slug ++ text "/" ++ version

unfoldable pub tag_ref_of : Text → Text
tag_ref_of tag = text "refs/tags/" ++ tag

abbrev pub ref_value : Option (Text × Text) → Option Text
ref_value none = none
ref_value (some (name, sha)) = some sha

unfoldable pub lookup_ref : List (Text × Text) → Text → Option Text
lookup_ref refs name = ref_value (find (λ r. text_beq r.0 name) refs)

-- Peeled commit sha of a remote tag.
unfoldable pub remote_tag_commit : List (Text × Text) → Text → Option Text
remote_tag_commit refs tag_ref =
    first_some (lookup_ref refs (tag_ref ++ text "^{}")) (lookup_ref refs tag_ref)

-- The state a run reads and writes: the repository and the store.
abbrev pub Run : Type 0 → Type 0
Run W = Outcome × (W × Store)

unfoldable pub reject :
    {W : Type 0} → Mount → Text → Text → Option Text → RejectCode → W → Store → Run W
reject mount project slug version code w s = (
  rejected code version,
  (
    w,
    log_access
        (record {
          ts = mount.now;
          login = some mount.identity_name;
          role = some (text "service");
          tenant = none;
          project = some project;
          op = some (text "publish");
          spec = some slug;
          request_id = none;
          result = some (text "publish-rejected:" ++ code_text code);
        })
        s,
  ),
)

-- One publication: where the version's row and its tag are to be.
pub record Target : Type 0 where
  pub project : Text
  pub slug : Text
  pub branch : Text
  pub version : Text
  pub tree : Text
  pub head : Text

unfoldable pub entry_of : Mount → Target → Text → LedgerEntry
entry_of mount t commit = record {
  spec_key = spec_key_of t.project t.slug;
  version = t.version;
  digest = t.tree;
  commit_sha = some commit;
  published_at = none;
  repo_url = some mount.repo_url;
  repo_branch = some t.branch;
}

-- `store.getLedger(specKey).find((row) => row.version === version)`
unfoldable pub recorded : Target → Store → Option LedgerRow
recorded t s =
    find (λ row. text_beq row.version t.version) (get_ledger (spec_key_of t.project t.slug) s)

abbrev pub differs : Option LedgerRow → Text → Bool
differs none digest = false
differs (some row) digest = not (text_beq row.digest digest)

unfoldable pub reject_version : {W : Type 0} → Mount → Target → W → Store → Run W
reject_version mount t w s = reject mount t.project t.slug (some t.version) version_exists w s

abbrev pub after_insert : {W : Type 0} → Mount → Target → Text → W → Bool × Store → Run W
after_insert mount t commit w (true, s) = (published t.version t.tree commit, (w, s))
after_insert mount t commit w (false, s) =
    if differs (recorded t s) t.tree then reject_version mount t w s else (noop t.version, (w, s))

unfoldable pub record_version : {W : Type 0} → Mount → Target → Text → W → Store → Run W
record_version mount t commit w s =
    after_insert mount t commit w
      (insert_ledger_if_absent (entry_of mount t commit) mount.now (mount.meanwhile s))

abbrev pub tag_of : Target → Text
tag_of t = publish_tag_name t.project t.slug t.version

abbrev pub tag_message : Target → Text
tag_message t = text "spec(" ++ t.project ++ text ") " ++ t.slug ++ text " " ++ t.version

-- `a === b` where either may be missing; a missing sha of the row is `undefined`, never `null`.
abbrev pub is_commit : Option Text → Option Text → Bool
is_commit (some a) (some b) = text_beq a b
is_commit _ _ = false

-- The empty string and null are falsy.
abbrev pub truthy : Option Text → Bool
truthy none = false
truthy (some []) = false
truthy (some (c ∷ cs)) = true

abbrev pub is_active : Option Text → Bool
is_active none = false
is_active (some status) = text_beq status (text "ACTIVE")

unfoldable pub remote_branch_ref : Text → Text
remote_branch_ref branch = text "refs/remotes/origin/" ++ branch

module _ {W : Type 0} (git : Git W) (mount : Mount) where
  -- What `lsRemote` and `remoteTagCommit` say of the tag; `none` where the command throws.
  unfoldable pub remote_commit : Target → W → Option (Option Text)
  remote_commit t w = elim (git.ls_remote w (tag_ref_of (tag_of t) ++ text "*")) [
    | none ↦ none
    | some refs ↦ some (remote_tag_commit refs (tag_ref_of (tag_of t)))
  ]

  unfoldable pub local_commit : Target → W → Option Text
  local_commit t w = git.rev_parse w (tag_ref_of (tag_of t) ++ text "^{}")

  unfoldable pub push_tag : Target → W → Bool × W
  push_tag t w = git.push w (tag_ref_of (tag_of t) ++ text ":" ++ tag_ref_of (tag_of t))

  -- The message of this rejection reads the row's sha, which throws where it is missing.
  abbrev pub reject_against : LedgerRow → Target → W → Store → Run W
  reject_against row t w s = elim row.commit_sha [
    | none ↦ (failed, (w, s))
    | some sha ↦ reject_version mount t w s
  ]

  abbrev pub judge_heal : LedgerRow → Target → W → Store → Option (Option Text) → Run W
  judge_heal row t w s none = (failed, (w, s))
  judge_heal row t w s (some winner) =
      if is_commit winner row.commit_sha
      then (noop t.version, (w, s))
      else if not (truthy winner)
      then (heal_failed t.version, (w, s))
      else reject_version mount t w s

  abbrev pub finish_heal : LedgerRow → Target → Store → Bool × W → Run W
  finish_heal row t s (true, w) = (healed t.version, (w, s))
  finish_heal row t s (false, w) = judge_heal row t w s (remote_commit t w)

  unfoldable pub heal : LedgerRow → Target → W → Store → Run W
  heal row t w s = elim (local_commit t w) [
    | none ↦
        finish_heal row t s (push_tag t (git.tag w (tag_of t) row.commit_sha (tag_message t)).1)
    | some sha ↦
        if is_commit (some sha) row.commit_sha
        then finish_heal row t s (push_tag t w)
        else reject_against row t w s
  ]

  abbrev pub check_recorded : LedgerRow → Target → W → Store → Option (Option Text) → Run W
  check_recorded row t w s none = (failed, (w, s))
  check_recorded row t w s (some none) = heal row t w s
  check_recorded row t w s (some (some sha)) =
      if is_commit (some sha) row.commit_sha
      then (noop t.version, (w, s))
      else reject_against row t w s

  abbrev pub judge_push : Target → W → Store → Option (Option Text) → Run W
  judge_push t w s none = (failed, (w, s))
  judge_push t w s (some winner) =
      if is_commit winner (some t.head)
      then record_version mount t t.head w s
      else if not (truthy winner)
      then (failed, (w, s))
      else reject_version mount t w s

  abbrev pub finish_push : Target → Store → Bool × W → Run W
  finish_push t s (true, w) = record_version mount t t.head w s
  finish_push t s (false, w) = judge_push t w s (remote_commit t w)

  abbrev pub push_created : Target → Store → Bool × W → Run W
  push_created t s (true, w) = finish_push t s (push_tag t w)
  push_created t s (false, w) = (failed, (w, s))

  unfoldable pub publish_fresh : Target → W → Store → Run W
  publish_fresh t w s = elim (local_commit t w) [
    | none ↦ push_created t s (git.tag w (tag_of t) (some t.head) (tag_message t))
    | some sha ↦
        if text_beq sha t.head then finish_push t s (push_tag t w) else reject_version mount t w s
  ]

  -- The insertion's answer is not read here.
  abbrev pub adopt_tree : Target → Text → W → Store → Option Text → Run W
  adopt_tree t remote w s none = reject_version mount t w s
  adopt_tree t remote w s (some tree) =
      if text_beq tree t.tree
      then (
        adopted t.version remote,
        (w, (insert_ledger_if_absent (entry_of mount t remote) mount.now (mount.meanwhile s)).1),
      )
      else reject_version mount t w s

  unfoldable pub adopt : Target → Text → W → Store → Run W
  adopt t remote w s = adopt_tree t remote w s (git.object_id w remote (spec_path_of t.slug))

  abbrev pub check_unrecorded : Target → W → Store → Option (Option Text) → Run W
  check_unrecorded t w s none = (failed, (w, s))
  check_unrecorded t w s (some none) = publish_fresh t w s
  check_unrecorded t w s (some (some sha)) = adopt t sha w s

  unfoldable pub publish_target : Target → W → Store → Run W
  publish_target t w s = elim (recorded t s) [
    | none ↦ check_unrecorded t w s (remote_commit t w)
    | some row ↦
        if not (text_beq row.digest t.tree)
        then reject_version mount t w s
        else check_recorded row t w s (remote_commit t w)
  ]

  abbrev pub publish_versioned : Text → Text → Text → Text → Text → Option Text → W → Store → Run W
  publish_versioned project slug branch head tree version w s = elim version [
    | none ↦ reject mount project slug none version_missing w s
    | some v ↦
        if not (truthy (some v))
        then reject mount project slug none version_missing w s
        else if not (is_ref_safe_version v)
        then reject mount project slug (some v) version_invalid w s
        else publish_target
            (record {
              project = project;
              slug = slug;
              branch = branch;
              version = v;
              tree = tree;
              head = head;
            })
            w s
  ]

  -- The README and the tree are read at the head before the status is looked at.
  unfoldable pub publish_snapshot : Text → Text → Text → Text → W → Store → Run W
  publish_snapshot project slug branch head w s =
      elim (git.show w head (spec_path_of slug ++ text "/README.md")) [
        | none ↦ (skipped unreadable, (w, s))
        | some readme ↦ elim (git.object_id w head (spec_path_of slug)) [
          | none ↦ (failed, (w, s))
          | some tree ↦
              if not (is_active (authored_field readme (text "Status")))
              then (skipped (inactive (authored_field readme (text "Status"))), (w, s))
              else publish_versioned project slug branch head tree
                  (authored_field readme (text "Version")) w s
        ]
      ]

  abbrev pub publish_head : Text → Text → Text → Option Text → W → Store → Run W
  publish_head project slug branch none w s = (skipped branch_missing, (w, s))
  publish_head project slug branch (some head) w s =
      if not (truthy (some head))
      then (skipped branch_missing, (w, s))
      else publish_snapshot project slug branch head w s

  unfoldable pub publish_spec_now : Text → Text → W → Store → Run W
  publish_spec_now project slug w s = elim (spec_branch_name slug) [
    | err e ↦ (failed, (w, s))
    | ok branch ↦ publish_head project slug branch (git.rev_parse w (remote_branch_ref branch)) w s
  ]
