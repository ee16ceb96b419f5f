-- ===== src/Service/Publish/Tests.antt =====
-- One publication in a repository whose remote has the specification's branch and no tag.
use omp_spec_kit.Prelude.{
  Text, text, text_beq, text_beq_refl, true, false, ◌≡◌, refl, Option, none, some, List, [], ◌∷◌,
  ◌++◌, trim, trim_start, is_space, starts_with, strip_prefix,
}
use omp_spec_kit.Kernel.Identity.{is_valid_spec_slug, kebab_from}
use omp_spec_kit.Service.Store.{
  Store, empty_store, get_ledger, sort_newest, insert_newest, insert_ledger_if_absent, or_else,
}
use omp_spec_kit.Service.Authored.{
  authored_field, authored_from, field_value, rest_of_line, is_ref_safe_version, has_double_dot,
}
use omp_spec_kit.Service.Branches.{spec_branch_name, bytes, bytes_from}
use omp_spec_kit.Service.Publish
use omp_spec_kit.Service.Publish.{
  Git, Mount, Target, published, publish_spec_now, publish_target, remote_commit, spec_key_of,
  spec_path_of, lookup_ref, remote_tag_commit, tag_ref_of,
}
use omp_spec_kit.Service.Publish.Ledger.{Records}
use omp_spec_kit.Service.Store.Ledger.{served}
use omp_spec_kit.Service.Store.Insertion.{is_empty}
use omp_spec_kit.Service.Publish.Targets.{settled}
use omp_spec_kit.Service.Publish.Projects.{DirectoryEntry}
use omp_spec_kit.Service.Publish.Settled.{
  IsTarget, publish_spec_now-Records, publish_spec_now-served,
}
use omp_spec_kit.Service.Publish.Tags.{publish_target-unmoved, publish_target-IsTagged}

-- The refs here and on the remote.
abbrev World : Type 0
World = List (Text × Text) × List (Text × Text)

abbrev readme : Text
readme = text "Status: ACTIVE" ++ (10 ∷ text "Version: 1.0.0")

abbrev git : Git World
git = record {
  rev_parse = λ w ref. lookup_ref w.0 ref;
  show = λ w commit path. some readme;
  object_id = λ w commit path. some (text "t1");
  ls_remote = λ w pattern. some w.1;
  tag = λ w name commit message.
      (true, ((tag_ref_of name ++ text "^{}", or_else commit []) ∷ w.0, w.1));
  push = λ w refspec. (true, (w.0, w.0));
}

abbrev world : World
world = ((text "refs/remotes/origin/spec-auth", text "c1") ∷ [], [])

abbrev mount : Mount
mount = record { repo_url = text "u"; identity_name = text "bot"; now = 7; meanwhile = λ s. s }

abbrev target : Target
target = record {
  project = text "p";
  slug = text "auth";
  branch = text "spec-auth";
  version = text "1.0.0";
  tree = text "t1";
  head = text "c1";
}

tag_resolves :
    (w : World) (name commit message : Text)
    → (git.tag w name (some commit) message).0 ≡ true
    → git.rev_parse (git.tag w name (some commit) message).1 (tag_ref_of name ++ text "^{}")
      ≡ some commit
unfolding lookup_ref
tag_resolves w name commit message h = rw (text_beq_refl (tag_ref_of name ++ text "^{}")) refl

push_lists :
    (w : World) (ref commit : Text)
    → (git.push w (ref ++ text ":" ++ ref)).0 ≡ true
    → git.rev_parse w (ref ++ text "^{}") ≡ some commit
    → (refs : List (Text × Text)) × (git.ls_remote
          (git.push w (ref ++ text ":" ++ ref)).1
          (ref ++ text "*")
        ≡ some refs)
      × (remote_tag_commit refs ref ≡ some commit)
unfolding remote_tag_commit
push_lists w ref commit done here = (w.0, refl, rw here refl)

run_of_target :
    (publish_target git mount target world empty_store).0
    ≡ published (text "1.0.0") (text "t1") (text "c1")
unfolding publish_target Publish.recorded get_ledger sort_newest remote_commit remote_tag_commit
    lookup_ref Publish.publish_fresh Publish.local_commit Publish.push_tag Publish.record_version
    insert_ledger_if_absent Publish.entry_of text_beq tag_ref_of Publish.publish_tag_name
    spec_key_of
run_of_target = refl

publish_target-IsTagged_example :
    (text "c1" ≡ target.head)
    × (remote_commit git mount target (publish_target git mount target world empty_store).1.0
        ≡ some (some target.head))
publish_target-IsTagged_example =
    publish_target-IsTagged git mount tag_resolves push_lists target world empty_store
      (text "1.0.0") (text "t1") (text "c1") run_of_target

run_settled :
    settled (publish_spec_now git mount (text "p") (text "auth") world empty_store).0
    ≡ some (text "1.0.0")
unfolding publish_spec_now Publish.remote_branch_ref Publish.publish_snapshot spec_path_of
    spec_branch_name is_valid_spec_slug kebab_from bytes bytes_from authored_field authored_from
    field_value rest_of_line trim trim_start is_space starts_with strip_prefix is_ref_safe_version
    has_double_dot publish_target Publish.recorded get_ledger sort_newest remote_commit
    remote_tag_commit lookup_ref Publish.publish_fresh Publish.local_commit Publish.push_tag
    Publish.record_version insert_ledger_if_absent Publish.entry_of text_beq tag_ref_of
    Publish.publish_tag_name spec_key_of
run_settled = refl

publish_spec_now-Records_example :
    (t : Target) × IsTarget git (text "p") (text "auth") world t
    × (text "1.0.0" ≡ t.version)
    × Records
        (spec_key_of (text "p") (text "auth"))
        (text "1.0.0")
        t.tree
        (publish_spec_now git mount (text "p") (text "auth") world empty_store).1.1
publish_spec_now-Records_example =
    publish_spec_now-Records git mount (text "p") (text "auth") world empty_store (text "1.0.0")
      run_settled

-- A store that has a version of another specification.
abbrev with_row : Store
with_row = record empty_store {
  ledger =
      (record {
        spec_key = text "p/other";
        version = text "2.0.0";
        digest = text "t9";
        commit_sha = some (text "c9");
        published_at = 3;
        repo_url = none;
        repo_branch = none;
      })
      ∷ [];
}

row_known : is_empty (served (text "p/other") (text "2.0.0") with_row) ≡ false
unfolding get_ledger sort_newest insert_newest text_beq
row_known = refl

publish_spec_now-served_example :
    served
      (text "p/other")
      (text "2.0.0")
      (publish_spec_now git mount (text "p") (text "auth") world with_row).1.1
    ≡ served (text "p/other") (text "2.0.0") with_row
publish_spec_now-served_example =
    publish_spec_now-served git mount (text "p") (text "auth") world with_row (text "p/other")
      (text "2.0.0") (λ s key version h. refl) row_known

abbrev listings : List (Text × Option (Option (List DirectoryEntry)))
listings =
    (text "p", some (some ((text "auth", true) ∷ (text "notes.md", false) ∷ [])))
    ∷ (text "gone", none)
    ∷ []

abbrev tagged : World
tagged = (world.0, (text "refs/tags/spec/p/auth/1.0.0", text "c0") ∷ [])

tag_there : remote_commit git mount target tagged ≡ some (some (text "c0"))
unfolding remote_commit remote_tag_commit lookup_ref text_beq tag_ref_of Publish.publish_tag_name
tag_there = refl

publish_target-unmoved_example : (publish_target git mount target tagged empty_store).1.0 ≡ tagged
publish_target-unmoved_example =
    publish_target-unmoved git mount target tagged empty_store (text "c0") tag_there
