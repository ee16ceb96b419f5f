-- ===== src/Service/Publish/Projects.antt =====
-- src/service/publish.js: `publishProject` and `publishAll`, the loops over specifications and projects.
pub mod Reported
use omp_spec_kit.Prelude.{
  Text, Bool, true, false, Option, none, some, List, [], ◌∷◌, ◌++◌, if◌then◌else◌,
}
use omp_spec_kit.Service.Store.{Store}
use omp_spec_kit.Service.Publish.{Git, Mount, Outcome, failed, spec_key_of, publish_spec_now}

-- One entry of a report: what a publication came to, or the error that it threw.
pub data Report : Type 0 where
  reported : Text → Outcome → Report
  error : Text → Report

abbrev pub report_of : Text → Outcome → Report
report_of key failed = error key
report_of key outcome = reported key outcome

-- A directory entry: its name, and whether it is a directory.
abbrev pub DirectoryEntry : Type 0
DirectoryEntry = Text × Bool

abbrev pub listed : Option (List DirectoryEntry) → List DirectoryEntry
listed none = []
listed (some entries) = entries

module _ {W : Type 0} (git : Git W) (mount : Mount) where
  -- One bad specification does not stop the rest.
  unfoldable pub publish_entries :
      Text → List DirectoryEntry → W → Store → List Report × (W × Store)
  publish_entries project [] w s = ([], (w, s))
  publish_entries project ((name, is_directory) ∷ entries) w s =
      if is_directory
      then (let (outcome, (w', s')) = publish_spec_now git mount project name w s in
          let (reports, after) = publish_entries project entries w' s' in
          (report_of (spec_key_of project name) outcome ∷ reports, after))
      else publish_entries project entries w s

  -- The specifications' directory of a project; a directory that cannot be read is empty.
  unfoldable pub publish_project :
      Text → Option (List DirectoryEntry) → W → Store → List Report × (W × Store)
  publish_project project entries w s = publish_entries project (listed entries) w s

  -- Each project with its root's listing; `none` where the root is not to be had.
  unfoldable pub publish_all :
      List (Text × Option (Option (List DirectoryEntry))) → W → Store → List Report × (W × Store)
  publish_all [] w s = ([], (w, s))
  publish_all ((project, none) ∷ projects) w s =
      let (reports, after) = publish_all projects w s in (error project ∷ reports, after)
  publish_all ((project, some entries) ∷ projects) w s =
      let (front, (w', s')) = publish_project project entries w s in
      let (back, after) = publish_all projects w' s' in (front ++ back, after)
