-- ===== src/Service/Publish/Projects/Reported.antt =====
-- `publishAll` of src/service/publish.js: what its report says of the projects and of the ledger.
use omp_spec_kit.Prelude.{Text, true, false, Option, none, some, List, [], ◌∷◌, ◌++◌, ◌≡◌}
use omp_spec_kit.Service.Store.{Store}
use omp_spec_kit.Service.Store.Ledger.{served}
use omp_spec_kit.Service.Store.Insertion.{is_empty}
use omp_spec_kit.Service.Publish.{spec_key_of}
use omp_spec_kit.Service.Publish.Targets.{settled}
use omp_spec_kit.Service.Publish.Projects.{Report, reported, error, DirectoryEntry, listed}

-- The `spec` of an entry of the report.
abbrev pub report_key : Report → Text
report_key (reported key outcome) = key
report_key (error key) = key

-- The keys that a report is to have, in order: each directory of a project, or the project that has no root.
abbrev pub folder_keys : Text → List DirectoryEntry → List Text
folder_keys project [] = []
folder_keys project ((name, true) ∷ entries) =
    spec_key_of project name ∷ folder_keys project entries
folder_keys project ((name, false) ∷ entries) = folder_keys project entries

abbrev pub project_keys : List (Text × Option (Option (List DirectoryEntry))) → List Text
project_keys [] = []
project_keys ((project, none) ∷ projects) = project ∷ project_keys projects
project_keys ((project, some entries) ∷ projects) =
    folder_keys project (listed entries) ++ project_keys projects

abbrev pub IsServed : Text → Option Text → Store → Type 0
IsServed key none s = Unit
IsServed key (some version) s = is_empty (served key version s) ≡ false

-- `getLedger` gives a row of the version that the entry reports as recorded.
abbrev pub IsTrue : Store → Report → Type 0
IsTrue s (reported key outcome) = IsServed key (settled outcome) s
IsTrue s (error key) = Unit
