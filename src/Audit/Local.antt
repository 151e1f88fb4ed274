-- ===== src/Audit/Local.antt =====
-- cli/admissorium.ts: what a run meets and loads, and the findings about the repositories that are
-- checked out. `none` is an exception that nothing catches.
use admissorium.Prelude.{
  Char, String, Bool, ◌==◌, Option, none, some, List, [], ◌∷◌, ◌++◌, map, if◌then◌else◌,
}
use admissorium.Text.{◌⧺◌, is_empty}
use admissorium.Js.{Value, undef, null, obj, str, get}
use admissorium.Fallible.{◌>>=◌}
use admissorium.Report.{Finding}
use admissorium.Registry.{Disk}
use admissorium.Registry.Repos.{GovernedReposLoad}
use admissorium.Registry.RepoClasses.{RepoClassLoad}
use admissorium.Registry.Licenses.{LicenseEntry, LicenseLoad}
use admissorium.Registry.Packages.{PackageLoad}
use admissorium.Audit.Perimeter.{repo_perimeter_invariant}
use admissorium.Audit.RepoClass.{repo_class_registry_invariant}
use admissorium.Audit.License.{license_consistency_invariant}
use admissorium.Audit.Package.{ObservedPackage, package_registry_invariant}
use admissorium.Audit.Inventory.{LocalRepo}

-- what a run meets
pub record World : Type 0 where
  pub disk : Disk
  pub argv : List String
  pub started : String
  pub before : String → String → Bool
  pub canonical : Char → String
  pub small_letters : Char → String

-- `readText`
unfoldable pub read_text : Disk → String → Option (Option String)
read_text disk path =
    if disk.exists path then (disk.read path >>= λ text. some (some text)) else some none

-- `new Map(...)`, in which the last entry of a repository counts
unfoldable pub license_of : String → List LicenseEntry → Option LicenseEntry
license_of repo [] = none
license_of repo (entry ∷ entries) = elim (license_of repo entries) [
  | some later ↦ some later
  | none ↦ if entry.repo == repo then some entry else none
]

-- the findings about one repository that has a license in the registry
unfoldable pub expected_license_findings :
    World → LocalRepo → LicenseEntry → (source : String) → Option (List Finding)
expected_license_findings world repo entry source = do
  license ← read_text world.disk (world.disk.join_path (repo.path ∷ "LICENSE" ∷ []))
  readme ← read_text world.disk (world.disk.join_path (repo.path ∷ "README.md" ∷ []))
  some (license_consistency_invariant world.canonical repo.repo license readme entry.license source)

unfoldable pub license_here :
    World → LocalRepo → (source : String) → Option LicenseEntry → Option (List Finding)
license_here world repo source none = some []
license_here world repo source (some entry) = expected_license_findings world repo entry source

unfoldable pub license_findings : World → LicenseLoad → List LocalRepo → Option (List Finding)
license_findings world load [] = some []
license_findings world load (repo ∷ repos) = do
  here ← license_here world repo load.source (license_of repo.repo load.entries)
  rest ← license_findings world load repos
  some (here ++ rest)

-- the package of a parsed `package.json`; reading a field of `null` throws
abbrev package_name_of : Value → Option (Option String)
package_name_of undef = none
package_name_of null = none
package_name_of (obj fields) = elim (get fields "name") [ str s ↦ some (some s) | _ ↦ some none ]
package_name_of _ = some none

abbrev named_package : LocalRepo → Option String → List ObservedPackage
named_package repo none = []
named_package repo (some name) =
    if is_empty name
    then []
    else record { repo = repo.repo; name = name; path = repo.repo ⧺ ":package.json" } ∷ []

unfoldable pub observed_packages : Disk → List LocalRepo → Option (List ObservedPackage)
observed_packages disk [] = some []
observed_packages disk (repo ∷ repos) = do
  let path = disk.join_path (repo.path ∷ "package.json" ∷ [])
  here ←
      (if disk.exists path
        then (do
          text ← disk.read path
          parsed ← disk.parse_json text
          name ← package_name_of parsed
          some (named_package repo name))
        else some [])
  rest ← observed_packages disk repos
  some (here ++ rest)

abbrev pub repos_of : List LocalRepo → List String
repos_of inventory = map (λ entry. entry.repo) inventory

abbrev pub class_findings : List String → RepoClassLoad → List Finding
class_findings governed load =
    if load.present then repo_class_registry_invariant governed load.entries load.source else []

unfoldable pub package_findings : Disk → PackageLoad → List LocalRepo → Option (List Finding)
package_findings disk load inventory =
    if load.present
    then (do
      observed ← observed_packages disk inventory
      some (package_registry_invariant load.entries observed load.source))
    else some []

-- the registries as they were loaded, and the repositories that are checked out
pub record Loaded : Type 0 where
  pub governed : GovernedReposLoad
  pub licenses : LicenseLoad
  pub packages : PackageLoad
  pub classes : RepoClassLoad
  pub inventory : List LocalRepo

-- the findings about the repositories that are checked out; with none, nothing is compared
unfoldable pub local_findings : World → Loaded → List LocalRepo → Option (List Finding)
local_findings world loaded [] = some []
local_findings world loaded (repo ∷ repos) = do
  let inventory = repo ∷ repos
  licenses ← license_findings world loaded.licenses inventory
  packages ← package_findings world.disk loaded.packages inventory
  some (
      repo_perimeter_invariant loaded.governed.repos (repos_of inventory)
      ++ class_findings loaded.governed.repos loaded.classes
      ++ licenses
      ++ packages)
