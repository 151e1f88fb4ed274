-- ===== src/Registry/Licenses.antt =====
-- graph/loaders/licenses-loader.ts: which license a repository has.
use admissorium.Prelude.{String, Bool, true, false, Option, none, some, List, []}
use admissorium.Js.{Fields, bool, get}
use admissorium.Fallible.{◌>>=◌}
use admissorium.Registry.{Disk, candidates, load_first, entries_of, text_field, accepted}

pub record LicenseEntry : Type 0 where
  pub repo : String
  pub license : String
  pub license_file_required : Bool
  pub readme_license_required : Bool
  pub package_json_license_required_if_present : Bool

pub record LicenseLoad : Type 0 where
  pub entries : List LicenseEntry
  pub source : String
  pub present : Bool

abbrev boolean_field : Fields → String → Option Bool
boolean_field fields key = elim (get fields key) [ bool b ↦ some b | _ ↦ none ]

-- `isLicenseRegistryEntry`
unfoldable pub license_entry : Fields → Option LicenseEntry
license_entry fields = do
  repo ← text_field fields "repo"
  license ← text_field fields "license"
  file ← boolean_field fields "license_file_required"
  readme ← boolean_field fields "readme_license_required"
  package_json ← boolean_field fields "package_json_license_required_if_present"
  some (record {
    repo = repo;
    license = license;
    license_file_required = file;
    readme_license_required = readme;
    package_json_license_required_if_present = package_json;
  })

unfoldable pub load_license_registry : Disk → (root : String) → Option LicenseLoad
load_license_registry disk root =
    load_first disk (record { entries = []; source = "LICENSES_REGISTRY_ABSENT"; present = false })
      (λ path text. do
        parsed ← disk.parse_json text
        entries ← entries_of parsed
        some (record { entries = accepted license_entry entries; source = path; present = true }))
      (candidates disk root "LICENSES.json")
