-- ===== src/Registry/Packages.antt =====
-- graph/loaders/packages-loader.ts: which repository a package comes from. The guard accepts an entry
-- with one text field; a field that is no text, against the type, is read here as missing.
use admissorium.Prelude.{
  String, Bool, true, false, ◌||◌, Option, none, some, List, [], if◌then◌else◌,
}
use admissorium.Js.{Fields, Value, arr, items, get, or_also}
use admissorium.Fallible.{◌>>=◌}
use admissorium.Registry.{Disk, candidates, load_first, entries_of, is_text, text_field, accepted}

pub record PackageEntry : Type 0 where
  pub repo : Option String
  pub package_field : Option String
  pub name : Option String
  pub source_repo : Option String

pub record PackageLoad : Type 0 where
  pub entries : List PackageEntry
  pub source : String
  pub present : Bool

-- `isPackageRegistryEntry`
unfoldable pub package_entry : Fields → Option PackageEntry
package_entry fields =
    if is_text (get fields "repo")
      || is_text (get fields "source_repo")
      || is_text (get fields "package")
      || is_text (get fields "name")
    then some (record {
      repo = text_field fields "repo";
      package_field = text_field fields "package";
      name = text_field fields "name";
      source_repo = text_field fields "source_repo";
    })
    else none

-- `packageName`
abbrev pub package_name : PackageEntry → Option String
package_name entry = or_also entry.package_field entry.name

-- `packageSourceRepo`
abbrev pub package_source_repo : PackageEntry → Option String
package_source_repo entry = or_also entry.source_repo entry.repo

-- the entries of the object, or those of a bare array
unfoldable pub package_entries : Value → Option (List Value)
package_entries (arr vs) = some (items vs)
package_entries v = entries_of v

unfoldable pub load_package_registry : Disk → (root : String) → Option PackageLoad
load_package_registry disk root =
    load_first disk (record { entries = []; source = "PACKAGES_REGISTRY_ABSENT"; present = false })
      (λ path text. do
        parsed ← disk.parse_json text
        entries ← package_entries parsed
        some (record { entries = accepted package_entry entries; source = path; present = true }))
      (candidates disk root "PACKAGES.json")
