-- ===== src/Registry/RepoClasses.antt =====
-- graph/loaders/repo-classes-loader.ts: which class a repository has. An entry is the object as it was
-- parsed; three of its fields are known to be texts.
use admissorium.Prelude.{String, Bool, true, false, Option, some, List, []}
use admissorium.Js.{Fields}
use admissorium.Fallible.{◌>>=◌}
use admissorium.Registry.{Disk, candidates, load_first, entries_of, text_field, accepted}

pub record RepoClassEntry : Type 0 where
  pub repo : String
  pub class : String
  pub primary_role : String
  pub fields : Fields

pub record RepoClassLoad : Type 0 where
  pub entries : List RepoClassEntry
  pub source : String
  pub present : Bool

-- `isRepoClassRegistryEntry`
unfoldable pub repo_class_entry : Fields → Option RepoClassEntry
repo_class_entry fields = do
  repo ← text_field fields "repo"
  class ← text_field fields "class"
  primary_role ← text_field fields "primary_role"
  some (record { repo = repo; class = class; primary_role = primary_role; fields = fields })

unfoldable pub load_repo_class_registry : Disk → (root : String) → Option RepoClassLoad
load_repo_class_registry disk root =
    load_first disk
      (record { entries = []; source = "REPO_CLASSES_REGISTRY_ABSENT"; present = false })
      (λ path text. do
        parsed ← disk.parse_json text
        entries ← entries_of parsed
        some
            (record { entries = accepted repo_class_entry entries; source = path; present = true }))
      (candidates disk root "REPO_CLASSES.json")
