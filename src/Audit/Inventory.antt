-- ===== src/Audit/Inventory.antt =====
-- graph/builders/live-inventory-builder.ts and accepted-graph-builder.ts: the repositories that are
-- checked out, and the nodes of the governed ones.
use admissorium.Prelude.{
  String, Bool, true, ◌==◌, Option, some, List, [], ◌∷◌, map, select, if◌then◌else◌,
}
use admissorium.Text.{◌⧺◌}
use admissorium.Fallible.{◌>>=◌}
use admissorium.Registry.{Disk}
use admissorium.Report.{AdmissibilityVerdict, admissible, requires_acceptance_act}

pub record LocalRepo : Type 0 where
  pub repo : String
  pub path : String
  pub has_git : Bool
  pub has_readme : Bool
  pub has_license : Bool
  pub has_package_json : Bool
  pub has_surface_host : Bool

-- `sort` by `localeCompare`: behind every repository that does not come after it. `before` is the
-- order of the locale.
insert_repo : (String → String → Bool) → LocalRepo → List LocalRepo → List LocalRepo
insert_repo before x [] = x ∷ []
insert_repo before x (y ∷ ys) =
    let rest = insert_repo before x ys in if before x.repo y.repo then x ∷ y ∷ ys else y ∷ rest

sort_repos : (String → String → Bool) → List LocalRepo → List LocalRepo → List LocalRepo
sort_repos before done [] = done
sort_repos before done (x ∷ xs) = sort_repos before (insert_repo before x done) xs

abbrev local_repo : Disk → (root org name : String) → LocalRepo
local_repo disk root org name =
    let path = disk.join_path (root ∷ name ∷ []) in
    record {
      repo = org ⧺ "/" ⧺ name;
      path = path;
      has_git = true;
      has_readme = disk.exists (disk.join_path (path ∷ "README.md" ∷ []));
      has_license = disk.exists (disk.join_path (path ∷ "LICENSE" ∷ []));
      has_package_json = disk.exists (disk.join_path (path ∷ "package.json" ∷ []));
      has_surface_host = disk.exists (disk.join_path (path ∷ "surface.host.json" ∷ []));
    }

unfoldable pub discover_local_repos :
    (before : String → String → Bool) → Disk → (root org : String) → Option (List LocalRepo)
unfolding sort_repos insert_repo
discover_local_repos before disk root org = do
  names ← disk.directories root
  some (
      sort_repos before [] (
        map (local_repo disk root org)
          (select (λ name. disk.exists (disk.join_path (root ∷ name ∷ ".git" ∷ []))) names)))

pub data SurfaceStatus : Type 0 where
  active_truth derived_projection : SurfaceStatus

-- A node of the accepted graph; the fields whose value is one for all nodes are left out.
pub record GraphNode : Type 0 where
  pub id : String
  pub status : SurfaceStatus
  pub owner_repo : String
  pub source_of_truth : String
  pub admissibility : AdmissibilityVerdict

unfoldable pub build_accepted_graph : List String → (source_of_truth : String) → List GraphNode
build_accepted_graph governed_repos source_of_truth =
    map
      (λ repo. record {
        id = repo;
        status = if repo == "Verifrax/ADMISSORIUM" then derived_projection else active_truth;
        owner_repo = repo;
        source_of_truth = source_of_truth;
        admissibility =
            if repo == "Verifrax/ADMISSORIUM" then requires_acceptance_act else admissible;
      })
      governed_repos
