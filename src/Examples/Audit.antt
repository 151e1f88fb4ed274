-- ===== src/Examples/Audit.antt =====
-- The audit at one repository that is checked out, of the two that are governed.
use admissorium.Prelude.{
  All, is_some, String, ◌≡◌, ◌↔◌, refl, true, false, ◌==◌, Option, none, some, List, [], ◌∷◌,
  length, if◌then◌else◌,
}
use admissorium.Text.{join, trim}
use admissorium.Js.{obj, field, end, str, get}
use admissorium.Report.{Finding}
use admissorium.Registry.{Disk, load_first}
use admissorium.Audit.Perimeter.{repo_perimeter_invariant}
use admissorium.Audit.Perimeter.Sets.{repo_set, IsComparison, repo_perimeter_invariant-sets}
use admissorium.Audit.Package.{ObservedPackage, registered, package_registry_invariant}
use admissorium.Audit.Package.Laws.{SourcesAgree, package_registry_invariant-nil_iff}
use admissorium.Grouping.Laws.{keys}
use admissorium.Audit.Perimeter.Laws.{SameElements}
use admissorium.Readiness.Actuator.{build_actuator_readiness, scan_all, scan_forbidden, hit_paths}
use admissorium.Audit.Local.{
  World, Loaded, local_findings, license_of, license_findings, license_here, package_findings,
  observed_packages,
}
use admissorium.Audit.Run.{
  Outcome, load_all, audit_findings, main, report_of, exit_status, outcome_of, verdict, mode, arg,
  count_findings,
}
use admissorium.Audit.Inventory.{LocalRepo, discover_local_repos, build_accepted_graph}
use admissorium.Registry.Repos.{load_governed_repos, parse_governed_repos, split_lines}
use admissorium.Registry.Licenses.{load_license_registry}
use admissorium.Registry.Packages.{PackageEntry, load_package_registry}
use admissorium.Registry.RepoClasses.{load_repo_class_registry}
use admissorium.Grouping.{group, group_from, put, unique, unique_from}
use admissorium.Audit.Run.Clean.{IsMatched, audit-clean_iff}

abbrev files : List (String × String)
files =
    ("../.github/governance/GOVERNED_REPOS.txt", "Verifrax/.github\nVerifrax/ADMISSORIUM")
    ∷ ("../ADMISSORIUM/.git", "")
    ∷ ("../ADMISSORIUM/package.json", "{}")
    ∷ []

abbrev text_at : String → List (String × String) → Option String
text_at path [] = none
text_at path ((name, text) ∷ rest) =
    let later = text_at path rest in if name == path then some text else later

-- a disk with these files
abbrev disk : Disk
disk = record {
  join_path = λ parts. join parts "/";
  exists = λ path. is_some (text_at path files);
  read = λ path. text_at path files;
  directories = λ root. some ("ADMISSORIUM" ∷ []);
  parse_json = λ text. some (obj (field "name" (str "@verifrax/admissorium") end));
}

abbrev world : World
world = record {
  disk = disk;
  argv = "node" ∷ "admissorium" ∷ "audit" ∷ "--root" ∷ ".." ∷ [];
  started = "2026-01-01T00:00:00.000Z";
  before = λ a b. false;
  canonical = λ c. String.◌∷◌ c "";
  small_letters = λ c. String.◌∷◌ c "";
}

-- the run, whose two findings are red: a repository is missing, and there are not 35
run : (o : Outcome) × (main world ≡ some o)
unfolding main load_all load_governed_repos load_license_registry load_package_registry
    load_repo_class_registry load_first discover_local_repos parse_governed_repos split_lines trim
    audit_findings local_findings license_findings package_findings repo_perimeter_invariant
    count_findings build_accepted_graph outcome_of report_of verdict mode arg exit_status
    license_here license_of build_actuator_readiness scan_all scan_forbidden hit_paths
run = (_, refl)

run-inadmissible : run.0.exit_status ≡ 2
unfolding run
run-inadmissible = refl

abbrev repo : LocalRepo
repo = record {
  repo = "Verifrax/ADMISSORIUM";
  path = "../ADMISSORIUM";
  has_git = true;
  has_readme = false;
  has_license = false;
  has_package_json = true;
  has_surface_host = false;
}

abbrev entry : PackageEntry
entry = record {
  repo = none;
  package_field = some "@verifrax/admissorium";
  name = none;
  source_repo = some "Verifrax/ADMISSORIUM";
}

-- the registries, with the package of the repository
abbrev loaded : Loaded
loaded = record {
  governed = record {
    repos = "Verifrax/ADMISSORIUM" ∷ [];
    source = "GOVERNED_REPOS.txt";
    used_bootstrap = false;
  };
  licenses = record { entries = []; source = "LICENSES.json"; present = true };
  packages = record { entries = entry ∷ []; source = "PACKAGES.json"; present = true };
  classes = record { entries = []; source = "REPO_CLASSES.json"; present = false };
  inventory = repo ∷ [];
}

-- only the count of 35 is missed
audited : (findings : List Finding) × (audit_findings world loaded ≡ some findings)
unfolding audit_findings local_findings license_findings package_findings observed_packages
    repo_perimeter_invariant package_registry_invariant registered group group_from put unique
    unique_from count_findings build_accepted_graph license_here license_of get
audited = (_, refl)

audit-clean_iff_example :
    (exit_status (report_of world "Verifrax" audited.0) ≡ 0)
    ↔ (IsMatched world loaded (repo ∷ []) × (length loaded.governed.repos ≡ 35))
audit-clean_iff_example = audit-clean_iff world "Verifrax" loaded audited.0 audited.1

audited-one : length audited.0 ≡ 1
unfolding audited
audited-one = refl

abbrev here : List String
here = "Verifrax/ADMISSORIUM" ∷ "Verifrax/ADMISSORIUM" ∷ []

abbrev governed : List String
governed = "Verifrax/.github" ∷ "Verifrax/ADMISSORIUM" ∷ []

repo_perimeter_invariant-sets_example :
    ((repo_perimeter_invariant governed here ≡ []) ↔ (repo_set governed ≡ repo_set here))
    × All (IsComparison governed here) (repo_perimeter_invariant governed here)
repo_perimeter_invariant-sets_example = repo_perimeter_invariant-sets governed here

abbrev its_package : ObservedPackage
its_package = record {
  repo = "Verifrax/ADMISSORIUM";
  name = "@verifrax/admissorium";
  path = "package.json";
}

package_registry_invariant-nil_iff_example :
    (package_registry_invariant (entry ∷ []) (its_package ∷ []) "PACKAGES.json" ≡ []) ↔ (
      SourcesAgree (registered (entry ∷ []))
      × SameElements (keys (registered (entry ∷ []))) ("@verifrax/admissorium" ∷ []))
package_registry_invariant-nil_iff_example =
    package_registry_invariant-nil_iff (entry ∷ []) (its_package ∷ []) "PACKAGES.json"
