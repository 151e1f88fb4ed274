-- ===== src/Audit/Package.antt =====
-- invariants/package-registry.ts: every package has one source, and the registry has exactly the
-- packages that are there.
pub mod Laws
use admissorium.Prelude.{
  String, Bool, false, not, Option, none, some, List, [], ◌∷◌, ◌++◌, map, length, ltb, select,
  includes, if◌then◌else◌,
}
use admissorium.Text.{is_empty}
use admissorium.Js.{arr, str}
use admissorium.Report.{Finding, red, yellow}
use admissorium.Registry.Packages.{PackageEntry, package_name, package_source_repo}
use admissorium.Grouping.{group, unique}
use admissorium.Audit.{array_of}

pub record ObservedPackage : Type 0 where
  pub repo : String
  pub name : String
  pub path : String

-- a package that is registered with its source; an empty text counts as missing
abbrev named_source : Option String → Option String → List (String × String)
named_source (some name) (some source) =
    if is_empty name then [] else if is_empty source then [] else (name, source) ∷ []
named_source _ _ = []

unfoldable pub registered : List PackageEntry → List (String × String)
registered [] = []
registered (entry ∷ entries) =
    named_source (package_name entry) (package_source_repo entry) ++ registered entries

abbrev pub is_conflict : String × List String → Bool
is_conflict (name, sources) = ltb 1 (length (unique sources))

abbrev conflict_finding : String → String × List String → Finding
conflict_finding source_of_truth (name, sources) = record {
  finding_id = "RED-PACKAGE-REGISTRY-SOURCE-CONFLICT";
  severity = red;
  repo = "Verifrax/.github";
  surface = name;
  invariant = "one_package_one_source_repo";
  expected = str "exactly one source repo per package";
  observed = arr (array_of (unique sources));
  source_of_truth = source_of_truth;
  autofix_allowed = false;
  recommended_action = "Resolve package source ownership through governance review.";
}

-- `sources[0] ?? "Verifrax/.github"`
abbrev first_source : List String → String
first_source [] = "Verifrax/.github"
first_source (source ∷ _) = source

abbrev pub names_of : List ObservedPackage → List String
names_of packages = map (λ observed. observed.name) packages

abbrev pub is_absent : List ObservedPackage → String × List String → Bool
is_absent observed (name, sources) = not (includes (names_of observed) name)

abbrev absent_finding : String → String × List String → Finding
absent_finding source_of_truth (name, sources) = record {
  finding_id = "YELLOW-PACKAGE-REGISTRY-MISSING-LIVE-PACKAGE";
  severity = yellow;
  repo = first_source sources;
  surface = name;
  invariant = "package_registry_matches_materialized_packages";
  expected = str "registered package is materialized locally when source repo is present";
  observed = str "package not found in local package.json inventory";
  source_of_truth = source_of_truth;
  autofix_allowed = false;
  recommended_action =
      "Confirm whether package is historical, unpublished, or missing from local materialization.";
}

abbrev pub bucket_names : List (String × List String) → List String
bucket_names buckets = map (λ (bucket : String × List String). bucket.0) buckets

abbrev pub is_unregistered : List (String × List String) → ObservedPackage → Bool
is_unregistered buckets observed = not (includes (bucket_names buckets) observed.name)

abbrev unregistered_finding : String → ObservedPackage → Finding
unregistered_finding source_of_truth observed = record {
  finding_id = "YELLOW-LIVE-PACKAGE-MISSING-FROM-REGISTRY";
  severity = yellow;
  repo = observed.repo;
  surface = observed.path;
  invariant = "package_registry_matches_materialized_packages";
  expected = str "live package is represented in governance package registry";
  observed = str observed.name;
  source_of_truth = source_of_truth;
  autofix_allowed = false;
  recommended_action =
      "Add package to package registry through governance review or mark it non-canonical.";
}

unfoldable pub package_registry_invariant :
    List PackageEntry → List ObservedPackage → (source_of_truth : String) → List Finding
package_registry_invariant entries observed source_of_truth =
    let buckets = group (registered entries) in
    map (conflict_finding source_of_truth) (select is_conflict buckets)
    ++ map (absent_finding source_of_truth) (select (is_absent observed) buckets)
    ++ map (unregistered_finding source_of_truth) (select (is_unregistered buckets) observed)
