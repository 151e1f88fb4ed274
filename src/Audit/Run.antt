-- ===== src/Audit/Run.antt =====
-- cli/admissorium.ts: one audit, from the command line to the report and the exit status. `none` is an
-- exception that nothing catches. What is written to files is `Outcome`; its JSON is not modelled.
pub mod Laws
pub mod NeverGreen
pub mod Clean
use admissorium.Prelude.{
  ℕ, Char, String, Bool, true, false, not, ◌==◌, Option, none, some, List, [], ◌∷◌, ◌++◌, map, any,
  length, ltb, nat_eq, includes, select, if◌then◌else◌,
}
use admissorium.Text.{◌⧺◌, is_empty, replace_all}
use admissorium.Js.{Value, Fields, undef, null, obj, str, get, or_else}
use admissorium.Fallible.{◌>>=◌}
use admissorium.Report.{
  AdmissibilityReport, AdmissibilityVerdict, admissible, admissible_as_projection_repair,
  inadmissible, Finding, ReportMode, audit, repair_projection, candidate_registry, block,
  quarantine, red, yellow,
}
use admissorium.Report.Lists.{
  is_severity, classify_red, classify_yellow, RepairPlanItem, compile_repair_plan, asks_quarantine,
  FindingListArtifacts, build_finding_list_artifacts,
}
use admissorium.Report.Merge.{MergeVerdictArtifact, build_merge_verdict_artifact}
use admissorium.Registry.{Disk}
use admissorium.Registry.Repos.{GovernedReposLoad, load_governed_repos}
use admissorium.Registry.RepoClasses.{RepoClassLoad, load_repo_class_registry}
use admissorium.Registry.Licenses.{LicenseEntry, LicenseLoad, load_license_registry}
use admissorium.Registry.Packages.{PackageLoad, load_package_registry}
use admissorium.Readiness.Actuator.{ActuatorReadiness, build_actuator_readiness}
use admissorium.Audit.{count_value}
use admissorium.Audit.Perimeter.{repo_perimeter_invariant}
use admissorium.Audit.RepoClass.{repo_class_registry_invariant}
use admissorium.Audit.License.{license_consistency_invariant}
use admissorium.Audit.Package.{ObservedPackage, package_registry_invariant}
use admissorium.Audit.Inventory.{LocalRepo, discover_local_repos, GraphNode, build_accepted_graph}
use admissorium.Audit.Local.{World, Loaded, local_findings, repos_of}

-- `process.argv.indexOf(name)`, and the word behind it; an empty list has none
abbrev pub first_word : List String → (fallback : String) → String
first_word [] fallback = fallback
first_word (word ∷ words) fallback = word

unfoldable pub arg : List String → (name fallback : String) → String
arg [] name fallback = fallback
arg (word ∷ words) name fallback =
    let later = arg words name fallback in if word == name then first_word words fallback else later

abbrev third_word : List String → String
third_word (node ∷ script ∷ word ∷ words) = word
third_word _ = "audit"

unfoldable pub mode : List String → ReportMode
mode argv =
    let raw = third_word argv in
    if raw == "repair-projection"
    then repair_projection
    else if raw == "candidate-registry"
    then candidate_registry
    else if raw == "block"
    then block
    else if raw == "quarantine"
    then quarantine
    else audit

unfoldable pub verdict : List Finding → AdmissibilityVerdict
verdict findings =
    if any (λ f. is_severity f.severity red) findings
    then inadmissible
    else if any (λ f. is_severity f.severity yellow) findings
    then admissible_as_projection_repair
    else admissible

unfoldable pub load_all : World → (root org : String) → Option Loaded
load_all world root org = do
  governed ← load_governed_repos world.disk root
  licenses ← load_license_registry world.disk root
  packages ← load_package_registry world.disk root
  classes ← load_repo_class_registry world.disk root
  inventory ← discover_local_repos world.before world.disk root org
  some (record {
    governed = governed;
    licenses = licenses;
    packages = packages;
    classes = classes;
    inventory = inventory;
  })

abbrev count_finding : GovernedReposLoad → ℕ → Finding
count_finding governed count = record {
  finding_id = "RED-GOVERNED-REPO-COUNT";
  severity = red;
  repo = "Verifrax/.github";
  surface = governed.source;
  invariant = "no_orphan_surfaces";
  expected = count_value 35;
  observed = count_value count;
  source_of_truth = governed.source;
  autofix_allowed = false;
  recommended_action = "Align governed repository registry through governance review.";
}

abbrev pub accepted_graph : Loaded → List GraphNode
accepted_graph loaded = build_accepted_graph loaded.governed.repos loaded.governed.source

-- the repositories that are checked out, or, with none, those of the graph
abbrev candidate_inventory : Loaded → List LocalRepo → List LocalRepo
candidate_inventory loaded [] =
    map
      (λ node. record {
        repo = node.id;
        path = "accepted-graph";
        has_git = false;
        has_readme = false;
        has_license = false;
        has_package_json = false;
        has_surface_host = false;
      })
      (accepted_graph loaded)
candidate_inventory loaded (repo ∷ repos) = repo ∷ repos

unfoldable pub count_findings : Loaded → List Finding
count_findings loaded =
    let count = length (accepted_graph loaded) in
    if nat_eq count 35 then [] else count_finding loaded.governed count ∷ []

unfoldable pub audit_findings : World → Loaded → Option (List Finding)
audit_findings world loaded = do
  local ← local_findings world loaded loaded.inventory
  some (local ++ count_findings loaded)

unfoldable pub report_of : World → (org : String) → List Finding → AdmissibilityReport
report_of world org findings = record {
  run_id = "admissorium-" ⧺ replace_all "." "-" (replace_all ":" "-" world.started);
  started_at = world.started;
  org = org;
  mode = mode world.argv;
  accepted_graph_ref = "reports/current/accepted-graph.json";
  candidate_graph_ref = "reports/current/candidate-graph.json";
  verdict = verdict findings;
  red_count = length (classify_red findings);
  yellow_count = length (classify_yellow findings);
  green_count = if nat_eq (length findings) 0 then 1 else 0;
  quarantine_count = length (select (asks_quarantine world.small_letters) findings);
  findings = findings;
  repair_plan_ref = "reports/current/repair-plan.json";
}

unfoldable pub exit_status : AdmissibilityReport → ℕ
exit_status report =
    if ltb 0 report.red_count then 2 else if ltb 0 report.yellow_count then 1 else 0

pub record Outcome : Type 0 where
  pub report : AdmissibilityReport
  pub accepted_graph : List GraphNode
  pub candidate_inventory : List LocalRepo
  pub repair_plan : List RepairPlanItem
  pub lists : FindingListArtifacts
  pub merge_verdict : MergeVerdictArtifact
  pub actuator_readiness : ActuatorReadiness
  pub exit_status : ℕ

unfoldable pub outcome_of :
    World → (org : String) → Loaded → List Finding → ActuatorReadiness → Outcome
outcome_of world org loaded findings readiness =
    let report = report_of world org findings in
    record {
      report = report;
      accepted_graph = accepted_graph loaded;
      candidate_inventory = candidate_inventory loaded loaded.inventory;
      repair_plan = compile_repair_plan findings;
      lists = build_finding_list_artifacts world.small_letters report;
      merge_verdict = build_merge_verdict_artifact report;
      actuator_readiness = readiness;
      exit_status = exit_status report;
    }

-- `main`
unfoldable pub main : World → Option Outcome
main world = do
  let org = arg world.argv "--org" "Verifrax"
  let root = arg world.argv "--root" "../"
  loaded ← load_all world root org
  findings ← audit_findings world loaded
  readiness ← build_actuator_readiness world.canonical world.disk root
  some (outcome_of world org loaded findings readiness)
