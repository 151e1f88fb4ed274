-- ===== src/Examples/Plan.antt =====
-- Plans of a report with one repairable finding.
use mathlib.Core.List.{Memᴰ}
use admissorium.Prelude.{String, ◌≡◌, refl, ◌↔◌, true, false, none, some, [], ◌∷◌}
use admissorium.Js.{str, Env}
use admissorium.Text.{print_count, contains, to_upper_case}
use admissorium.Report.{
  AdmissibilityReport, Finding, yellow, admissible_as_projection_repair, audit,
}
use admissorium.Report.Merge.{
  success, build_merge_verdict_artifact, merge_verdict_for_report,
  check_conclusion_for_merge_verdict,
}
use admissorium.Permissions.Policy.{
  missing, load_permission_policy, load_protected_paths_policy, with_permission_defaults,
  with_protected_path_defaults, lookup, normalize_protected_class, canonical_id,
}
use admissorium.Permissions.Decision.{
  allow, Surroundings, decide_write, permission_policy_of, protected_policy_of, mode_of,
  underscored, is_write_disabled, switch_variable, protected_path_decision, mode_flags, flag,
  permitted, stopped, settled,
}
use admissorium.Plan.{Printer}
use admissorium.Plan.CheckRun.{
  CheckRunPlanInput, CheckRunPlan, decision_input, build_check_run_plan,
}
use admissorium.Plan.Repair.{RepairPlanInput, Change, build_repair_plan}
use admissorium.Plan.Repair.Laws.{told, IsEligible, IsTruth, build_repair_plan-parts_iff}
use admissorium.Plan.Quarantine.{QuarantinePlanInput}

abbrev pub unset : Env
unset name = none

abbrev pub around : Surroundings
around = record {
  process_env = unset;
  files = record { permission_policy = missing; protected_paths = missing };
  capitals = λ c. String.◌∷◌ c "";
}

abbrev pub printer : Printer
printer = record {
  stringify = λ v. "";
  interpolate = λ v. "";
  small_letters = λ c. String.◌∷◌ c "";
}

abbrev pub drift : Finding
drift = record {
  finding_id = "f-1";
  severity = yellow;
  repo = "AUCTORISEAL";
  surface = "docs/index.md";
  invariant = "projection";
  expected = str "a";
  observed = str "b";
  source_of_truth = "LEX";
  autofix_allowed = true;
  recommended_action = "repair or quarantine";
}

abbrev pub audited : AdmissibilityReport
audited = record {
  run_id = "Run 1";
  started_at = "2026-01-01";
  org = "Verifrax";
  mode = audit;
  accepted_graph_ref = "a";
  candidate_graph_ref = "c";
  verdict = admissible_as_projection_repair;
  red_count = 0;
  yellow_count = 1;
  green_count = 0;
  quarantine_count = 0;
  findings = drift ∷ [];
  repair_plan_ref = "r";
}

abbrev pub repair_input : RepairPlanInput
repair_input = record {
  report = audited;
  repository_full_name = "Verifrax/AUCTORISEAL";
  base_branch = none;
  branch_prefix = none;
  labels = none;
}

abbrev drift_change : Change
drift_change = told printer drift

build_repair_plan-parts_iff_example :
    (Memᴰ drift_change (build_repair_plan printer repair_input).changes ↔ (
      (f : Finding) × IsEligible audited f
      × (¬ IsTruth f.surface)
      × (drift_change ≡ told printer f)))
    × (Memᴰ drift_change (build_repair_plan printer repair_input).blocked_findings ↔ (
        (f : Finding) × IsEligible audited f × IsTruth f.surface × (drift_change ≡ told printer f)))
build_repair_plan-parts_iff_example = build_repair_plan-parts_iff printer repair_input drift_change

abbrev pub quarantine_input : QuarantinePlanInput
quarantine_input = record {
  report = audited;
  repository_full_name = "Verifrax/AUCTORISEAL";
  labels = none;
}

abbrev pub check_run_input : CheckRunPlanInput
check_run_input = record {
  report = audited;
  head_sha = "abc123";
  repository_full_name = "Verifrax/AUCTORISEAL";
  details_url = none;
  env = none;
  permission_policy = none;
  protected_paths_policy = none;
}

-- the plan of the check run, as the planner makes it
abbrev pub check_run_plan : CheckRunPlan
check_run_plan = record {
  dry_run = true;
  write_behavior = "NONE";
  name = "admissorium-admissibility";
  repository = "Verifrax/AUCTORISEAL";
  head_sha = "abc123";
  status = "completed";
  conclusion = success;
  title = "ADMISSORIUM projection repair required";
  summary =
      "Admissibility verdict: ADMISSIBLE_AS_PROJECTION_REPAIR\nMerge verdict: PASS_WITH_PROJECTION_REPAIR\nRED: 0\nYELLOW: 1\nQUARANTINED: 0\nMerge allowed: true";
  text =
      "ADMISSORIUM does not decide truth.\nADMISSORIUM enforces admissibility of materialized surfaces against the accepted VERIFRAX object graph.\n\n## Counts\n\n- RED: 0\n- YELLOW: 1\n- GREEN: 0\n- QUARANTINED: 0\n\n## Merge verdict\n\n- verdict: PASS_WITH_PROJECTION_REPAIR\n- merge_allowed: true\n- check_conclusion: success\n- reason: Candidate materialization is admissible as projection repair and does not require truth mutation.\n\n## Findings\n\n- YELLOW: f-1 — repair or quarantine";
  merge_verdict = build_merge_verdict_artifact audited;
  permission_decision = record {
    verdict = allow;
    reason = "ALLOWED";
    allowed = false;
    denied = true;
    emergency_stop_active = false;
    dry_run = true;
    requires_governance = false;
    path_touched = false;
    matched_class = none;
    check_run_allowed = true;
    projection_repair_allowed = false;
    quarantine_issue_allowed = false;
  };
  details_url = none;
}

pub check_run-planned : build_check_run_plan around check_run_input ≡ some check_run_plan
unfolding build_check_run_plan decision_input build_merge_verdict_artifact merge_verdict_for_report
    check_conclusion_for_merge_verdict print_count decide_write permission_policy_of
    protected_policy_of load_permission_policy load_protected_paths_policy with_permission_defaults
    with_protected_path_defaults normalize_protected_class canonical_id lookup mode_of underscored
    to_upper_case is_write_disabled switch_variable protected_path_decision mode_flags flag
    permitted stopped settled contains
check_run-planned = refl
