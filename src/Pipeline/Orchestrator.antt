-- ===== src/Pipeline/Orchestrator.antt =====
-- app/actuator-dry-run-orchestrator.ts: the three plans of one report, and their summary. The fields
-- whose type has one value are left out.
use admissorium.Prelude.{ℕ, String, Bool, Option, none, some}
use admissorium.Js.{Env}
use admissorium.Fallible.{◌>>=◌}
use admissorium.Report.{AdmissibilityReport, verdict_text}
use admissorium.Report.Merge.{conclusion_text}
use admissorium.Permissions.Decision.{Surroundings}
use admissorium.Plan.{Printer}
use admissorium.Plan.CheckRun.{CheckRunPlanInput, CheckRunPlan, build_check_run_plan}
use admissorium.Plan.Repair.{RepairPlanInput, RepairPlan, build_repair_plan}
use admissorium.Plan.Quarantine.{QuarantinePlanInput, QuarantinePlan, build_quarantine_plan}
use admissorium.Writer.{write_disabled}

pub record OrchestrationInput : Type 0 where
  pub report : AdmissibilityReport
  pub repository_full_name : String
  pub head_sha : String
  pub env : Option Env

pub record Summary : Type 0 where
  pub check_run_conclusion : String
  pub projection_repair_required : Bool
  pub projection_repair_change_count : ℕ
  pub projection_repair_blocked_count : ℕ
  pub quarantine_issue_required : Bool
  pub quarantine_finding_count : ℕ
  pub write_disabled : Bool

pub record Orchestration : Type 0 where
  pub repository : String
  pub head_sha : String
  pub run_id : String
  pub admissibility_verdict : String
  pub check_run_plan : CheckRunPlan
  pub projection_repair_pr_plan : RepairPlan
  pub quarantine_issue_plan : QuarantinePlan
  pub summary : Summary

abbrev pub check_run_input : OrchestrationInput → CheckRunPlanInput
check_run_input input = record {
  report = input.report;
  head_sha = input.head_sha;
  repository_full_name = input.repository_full_name;
  details_url = none;
  env = input.env;
  permission_policy = none;
  protected_paths_policy = none;
}

abbrev pub repair_input : OrchestrationInput → RepairPlanInput
repair_input input = record {
  report = input.report;
  repository_full_name = input.repository_full_name;
  base_branch = none;
  branch_prefix = none;
  labels = none;
}

abbrev pub issue_input : OrchestrationInput → QuarantinePlanInput
issue_input input = record {
  report = input.report;
  repository_full_name = input.repository_full_name;
  labels = none;
}

abbrev pub orchestration :
    OrchestrationInput → CheckRunPlan → RepairPlan → QuarantinePlan → Orchestration
orchestration input check_run repair quarantine = record {
  repository = input.repository_full_name;
  head_sha = input.head_sha;
  run_id = input.report.run_id;
  admissibility_verdict = verdict_text input.report.verdict;
  check_run_plan = check_run;
  projection_repair_pr_plan = repair;
  quarantine_issue_plan = quarantine;
  summary = record {
    check_run_conclusion = conclusion_text check_run.conclusion;
    projection_repair_required = repair.required;
    projection_repair_change_count = repair.change_count;
    projection_repair_blocked_count = repair.blocked_count;
    quarantine_issue_required = quarantine.required;
    quarantine_finding_count = quarantine.finding_count;
    write_disabled = write_disabled input.env;
  };
}

unfoldable pub orchestrate_actuator_dry_run :
    Surroundings → Printer → OrchestrationInput → Option Orchestration
orchestrate_actuator_dry_run around printer input = do
  check_run ← build_check_run_plan around (check_run_input input)
  some (
      orchestration input check_run (build_repair_plan printer (repair_input input))
        (build_quarantine_plan printer (issue_input input)))
