-- ===== src/Examples/Writer.antt =====
-- The writers at plans of a report with one repairable finding.
use admissorium.Examples.Plan.{
  unset, around, printer, audited, repair_input, quarantine_input, check_run_input, check_run_plan,
  check_run-planned,
}
use mathlib.Core.List.{Memᴰ}
use admissorium.Prelude.{◌≡◌, refl, ◌↔◌, true, false, none, some, List, [], ◌∷◌}
use admissorium.Js.{finite}
use admissorium.Text.{split}
use admissorium.Report.Merge.{success}
use admissorium.Report.Merge.Laws.{IsMergeable}
use admissorium.Permissions.Decision.{allow}
use admissorium.Permissions.Decision.{WriteInput}
use admissorium.Permissions.Writes.{is_stopped}
use admissorium.Plan.CheckRun.{CheckRunPlan, decision_input}
use admissorium.Plan.Repair.{
  RepairPlan, Change, is_protected_surface, is_projection_repair_finding, build_repair_plan,
}
use admissorium.Plan.Quarantine.{build_quarantine_plan}
use admissorium.Writer.{WriterResult, split_repository, write_disabled}
use admissorium.Writer.Laws.{
  MayWrite, write_check_run_guarded-called_iff, write_required_guarded-called_iff,
}
use admissorium.Writer.Planned.{planned_check_run-called, planned_repair_pr-called}
use admissorium.Writer.CheckRun.{
  CheckRunVerdict, written_check_run, CheckRunCreateInput, CheckRunCreateResult,
  CheckRunWriterInput, check_run_request, check_run_guards, write_check_run_guarded,
}
use admissorium.Writer.RepairPr.{
  RepairPrWriterInput, PullRequestCreateInput, pull_request_request, repair_pr_guards,
  write_repair_pr_guarded,
}
use admissorium.Writer.Issue.{
  IssueWriterInput, IssueCreateInput, issue_request, write_issue_guarded,
}

-- the repair plan made executable, and its writer
abbrev repair_plan : RepairPlan
repair_plan = record (build_repair_plan printer repair_input) { dry_run = false }

abbrev repair_writer : RepairPrWriterInput
repair_writer = record {
  plan = repair_plan;
  client = λ r. some (record { number = finite false 7 0; html_url = none });
  execute_write = true;
  env = some unset;
}

abbrev pull_request : PullRequestCreateInput
pull_request = record {
  owner = "Verifrax";
  repo = "AUCTORISEAL";
  base = "main";
  head = repair_plan.head_branch;
  title = repair_plan.title;
  body = repair_plan.body;
  labels = repair_plan.labels;
}

pull_request-sent : (write_repair_pr_guarded repair_writer).calls ≡ pull_request ∷ []
unfolding write_repair_pr_guarded repair_pr_guards pull_request_request split_repository split
    write_disabled build_repair_plan is_protected_surface is_projection_repair_finding
pull_request-sent = refl

planned_repair_pr-called_example :
    (change : Change) × Memᴰ change (build_repair_plan printer repair_input).changes
    × (is_protected_surface change.surface ≡ false)
planned_repair_pr-called_example =
    planned_repair_pr-called printer repair_input repair_writer pull_request [] refl
      pull_request-sent

abbrev issue_writer : IssueWriterInput
issue_writer = record {
  plan = record (build_quarantine_plan printer quarantine_input) { dry_run = false };
  client = λ r. none;
  execute_write = true;
  env = none;
}

abbrev issue : IssueCreateInput
issue = record {
  owner = "Verifrax";
  repo = "AUCTORISEAL";
  title = issue_writer.plan.title;
  body = issue_writer.plan.body;
  labels = issue_writer.plan.labels;
}

write_required_guarded-called_iff_example :
    (((write_repair_pr_guarded repair_writer).calls ≡ pull_request ∷ []) ↔ (
      MayWrite true false (some unset)
      × (repair_plan.required ≡ true)
      × (pull_request_request repair_plan ≡ some pull_request)
      × (◌≡◌ {A = List PullRequestCreateInput} [] [])))
    × (((write_issue_guarded issue_writer).calls ≡ issue ∷ []) ↔ (
        MayWrite true false none
        × (issue_writer.plan.required ≡ true)
        × (issue_request issue_writer.plan ≡ some issue)
        × (◌≡◌ {A = List IssueCreateInput} [] [])))
write_required_guarded-called_iff_example =
    write_required_guarded-called_iff repair_writer pull_request [] issue_writer issue []

abbrev writer_of : CheckRunPlan → CheckRunWriterInput
writer_of plan = record {
  plan = plan;
  client = λ r. some (record { id = finite false 1 0; html_url = none });
  execute_write = true;
  env = some unset;
}

abbrev pub executable : CheckRunWriterInput
executable = writer_of (record check_run_plan { dry_run = false })

abbrev pub check_run : CheckRunCreateInput
check_run = record {
  owner = "Verifrax";
  repo = "AUCTORISEAL";
  name = "admissorium-admissibility";
  head_sha = "abc123";
  status = "completed";
  conclusion = success;
  output = record {
    title = check_run_plan.title;
    summary = check_run_plan.summary;
    text = check_run_plan.text;
  };
  details_url = none;
}

abbrev check_run_result : WriterResult CheckRunVerdict CheckRunCreateInput CheckRunCreateResult
check_run_result = record {
  verdict = written_check_run;
  write_attempted = true;
  write_performed = true;
  reason = "GitHub check-run write completed through guarded adapter.";
  request = check_run;
  answer = some (record { id = finite false 1 0; html_url = none });
}

check_run-sent : (write_check_run_guarded executable).calls ≡ check_run ∷ []
unfolding write_check_run_guarded check_run_guards check_run_request split_repository split
    write_disabled
check_run-sent = refl

check_run-answered : (write_check_run_guarded executable).result ≡ some check_run_result
unfolding write_check_run_guarded check_run_guards check_run_request split_repository split
    write_disabled
check_run-answered = refl

write_check_run_guarded-called_iff_example :
    ((write_check_run_guarded executable).calls ≡ check_run ∷ []) ↔ (
      MayWrite true false (some unset)
      × (executable.plan.permission_decision.verdict ≡ allow)
      × (check_run_request executable.plan ≡ some check_run)
      × (◌≡◌ {A = List CheckRunCreateInput} [] []))
write_check_run_guarded-called_iff_example =
    write_check_run_guarded-called_iff executable check_run []

planned_check_run-called_example :
    ((question : WriteInput) × (decision_input around check_run_input ≡ some question)
      × (is_stopped around question ≡ false))
    × (check_run.conclusion ≡ success → IsMergeable audited)
planned_check_run-called_example =
    planned_check_run-called around check_run_input check_run_plan executable check_run []
      check_run-planned refl refl check_run-sent
