-- ===== src/Plan/CheckRun.antt =====
-- app/check-run-plan.ts: the check run that reports a merge verdict, with the decision about writing
-- it. `none` is the `SyntaxError` that `decideWrite` may throw.
use admissorium.Prelude.{
  String, Bool, true, false, Option, none, some, List, [], ◌∷◌, ◌++◌, map, if◌then◌else◌,
}
use admissorium.Text.{◌⧺◌, is_empty, join, print_count}
use admissorium.Js.{Env, or_also}
use admissorium.Fallible.{◌>>=◌}
use admissorium.Report.{AdmissibilityReport, Finding, verdict_text, severity_text}
use admissorium.Report.Merge.{
  MergeVerdict, pass, pass_with_projection_repair, requires_governance_review,
  blocked_by_constitutional_drift, quarantined, Conclusion, MergeVerdictArtifact, merge_text,
  conclusion_text, build_merge_verdict_artifact,
}
use admissorium.Permissions.Policy.{
  PermissionPolicy, ProtectedPathsPolicy, load_permission_policy, load_protected_paths_policy,
}
use admissorium.Permissions.Decision.{WriteInput, WriteDecision, Surroundings, decide_write}
use admissorium.Plan.{preamble}

pub record CheckRunPlanInput : Type 0 where
  pub report : AdmissibilityReport
  pub head_sha : String
  pub repository_full_name : String
  pub details_url : Option String
  pub env : Option Env
  pub permission_policy : Option PermissionPolicy
  pub protected_paths_policy : Option ProtectedPathsPolicy

pub record CheckRunPlan : Type 0 where
  pub dry_run : Bool
  pub write_behavior : String
  pub name : String
  pub repository : String
  pub head_sha : String
  pub status : String
  pub conclusion : Conclusion
  pub title : String
  pub summary : String
  pub text : String
  pub merge_verdict : MergeVerdictArtifact
  pub permission_decision : WriteDecision
  pub details_url : Option String

abbrev title_for : MergeVerdict → String
title_for pass = "ADMISSORIUM admissibility passed"
title_for blocked_by_constitutional_drift = "ADMISSORIUM blocked inadmissible materialization"
title_for quarantined = "ADMISSORIUM quarantined materialization"
title_for requires_governance_review = "ADMISSORIUM requires governance review"
title_for pass_with_projection_repair = "ADMISSORIUM projection repair required"

abbrev bool_text : Bool → String
bool_text true = "true"
bool_text false = "false"

summary_for : AdmissibilityReport → MergeVerdictArtifact → String
summary_for report artifact =
    join
      ("Admissibility verdict: " ⧺ verdict_text report.verdict
        ∷ "Merge verdict: " ⧺ merge_text artifact.verdict
        ∷ "RED: " ⧺ print_count report.red_count
        ∷ "YELLOW: " ⧺ print_count report.yellow_count
        ∷ "QUARANTINED: " ⧺ print_count report.quarantine_count
        ∷ "Merge allowed: " ⧺ bool_text artifact.merge_allowed
        ∷ [])
      "\n"

finding_line : Finding → String
finding_line finding =
    "- "
    ⧺ severity_text finding.severity
    ⧺ ": "
    ⧺ finding.finding_id
    ⧺ " — "
    ⧺ finding.recommended_action

abbrev finding_lines : List Finding → List String
finding_lines [] = "No findings." ∷ []
finding_lines (finding ∷ findings) = map finding_line (finding ∷ findings)

text_for : AdmissibilityReport → MergeVerdictArtifact → String
text_for report artifact =
    join
      (preamble
        ++ ("## Counts"
            ∷ ""
            ∷ "- RED: " ⧺ print_count report.red_count
            ∷ "- YELLOW: " ⧺ print_count report.yellow_count
            ∷ "- GREEN: " ⧺ print_count report.green_count
            ∷ "- QUARANTINED: " ⧺ print_count report.quarantine_count
            ∷ ""
            ∷ "## Merge verdict"
            ∷ ""
            ∷ "- verdict: " ⧺ merge_text artifact.verdict
            ∷ "- merge_allowed: " ⧺ bool_text artifact.merge_allowed
            ∷ "- check_conclusion: " ⧺ conclusion_text artifact.check_conclusion
            ∷ "- reason: " ⧺ artifact.reason
            ∷ ""
            ∷ "## Findings"
            ∷ ""
            ∷ [])
        ++ finding_lines report.findings)
      "\n"

-- what `decideWrite` is asked
abbrev pub asked : CheckRunPlanInput → PermissionPolicy → ProtectedPathsPolicy → WriteInput
asked input permission protected = record {
  mode = some "block";
  write_class_camel = some "CHECK_RUN";
  write_class = none;
  action = none;
  target_path_camel = none;
  target_path = none;
  changed_paths_camel = none;
  changed_paths = none;
  execute_write_camel = none;
  execute_write = none;
  permission_policy_camel = some permission;
  permission_policy = none;
  policy = none;
  protected_paths_policy_camel = some protected;
  protected_paths_policy = none;
  env = input.env;
}

-- the same, with the policies that are not given read from their files
unfoldable pub decision_input : Surroundings → CheckRunPlanInput → Option WriteInput
decision_input around input = do
  permission ← or_also input.permission_policy (load_permission_policy around.files)
  protected ← or_also input.protected_paths_policy (load_protected_paths_policy around.files)
  some (asked input permission protected)

abbrev given_url : Option String → Option String
given_url none = none
given_url (some url) = if is_empty url then none else some url

unfoldable pub build_check_run_plan : Surroundings → CheckRunPlanInput → Option CheckRunPlan
unfolding summary_for text_for finding_line
build_check_run_plan around input = do
  let artifact = build_merge_verdict_artifact input.report
  question ← decision_input around input
  decision ← decide_write around question
  some (record {
    dry_run = true;
    write_behavior = "NONE";
    name = "admissorium-admissibility";
    repository = input.repository_full_name;
    head_sha = input.head_sha;
    status = "completed";
    conclusion = artifact.check_conclusion;
    title = title_for artifact.verdict;
    summary = summary_for input.report artifact;
    text = text_for input.report artifact;
    merge_verdict = artifact;
    permission_decision = decision;
    details_url = given_url input.details_url;
  })
