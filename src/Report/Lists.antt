-- ===== src/Report/Lists.antt =====
-- classifiers/classify-red.ts and classify-yellow.ts, compilers/repair-plan-compiler.ts and
-- reports/finding-lists.ts: a report's findings sorted by severity.
use admissorium.Prelude.{ℕ, Char, String, Bool, true, false, ◌||◌, List, map, select}
use admissorium.Text.{contains, to_lower_case}
use admissorium.Report.{AdmissibilityReport, Finding, Severity, red, yellow, green}

abbrev pub is_severity : Severity → Severity → Bool
is_severity red red = true
is_severity yellow yellow = true
is_severity green green = true
is_severity _ _ = false

-- `findingsBySeverity`
abbrev pub findings_by_severity : Severity → List Finding → List Finding
findings_by_severity severity findings = select (λ f. is_severity f.severity severity) findings

abbrev pub classify_red : List Finding → List Finding
classify_red findings = findings_by_severity red findings

abbrev pub classify_yellow : List Finding → List Finding
classify_yellow findings = findings_by_severity yellow findings

pub record RepairPlanItem : Type 0 where
  pub finding_id : String
  pub repo : String
  pub surface : String
  pub action : String
  pub auto_pr_allowed : Bool

abbrev pub compile_repair_plan : List Finding → List RepairPlanItem
compile_repair_plan findings =
    map
      (λ finding. record {
        finding_id = finding.finding_id;
        repo = finding.repo;
        surface = finding.surface;
        action = finding.recommended_action;
        auto_pr_allowed = finding.autofix_allowed;
      })
      findings

-- whether the recommended action speaks of quarantine
abbrev pub asks_quarantine : (Char → String) → Finding → Bool
asks_quarantine small finding =
    contains (to_lower_case small finding.recommended_action) "quarantine"

unfoldable pub quarantine_findings : (Char → String) → AdmissibilityReport → List Finding
quarantine_findings small report =
    select (λ f. contains f.finding_id "QUARANTINE" || asks_quarantine small f) report.findings

pub record FindingListArtifact : Type 0 where
  pub run_id : String
  pub severity : String
  pub count : ℕ
  pub findings : List Finding

pub record FindingListArtifacts : Type 0 where
  pub red_list : FindingListArtifact
  pub yellow_list : FindingListArtifact
  pub green_list : FindingListArtifact
  pub quarantine_list : FindingListArtifact

abbrev artifact : AdmissibilityReport → String → ℕ → List Finding → FindingListArtifact
artifact report severity count findings = record {
  run_id = report.run_id;
  severity = severity;
  count = count;
  findings = findings;
}

unfoldable pub build_finding_list_artifacts :
    (Char → String) → AdmissibilityReport → FindingListArtifacts
build_finding_list_artifacts small report = record {
  red_list = artifact report "RED" report.red_count (findings_by_severity red report.findings);
  yellow_list =
      artifact report "YELLOW" report.yellow_count (findings_by_severity yellow report.findings);
  green_list =
      artifact report "GREEN" report.green_count (findings_by_severity green report.findings);
  quarantine_list =
      artifact report "QUARANTINED" report.quarantine_count (quarantine_findings small report);
}
