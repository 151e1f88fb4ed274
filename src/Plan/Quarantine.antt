-- ===== src/Plan/Quarantine.antt =====
-- app/quarantine-issue-plan.ts: the issue about quarantined surfaces.
pub mod Laws
use admissorium.Prelude.{
  select, ℕ, String, Bool, true, false, ◌||◌, Option, List, [], ◌∷◌, ◌++◌, map, length, ltb,
  if◌then◌else◌,
}
use admissorium.Text.{◌⧺◌, contains, join, print_count, to_lower_case}
use admissorium.Js.{or_else}
use admissorium.Report.{AdmissibilityReport, Finding, verdict_text, severity_text}
use admissorium.Plan.{Printer, preamble}

pub record QuarantinePlanInput : Type 0 where
  pub report : AdmissibilityReport
  pub repository_full_name : String
  pub labels : Option (List String)

pub record QuarantinePlan : Type 0 where
  pub dry_run : Bool
  pub write_behavior : String
  pub required : Bool
  pub repository : String
  pub title : String
  pub body : String
  pub labels : List String
  pub finding_count : ℕ
  pub run_id : String

abbrev bool_text : Bool → String
bool_text true = "true"
bool_text false = "false"

finding_line : Printer → Finding → String
finding_line printer finding =
    join
      ("- finding_id: " ⧺ finding.finding_id
        ∷ "  severity: " ⧺ severity_text finding.severity
        ∷ "  repo: " ⧺ finding.repo
        ∷ "  surface: " ⧺ finding.surface
        ∷ "  invariant: " ⧺ finding.invariant
        ∷ "  expected: " ⧺ printer.interpolate finding.expected
        ∷ "  observed: " ⧺ printer.interpolate finding.observed
        ∷ "  source_of_truth: " ⧺ finding.source_of_truth
        ∷ "  autofix_allowed: " ⧺ bool_text finding.autofix_allowed
        ∷ "  recommended_action: " ⧺ finding.recommended_action
        ∷ [])
      "\n"

rendered : Printer → List Finding → String
rendered printer [] = "None."
rendered printer (finding ∷ findings) =
    join (map (finding_line printer) (finding ∷ findings)) "\n\n"

-- whether a finding speaks of quarantine
unfoldable pub mentions_quarantine : Printer → Finding → Bool
mentions_quarantine printer finding =
    contains (to_lower_case printer.small_letters finding.finding_id) "quarantine"
    || contains (to_lower_case printer.small_letters finding.recommended_action) "quarantine"

unfoldable pub quarantine_relevant_findings : Printer → AdmissibilityReport → List Finding
quarantine_relevant_findings printer report =
    let mentioned = select (mentions_quarantine printer) report.findings in
    if ltb 0 report.quarantine_count then report.findings else mentioned

quarantine_body : Printer → QuarantinePlanInput → List Finding → String
quarantine_body printer input findings =
    let report = input.report in
    join
      (preamble
        ++ ("## Dry-run boundary"
            ∷ ""
            ∷ "This is a deterministic quarantine issue plan."
            ∷ "No GitHub issue is created by this layer."
            ∷ "No branch is created."
            ∷ "No file is mutated."
            ∷ "No truth object is rewritten."
            ∷ ""
            ∷ "## Run"
            ∷ ""
            ∷ "- run_id: " ⧺ report.run_id
            ∷ "- started_at: " ⧺ report.started_at
            ∷ "- repository: " ⧺ input.repository_full_name
            ∷ "- admissibility_verdict: " ⧺ verdict_text report.verdict
            ∷ "- red_count: " ⧺ print_count report.red_count
            ∷ "- yellow_count: " ⧺ print_count report.yellow_count
            ∷ "- quarantine_count: " ⧺ print_count report.quarantine_count
            ∷ ""
            ∷ "## Quarantine findings"
            ∷ ""
            ∷ rendered printer findings
            ∷ []))
      "\n"

unfoldable pub build_quarantine_plan : Printer → QuarantinePlanInput → QuarantinePlan
unfolding quarantine_body rendered finding_line
build_quarantine_plan printer input =
    let findings = quarantine_relevant_findings printer input.report in
    let required = ltb 0 input.report.quarantine_count || ltb 0 (length findings) in
    record {
      dry_run = true;
      write_behavior = "NONE";
      required = required;
      repository = input.repository_full_name;
      title =
          if required
          then "ADMISSORIUM quarantine review required: " ⧺ input.report.run_id
          else "ADMISSORIUM quarantine review not required: " ⧺ input.report.run_id;
      body = quarantine_body printer input findings;
      labels = or_else input.labels ("admissorium" ∷ "quarantine" ∷ "governance-review" ∷ []);
      finding_count = length findings;
      run_id = input.report.run_id;
    }
