-- ===== src/Plan/Repair.antt =====
-- app/projection-repair-pr-plan.ts: the pull request that would repair projections.
pub mod Slug
pub mod Laws
use admissorium.Prelude.{
  select, ℕ, String, Bool, true, false, not, ◌&&◌, ◌||◌, Option, none, some, List, [], ◌∷◌, ◌++◌,
  map, any, length, ltb, ◌==◌, starts_with, if◌then◌else◌,
}
use admissorium.Text.{◌⧺◌, join, print_count}
use admissorium.Js.{Value, str, or_else}
use admissorium.Report.{AdmissibilityReport, Finding, Severity, yellow, verdict_text}
use admissorium.Plan.{Printer, preamble}
use admissorium.Plan.Repair.Slug.{slug}

pub record RepairPlanInput : Type 0 where
  pub report : AdmissibilityReport
  pub repository_full_name : String
  pub base_branch : Option String
  pub branch_prefix : Option String
  pub labels : Option (List String)

pub record Change : Type 0 where
  pub finding_id : String
  pub repo : String
  pub surface : String
  pub invariant : String
  pub expected : String
  pub observed : String
  pub recommended_action : String

pub record RepairPlan : Type 0 where
  pub dry_run : Bool
  pub write_behavior : String
  pub required : Bool
  pub repository : String
  pub base_branch : String
  pub head_branch : String
  pub title : String
  pub body : String
  pub labels : List String
  pub change_count : ℕ
  pub blocked_count : ℕ
  pub changes : List Change
  pub blocked_findings : List Change
  pub run_id : String

-- `PROTECTED_SURFACE_PREFIXES`, each without the slash that it ends in
abbrev pub protected_surfaces : List String
protected_surfaces =
    "law" ∷ "freeze" ∷ "epochs/current" ∷ "current" ∷ "authorities/current" ∷ "receipts/current"
    ∷ "verification/results/current" ∷ "recognitions/current" ∷ "claims/current"
    ∷ "continuity/current" ∷ "transfer/current" ∷ []

unfoldable pub is_protected_surface : String → Bool
is_protected_surface surface =
    any (λ prefix. surface == prefix || starts_with surface (prefix ⧺ "/")) protected_surfaces

abbrev is_yellow : Severity → Bool
is_yellow severity = elim severity [ yellow ↦ true | _ ↦ false ]

unfoldable pub is_projection_repair_finding : Finding → Bool
is_projection_repair_finding finding = is_yellow finding.severity && finding.autofix_allowed

abbrev stringify_evidence : Printer → Value → String
stringify_evidence printer (str s) = s
stringify_evidence printer v = printer.stringify v

unfoldable pub to_change : Printer → Finding → Change
to_change printer finding = record {
  finding_id = finding.finding_id;
  repo = finding.repo;
  surface = finding.surface;
  invariant = finding.invariant;
  expected = stringify_evidence printer finding.expected;
  observed = stringify_evidence printer finding.observed;
  recommended_action = finding.recommended_action;
}

render_change : Change → String
render_change change =
    join
      ("- finding_id: " ⧺ change.finding_id
        ∷ "  repo: " ⧺ change.repo
        ∷ "  surface: " ⧺ change.surface
        ∷ "  invariant: " ⧺ change.invariant
        ∷ "  expected: " ⧺ change.expected
        ∷ "  observed: " ⧺ change.observed
        ∷ "  recommended_action: " ⧺ change.recommended_action
        ∷ [])
      "\n"

abbrev rendered : List Change → String
rendered [] = "None."
rendered (change ∷ changes) = join (map render_change (change ∷ changes)) "\n\n"

repair_body : RepairPlanInput → (changes blocked : List Change) → String
unfolding render_change
repair_body input changes blocked =
    let report = input.report in
    join
      (preamble
        ++ ("## Dry-run boundary"
            ∷ ""
            ∷ "This is a deterministic projection repair pull request plan."
            ∷ "No GitHub pull request is created by this layer."
            ∷ "No branch is created."
            ∷ "No file is mutated."
            ∷ "No truth object is rewritten."
            ∷ ""
            ∷ "## Run"
            ∷ ""
            ∷ "- run_id: " ⧺ report.run_id
            ∷ "- started_at: " ⧺ report.started_at
            ∷ "- repository: " ⧺ input.repository_full_name
            ∷ "- admissibility_verdict: " ⧺ verdict_text report.verdict
            ∷ "- red_count: " ⧺ print_count report.red_count
            ∷ "- yellow_count: " ⧺ print_count report.yellow_count
            ∷ ""
            ∷ "## Planned projection repairs"
            ∷ ""
            ∷ rendered changes
            ∷ ""
            ∷ "## Blocked protected-surface findings"
            ∷ ""
            ∷ rendered blocked
            ∷ []))
      "\n"

-- the findings that a repair may be planned for, and how they are parted
abbrev pub repairable : AdmissibilityReport → List Finding
repairable report = select is_projection_repair_finding report.findings

abbrev pub planned_changes : Printer → AdmissibilityReport → List Change
planned_changes printer report =
    map (to_change printer)
      (select (λ finding. not (is_protected_surface finding.surface)) (repairable report))

abbrev pub planned_blocked : Printer → AdmissibilityReport → List Change
planned_blocked printer report =
    map (to_change printer)
      (select (λ finding. is_protected_surface finding.surface) (repairable report))

unfoldable pub build_repair_plan : Printer → RepairPlanInput → RepairPlan
unfolding repair_body
build_repair_plan printer input =
    let changes = planned_changes printer input.report in
    let blocked = planned_blocked printer input.report in
    let required = ltb 0 (length changes) in
    let run_id = input.report.run_id in
    record {
      dry_run = true;
      write_behavior = "NONE";
      required = required;
      repository = input.repository_full_name;
      base_branch = or_else input.base_branch "main";
      head_branch =
          or_else input.branch_prefix "admissorium/projection-repair"
          ⧺ "-"
          ⧺ slug printer.small_letters run_id;
      title =
          if required
          then "ADMISSORIUM projection repair: " ⧺ run_id
          else "ADMISSORIUM projection repair not required: " ⧺ run_id;
      body = repair_body input changes blocked;
      labels = or_else input.labels ("admissorium" ∷ "projection-repair" ∷ []);
      change_count = length changes;
      blocked_count = length blocked;
      changes = changes;
      blocked_findings = blocked;
      run_id = run_id;
    }
