-- ===== src/Report.antt =====
-- The admissibility report of src/types.ts, from which verdicts and plans are made. Its counts are
-- natural numbers.
pub mod Merge
pub mod Lists
use admissorium.Prelude.{ℕ, String, Bool, List}
use admissorium.Js.{Value}

pub data AdmissibilityVerdict : Type 0 where
  admissible : AdmissibilityVerdict
  admissible_as_projection_repair : AdmissibilityVerdict
  requires_acceptance_act : AdmissibilityVerdict
  inadmissible : AdmissibilityVerdict
  quarantined_candidate : AdmissibilityVerdict

pub data Severity : Type 0 where
  red yellow green : Severity

pub record Finding : Type 0 where
  pub finding_id : String
  pub severity : Severity
  pub repo : String
  pub surface : String
  pub invariant : String
  pub expected : Value
  pub observed : Value
  pub source_of_truth : String
  pub autofix_allowed : Bool
  pub recommended_action : String

pub data ReportMode : Type 0 where
  audit repair_projection candidate_registry block quarantine : ReportMode

pub record AdmissibilityReport : Type 0 where
  pub run_id : String
  pub started_at : String
  pub org : String
  pub mode : ReportMode
  pub accepted_graph_ref : String
  pub candidate_graph_ref : String
  pub verdict : AdmissibilityVerdict
  pub red_count : ℕ
  pub yellow_count : ℕ
  pub green_count : ℕ
  pub quarantine_count : ℕ
  pub findings : List Finding
  pub repair_plan_ref : String

-- how the verdict is spelled
abbrev pub verdict_text : AdmissibilityVerdict → String
verdict_text admissible = "ADMISSIBLE"
verdict_text admissible_as_projection_repair = "ADMISSIBLE_AS_PROJECTION_REPAIR"
verdict_text requires_acceptance_act = "REQUIRES_ACCEPTANCE_ACT"
verdict_text inadmissible = "INADMISSIBLE"
verdict_text quarantined_candidate = "QUARANTINED"

abbrev pub severity_text : Severity → String
severity_text red = "RED"
severity_text yellow = "YELLOW"
severity_text green = "GREEN"
