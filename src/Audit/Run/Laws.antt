-- ===== src/Audit/Run/Laws.antt =====
-- How the verdict, the counts, the exit status and the merge verdict of cli/admissorium.ts agree.
use admissorium.Prelude.{◌≡◌, ◌≢◌, ◌↔◌, true, length}
use admissorium.Report.{admissible, admissible_as_projection_repair, inadmissible}
use admissorium.Audit.Run.{Outcome, verdict, exit_status}

-- The verdict, the exit status, the counts and the merge verdict say the same.
pub record IsConsistent (o : Outcome) : Type 0 where
  pub inadmissible_status : (o.report.verdict ≡ inadmissible) ↔ (o.exit_status ≡ 2)
  pub repairable_status : (o.report.verdict ≡ admissible_as_projection_repair) ↔ (o.exit_status ≡ 1)
  pub admissible_status : (o.report.verdict ≡ admissible) ↔ (o.exit_status ≡ 0)
  pub mergeable :
      (o.merge_verdict.merge_allowed ≡ true)
      ↔ ((o.exit_status ≢ 2) × (o.report.quarantine_count ≡ 0))
  pub red_listed : o.report.red_count ≡ length o.lists.red_list.findings
  pub yellow_listed : o.report.yellow_count ≡ length o.lists.yellow_list.findings
