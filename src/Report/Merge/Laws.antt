-- ===== src/Report/Merge/Laws.antt =====
-- When reports/merge-verdict.ts lets a candidate be merged.
use admissorium.Prelude.{◌≡◌, ◌↔◌, ◌⊎◌, true, arith}
use admissorium.Report.{AdmissibilityReport, admissible, admissible_as_projection_repair}
use admissorium.Report.Merge.{
  MergeVerdictArtifact, success, merge_verdict_for_report, check_conclusion_for_merge_verdict,
  build_merge_verdict_artifact,
}

-- What the report of a candidate that may be merged says.
pub record IsMergeable (report : AdmissibilityReport) : Type 0 where
  pub admitted : (report.verdict ≡ admissible) ⊎ (report.verdict ≡ admissible_as_projection_repair)
  pub no_red : report.red_count ≡ 0
  pub no_quarantine : report.quarantine_count ≡ 0

module _ (report : AdmissibilityReport) where
  abbrev artifact : MergeVerdictArtifact
  artifact = build_merge_verdict_artifact report

  merge_sound : artifact.merge_allowed ≡ true → IsMergeable report
  unfolding build_merge_verdict_artifact merge_verdict_for_report
  merge_sound h = record {
    admitted = ground arith;
    no_red = ground arith;
    no_quarantine = ground arith;
  }

  merge_complete : IsMergeable report → artifact.merge_allowed ≡ true
  unfolding build_merge_verdict_artifact merge_verdict_for_report
  merge_complete m =
      let a = m.admitted in let r = m.no_red in let q = m.no_quarantine in ground arith

  -- A merge is allowed exactly if the verdict admits the candidate and nothing is red or quarantined,
  -- and the check run succeeds exactly if the merge is allowed.
  pub build_merge_verdict_artifact-allowed_iff :
      ((artifact.merge_allowed ≡ true) ↔ IsMergeable report)
      × ((artifact.check_conclusion ≡ success) ↔ (artifact.merge_allowed ≡ true))
  unfolding build_merge_verdict_artifact merge_verdict_for_report check_conclusion_for_merge_verdict
  build_merge_verdict_artifact-allowed_iff = ((merge_sound, merge_complete), ground arith)
