-- ===== src/Report/Merge.antt =====
-- reports/merge-verdict.ts: whether a report lets its candidate be merged.
pub mod Laws
use admissorium.Prelude.{ℕ, String, Bool, true, false, ◌||◌, ltb, if◌then◌else◌}
use admissorium.Report.{
  AdmissibilityReport, AdmissibilityVerdict, admissible_as_projection_repair,
  requires_acceptance_act, inadmissible, quarantined_candidate,
}

pub data MergeVerdict : Type 0 where
  pass : MergeVerdict
  pass_with_projection_repair : MergeVerdict
  requires_governance_review : MergeVerdict
  blocked_by_constitutional_drift : MergeVerdict
  quarantined : MergeVerdict

pub data Conclusion : Type 0 where
  success failure neutral : Conclusion

pub record MergeVerdictArtifact : Type 0 where
  pub run_id : String
  pub verdict : MergeVerdict
  pub admissibility_verdict : AdmissibilityVerdict
  pub red_count : ℕ
  pub yellow_count : ℕ
  pub quarantine_count : ℕ
  pub merge_allowed : Bool
  pub check_conclusion : Conclusion
  pub reason : String

abbrev is_quarantined : AdmissibilityVerdict → Bool
is_quarantined v = elim v [ quarantined_candidate ↦ true | _ ↦ false ]

abbrev is_inadmissible : AdmissibilityVerdict → Bool
is_inadmissible v = elim v [ inadmissible ↦ true | _ ↦ false ]

abbrev is_acceptance_act : AdmissibilityVerdict → Bool
is_acceptance_act v = elim v [ requires_acceptance_act ↦ true | _ ↦ false ]

abbrev is_projection_repair : AdmissibilityVerdict → Bool
is_projection_repair v = elim v [ admissible_as_projection_repair ↦ true | _ ↦ false ]

unfoldable pub merge_verdict_for_report : AdmissibilityReport → MergeVerdict
merge_verdict_for_report report =
    if is_quarantined report.verdict || ltb 0 report.quarantine_count
    then quarantined
    else if is_inadmissible report.verdict || ltb 0 report.red_count
    then blocked_by_constitutional_drift
    else if is_acceptance_act report.verdict
    then requires_governance_review
    else if is_projection_repair report.verdict || ltb 0 report.yellow_count
    then pass_with_projection_repair
    else pass

unfoldable pub check_conclusion_for_merge_verdict : MergeVerdict → Conclusion
check_conclusion_for_merge_verdict pass = success
check_conclusion_for_merge_verdict pass_with_projection_repair = success
check_conclusion_for_merge_verdict requires_governance_review = neutral
check_conclusion_for_merge_verdict blocked_by_constitutional_drift = failure
check_conclusion_for_merge_verdict quarantined = failure

abbrev reason_for_verdict : MergeVerdict → String
reason_for_verdict pass = "Candidate materialization is admissible against accepted graph."
reason_for_verdict pass_with_projection_repair =
    "Candidate materialization is admissible as projection repair and does not require truth mutation."
reason_for_verdict requires_governance_review =
    "Candidate materialization changes registry or truth-adjacent material and requires governed review."
reason_for_verdict blocked_by_constitutional_drift =
    "Candidate materialization introduces or preserves constitutional drift."
reason_for_verdict quarantined =
    "Candidate materialization contains quarantined or quarantine-requiring surface."

abbrev is_pass : MergeVerdict → Bool
is_pass v = elim v [ pass ↦ true | pass_with_projection_repair ↦ true | _ ↦ false ]

unfoldable pub build_merge_verdict_artifact : AdmissibilityReport → MergeVerdictArtifact
build_merge_verdict_artifact report =
    let verdict = merge_verdict_for_report report in
    record {
      run_id = report.run_id;
      verdict = verdict;
      admissibility_verdict = report.verdict;
      red_count = report.red_count;
      yellow_count = report.yellow_count;
      quarantine_count = report.quarantine_count;
      merge_allowed = is_pass verdict;
      check_conclusion = check_conclusion_for_merge_verdict verdict;
      reason = reason_for_verdict verdict;
    }

-- `checkRunConclusion` of app/check-run-writer.ts, on a report
unfoldable pub check_run_conclusion : AdmissibilityReport → Conclusion
check_run_conclusion report =
    check_conclusion_for_merge_verdict (build_merge_verdict_artifact report).verdict

abbrev pub conclusion_text : Conclusion → String
conclusion_text success = "success"
conclusion_text failure = "failure"
conclusion_text neutral = "neutral"

abbrev pub merge_text : MergeVerdict → String
merge_text pass = "PASS"
merge_text pass_with_projection_repair = "PASS_WITH_PROJECTION_REPAIR"
merge_text requires_governance_review = "REQUIRES_GOVERNANCE_REVIEW"
merge_text blocked_by_constitutional_drift = "BLOCKED_BY_CONSTITUTIONAL_DRIFT"
merge_text quarantined = "QUARANTINED"
