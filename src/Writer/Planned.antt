-- ===== src/Writer/Planned.antt =====
-- The planners and the writers together: what is behind a request that GitHub is sent.
use admissorium.Prelude.{
  ◌≡◌, refl, sym, ◌∙◌, ap, true, false, some, length, ltb, List, [], ◌∷◌, arith, Bool-cases, inl,
  inr,
}
use mathlib.Core.List.{Memᴰ}
use admissorium.Fallible.{>>=-eq-some}
use admissorium.Report.Merge.{success, build_merge_verdict_artifact}
use admissorium.Report.Merge.Laws.{IsMergeable, build_merge_verdict_artifact-allowed_iff}
use admissorium.Permissions.Decision.{Surroundings, WriteInput, WriteDecision, decide_write, allow}
use admissorium.Permissions.Writes.{is_stopped, decide_write-is_stopped}
use admissorium.Plan.{Printer}
use admissorium.Plan.CheckRun.{
  CheckRunPlanInput, CheckRunPlan, decision_input, build_check_run_plan,
}
use admissorium.Plan.Repair.{RepairPlanInput, Change, build_repair_plan, is_protected_surface}
use Prim.{⊥}
use admissorium.Writer.{split_repository}
use admissorium.Plan.Repair.Laws.{build_repair_plan-parts_iff, is_protected_surface-not_iff}
use admissorium.Writer.RepairPr.{
  RepairPrWriterInput, PullRequestCreateInput, write_repair_pr_guarded,
}
use admissorium.Writer.Laws.{write_check_run_guarded-called_iff, write_repair_pr_guarded-called_iff}
use admissorium.Writer.CheckRun.{
  CheckRunWriterInput, CheckRunCreateInput, check_run_request, write_check_run_guarded,
}

-- What a planned check run says, and the decision behind it.
record IsPlanned (around : Surroundings) (input : CheckRunPlanInput) (plan : CheckRunPlan)
    : Type 0 where
  question : WriteInput
  asked : decision_input around input ≡ some question
  decided : decide_write around question ≡ some plan.permission_decision
  dry : plan.dry_run ≡ true
  concluded : plan.conclusion ≡ (build_merge_verdict_artifact input.report).check_conclusion

build_check_run_plan-IsPlanned :
    (around : Surroundings) (input : CheckRunPlanInput) (plan : CheckRunPlan)
    → build_check_run_plan around input ≡ some plan
    → IsPlanned around input plan
unfolding build_check_run_plan
build_check_run_plan-IsPlanned around input plan e =
    let (question, asked, answered) = >>=-eq-some (decision_input around input) _ e in
    let (decision, decided, made) = >>=-eq-some (decide_write around question) _ answered in
    record {
      question = question;
      asked = asked;
      decided = cc;
      dry = ground arith;
      concluded = ground arith;
    }

inert : {A : Type 0} (calls : List A) → ((r : A) (rs : List A) → calls ≡ r ∷ rs → ⊥) → calls ≡ []
inert [] h = refl
inert (r ∷ rs) h = absurd (h r rs refl)

check_run_request-conclusion :
    (plan : CheckRunPlan) (r : CheckRunCreateInput)
    → check_run_request plan ≡ some r
    → r.conclusion ≡ plan.conclusion
unfolding check_run_request
check_run_request-conclusion plan r e =
    let (repository, found, made) = >>=-eq-some (split_repository plan.repository) _ e in
    ground arith

-- a plan that is required has a change
required-change :
    (printer : Printer) (input : RepairPlanInput)
    → (build_repair_plan printer input).required ≡ true
    → (change : Change) × Memᴰ change (build_repair_plan printer input).changes
unfolding build_repair_plan
required-change printer input h = first_of (build_repair_plan printer input).changes h
  where
    first_of : (cs : List Change) → ltb 0 (length cs) ≡ true → (c : Change) × Memᴰ c cs
    first_of [] h = absurd (ground arith)
    first_of (c ∷ cs) h = (c, Memᴰ.head refl)

-- The check-run writer sends nothing for a plan as the planner makes it: the plan is a dry run.
pub planned_check_run-inert :
    (around : Surroundings) (planned : CheckRunPlanInput) (input : CheckRunWriterInput)
    → build_check_run_plan around planned ≡ some input.plan
    → (write_check_run_guarded input).calls ≡ []
planned_check_run-inert around planned input e =
    let plan = build_check_run_plan-IsPlanned around planned input.plan e in
    inert (write_check_run_guarded input).calls (λ r rs h.
      let (may, _, _, _) = (write_check_run_guarded-called_iff input r rs).0 h in
      let executable = may.executable in let dry = plan.dry in ground arith)

-- If a planned check run is made executable and sent, then the environment did not stop writing when
-- it was planned, and it reports success only for a report that may be merged.
pub planned_check_run-called :
    (around : Surroundings) (planned : CheckRunPlanInput) (plan : CheckRunPlan)
    (input : CheckRunWriterInput) (r : CheckRunCreateInput) (rs : List CheckRunCreateInput)
    → build_check_run_plan around planned ≡ some plan
    → input.plan.permission_decision ≡ plan.permission_decision
    → input.plan.conclusion ≡ plan.conclusion
    → (write_check_run_guarded input).calls ≡ r ∷ rs
    → ((question : WriteInput) × (decision_input around planned ≡ some question)
        × (is_stopped around question ≡ false))
      × (r.conclusion ≡ success → IsMergeable planned.report)
planned_check_run-called around planned plan input r rs e same_decision same_conclusion h =
    let made = build_check_run_plan-IsPlanned around planned plan e in
    let (_, allowed, request, _) = (write_check_run_guarded-called_iff input r rs).0 h in
    let stops =
      decide_write-is_stopped around made.question plan.permission_decision made.decided in
    let sent = check_run_request-conclusion input.plan r request in
    let (mergeable, succeeds) = build_merge_verdict_artifact-allowed_iff planned.report in
    let verdict : plan.permission_decision.verdict ≡ allow =
      ap (λ (d : WriteDecision). d.verdict) (sym same_decision) ∙ allowed in
    let conclusion = sent ∙ same_conclusion ∙ made.concluded in
    (
      (
        made.question,
        made.asked,
        elim (Bool-cases (is_stopped around made.question)) [
          | inl on ↦ let stopped = stops.1 on in absurd (ground arith)
          | inr off ↦ off
        ],
      ),
      λ s. mergeable.0 (succeeds.0 (sym conclusion ∙ s)),
    )

-- A pull request is sent only for a plan that has a change, whose surface no protected prefix covers.
pub planned_repair_pr-called :
    (printer : Printer) (planned : RepairPlanInput) (input : RepairPrWriterInput)
    (r : PullRequestCreateInput) (rs : List PullRequestCreateInput)
    → input.plan.required ≡ (build_repair_plan printer planned).required
    → (write_repair_pr_guarded input).calls ≡ r ∷ rs
    → (change : Change) × Memᴰ change (build_repair_plan printer planned).changes
      × (is_protected_surface change.surface ≡ false)
planned_repair_pr-called printer planned input r rs same h =
    let (_, required, _, _) = (write_repair_pr_guarded-called_iff input r rs).0 h in
    let (change, listed) = required-change printer planned (sym same ∙ required) in
    let (f, _, outside, told_of) =
      (build_repair_plan-parts_iff printer planned change).0.0 listed in
    let surface = ap (λ (c : Change). c.surface) told_of in
    (
      change,
      listed,
      ap is_protected_surface surface ∙ (is_protected_surface-not_iff f.surface).1 outside,
    )
