-- ===== src/Writer/Laws.antt =====
-- When the guarded writers send a request, and what they say of it.
use admissorium.Prelude.{
  sym, ap, ◌∙◌, ◌≡◌, ◌≢◌, refl, ◌↔◌, inl, inr, Bool, true, false, not, ◌||◌, Option, none, some,
  List, [], ◌∷◌, arith, All, Bool-cases, String,
}
use admissorium.Js.{Env}
use admissorium.Permissions.Decision.{Verdict, allow}
use admissorium.Writer.{write_disabled, WriterResult, Guard, answered, guarded, write_guarded}
use admissorium.Writer.CheckRun.{
  written_check_run, check_run_guards, is_allow, CheckRunVerdict, CheckRunCreateResult,
  CheckRunWriterInput, CheckRunCreateInput, check_run_request, write_check_run_guarded,
}
use admissorium.Writer.RepairPr.{
  written_pull_request, repair_pr_guards, RepairPrWriterInput, PullRequestCreateInput,
  pull_request_request, write_repair_pr_guarded,
}
use admissorium.Writer.Issue.{
  written_issue, issue_guards, IssueWriterInput, IssueCreateInput, issue_request,
  write_issue_guarded,
}

-- The three guards that every writer has.
pub record MayWrite (execute_write dry_run : Bool) (env : Option Env) : Type 0 where
  pub executes : execute_write ≡ true
  pub executable : dry_run ≡ false
  pub not_disabled : write_disabled env ≡ false

answered-result :
    {Verdict Request Answer : Type 0} (y : Verdict) (z : String) (client : Request → Option Answer)
    (request : Request) (o : Option Answer) (result : WriterResult Verdict Request Answer)
    → client request ≡ o
    → answered y z request o ≡ some result
    → (some request ≡ some result.request)
      × (result.write_attempted ≡ result.write_performed)
      × ((result.write_performed ≡ true) ↔ (request ∷ [] ≢ []))
      × ((result.write_performed ≡ true) → client result.request ≡ result.answer)
answered-result y z client request none result p e = absurd (ground arith)
answered-result y z client request (some answer) result p e =
    let same : request ≡ result.request = ground arith in
    let got : some answer ≡ result.answer = ground arith in
    (ap some same, ground arith, ground arith, λ h. ap client (sym same) ∙ p ∙ got)

-- no guard holds
abbrev Past : {Verdict : Type 0} → List (Guard Verdict) → Type 0
Past = All (λ guard. guard.holds ≡ false)

module _ {Verdict Request Answer : Type 0} (verdict : Verdict) (reason : String)
    (client : Request → Option Answer) where
  guarded_iff :
      (guards : List (Guard Verdict)) (request r : Request) (rs : List Request)
      → ((guarded guards verdict reason client request).calls ≡ r ∷ rs)
        ↔ (Past guards × (request ≡ r) × (rs ≡ []))
  guarded_iff [] request r rs = ((λ e. (tt, ground arith, ground arith)), (λ h. ground arith))
  guarded_iff (guard ∷ guards) request r rs =
      let rest = guarded_iff guards request r rs in
      elim (Bool-cases guard.holds) [
        | inl stops ↦ rw stops (
          (λ e. absurd (ground arith)),
          (λ h. let ((stopped, _), _, _) = h in absurd (ground arith)),
        )
        | inr passes ↦ rw passes (
          (λ e. let (past, same, alone) = rest.0 e in ((refl, past), same, alone)),
          (λ h. let ((_, past), same, alone) = h in rest.1 (past, same, alone)),
        )
      ]

  write_guarded_iff :
      (guards : List (Guard Verdict)) (o : Option Request) (r : Request) (rs : List Request)
      → ((write_guarded guards verdict reason client o).calls ≡ r ∷ rs)
        ↔ (Past guards × (o ≡ some r) × (rs ≡ []))
  write_guarded_iff guards none r rs = ground arith
  write_guarded_iff guards (some request) r rs =
      let called = guarded_iff guards request r rs in
      (
        (λ e. let (past, same, alone) = called.0 e in (past, ap some same, alone)),
        (λ h. let (past, same, alone) = h in called.1 (past, ground arith, alone)),
      )

  guarded-result :
      (guards : List (Guard Verdict)) (request : Request)
      (result : WriterResult Verdict Request Answer)
      → (guarded guards verdict reason client request).result ≡ some result
      → (some request ≡ some result.request)
        × (result.write_attempted ≡ result.write_performed)
        × ((result.write_performed ≡ true)
            ↔ ((guarded guards verdict reason client request).calls ≢ []))
        × ((result.write_performed ≡ true) → client result.request ≡ result.answer)
  guarded-result [] request result e =
      answered-result verdict reason client request (client request) result refl e
  guarded-result (guard ∷ guards) request result e =
      let rest = guarded-result guards request result in ground arith

  write_guarded-result :
      (guards : List (Guard Verdict)) (o : Option Request)
      (result : WriterResult Verdict Request Answer)
      → (write_guarded guards verdict reason client o).result ≡ some result
      → (o ≡ some result.request)
        × (result.write_attempted ≡ result.write_performed)
        × ((result.write_performed ≡ true)
            ↔ ((write_guarded guards verdict reason client o).calls ≢ []))
        × ((result.write_performed ≡ true) → client result.request ≡ result.answer)
  write_guarded-result guards none result e = ground arith
  write_guarded-result guards (some request) result e = guarded-result guards request result e

MayWrite-iff :
    (execute dry : Bool) (env : Option Env)
    → (((not execute || dry) ≡ false) × (write_disabled env ≡ false)) ↔ MayWrite execute dry env
MayWrite-iff execute dry env = (
  (λ h. record { executes = ground arith; executable = ground arith; not_disabled = h.1 }),
  (λ m. let e = m.executes in let d = m.executable in (ground arith, m.not_disabled)),
)

-- the guards of a writer, said of its input
through :
    {S P A B : Type 0} (execute dry : Bool) (env : Option Env) (c : Bool)
    → S ↔ (
        (((not execute || dry) ≡ false) × ((write_disabled env ≡ false) × ((c ≡ false) × Unit {0})))
        × A
        × B)
    → (c ≡ false) ↔ P
    → S ↔ (MayWrite execute dry env × P × A × B)
through execute dry env c called third =
    let guards = MayWrite-iff execute dry env in
    (
      (λ s. let ((a, (b, (l, _))), x, y) = called.0 s in (guards.0 (a, b), third.0 l, x, y)),
      (λ h.
          let (m, p, x, y) = h in
          let (a, b) = guards.1 m in called.1 ((a, (b, (third.1 p, tt))), x, y)),
    )

not-false_iff : (b : Bool) → (not b ≡ false) ↔ (b ≡ true)
not-false_iff b = ground arith

is_allow_iff : (v : Verdict) → (not (is_allow v) ≡ false) ↔ (v ≡ allow)
is_allow_iff v = ground arith

-- The check-run writer sends a request, at most one, exactly if it is told to execute, the plan is no
-- dry run, the environment that it is given does not disable it, and the plan's decision is to
-- allow; the request is the plan's.
pub write_check_run_guarded-called_iff :
    (input : CheckRunWriterInput) (r : CheckRunCreateInput) (rs : List CheckRunCreateInput)
    → ((write_check_run_guarded input).calls ≡ r ∷ rs) ↔ (
        MayWrite input.execute_write input.plan.dry_run input.env
        × (input.plan.permission_decision.verdict ≡ allow)
        × (check_run_request input.plan ≡ some r)
        × (rs ≡ []))
unfolding write_check_run_guarded check_run_guards
write_check_run_guarded-called_iff input r rs =
    through input.execute_write input.plan.dry_run input.env
      (not (is_allow input.plan.permission_decision.verdict))
      (write_guarded_iff written_check_run
        "GitHub check-run write completed through guarded adapter." input.client
        (check_run_guards input) (check_run_request input.plan) r rs)
      (is_allow_iff input.plan.permission_decision.verdict)

-- The result of the check-run writer says truly whether the client was called and what it answered.
pub write_check_run_guarded-result :
    (input : CheckRunWriterInput)
    (result : WriterResult CheckRunVerdict CheckRunCreateInput CheckRunCreateResult)
    → (write_check_run_guarded input).result ≡ some result
    → (check_run_request input.plan ≡ some result.request)
      × (result.write_attempted ≡ result.write_performed)
      × ((result.write_performed ≡ true) ↔ ((write_check_run_guarded input).calls ≢ []))
      × ((result.write_performed ≡ true) → input.client result.request ≡ result.answer)
unfolding write_check_run_guarded
write_check_run_guarded-result input result e =
    write_guarded-result written_check_run
      "GitHub check-run write completed through guarded adapter." input.client
      (check_run_guards input) (check_run_request input.plan) result e

-- The pull-request writer sends a request, at most one, exactly if it is told to execute, the plan is
-- no dry run, the environment that it is given does not disable it, and a pull request is required.
pub write_repair_pr_guarded-called_iff :
    (input : RepairPrWriterInput) (r : PullRequestCreateInput) (rs : List PullRequestCreateInput)
    → ((write_repair_pr_guarded input).calls ≡ r ∷ rs) ↔ (
        MayWrite input.execute_write input.plan.dry_run input.env
        × (input.plan.required ≡ true)
        × (pull_request_request input.plan ≡ some r)
        × (rs ≡ []))
unfolding write_repair_pr_guarded repair_pr_guards
write_repair_pr_guarded-called_iff input r rs =
    through input.execute_write input.plan.dry_run input.env (not input.plan.required)
      (write_guarded_iff written_pull_request
        "GitHub projection repair pull request write completed through guarded adapter."
        input.client (repair_pr_guards input) (pull_request_request input.plan) r rs)
      (not-false_iff input.plan.required)

-- The issue writer sends a request, at most one, exactly if it is told to execute, the plan is no dry
-- run, the environment that it is given does not disable it, and an issue is required.
pub write_issue_guarded-called_iff :
    (input : IssueWriterInput) (r : IssueCreateInput) (rs : List IssueCreateInput)
    → ((write_issue_guarded input).calls ≡ r ∷ rs) ↔ (
        MayWrite input.execute_write input.plan.dry_run input.env
        × (input.plan.required ≡ true)
        × (issue_request input.plan ≡ some r)
        × (rs ≡ []))
unfolding write_issue_guarded issue_guards
write_issue_guarded-called_iff input r rs =
    through input.execute_write input.plan.dry_run input.env (not input.plan.required)
      (write_guarded_iff written_issue
        "GitHub quarantine issue write completed through guarded adapter." input.client
        (issue_guards input) (issue_request input.plan) r rs)
      (not-false_iff input.plan.required)

-- The pull-request writer and the issue writer send a request, at most one, exactly if they are told
-- to execute, the plan is no dry run, the environment that they are given does not disable them, a
-- pull request or an issue is required, and the request is the one of the plan.
pub write_required_guarded-called_iff :
    (repair : RepairPrWriterInput) (r : PullRequestCreateInput) (rs : List PullRequestCreateInput)
    (quarantine : IssueWriterInput) (i : IssueCreateInput) (others : List IssueCreateInput)
    → (((write_repair_pr_guarded repair).calls ≡ r ∷ rs) ↔ (
        MayWrite repair.execute_write repair.plan.dry_run repair.env
        × (repair.plan.required ≡ true)
        × (pull_request_request repair.plan ≡ some r)
        × (rs ≡ [])))
      × (((write_issue_guarded quarantine).calls ≡ i ∷ others) ↔ (
          MayWrite quarantine.execute_write quarantine.plan.dry_run quarantine.env
          × (quarantine.plan.required ≡ true)
          × (issue_request quarantine.plan ≡ some i)
          × (others ≡ [])))
write_required_guarded-called_iff repair r rs quarantine i others = (
  write_repair_pr_guarded-called_iff repair r rs,
  write_issue_guarded-called_iff quarantine i others,
)
