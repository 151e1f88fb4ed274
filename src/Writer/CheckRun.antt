-- ===== src/Writer/CheckRun.antt =====
-- app/check-run-writer-adapter.ts.
use admissorium.Prelude.{
  String, Bool, true, false, not, ◌||◌, Option, none, some, List, [], ◌∷◌, if◌then◌else◌,
}
use admissorium.Text.{◌⧺◌, is_empty}
use admissorium.Js.{Env, Number}
use admissorium.Fallible.{◌>>=◌}
use admissorium.Report.Merge.{Conclusion}
use admissorium.Permissions.Decision.{
  Verdict, allow, deny, deny_protected_path, governance_review, deny_write_disabled,
}
use admissorium.Plan.CheckRun.{CheckRunPlan}
use admissorium.Writer.{split_repository, write_disabled, WriterRun, Guard, skip_if, write_guarded}

pub data CheckRunVerdict : Type 0 where
  skipped_dry_run skipped_write_disabled skipped_permission_denied : CheckRunVerdict
  written_check_run : CheckRunVerdict

pub record CheckRunOutput : Type 0 where
  pub title : String
  pub summary : String
  pub text : String

pub record CheckRunCreateInput : Type 0 where
  pub owner : String
  pub repo : String
  pub name : String
  pub head_sha : String
  pub status : String
  pub conclusion : Conclusion
  pub output : CheckRunOutput
  pub details_url : Option String

pub record CheckRunCreateResult : Type 0 where
  pub id : Number
  pub html_url : Option String

abbrev pub CheckRunClient : Type 0
CheckRunClient = CheckRunCreateInput → Option CheckRunCreateResult

abbrev pub CheckRunRun : Type 0
CheckRunRun = WriterRun CheckRunVerdict CheckRunCreateInput CheckRunCreateResult

pub record CheckRunWriterInput : Type 0 where
  pub plan : CheckRunPlan
  pub client : CheckRunClient
  pub execute_write : Bool
  pub env : Option Env

abbrev given_url : Option String → Option String
given_url none = none
given_url (some url) = if is_empty url then none else some url

-- `buildRequest`
unfoldable pub check_run_request : CheckRunPlan → Option CheckRunCreateInput
check_run_request plan = do
  repository ← split_repository plan.repository
  some (record {
    owner = repository.owner;
    repo = repository.repo;
    name = plan.name;
    head_sha = plan.head_sha;
    status = plan.status;
    conclusion = plan.conclusion;
    output = record { title = plan.title; summary = plan.summary; text = plan.text };
    details_url = given_url plan.details_url;
  })

abbrev pub is_allow : Verdict → Bool
is_allow v = elim v [ allow ↦ true | _ ↦ false ]

-- how the permission decision is spelled
abbrev pub verdict_text : Verdict → String
verdict_text allow = "ALLOW"
verdict_text deny = "DENY"
verdict_text deny_protected_path = "DENY_PROTECTED_PATH"
verdict_text governance_review = "REQUIRES_GOVERNANCE_REVIEW"
verdict_text deny_write_disabled = "DENY_WRITE_DISABLED"

-- the early returns, in order
unfoldable pub check_run_guards : CheckRunWriterInput → List (Guard CheckRunVerdict)
check_run_guards input =
    skip_if (not input.execute_write || input.plan.dry_run) skipped_dry_run
      "Check-run writer adapter remained in dry-run mode."
    ∷ skip_if (write_disabled input.env) skipped_write_disabled
        "ADMISSORIUM_WRITE_DISABLED=true blocks check-run write."
    ∷ skip_if (not (is_allow input.plan.permission_decision.verdict)) skipped_permission_denied (
        "Permission policy blocked check-run write: "
        ⧺ verdict_text input.plan.permission_decision.verdict)
    ∷ []

-- `writeGitHubCheckRunGuarded`
unfoldable pub write_check_run_guarded : CheckRunWriterInput → CheckRunRun
write_check_run_guarded input =
    write_guarded (check_run_guards input) written_check_run
      "GitHub check-run write completed through guarded adapter." input.client
      (check_run_request input.plan)
