-- ===== src/Writer/Issue.antt =====
-- app/quarantine-issue-writer-adapter.ts.
use admissorium.Prelude.{String, Bool, not, ◌||◌, Option, some, List, [], ◌∷◌}
use admissorium.Js.{Env, Number}
use admissorium.Fallible.{◌>>=◌}
use admissorium.Plan.Quarantine.{QuarantinePlan}
use admissorium.Writer.{split_repository, write_disabled, WriterRun, Guard, skip_if, write_guarded}

pub data IssueVerdict : Type 0 where
  skipped_dry_run skipped_write_disabled skipped_not_required : IssueVerdict
  written_issue : IssueVerdict

pub record IssueCreateInput : Type 0 where
  pub owner : String
  pub repo : String
  pub title : String
  pub body : String
  pub labels : List String

pub record IssueCreateResult : Type 0 where
  pub number : Number
  pub html_url : Option String

abbrev pub IssueClient : Type 0
IssueClient = IssueCreateInput → Option IssueCreateResult

abbrev pub IssueRun : Type 0
IssueRun = WriterRun IssueVerdict IssueCreateInput IssueCreateResult

pub record IssueWriterInput : Type 0 where
  pub plan : QuarantinePlan
  pub client : IssueClient
  pub execute_write : Bool
  pub env : Option Env

-- `buildRequest`
unfoldable pub issue_request : QuarantinePlan → Option IssueCreateInput
issue_request plan = do
  repository ← split_repository plan.repository
  some (record {
    owner = repository.owner;
    repo = repository.repo;
    title = plan.title;
    body = plan.body;
    labels = plan.labels;
  })

-- the early returns, in order
unfoldable pub issue_guards : IssueWriterInput → List (Guard IssueVerdict)
issue_guards input =
    skip_if (not input.execute_write || input.plan.dry_run) skipped_dry_run
      "Quarantine issue writer adapter remained in dry-run mode."
    ∷ skip_if (write_disabled input.env) skipped_write_disabled
        "ADMISSORIUM_WRITE_DISABLED=true blocks quarantine issue write."
    ∷ skip_if (not input.plan.required) skipped_not_required
        "Quarantine issue plan does not require an issue."
    ∷ []

-- `writeQuarantineIssueGuarded`
unfoldable pub write_issue_guarded : IssueWriterInput → IssueRun
write_issue_guarded input =
    write_guarded (issue_guards input) written_issue
      "GitHub quarantine issue write completed through guarded adapter." input.client
      (issue_request input.plan)
