-- ===== src/Writer/RepairPr.antt =====
-- app/projection-repair-pr-writer-adapter.ts.
use admissorium.Prelude.{String, Bool, not, ◌||◌, Option, some, List, [], ◌∷◌}
use admissorium.Js.{Env, Number}
use admissorium.Fallible.{◌>>=◌}
use admissorium.Plan.Repair.{RepairPlan}
use admissorium.Writer.{split_repository, write_disabled, WriterRun, Guard, skip_if, write_guarded}

pub data RepairPrVerdict : Type 0 where
  skipped_dry_run skipped_write_disabled skipped_not_required : RepairPrVerdict
  written_pull_request : RepairPrVerdict

pub record PullRequestCreateInput : Type 0 where
  pub owner : String
  pub repo : String
  pub base : String
  pub head : String
  pub title : String
  pub body : String
  pub labels : List String

pub record PullRequestCreateResult : Type 0 where
  pub number : Number
  pub html_url : Option String

abbrev pub PullRequestClient : Type 0
PullRequestClient = PullRequestCreateInput → Option PullRequestCreateResult

abbrev pub RepairPrRun : Type 0
RepairPrRun = WriterRun RepairPrVerdict PullRequestCreateInput PullRequestCreateResult

pub record RepairPrWriterInput : Type 0 where
  pub plan : RepairPlan
  pub client : PullRequestClient
  pub execute_write : Bool
  pub env : Option Env

-- `buildRequest`
unfoldable pub pull_request_request : RepairPlan → Option PullRequestCreateInput
pull_request_request plan = do
  repository ← split_repository plan.repository
  some (record {
    owner = repository.owner;
    repo = repository.repo;
    base = plan.base_branch;
    head = plan.head_branch;
    title = plan.title;
    body = plan.body;
    labels = plan.labels;
  })

-- the early returns, in order
unfoldable pub repair_pr_guards : RepairPrWriterInput → List (Guard RepairPrVerdict)
repair_pr_guards input =
    skip_if (not input.execute_write || input.plan.dry_run) skipped_dry_run
      "Projection repair pull request writer adapter remained in dry-run mode."
    ∷ skip_if (write_disabled input.env) skipped_write_disabled
        "ADMISSORIUM_WRITE_DISABLED=true blocks projection repair pull request write."
    ∷ skip_if (not input.plan.required) skipped_not_required
        "Projection repair pull request plan does not require a pull request."
    ∷ []

-- `writeProjectionRepairPrGuarded`
unfoldable pub write_repair_pr_guarded : RepairPrWriterInput → RepairPrRun
write_repair_pr_guarded input =
    write_guarded (repair_pr_guards input) written_pull_request
      "GitHub projection repair pull request write completed through guarded adapter." input.client
      (pull_request_request input.plan)
