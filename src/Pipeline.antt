-- ===== src/Pipeline.antt =====
-- app/actuator-request-pipeline-plan.ts: a webhook request and a report become a plan that executes
-- nothing. The fields of the plan whose type has one value are left out; `none` is the exception that
-- the planner of check runs may throw: that of `decideWrite`, or of a policy file that cannot be read.
pub mod Orchestrator
pub mod Laws
pub mod Live
use admissorium.Prelude.{Char, String, Bool, true, false, Option, none, some, List, [], ◌∷◌}
use mathlib.Core.Option
use admissorium.Js.{Env, or_else, or_also, Platform}
use admissorium.Fallible.{◌>>=◌}
use admissorium.Report.{AdmissibilityReport}
use admissorium.Permissions.Policy.{PolicyFiles}
use admissorium.Permissions.Decision.{Surroundings}
use admissorium.Plan.{Printer}
use admissorium.Webhook.Route.{RoutePlan}
use admissorium.Webhook.Handler.{Request, Response, handle_webhook_request}
use admissorium.Token.Plan.{Mode.dry_run, PlanInput, TokenPlan, build_installation_token_plan}
use admissorium.Pipeline.Orchestrator.{
  OrchestrationInput, Orchestration, orchestrate_actuator_dry_run,
}

pub data PipelineDecision : Type 0 where
  pipeline_planned pipeline_denied : PipelineDecision

pub record PipelineInput : Type 0 where
  pub request : Request
  pub report : AdmissibilityReport
  pub repository_full_name : Option String
  pub app_id_ref : Option String
  pub installation_id_ref : Option String
  pub private_key_ref : Option String
  pub env : Option Env

pub record PipelinePlan : Type 0 where
  pub decision : PipelineDecision
  pub accepted : Bool
  pub repository : Option String
  pub head_sha : Option String
  pub webhook : Response
  pub installation_token_plan : Option TokenPlan
  pub actuator_orchestration : Option Orchestration
  pub reasons : List String

-- what the pipeline runs in
pub record World : Type 0 where
  pub node : Platform
  pub files : PolicyFiles
  pub capitals : Char → String
  pub printer : Printer

abbrev pub around : World → Surroundings
around world = record {
  process_env = world.node.process_env;
  files = world.files;
  capitals = world.capitals;
}

-- `webhook.route_plan?.repository ?? null`
abbrev routed_repository : Option RoutePlan → Option String
routed_repository none = none
routed_repository (some route) = route.repository

abbrev routed_head_sha : Option RoutePlan → Option String
routed_head_sha none = none
routed_head_sha (some route) = route.head_sha

unfoldable pub resolved_repository : PipelineInput → Response → Option String
resolved_repository input webhook =
    or_also input.repository_full_name (routed_repository webhook.route_plan)

abbrev pub env_of : PipelineInput → Option Env
env_of input = or_also input.env input.request.env

abbrev denied_reasons : List String → List String
denied_reasons [] = "Webhook request did not produce a routable plan." ∷ []
denied_reasons (reason ∷ reasons) = reason ∷ reasons

unfoldable pub denied : Response → PipelinePlan
denied webhook = record {
  decision = pipeline_denied;
  accepted = false;
  repository = routed_repository webhook.route_plan;
  head_sha = routed_head_sha webhook.route_plan;
  webhook = webhook;
  installation_token_plan = none;
  actuator_orchestration = none;
  reasons = denied_reasons webhook.reasons;
}

unfoldable pub token_input : PipelineInput → (repository : String) → PlanInput
token_input input repository = record {
  mode = some dry_run;
  repository_full_name = repository;
  app_id = some (or_else input.app_id_ref "env:ADMISSORIUM_GITHUB_APP_ID");
  installation_id =
      some (or_else input.installation_id_ref "env:ADMISSORIUM_GITHUB_INSTALLATION_ID");
  private_key_ref = some (or_else input.private_key_ref "env:ADMISSORIUM_GITHUB_PRIVATE_KEY_REF");
  requested_repositories = none;
  requested_permissions = none;
  ttl_seconds = none;
  env = env_of input;
}

abbrev pub actuator_input : PipelineInput → RoutePlan → (repository : String) → OrchestrationInput
actuator_input input route repository = record {
  report = input.report;
  repository_full_name = repository;
  head_sha = or_else route.head_sha "0000000000000000000000000000000000000000";
  env = env_of input;
}

abbrev pub pipeline_plan :
    Response → RoutePlan → (repository : String) → TokenPlan → Orchestration → PipelinePlan
pipeline_plan webhook route repository token orchestration = record {
  decision = pipeline_planned;
  accepted = true;
  repository = some repository;
  head_sha = route.head_sha;
  webhook = webhook;
  installation_token_plan = some token;
  actuator_orchestration = some orchestration;
  reasons =
      "Webhook request produced a route plan."
      ∷ "Installation token request is represented as a non-executing plan."
      ∷ "Actuator orchestration is dry-run only." ∷ [];
}

-- what is planned for a route and the repository that was resolved
unfoldable pub planned :
    World → PipelineInput → Response → RoutePlan → (repository : String) → Option PipelinePlan
planned world input webhook route repository = do
  let token = build_installation_token_plan world.node.process_env (token_input input repository)
  orchestration ←
      orchestrate_actuator_dry_run (around world) world.printer
        (actuator_input input route repository)
  some (pipeline_plan webhook route repository token orchestration)

unfoldable pub plan_response :
    World
    → PipelineInput
    → Response
    → (accepted : Bool) → (route : Option RoutePlan) → (repository : Option String)
    → Option PipelinePlan
plan_response world input webhook true (some route) (some repository) =
    planned world input webhook route repository
plan_response world input webhook _ _ _ = some (denied webhook)

-- `buildActuatorRequestPipelinePlan`
unfoldable pub build_request_pipeline_plan : World → PipelineInput → Option PipelinePlan
build_request_pipeline_plan world input =
    let webhook = handle_webhook_request world.node input.request in
    plan_response world input webhook webhook.accepted webhook.route_plan
      (resolved_repository input webhook)
