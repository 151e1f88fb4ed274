-- ===== src/Pipeline/Laws.antt =====
-- What app/actuator-request-pipeline-plan.ts plans, and what it never sets in motion.
use admissorium.Prelude.{String, ◌≡◌, ◌≢◌, refl, Bool, true, false, Option, none, some, arith}
use admissorium.Js.{Env, text}
use admissorium.Fallible.{>>=-eq-some}
use admissorium.Webhook.Intake.{compute_signature}
use admissorium.Webhook.Route.{RoutePlan}
use admissorium.Webhook.Handler.{Response, header, handle_webhook_request}
use admissorium.Webhook.Handler.Laws.{handle_webhook_request-signed}
use admissorium.Token.Plan.{
  PlanInput, TokenPlan, Mode.dry_run, decide, build_installation_token_plan,
}
use admissorium.Permissions.Decision.{Surroundings, decide_write}
use admissorium.Plan.{Printer}
use admissorium.Plan.CheckRun.{
  CheckRunPlanInput, CheckRunPlan, decision_input, build_check_run_plan,
}
use admissorium.Plan.Repair.{build_repair_plan}
use admissorium.Plan.Quarantine.{build_quarantine_plan}
use admissorium.Pipeline.Orchestrator.{
  OrchestrationInput, Orchestration, check_run_input, orchestrate_actuator_dry_run,
}
use admissorium.Pipeline.{
  PipelineInput, PipelinePlan, World, around, resolved_repository, denied, token_input,
  actuator_input, planned, plan_response, build_request_pipeline_plan,
}

-- The three plans are dry runs.
pub record AreDry (o : Orchestration) : Type 0 where
  pub check_run : o.check_run_plan.dry_run ≡ true
  pub repair : o.projection_repair_pr_plan.dry_run ≡ true
  pub issue : o.quarantine_issue_plan.dry_run ≡ true

build_check_run_plan-dry :
    (around : Surroundings) (input : CheckRunPlanInput) (plan : CheckRunPlan)
    → build_check_run_plan around input ≡ some plan
    → plan.dry_run ≡ true
unfolding build_check_run_plan
build_check_run_plan-dry around input plan e =
    let (question, asked, answered) = >>=-eq-some (decision_input around input) _ e in
    let (decision, decided, made) = >>=-eq-some (decide_write around question) _ answered in
    ground arith

orchestrate-AreDry :
    (around : Surroundings) (printer : Printer) (input : OrchestrationInput) (o : Orchestration)
    → orchestrate_actuator_dry_run around printer input ≡ some o
    → AreDry o
unfolding orchestrate_actuator_dry_run build_repair_plan build_quarantine_plan
orchestrate-AreDry around printer input o e =
    let (check_run, planned, made) =
      >>=-eq-some (build_check_run_plan around (check_run_input input)) _ e in
    let dry = build_check_run_plan-dry around (check_run_input input) check_run planned in
    record { check_run = ground arith; repair = ground arith; issue = ground arith }

-- Nothing of an accepted request is executed: the token plan is a dry run that allows no exchange,
-- and the plans of the writers are dry runs.
pub record IsHarmless (plan : PipelinePlan) : Type 0 where
  pub token : TokenPlan
  pub token_planned : plan.installation_token_plan ≡ some token
  pub token_dry : token.mode ≡ dry_run
  pub no_exchange : token.allowed_to_exchange ≡ false
  pub orchestration : Orchestration
  pub orchestrated : plan.actuator_orchestration ≡ some orchestration
  pub dry : AreDry orchestration

token_plan-no_exchange :
    (process_env : Env) (input : PlanInput)
    → input.mode ≡ some dry_run
    → ((build_installation_token_plan process_env input).mode ≡ dry_run)
      × ((build_installation_token_plan process_env input).allowed_to_exchange ≡ false)
unfolding build_installation_token_plan decide
token_plan-no_exchange process_env input e = rw e (refl, ground arith)

planned-IsHarmless :
    (world : World) (input : PipelineInput) (webhook : Response) (route : RoutePlan)
    (repository : String) (plan : PipelinePlan)
    → planned world input webhook route repository ≡ some plan
    → IsHarmless plan
unfolding planned token_input
planned-IsHarmless world input webhook route repository plan e =
    let (o, orchestrated, made) =
      >>=-eq-some
        (orchestrate_actuator_dry_run (around world) world.printer
          (actuator_input input route repository))
        _ e in
    let (dry, kept) =
      token_plan-no_exchange world.node.process_env (token_input input repository) refl in
    record {
      token = build_installation_token_plan world.node.process_env (token_input input repository);
      token_planned = ground arith;
      token_dry = dry;
      no_exchange = kept;
      orchestration = o;
      orchestrated = ground arith;
      dry =
          orchestrate-AreDry (around world) world.printer (actuator_input input route repository) o
            orchestrated;
    }

plan_response-accepted :
    (world : World) (input : PipelineInput) (webhook : Response) (accepted : Bool)
    (route : Option RoutePlan) (repository : Option String) (plan : PipelinePlan)
    → plan_response world input webhook accepted route repository ≡ some plan
    → plan.accepted ≡ true
    → (route ≢ none) × (accepted ≡ true) × (repository ≢ none) × IsHarmless plan
unfolding plan_response denied
plan_response-accepted world input webhook true (some route) (some repository) plan e h = (
  (λ n. ground arith),
  refl,
  (λ n. ground arith),
  planned-IsHarmless world input webhook route repository plan e,
)
plan_response-accepted world input webhook _ _ _ plan e h = absurd (ground arith)

-- If the pipeline accepts a request, then the signature header of the request is the digest of its
-- body under the secret, the webhook handler accepted it, the repository is known, and nothing of the
-- plan can be executed: the token plan is a dry run that allows no exchange, and the three plans of
-- the writers are dry runs.
pub build_request_pipeline_plan-accepted :
    (world : World) (input : PipelineInput) (plan : PipelinePlan)
    → build_request_pipeline_plan world input ≡ some plan
    → plan.accepted ≡ true
    → (header world.node.small_letters input.request.headers "x-hub-signature-256"
        ≡ some (compute_signature world.node (text input.request.body) input.request.secret))
      × ((handle_webhook_request world.node input.request).accepted ≡ true)
      × (resolved_repository input (handle_webhook_request world.node input.request) ≢ none)
      × IsHarmless plan
unfolding build_request_pipeline_plan
build_request_pipeline_plan-accepted world input plan e h =
    let webhook = handle_webhook_request world.node input.request in
    let (routed, accepted, known, harmless) =
      plan_response-accepted world input webhook webhook.accepted webhook.route_plan
        (resolved_repository input webhook) plan e h in
    let (signed, _, _, _) = handle_webhook_request-signed world.node input.request routed in
    (signed, accepted, known, harmless)
