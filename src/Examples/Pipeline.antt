-- ===== src/Examples/Pipeline.antt =====
-- The pipeline at the signed pull request of Examples.Webhook and the report of Examples.Plan.
use admissorium.Examples.Webhook.{node, request}
use admissorium.Examples.Plan.{printer, audited}
use admissorium.Prelude.{arith, String, ◌≡◌, ◌≢◌, refl, true, false, none, some}
use admissorium.Js.{text, get, or_else}
use admissorium.Text.{print_count, to_lower_case, to_upper_case, contains}
use admissorium.Webhook.Intake.{compute_signature}
use admissorium.Webhook.Route.{
  dispatch_webhook_route, dispatch_stopped, repository, pull_request_head_sha,
}
use admissorium.Webhook.Handler.{
  header, handle_webhook_request, handle_headers, handle_body, answer, valid_signature, is_denied,
}
use admissorium.Report.Merge.{
  build_merge_verdict_artifact, merge_verdict_for_report, check_conclusion_for_merge_verdict,
}
use admissorium.Permissions.Policy.{
  missing, malformed, lookup, load_permission_policy, load_protected_paths_policy,
  with_permission_defaults, with_protected_path_defaults, normalize_protected_class, canonical_id,
}
use admissorium.Permissions.Decision.{
  decide_write, permission_policy_of, protected_policy_of, mode_of, underscored, is_write_disabled,
  switch_variable, protected_path_decision, mode_flags, flag, permitted, stopped, settled,
}
use admissorium.Plan.CheckRun.{build_check_run_plan, decision_input}
use admissorium.Pipeline.Orchestrator.{orchestrate_actuator_dry_run}
use admissorium.Pipeline.{
  PipelineInput, PipelinePlan, World, resolved_repository, denied, planned, plan_response,
  build_request_pipeline_plan,
}
use admissorium.Pipeline.Live.{IsPullRequest, AreReadable, build_request_pipeline_plan-live}
use admissorium.Pipeline.Laws.{IsHarmless, build_request_pipeline_plan-accepted}

abbrev world : World
world = record {
  node = node;
  files = record { permission_policy = missing; protected_paths = missing };
  capitals = λ c. String.◌∷◌ c "";
  printer = printer;
}

abbrev pipeline_input : PipelineInput
pipeline_input = record {
  request = request;
  report = audited;
  repository_full_name = none;
  app_id_ref = none;
  installation_id_ref = none;
  private_key_ref = none;
  env = none;
}

-- the plan that the pipeline makes
abbrev made : PipelinePlan
made = elim (build_request_pipeline_plan world pipeline_input) [
  | none ↦ denied (handle_webhook_request node request)
  | some plan ↦ plan
]

made-accepted :
    (build_request_pipeline_plan world pipeline_input ≡ some made) × (made.accepted ≡ true)
unfolding build_request_pipeline_plan plan_response planned orchestrate_actuator_dry_run
    resolved_repository handle_webhook_request handle_headers handle_body answer valid_signature
    compute_signature header to_lower_case dispatch_webhook_route is_denied build_check_run_plan
    decision_input build_merge_verdict_artifact merge_verdict_for_report
    check_conclusion_for_merge_verdict print_count decide_write permission_policy_of
    protected_policy_of load_permission_policy load_protected_paths_policy with_permission_defaults
    with_protected_path_defaults normalize_protected_class canonical_id lookup mode_of underscored
    to_upper_case is_write_disabled switch_variable protected_path_decision mode_flags flag
    permitted stopped settled contains dispatch_stopped repository pull_request_head_sha get
made-accepted = (refl, refl)

build_request_pipeline_plan-accepted_example :
    (header node.small_letters request.headers "x-hub-signature-256"
      ≡ some (compute_signature node (text request.body) request.secret))
    × ((handle_webhook_request node request).accepted ≡ true)
    × (resolved_repository pipeline_input (handle_webhook_request node request) ≢ none)
    × IsHarmless made
build_request_pipeline_plan-accepted_example =
    build_request_pipeline_plan-accepted world pipeline_input made made-accepted.0 made-accepted.1

request-IsPullRequest : IsPullRequest node request "Verifrax/AUCTORISEAL" "abc123"
unfolding header to_lower_case compute_signature repository pull_request_head_sha get
request-IsPullRequest = record {
  delivery = _;
  payload = _;
  event_read = refl;
  delivery_read = refl;
  signed = refl;
  parsed = refl;
  names_repository = refl;
  names_head = refl;
}

-- no stop of the dispatcher is set
request-live : dispatch_stopped (or_else request.env node.process_env) ≡ false
unfolding dispatch_stopped
request-live = refl

files-AreReadable : AreReadable world.files
files-AreReadable = record {
  permission_policy = λ h. absurd (ground arith);
  protected_paths = λ h. absurd (ground arith);
}

-- a policy file that cannot be read is an exception of the whole pipeline
abbrev broken : World
broken = record world {
  files = record { permission_policy = malformed; protected_paths = missing };
}

broken-throws : build_request_pipeline_plan broken pipeline_input ≡ none
unfolding build_request_pipeline_plan plan_response planned orchestrate_actuator_dry_run
    resolved_repository handle_webhook_request handle_headers handle_body answer valid_signature
    compute_signature header to_lower_case dispatch_webhook_route is_denied build_check_run_plan
    decision_input build_merge_verdict_artifact load_permission_policy load_protected_paths_policy
    dispatch_stopped repository pull_request_head_sha get
broken-throws = refl

build_request_pipeline_plan-live_example :
    (plan : PipelinePlan) × (build_request_pipeline_plan world pipeline_input ≡ some plan)
    × (plan.accepted ≡ true)
    × (plan.repository ≡ some "Verifrax/AUCTORISEAL")
    × (plan.head_sha ≡ some "abc123")
build_request_pipeline_plan-live_example =
    build_request_pipeline_plan-live world pipeline_input "Verifrax/AUCTORISEAL" "abc123"
      request-IsPullRequest request-live files-AreReadable
