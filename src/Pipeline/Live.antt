-- ===== src/Pipeline/Live.antt =====
-- What app/actuator-request-pipeline-plan.ts brings about: the plan of a signed pull request is
-- accepted.
use admissorium.Prelude.{
  String, ◌≡◌, ◌≢◌, refl, ◌∙◌, Bool, true, false, Option, none, some, eq_refl,
}
use admissorium.Text.{◌⧺◌}
use admissorium.Text.Laws.{starts_with-append}
use admissorium.Js.{Value, or_else, or_also, text, Platform}
use admissorium.Webhook.Intake.{compute_signature}
use admissorium.Webhook.Route.{
  RouteInput, RoutePlan, dispatch_webhook_route, dispatch_stopped, repository,
  pull_request_head_sha,
}
use admissorium.Webhook.Route.Laws.{dispatch-pull_request_iff}
use admissorium.Webhook.Handler.{
  Request, Response, header, valid_signature, is_denied, answer, handle_body, handle_headers,
  handle_webhook_request,
}
use admissorium.Permissions.Policy.{
  PermissionPolicy, ProtectedPathsPolicy, PolicyFile, PolicyFiles, missing, malformed, holds,
  read_policy, empty_permission_policy, empty_protected_paths_policy, load_permission_policy,
  load_protected_paths_policy, with_permission_defaults, with_protected_path_defaults,
}
use admissorium.Permissions.Decision.{
  Surroundings, WriteDecision, decide_write, permission_policy_of, protected_policy_of,
  protected_path_decision,
}
use admissorium.Plan.{Printer}
use admissorium.Plan.CheckRun.{
  CheckRunPlanInput, CheckRunPlan, asked, decision_input, build_check_run_plan,
}
use admissorium.Pipeline.Orchestrator.{
  OrchestrationInput, Orchestration, check_run_input, orchestrate_actuator_dry_run,
}
use admissorium.Pipeline.{
  PipelineInput, PipelinePlan, World, around, resolved_repository, actuator_input, planned,
  plan_response, build_request_pipeline_plan,
}

-- Neither policy file is there and cannot be read.
pub record AreReadable (files : PolicyFiles) : Type 0 where
  pub permission_policy : files.permission_policy ≢ malformed
  pub protected_paths : files.protected_paths ≢ malformed

read_policy-Returns :
    {A : Type 0} (absent : A) (file : PolicyFile A)
    → file ≢ malformed
    → (policy : A) × (read_policy absent file ≡ some policy)
read_policy-Returns absent missing h = (absent, refl)
read_policy-Returns absent malformed h = absurd (h refl)
read_policy-Returns absent (holds policy) h = (policy, refl)

-- Whatever policy it is asked with, a check run changes no path, so that no glob is compiled for it.
decide_check_run :
    (around : Surroundings) (input : CheckRunPlanInput) (permission : PermissionPolicy)
    (protected : ProtectedPathsPolicy)
    → (d : WriteDecision) × (decide_write around (asked input permission protected) ≡ some d)
unfolding decide_write permission_policy_of protected_policy_of protected_path_decision
decide_check_run around input permission protected = (_, refl)

or_also-Returns :
    {A : Type 0} (given other : Option A) (b : A)
    → other ≡ some b
    → (a : A) × (or_also given other ≡ some a)
or_also-Returns none other b h = (b, h)
or_also-Returns (some a) other b h = (a, refl)

asked_total :
    (around : Surroundings) (input : CheckRunPlanInput)
    → AreReadable around.files
    → (permission : PermissionPolicy) × (protected : ProtectedPathsPolicy) × (decision_input around
          input
        ≡ some (asked input permission protected))
unfolding decision_input load_permission_policy load_protected_paths_policy
asked_total around input readable =
    let (on_file, read) =
      read_policy-Returns empty_permission_policy around.files.permission_policy
        readable.permission_policy in
    let (paths_on_file, found) =
      read_policy-Returns empty_protected_paths_policy around.files.protected_paths
        readable.protected_paths in
    let (permission, given) =
      or_also-Returns input.permission_policy (load_permission_policy around.files)
        (with_permission_defaults on_file) (rw read refl) in
    let (protected, held) =
      or_also-Returns input.protected_paths_policy (load_protected_paths_policy around.files)
        (with_protected_path_defaults paths_on_file) (rw found refl) in
    (permission, protected, rw (given, held) refl)

build_check_run_plan_total :
    (around : Surroundings) (input : CheckRunPlanInput)
    → AreReadable around.files
    → (plan : CheckRunPlan) × (build_check_run_plan around input ≡ some plan)
unfolding build_check_run_plan
build_check_run_plan_total around input readable =
    let (permission, protected, question) = asked_total around input readable in
    let (d, decided) = decide_check_run around input permission protected in
    rw (question, decided) (_, refl)

orchestrate_total :
    (around : Surroundings) (printer : Printer) (input : OrchestrationInput)
    → AreReadable around.files
    → (o : Orchestration) × (orchestrate_actuator_dry_run around printer input ≡ some o)
unfolding orchestrate_actuator_dry_run
orchestrate_total around printer input readable =
    let (check_run, built) = build_check_run_plan_total around (check_run_input input) readable in
    rw built (_, refl)

planned_total :
    (world : World) (input : PipelineInput) (webhook : Response) (route : RoutePlan) (repo : String)
    → AreReadable world.files
    → (plan : PipelinePlan) × (planned world input webhook route repo ≡ some plan)
      × (plan.accepted ≡ true)
      × (plan.head_sha ≡ route.head_sha)
      × (plan.repository ≡ some repo)
unfolding planned
planned_total world input webhook route repo readable =
    let (o, orchestrated) =
      orchestrate_total (around world) world.printer (actuator_input input route repo) readable in
    rw orchestrated (_, refl, refl, refl, refl)

valid_signature-computed :
    (node : Platform) (secret body : String)
    → valid_signature node secret body (some (compute_signature node (text body) secret)) ≡ true
unfolding valid_signature compute_signature
valid_signature-computed node secret body =
    rw (starts_with-append, eq_refl ("sha256=" ⧺ node.hmac_sha256_hex secret (text body)))

-- the route of a request whose headers are read
abbrev route_input : Request → (event delivery : String) → Value → RouteInput
route_input request event delivery payload = record {
  event = event;
  delivery = delivery;
  payload = payload;
  env = request.env;
}

-- A signed pull request that names a repository and a head commit.
pub record IsPullRequest (node : Platform) (request : Request) (repo sha : String) : Type 0 where
  pub delivery : String
  pub payload : Value
  pub event_read : header node.small_letters request.headers "x-github-event" ≡ some "pull_request"
  pub delivery_read : header node.small_letters request.headers "x-github-delivery" ≡ some delivery
  pub signed :
      header node.small_letters request.headers "x-hub-signature-256"
      ≡ some (compute_signature node (text request.body) request.secret)
  pub parsed : node.parse_json request.body ≡ some payload
  pub names_repository : repository payload ≡ some repo
  pub names_head : pull_request_head_sha payload ≡ some sha

routed_pull_request :
    (node : Platform) (request : Request) (repo sha : String)
    → IsPullRequest node request repo sha
    → dispatch_stopped (or_else request.env node.process_env) ≡ false
    → ((handle_webhook_request node request).accepted ≡ true)
      × ((route : RoutePlan) × ((handle_webhook_request node request).route_plan ≡ some route)
          × (route.repository ≡ some repo)
          × (route.head_sha ≡ some sha))
unfolding handle_webhook_request handle_headers handle_body answer is_denied
routed_pull_request node request repo sha p live =
    let route =
      dispatch_webhook_route node.process_env
        (route_input request "pull_request" p.delivery p.payload) in
    let valid = valid_signature-computed node request.secret request.body in
    let (decided, named, headed) =
      (dispatch-pull_request_iff node.process_env
          (route_input request "pull_request" p.delivery p.payload) repo sha).1
        (live, refl, p.names_repository, p.names_head) in
    rw (p.event_read, p.delivery_read, p.signed, p.parsed, valid)
      (rw decided refl, (route, refl, named, headed))

or_also-some : (o : Option String) (s : String) → or_also o (some s) ≡ some (or_else o s)
or_also-some none s = refl
or_also-some (some t) s = refl

resolved_live :
    (input : PipelineInput) (webhook : Response) (route : RoutePlan) (repo : String)
    → webhook.route_plan ≡ some route
    → route.repository ≡ some repo
    → resolved_repository input webhook ≡ some (or_else input.repository_full_name repo)
unfolding resolved_repository
resolved_live input webhook route repo k named =
    rw (k, named) (or_also-some input.repository_full_name repo)

plan_response_live :
    (world : World) (input : PipelineInput) (webhook : Response) (accepted : Bool)
    (found : Option RoutePlan) (resolved : Option String) (route : RoutePlan) (target : String)
    → accepted ≡ true
    → found ≡ some route
    → resolved ≡ some target
    → plan_response world input webhook accepted found resolved
      ≡ planned world input webhook route target
unfolding plan_response
plan_response_live world input webhook accepted found resolved route target h k r = rw (h, k, r)

-- If no stop of the dispatcher is set and each policy file is missing or can be read, then a signed
-- pull request that names a repository and a head commit gets an accepted plan with this head commit,
-- for that repository or the one that the caller of the pipeline names.
pub build_request_pipeline_plan-live :
    (world : World) (input : PipelineInput) (repo sha : String)
    → IsPullRequest world.node input.request repo sha
    → dispatch_stopped (or_else input.request.env world.node.process_env) ≡ false
    → AreReadable world.files
    → (plan : PipelinePlan) × (build_request_pipeline_plan world input ≡ some plan)
      × (plan.accepted ≡ true)
      × (plan.repository ≡ some (or_else input.repository_full_name repo))
      × (plan.head_sha ≡ some sha)
unfolding build_request_pipeline_plan
build_request_pipeline_plan-live world input repo sha p live readable =
    let webhook = handle_webhook_request world.node input.request in
    let (accepted, (route, routed, named, headed)) =
      routed_pull_request world.node input.request repo sha p live in
    let target = or_else input.repository_full_name repo in
    let resolved = resolved_live input webhook route repo routed named in
    let reached =
      plan_response_live world input webhook _ _ _ route target accepted routed resolved in
    let (plan, made, ok, head, owner) = planned_total world input webhook route target readable in
    (plan, reached ∙ made, ok, owner, head ∙ headed)
