-- ===== src/Webhook/Handler.antt =====
-- app/webhook-request-handler.ts: one HTTP request, from its headers and body to a routed plan. The
-- fields of the result whose type has one value are left out.
pub mod Laws
use admissorium.Prelude.{
  ℕ, Char, String, Bool, true, false, not, ◌&&◌, Option, none, some, List, [], ◌∷◌, ◌==◌,
  starts_with, if◌then◌else◌,
}
use admissorium.Text.{◌⧺◌, to_lower_case}
use admissorium.Js.{Value, Env, RawBody, text, Platform}
use admissorium.Webhook.Intake.{HeaderValue, first_of_value, compute_signature}
use admissorium.Webhook.Route.{
  RouteDecision, acknowledge_only, dispatch_pull_request_plan, dispatch_push_plan,
  deny_emergency_stop, deny_missing_repository, deny_missing_head_sha, deny_unsupported_event,
  RouteInput, RoutePlan, dispatch_webhook_route,
}

pub data HandlerDecision : Type 0 where
  routed denied_intake denied_route : HandlerDecision

pub record Request : Type 0 where
  pub headers : List (String × HeaderValue)
  pub body : String
  pub secret : String
  pub env : Option Env

pub record RequestEnvelope : Type 0 where
  pub event : String
  pub delivery : String
  pub payload : Value

pub record Response : Type 0 where
  pub decision : HandlerDecision
  pub accepted : Bool
  pub status_code : ℕ
  pub envelope : Option RequestEnvelope
  pub route_plan : Option RoutePlan
  pub reasons : List String

-- `header`: the first entry of the name decides, also where its value is missing
unfoldable pub header : (Char → String) → List (String × HeaderValue) → String → Option String
header small [] name = none
header small ((key, value) ∷ rest) name =
    if to_lower_case small key == to_lower_case small name
    then first_of_value value
    else header small rest name

-- `validSignature`: the bytes agree exactly when the texts do
unfoldable pub valid_signature : Platform → (secret body : String) → Option String → Bool
valid_signature node secret body none = false
valid_signature node secret body (some observed) =
    starts_with observed "sha256=" && observed == compute_signature node (text body) secret

-- the texts that the decisions are in the source
unfoldable pub decision_text : RouteDecision → String
decision_text acknowledge_only = "ACKNOWLEDGE_ONLY"
decision_text dispatch_pull_request_plan = "DISPATCH_PULL_REQUEST_PLAN"
decision_text dispatch_push_plan = "DISPATCH_PUSH_PLAN"
decision_text deny_emergency_stop = "DENY_EMERGENCY_STOP"
decision_text deny_missing_repository = "DENY_MISSING_REPOSITORY"
decision_text deny_missing_head_sha = "DENY_MISSING_HEAD_SHA"
decision_text deny_unsupported_event = "DENY_UNSUPPORTED_EVENT"

-- `decision.startsWith("DENY_")`
unfoldable pub is_denied : RouteDecision → Bool
unfolding decision_text
is_denied d = starts_with (decision_text d) "DENY_"

-- `routeStatus`
unfoldable pub route_status : RouteDecision → ℕ
unfolding decision_text is_denied
route_status d =
    if decision_text d == "DENY_EMERGENCY_STOP" then 403 else if is_denied d then 422 else 202

unfoldable pub refused : (status : ℕ) → (reason : String) → Response
refused status reason = record {
  decision = denied_intake;
  accepted = false;
  status_code = status;
  envelope = none;
  route_plan = none;
  reasons = reason ∷ [];
}

-- what is answered once the payload is parsed
unfoldable pub answer : (process_env : Env) → RequestEnvelope → Option Env → Response
answer process_env envelope env =
    let plan = dispatch_webhook_route process_env (record {
      event = envelope.event;
      delivery = envelope.delivery;
      payload = envelope.payload;
      env = env;
    }) in
    let denied = is_denied plan.decision in
    record {
      decision = if denied then denied_route else routed;
      accepted = not denied;
      status_code = route_status plan.decision;
      envelope = some envelope;
      route_plan = some plan;
      reasons = plan.reasons;
    }

unfoldable pub handle_body :
    Platform → Request → (event delivery : String) → Option Value → Response
unfolding refused answer
handle_body node request event delivery none = refused 400 "Webhook payload is not valid JSON."
handle_body node request event delivery (some payload) =
    answer node.process_env (record { event = event; delivery = delivery; payload = payload })
      request.env

-- the checks in the order of the source
unfoldable pub handle_headers :
    Platform → Request → (event delivery signature : Option String) → Response
unfolding refused handle_body
handle_headers node request none delivery signature =
    refused 400 "Missing required GitHub webhook headers."
handle_headers node request (some event) none signature =
    refused 400 "Missing required GitHub webhook headers."
handle_headers node request (some event) (some delivery) signature =
    if valid_signature node request.secret request.body signature
    then handle_body node request event delivery (node.parse_json request.body)
    else refused 401 "Webhook signature verification failed."

-- `handleWebhookRequest`
unfoldable pub handle_webhook_request : Platform → Request → Response
unfolding handle_headers
handle_webhook_request node request =
    let read = header node.small_letters request.headers in
    handle_headers node request (read "x-github-event") (read "x-github-delivery")
      (read "x-hub-signature-256")
