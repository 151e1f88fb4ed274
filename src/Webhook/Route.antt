-- ===== src/Webhook/Route.antt =====
-- app/webhook-route-dispatcher.ts: from a verified envelope to a plan. The plan's fields whose type
-- has one value (`write_behavior: "NONE"` and the like) are left out.
pub mod Laws
use admissorium.Prelude.{
  String, Bool, true, false, ◌||◌, Option, none, some, List, [], ◌∷◌, ◌==◌, nat_eq, if◌then◌else◌,
}
use admissorium.Text.{is_empty, ◌⧺◌}
use admissorium.Js.{
  Number, nan, infinite, finite, Value, number, str, obj, Fields, get, Env, or_else, enabled,
}

pub data RouteDecision : Type 0 where
  acknowledge_only : RouteDecision
  dispatch_pull_request_plan : RouteDecision
  dispatch_push_plan : RouteDecision
  deny_emergency_stop : RouteDecision
  deny_missing_repository : RouteDecision
  deny_missing_head_sha : RouteDecision
  deny_unsupported_event : RouteDecision

pub data TargetKind : Type 0 where
  no_target pull_request push : TargetKind

pub record RouteInput : Type 0 where
  pub event : String
  pub delivery : String
  pub payload : Value
  pub env : Option Env

pub record RoutePlan : Type 0 where
  pub decision : RouteDecision
  pub event : String
  pub delivery : String
  pub repository : Option String
  pub target_kind : TargetKind
  pub head_sha : Option String
  pub ref : Option String
  pub action : Option String
  pub pull_request_number : Option Number
  pub planned_steps : List String
  pub reasons : List String

-- `record(value)`, with the object as the result
abbrev record_of : Value → Option Fields
record_of (obj fs) = some fs
record_of _ = none

abbrev text_of : Value → Option String
text_of (str s) = if is_empty s then none else some s
text_of _ = none

abbrev integer_of : Value → Option Number
integer_of (number (finite negative whole fraction)) =
    if nat_eq fraction 0 then some (finite negative whole fraction) else none
integer_of _ = none

-- `payload.key`, where the payload is an object
abbrev member : Option Fields → String → Value
member none key = Value.undef
member (some fs) key = get fs key

-- A read through nested objects: `none` as soon as one of them is no object.
unfoldable pub repository : Value → Option String
repository payload =
    text_of (member (record_of (member (record_of payload) "repository")) "full_name")

unfoldable pub action : Value → Option String
action payload = text_of (member (record_of payload) "action")

unfoldable pub pull_request_number : Value → Option Number
pull_request_number payload =
    integer_of (member (record_of (member (record_of payload) "pull_request")) "number")

unfoldable pub pull_request_head_sha : Value → Option String
pull_request_head_sha payload = text_of (
    member (record_of (member (record_of (member (record_of payload) "pull_request")) "head"))
      "sha")

unfoldable pub push_head_sha : Value → Option String
push_head_sha payload = text_of (member (record_of payload) "after")

unfoldable pub payload_ref : Value → Option String
payload_ref payload = text_of (member (record_of payload) "ref")

-- `basePlan`, with the reason that the source pushes afterwards
unfoldable pub base_plan : RouteInput → RouteDecision → String → RoutePlan
base_plan input decision reason = record {
  decision = decision;
  event = input.event;
  delivery = input.delivery;
  repository = repository input.payload;
  target_kind = no_target;
  head_sha = none;
  ref = none;
  action = action input.payload;
  pull_request_number = pull_request_number input.payload;
  planned_steps = [];
  reasons = reason ∷ [];
}

abbrev pull_request_steps : List String
pull_request_steps =
    "parse verified webhook envelope" ∷ "build admissibility audit plan"
    ∷ "build dry-run check-run plan"
    ∷ "build projection-repair or quarantine plans only if report class requires them"
    ∷ "return plans without server binding or repository writes" ∷ []

abbrev push_steps : List String
push_steps =
    "parse verified webhook envelope" ∷ "build admissibility audit plan for pushed ref"
    ∷ "build dry-run check-run plan" ∷ "return plans without server binding or repository writes"
    ∷ []

-- the `pull_request` branch, behind the repository
unfoldable pub route_pull_request : RouteInput → (repo : String) → (sha : Option String) → RoutePlan
unfolding base_plan
route_pull_request input repo none =
    record (base_plan input deny_missing_head_sha
      "Pull request payload does not contain pull_request.head.sha.") {
        repository = some repo;
        target_kind = pull_request;
      }
route_pull_request input repo (some sha) =
    record (base_plan input dispatch_pull_request_plan
      "Pull request event is routable to an admissibility execution plan.") {
        repository = some repo;
        target_kind = pull_request;
        head_sha = some sha;
        planned_steps = pull_request_steps;
      }

-- the `push` branch
unfoldable pub route_push : RouteInput → (repo : String) → (sha : Option String) → RoutePlan
unfolding base_plan
route_push input repo none =
    record (base_plan input deny_missing_head_sha
      "Push payload does not contain after commit sha.") {
        repository = some repo;
        target_kind = push;
        ref = payload_ref input.payload;
      }
route_push input repo (some sha) =
    record (base_plan input dispatch_push_plan
      "Push event is routable to an admissibility execution plan.") {
        repository = some repo;
        target_kind = push;
        head_sha = some sha;
        ref = payload_ref input.payload;
        planned_steps = push_steps;
      }

-- what follows once the repository is known or missing
unfoldable pub route_event : RouteInput → Option String → RoutePlan
unfolding base_plan route_pull_request route_push
route_event input none =
    base_plan input deny_missing_repository "Webhook payload does not contain repository.full_name."
route_event input (some repo) =
    if input.event == "pull_request"
    then route_pull_request input repo (pull_request_head_sha input.payload)
    else if input.event == "push"
    then route_push input repo (push_head_sha input.payload)
    else record (base_plan input deny_unsupported_event
        ("Unsupported webhook event: " ⧺ input.event)) { repository = some repo }

unfoldable pub dispatch_stopped : Env → Bool
dispatch_stopped env =
    enabled (env "ADMISSORIUM_WEBHOOK_DISPATCH_DISABLED")
    || enabled (env "ADMISSORIUM_WRITE_DISABLED")

-- `dispatchWebhookRoute`
unfoldable pub dispatch_webhook_route : (process_env : Env) → RouteInput → RoutePlan
unfolding base_plan route_event
dispatch_webhook_route process_env input =
    if dispatch_stopped (or_else input.env process_env)
    then base_plan input deny_emergency_stop "Emergency stop prevents webhook route dispatch."
    else if input.event == "ping"
    then base_plan input acknowledge_only "GitHub ping event acknowledged without execution."
    else route_event input (repository input.payload)
