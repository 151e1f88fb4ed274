-- ===== src/Examples/Webhook.antt =====
-- The webhook parts at a pull request of `Verifrax/AUCTORISEAL`.
use admissorium.Prelude.{String, ◌≡◌, ◌≢◌, refl, arith, ◌↔◌, none, some, [], ◌∷◌}
use admissorium.Js.{Value, str, obj, field, end, Env, text, Platform}
use admissorium.Text.{to_lower_case}
use admissorium.Webhook.Route.{
  RouteInput, dispatch_pull_request_plan, dispatch_push_plan, repository, pull_request_head_sha,
  push_head_sha, dispatch_webhook_route,
}
use admissorium.Webhook.Route.Laws.{IsLive, dispatch_iff}
use admissorium.Webhook.Intake.{
  single, EnvelopeInput, compute_signature, is_hex_digest, verify_signature, valid, accepted,
  parse_envelope,
}
use admissorium.Webhook.Intake.Laws.{
  HasHexDigests, IsIntake, verify_signature-valid_iff, parse_envelope-accepted_iff,
}
use admissorium.Webhook.Handler.{
  Request, header, handle_webhook_request, handle_headers, handle_body, answer, valid_signature,
}
use admissorium.Webhook.Handler.Laws.{
  IsConsistent, handle_webhook_request-IsConsistent, handle_webhook_request-signed,
}

abbrev unset : Env
unset name = none

abbrev pub payload : Value
payload = obj (
    field "repository" (obj (field "full_name" (str "Verifrax/AUCTORISEAL") end)) (
      field "pull_request" (obj (field "head" (obj (field "sha" (str "abc123") end)) end))
        (field "after" (str "def456") end)))

abbrev pub route_input : String → RouteInput
route_input event = record {
  event = event;
  delivery = "delivery-1";
  payload = payload;
  env = some unset;
}

dispatch_iff_example :
    let plan = dispatch_webhook_route unset (route_input "push") in
    (((plan.decision ≡ dispatch_pull_request_plan)
        × (plan.repository ≡ some "Verifrax/AUCTORISEAL")
        × (plan.head_sha ≡ some "def456"))
      ↔ (IsLive unset (route_input "push")
          × ((route_input "push").event ≡ "pull_request")
          × (repository payload ≡ some "Verifrax/AUCTORISEAL")
          × (pull_request_head_sha payload ≡ some "def456")))
    × (((plan.decision ≡ dispatch_push_plan)
          × (plan.repository ≡ some "Verifrax/AUCTORISEAL")
          × (plan.head_sha ≡ some "def456"))
        ↔ (IsLive unset (route_input "push")
            × ((route_input "push").event ≡ "push")
            × (repository payload ≡ some "Verifrax/AUCTORISEAL")
            × (push_head_sha payload ≡ some "def456")))
dispatch_iff_example = dispatch_iff unset (route_input "push") "Verifrax/AUCTORISEAL" "def456"

-- a platform whose digest is constant
abbrev pub node : Platform
node = record {
  hmac_sha256_hex =
      λ secret body. "0123456789abcdef0123456789abcdef0123456789abcdef0123456789abcdef";
  parse_json = λ s. some payload;
  decode_utf8 = λ bytes. "";
  small_letters = λ c. String.◌∷◌ c "";
  process_env = unset;
}

node-HasHexDigests : HasHexDigests node
unfolding is_hex_digest
node-HasHexDigests secret body = refl

abbrev pub digest : String
digest = "sha256=0123456789abcdef0123456789abcdef0123456789abcdef0123456789abcdef"

verify_signature-valid_iff_example :
    ((verify_signature node (text "{}") "secret" (some digest)).verdict ≡ valid)
    ↔ (some digest ≡ some (compute_signature node (text "{}") "secret"))
verify_signature-valid_iff_example =
    verify_signature-valid_iff node (text "{}") "secret" (some digest) node-HasHexDigests

abbrev envelope_input : EnvelopeInput
envelope_input = record {
  headers = record {
    event = some "pull_request";
    delivery = some "delivery-1";
    signature = some digest;
    user_agent = none;
  };
  raw_body = text "{}";
  webhook_secret = "secret";
  allowed_events = none;
}

parse_envelope-accepted_iff_example :
    (let envelope = parse_envelope node envelope_input in
      (envelope.verdict ≡ accepted)
      × (envelope.event ≡ some "pull_request")
      × (envelope.delivery ≡ some "delivery-1")
      × (envelope.payload ≡ some payload))
    ↔ IsIntake node envelope_input "pull_request" "delivery-1" payload
parse_envelope-accepted_iff_example =
    parse_envelope-accepted_iff node envelope_input "pull_request" "delivery-1" payload

abbrev pub request : Request
request = record {
  headers =
      ("X-GitHub-Event", single "pull_request")
      ∷ ("X-GitHub-Delivery", single "delivery-1")
      ∷ ("X-Hub-Signature-256", single digest)
      ∷ [];
  body = "{}";
  secret = "secret";
  env = none;
}

handle_webhook_request-IsConsistent_example : IsConsistent (handle_webhook_request node request)
handle_webhook_request-IsConsistent_example = handle_webhook_request-IsConsistent node request

request-routed : (handle_webhook_request node request).route_plan ≢ none
unfolding handle_webhook_request handle_headers handle_body answer valid_signature compute_signature
    header to_lower_case
request-routed = λ h. ground arith

handle_webhook_request-signed_example :
    (header node.small_letters request.headers "x-hub-signature-256"
      ≡ some (compute_signature node (text request.body) request.secret))
    × (header node.small_letters request.headers "x-github-event" ≢ none)
    × (header node.small_letters request.headers "x-github-delivery" ≢ none)
    × (node.parse_json request.body ≢ none)
handle_webhook_request-signed_example = handle_webhook_request-signed node request request-routed
