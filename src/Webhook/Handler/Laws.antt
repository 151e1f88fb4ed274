-- ===== src/Webhook/Handler/Laws.antt =====
-- What app/webhook-request-handler.ts answers, and to whom.
use admissorium.Prelude.{
  ℕ, String, ◌≡◌, refl, ◌≢◌, ◌↔◌, ◌⊎◌, inl, inr, true, false, Option, none, some, eq_iff, arith,
  Bool-cases,
}
use admissorium.Js.{Value, Env, text, Platform}
use admissorium.Webhook.Intake.{compute_signature}
use admissorium.Webhook.Route.{RouteDecision, acknowledge_only, dispatch_webhook_route}
use admissorium.Webhook.Handler.{
  routed, denied_intake, Request, RequestEnvelope, Response, header, valid_signature, is_denied,
  route_status, refused, answer, handle_body, handle_headers, handle_webhook_request,
}

-- A denial has a status of its own, and only a denial has.
route_status_lem :
    (d : RouteDecision)
    → (is_denied d ≡ false → route_status d ≡ 202)
      × (is_denied d ≡ true → (route_status d ≡ 403) ⊎ (route_status d ≡ 422))
unfolding is_denied route_status
route_status_lem acknowledge_only = ground arith
route_status_lem _ = ground arith

-- The outcome and the status code tell the same story.
pub record IsConsistent (r : Response) : Type 0 where
  pub accepted_routed : (r.accepted ≡ true) ↔ (r.decision ≡ routed)
  pub accepted_status : (r.accepted ≡ true) ↔ (r.status_code ≡ 202)
  pub intake_plan : (r.decision ≡ denied_intake) ↔ (r.route_plan ≡ none)
  pub statuses :
      (r.status_code ≡ 202)
      ⊎ ((r.status_code ≡ 400)
          ⊎ ((r.status_code ≡ 401) ⊎ ((r.status_code ≡ 403) ⊎ (r.status_code ≡ 422))))

answer-IsConsistent :
    (process_env : Env) (envelope : RequestEnvelope) (env : Option Env)
    → IsConsistent (answer process_env envelope env)
unfolding answer
answer-IsConsistent process_env envelope env =
    let plan = dispatch_webhook_route process_env (record {
      event = envelope.event;
      delivery = envelope.delivery;
      payload = envelope.payload;
      env = env;
    }) in
    ground (arith, route_status_lem plan.decision)

refused-IsConsistent :
    (status : ℕ) (reason : String)
    → (status ≡ 400) ⊎ (status ≡ 401)
    → IsConsistent (refused status reason)
unfolding refused
refused-IsConsistent status reason h = ground arith

handle_body-IsConsistent :
    (node : Platform) (request : Request) (event delivery : String) (payload : Option Value)
    → IsConsistent (handle_body node request event delivery payload)
unfolding handle_body
handle_body-IsConsistent node request event delivery none = refused-IsConsistent 400 _ (inl refl)
handle_body-IsConsistent node request event delivery (some payload) =
    answer-IsConsistent node.process_env _ request.env

handle_headers-IsConsistent :
    (node : Platform) (request : Request) (event delivery signature : Option String)
    → IsConsistent (handle_headers node request event delivery signature)
unfolding handle_headers
handle_headers-IsConsistent node request none delivery signature =
    refused-IsConsistent 400 _ (inl refl)
handle_headers-IsConsistent node request (some event) none signature =
    refused-IsConsistent 400 _ (inl refl)
handle_headers-IsConsistent node request (some event) (some delivery) signature =
    elim (Bool-cases (valid_signature node request.secret request.body signature)) [
      | inl ok ↦ rw ok (handle_body-IsConsistent node request event delivery _)
      | inr bad ↦ rw bad (refused-IsConsistent 401 _ (inr refl))
    ]

-- Only a signed request with both headers and a JSON body reaches the dispatcher.
handle_headers-signed :
    (node : Platform) (request : Request) (event delivery signature : Option String)
    → (handle_headers node request event delivery signature).route_plan ≢ none
    → (signature ≡ some (compute_signature node (text request.body) request.secret))
      × (event ≢ none)
      × (delivery ≢ none)
      × (node.parse_json request.body ≢ none)
unfolding handle_headers valid_signature
handle_headers-signed node request none delivery signature h = absurd (h refl)
handle_headers-signed node request (some event) none signature h = absurd (h refl)
handle_headers-signed node request (some event) (some delivery) none h = absurd (h refl)
handle_headers-signed node request (some event) (some delivery) (some observed) h =
    ground (arith, eq_iff observed (compute_signature node (text request.body) request.secret))

module _ (node : Platform) (request : Request) where
  abbrev response : Response
  response = handle_webhook_request node request

  -- The decision, the acceptance, the status code and the presence of a plan agree.
  pub handle_webhook_request-IsConsistent : IsConsistent response
  unfolding handle_webhook_request
  handle_webhook_request-IsConsistent = handle_headers-IsConsistent node request _ _ _

  -- A request gets a plan only if its signature header is the digest of its body under the secret,
  -- the event and delivery headers are there, and the body is JSON.
  pub handle_webhook_request-signed :
      response.route_plan ≢ none
      → (header node.small_letters request.headers "x-hub-signature-256"
          ≡ some (compute_signature node (text request.body) request.secret))
        × (header node.small_letters request.headers "x-github-event" ≢ none)
        × (header node.small_letters request.headers "x-github-delivery" ≢ none)
        × (node.parse_json request.body ≢ none)
  unfolding handle_webhook_request
  handle_webhook_request-signed h = handle_headers-signed node request _ _ _ h
