-- ===== src/Token/Exchange.antt =====
-- app/installation-token-exchange-adapter.ts: the guarded call of the client that exchanges a token.
--
-- The client is an argument: it answers a request or rejects it (`none`), and a rejection rejects
-- the whole call. A run lists the requests that the client was sent. `token_exchange` of a plan has
-- one value by its type, so the guard on it is left out.
pub mod Laws
use admissorium.Prelude.{
  ℕ, String, Bool, true, false, not, ◌&&◌, ◌||◌, Option, none, some, List, [], ◌∷◌, starts_with,
  ltb, if◌then◌else◌,
}
use admissorium.Text.{utf16_length}
use admissorium.Js.{Env, or_else}
use admissorium.Token.Plan.{Permissions, TokenPlan, exchange_stopped, is_ready}

-- a plan, and whether it is marked as a dry run
pub record GuardablePlan : Type 0 where
  pub plan : TokenPlan
  pub dry_run : Bool

pub record ClientRequest : Type 0 where
  pub app_id_ref : String
  pub installation_id_ref : String
  pub private_key_ref : String
  pub repositories : List String
  pub permissions : Permissions
  pub ttl_seconds : ℕ

pub record ClientResult : Type 0 where
  pub token_ref : String
  pub expires_at : String
  pub permissions : Permissions
  pub repositories : List String

abbrev pub Client : Type 0
Client = ClientRequest → Option ClientResult

pub data ExchangeDecision : Type 0 where
  skipped_dry_run_plan : ExchangeDecision
  denied_explicit_execution_required : ExchangeDecision
  denied_emergency_stop : ExchangeDecision
  denied_plan_not_ready : ExchangeDecision
  denied_raw_token_material : ExchangeDecision
  exchanged_token_reference : ExchangeDecision

pub record ExchangeResult : Type 0 where
  pub decision : ExchangeDecision
  pub client_called : Bool
  pub token_ref : Option String
  pub expires_at : Option String
  pub reasons : List String

pub record Run : Type 0 where
  pub calls : List ClientRequest
  pub result : Option ExchangeResult

pub record ExchangeInput : Type 0 where
  pub plan : GuardablePlan
  pub execute_exchange : Option Bool
  pub env : Option Env

-- `containsRawTokenMaterial`
unfoldable pub contains_raw_token : String → Bool
contains_raw_token value =
    starts_with value "ghs_"
    || starts_with value "ghu_"
    || starts_with value "github_pat_"
    || ltb 96 (utf16_length value)

unfoldable pub denied : ExchangeDecision → String → Run
denied decision reason = record {
  calls = [];
  result = some (record {
    decision = decision;
    client_called = false;
    token_ref = none;
    expires_at = none;
    reasons = reason ∷ [];
  });
}

ready_request :
    TokenPlan → (ready : Bool) → (app installation key : Option String) → Option ClientRequest
ready_request plan true (some app) (some installation) (some key) = some (record {
  app_id_ref = app;
  installation_id_ref = installation;
  private_key_ref = key;
  repositories = plan.requested_repositories;
  permissions = plan.requested_permissions;
  ttl_seconds = plan.ttl_seconds;
})
ready_request plan _ _ _ _ = none

-- The request of a plan whose three references are all there and which is ready.
unfoldable pub request_of : TokenPlan → Option ClientRequest
unfolding ready_request
request_of plan =
    ready_request plan (is_ready plan.decision && plan.allowed_to_exchange) plan.app_id_ref
      plan.installation_id_ref plan.private_key_ref

-- what is made of the client's answer
unfoldable pub received : ClientRequest → Option ClientResult → Run
received request none = record { calls = request ∷ []; result = none }
received request (some exchanged) = record {
  calls = request ∷ [];
  result = some (
      if contains_raw_token exchanged.token_ref
      then record {
        decision = denied_raw_token_material;
        client_called = true;
        token_ref = none;
        expires_at = none;
        reasons =
            "Client returned raw token-like material instead of a non-secret token reference." ∷ [];
      }
      else record {
        decision = exchanged_token_reference;
        client_called = true;
        token_ref = some exchanged.token_ref;
        expires_at = some exchanged.expires_at;
        reasons =
            "Client returned a non-secret token reference; adapter did not persist token material."
            ∷ [];
      });
}

unfoldable pub exchange_with : Client → Option ClientRequest → Run
unfolding denied received
exchange_with client none =
    denied denied_plan_not_ready "Installation token plan is not ready for guarded exchange."
exchange_with client (some request) = received request (client request)

-- `executeExchange === true`
abbrev pub is_true : Option Bool → Bool
is_true none = false
is_true (some b) = b

-- `guardedInstallationTokenExchange`
unfoldable pub guarded_exchange : (process_env : Env) → Client → ExchangeInput → Run
unfolding denied
guarded_exchange process_env client input =
    if input.plan.dry_run
    then denied skipped_dry_run_plan "Plan is dry-run or already represents token exchange state."
    else if not (is_true input.execute_exchange)
    then denied denied_explicit_execution_required "Explicit executeExchange=true is required."
    else if exchange_stopped (or_else input.env process_env)
    then denied denied_emergency_stop "Emergency stop prevents installation token exchange."
    else exchange_with client (request_of input.plan.plan)
