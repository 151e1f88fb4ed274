-- ===== src/Token/Exchange/Laws.antt =====
-- When the client of app/installation-token-exchange-adapter.ts is called, and what comes back.
use mathlib.Core.Path.{subst}
use admissorium.Prelude.{
  String, ◌≡◌, refl, ◌≢◌, ◌↔◌, ◌&&◌, Bool, true, false, Option, none, some, List, [], ◌∷◌, arith,
}
use admissorium.Js.{Env, or_else}
use admissorium.Token.Plan.{
  TokenPlan, PlanInput, PlanDecision, ready_for_guarded_exchange, contains_raw_private_key,
  exchange_stopped, is_ready, build_installation_token_plan, clean_ref,
}
use admissorium.Token.Plan.Laws.{build_installation_token_plan-IsReady_iff}
use admissorium.Token.Exchange.{
  ClientRequest, Client, ExchangeResult, Run, ExchangeInput, contains_raw_token, ready_request,
  request_of, exchange_with, is_true, guarded_exchange,
}

-- What a plan must say for a request to be made of it, and what the request takes from it.
pub record IsRequestOf (plan : TokenPlan) (r : ClientRequest) : Type 0 where
  pub ready : plan.decision ≡ ready_for_guarded_exchange
  pub allowed : plan.allowed_to_exchange ≡ true
  pub app : plan.app_id_ref ≡ some r.app_id_ref
  pub installation : plan.installation_id_ref ≡ some r.installation_id_ref
  pub key : plan.private_key_ref ≡ some r.private_key_ref
  pub repositories : r.repositories ≡ plan.requested_repositories
  pub permissions : r.permissions ≡ plan.requested_permissions
  pub ttl : r.ttl_seconds ≡ plan.ttl_seconds

ready_request_sound :
    (plan : TokenPlan) (ready : Bool) (app installation key : Option String) (r : ClientRequest)
    → ready_request plan ready app installation key ≡ some r
    → (ready ≡ true)
      × (app ≡ some r.app_id_ref)
      × (installation ≡ some r.installation_id_ref)
      × (key ≡ some r.private_key_ref)
      × (r.repositories ≡ plan.requested_repositories)
      × (r.permissions ≡ plan.requested_permissions)
      × (r.ttl_seconds ≡ plan.ttl_seconds)
unfolding ready_request
ready_request_sound plan true (some app) (some installation) (some key) r e =
    (refl, cc, cc, cc, cc, cc, cc)
ready_request_sound plan _ _ _ _ r e = cc

both :
    (decision : PlanDecision) (b : Bool)
    → (is_ready decision && b) ≡ true
    → (decision ≡ ready_for_guarded_exchange) × (b ≡ true)
both decision b h = ground arith

request_of_sound :
    (plan : TokenPlan) (r : ClientRequest) → request_of plan ≡ some r → IsRequestOf plan r
unfolding request_of
request_of_sound plan r e =
    let (ready, app, installation, key, repositories, permissions, ttl) =
      ready_request_sound plan _ _ _ _ r e in
    let (decided, allowed) = both plan.decision plan.allowed_to_exchange ready in
    record {
      ready = decided;
      allowed = allowed;
      app = app;
      installation = installation;
      key = key;
      repositories = repositories;
      permissions = permissions;
      ttl = ttl;
    }

exchange_with-called :
    (client : Client) (o : Option ClientRequest) (r : ClientRequest) (rs : List ClientRequest)
    → (exchange_with client o).calls ≡ r ∷ rs
    → (o ≡ some r) × (rs ≡ [])
unfolding exchange_with
exchange_with-called client none r rs e = absurd (ground arith)
exchange_with-called client (some request) r rs e = ground arith

exchange_with-result :
    (client : Client) (o : Option ClientRequest) (result : ExchangeResult)
    → (exchange_with client o).result ≡ some result
    → ((result.client_called ≡ true) ↔ ((exchange_with client o).calls ≢ []))
      × ((token : String) → result.token_ref ≡ some token → contains_raw_token token ≡ false)
unfolding exchange_with
exchange_with-result client none result e = ground arith
exchange_with-result client (some request) result e = ground arith

module _ (process_env : Env) (client : Client) (input : ExchangeInput) where
  abbrev run : Run
  run = guarded_exchange process_env client input

  -- The three guards that stand before the plan is looked at.
  pub record IsOpen : Type 0 where
    pub executable : input.plan.dry_run ≡ false
    pub asked : is_true input.execute_exchange ≡ true
    pub not_stopped : exchange_stopped (or_else input.env process_env) ≡ false

  -- The client is called at most once, and only past every guard, with the values of the plan.
  pub guarded_exchange-called :
      (r : ClientRequest) (rs : List ClientRequest)
      → run.calls ≡ r ∷ rs
      → IsOpen × IsRequestOf input.plan.plan r × (rs ≡ [])
  unfolding guarded_exchange
  guarded_exchange-called r rs e =
      let later = λ (h : (exchange_with client (request_of input.plan.plan)).calls ≡ r ∷ rs).
        exchange_with-called client (request_of input.plan.plan) r rs h in
      let guards : IsOpen × ((exchange_with client (request_of input.plan.plan)).calls ≡ r ∷ rs) =
        ground arith in
      let (made, alone) = later guards.1 in
      (guards.0, request_of_sound input.plan.plan r made, alone)

  -- A result says truly whether the client was called, and never hands on a token that looks raw.
  pub guarded_exchange-result :
      (result : ExchangeResult)
      → run.result ≡ some result
      → ((result.client_called ≡ true) ↔ (run.calls ≢ []))
        × ((token : String) → result.token_ref ≡ some token → contains_raw_token token ≡ false)
  unfolding guarded_exchange
  guarded_exchange-result result e =
      ground (arith, exchange_with-result client (request_of input.plan.plan) result)

planned_key_ref :
    (plan_env : Env) (planned : PlanInput) (key : String)
    → (build_installation_token_plan plan_env planned).private_key_ref ≡ some key
    → clean_ref planned.private_key_ref ≡ some key
unfolding build_installation_token_plan
planned_key_ref plan_env planned key e = e

-- If the plan comes from the planner, whatever the environments were, the client never sees a key
-- that looks raw.
pub planned-exchange-key :
    (plan_env process_env : Env) (client : Client) (planned : PlanInput) (input : ExchangeInput)
    (r : ClientRequest) (rs : List ClientRequest)
    → input.plan.plan ≡ build_installation_token_plan plan_env planned
    → (guarded_exchange process_env client input).calls ≡ r ∷ rs
    → contains_raw_private_key (some r.private_key_ref) ≡ false
planned-exchange-key plan_env process_env client planned input r rs p e =
    let (open_guards, made, _) = guarded_exchange-called process_env client input r rs e in
    let planned_ready = subst (λ plan. plan.decision ≡ ready_for_guarded_exchange) p made.ready in
    let planned_key = subst (λ plan. plan.private_key_ref ≡ some r.private_key_ref) p made.key in
    let ready = (build_installation_token_plan-IsReady_iff plan_env planned).0.0 planned_ready in
    subst (λ key. contains_raw_private_key key ≡ false)
      (planned_key_ref plan_env planned r.private_key_ref planned_key) ready.key_by_reference
