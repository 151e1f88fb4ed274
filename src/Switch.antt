-- ===== src/Switch.antt =====
-- The switch `ADMISSORIUM_WRITE_DISABLED` as the operations of app/ take it.
use admissorium.Prelude.{
  String, ◌↔◌, eq_iff, Bool-cases, ◌≡◌, ◌≢◌, refl, sym, ap, ◌∙◌, true, false, some, List, [], ◌∷◌,
  ◌⊎◌, inl, inr, arith,
}
use mathlib.Core.Option.{some_inj}
use admissorium.Js.{Env, or_else}
use admissorium.Permissions.Policy.{PermissionPolicy}
use admissorium.Permissions.Decision.{
  Surroundings, WriteInput, WriteDecision, allow, deny_write_disabled, given_permission_policy,
  decide_write,
}
use admissorium.Permissions.Stop.{switch_name, decide_write-stopped}
use admissorium.Token.Plan.{exchange_stopped}
use admissorium.Token.Exchange.{Client, ClientRequest, ExchangeInput, guarded_exchange}
use admissorium.Token.Exchange.Laws.{guarded_exchange-called}
use admissorium.Webhook.Route.{
  RouteInput, deny_emergency_stop, dispatch_stopped, base_plan, dispatch_webhook_route,
}
use admissorium.Writer.{write_disabled}
use admissorium.Writer.CheckRun.{
  CheckRunWriterInput, CheckRunCreateInput, check_run_request, write_check_run_guarded,
}
use admissorium.Writer.Laws.{write_check_run_guarded-called_iff}

-- a value that some operation takes for a stop
abbrev pub IsStopValue : String → Type 0
IsStopValue value = (value ≡ "true") ⊎ ((value ≡ "1") ⊎ (value ≡ "yes"))

module _ (env : Env) (value : String) (set : env "ADMISSORIUM_WRITE_DISABLED" ≡ some value) where
  set-stopped : IsStopValue value → (dispatch_stopped env ≡ true) × (exchange_stopped env ≡ true)
  unfolding dispatch_stopped exchange_stopped
  set-stopped (inl same) = rw (set, same) (ground arith, ground arith)
  set-stopped (inr (inl same)) = rw (set, same) (ground arith, ground arith)
  set-stopped (inr (inr same)) = rw (set, same) (ground arith, ground arith)

  set-write_disabled_iff : (write_disabled (some env) ≡ true) ↔ (value ≡ "true")
  unfolding write_disabled
  set-write_disabled_iff = rw set (eq_iff value "true")

-- What these operations are given: one environment, and beside it what lets each of them go on.
pub record AreAsked (env : Env) (route : RouteInput) (exchange : ExchangeInput)
    (around : Surroundings) (write : WriteInput) (check_run : CheckRunWriterInput)
    (request : CheckRunCreateInput) : Type 0 where
  pub route_env : route.env ≡ some env
  pub exchange_env : exchange.env ≡ some env
  pub write_env : write.env ≡ some env
  pub check_run_env : check_run.env ≡ some env
  pub policy : PermissionPolicy
  pub read : given_permission_policy around write ≡ some policy
  pub named : switch_name policy ≡ "ADMISSORIUM_WRITE_DISABLED"
  pub executes : check_run.execute_write ≡ true
  pub executable : check_run.plan.dry_run ≡ false
  pub allowed : check_run.plan.permission_decision.verdict ≡ allow
  pub requested : check_run_request check_run.plan ≡ some request

dispatch-stopped :
    (process_env env : Env) (route : RouteInput)
    → route.env ≡ some env
    → dispatch_stopped env ≡ true
    → (dispatch_webhook_route process_env route).decision ≡ deny_emergency_stop
unfolding dispatch_webhook_route base_plan
dispatch-stopped process_env env route given stopped = rw (given, stopped) refl

exchange-stopped :
    (process_env env : Env) (client : Client) (exchange : ExchangeInput)
    → exchange.env ≡ some env
    → exchange_stopped env ≡ true
    → (calls : List ClientRequest) → (guarded_exchange process_env client exchange).calls ≡ calls
    → calls ≡ []
exchange-stopped process_env env client exchange given stopped [] e = refl
exchange-stopped process_env env client exchange given stopped (r ∷ rs) e =
    let (guards, _, _) = guarded_exchange-called process_env client exchange r rs e in
    let going = guards.not_stopped in
    absurd (ground (arith, ap (λ o. exchange_stopped (or_else o process_env)) given))

decision-true_iff :
    (env : Env) (value : String)
    → env "ADMISSORIUM_WRITE_DISABLED" ≡ some value
    → (around : Surroundings) (write : WriteInput) (d : WriteDecision) (policy : PermissionPolicy)
    → given_permission_policy around write ≡ some policy
    → switch_name policy ≡ "ADMISSORIUM_WRITE_DISABLED"
    → write.env ≡ some env
    → decide_write around write ≡ some d
    → (d.verdict ≡ deny_write_disabled) ↔ (value ≡ "true")
decision-true_iff env value set around write d policy read named given decided =
    let stops = (decide_write-stopped around write policy d read decided).0 in
    let here = ap (λ o. or_else o around.process_env "ADMISSORIUM_WRITE_DISABLED") given ∙ set in
    (
      (λ verdict. let off = rw named at (stops.0 verdict) in some_inj.0 (sym here ∙ off)),
      (λ same. stops.1 (rw named (here ∙ ap some same))),
    )

writer-other_iff :
    (env : Env) (value : String)
    → env "ADMISSORIUM_WRITE_DISABLED" ≡ some value
    → (check_run : CheckRunWriterInput) (request : CheckRunCreateInput) → check_run.env ≡ some env
    → check_run.execute_write ≡ true
    → check_run.plan.dry_run ≡ false
    → check_run.plan.permission_decision.verdict ≡ allow
    → check_run_request check_run.plan ≡ some request
    → ((write_check_run_guarded check_run).calls ≡ request ∷ []) ↔ (value ≢ "true")
writer-other_iff env value set check_run request given executes executable allowed requested =
    let called = write_check_run_guarded-called_iff check_run request [] in
    let disabled = set-write_disabled_iff env value set in
    let same = ap write_disabled given in
    (
      (λ h is_true.
          let (may, _, _, _) = called.0 h in
          let goes_on = may.not_disabled in let on = disabled.1 is_true in absurd (ground arith)),
      (λ other. called.1 (
        record {
          executes = executes;
          executable = executable;
          not_disabled = elim (Bool-cases (write_disabled (some env))) [
            | inl on ↦ absurd (other (disabled.0 on))
            | inr off ↦ same ∙ off
          ];
        },
        allowed,
        requested,
        refl,
      )),
    )

-- If ADMISSORIUM_WRITE_DISABLED is "true", "1" or "yes" in an environment, and the permission policy
-- keeps this name, then in this environment no webhook is dispatched, for the emergency stop, and no
-- token client is called; but a decision of `decideWrite` is that of the emergency stop exactly if the
-- value is "true", and the check-run writer that is told to execute an allowed plan that is no dry run
-- sends its request exactly if the value is another one.
pub stop_switches-disagree :
    (env process_env : Env) (value : String) (route : RouteInput) (client : Client)
    (exchange : ExchangeInput) (around : Surroundings) (write : WriteInput) (d : WriteDecision)
    (check_run : CheckRunWriterInput) (request : CheckRunCreateInput)
    → AreAsked env route exchange around write check_run request
    → env "ADMISSORIUM_WRITE_DISABLED" ≡ some value
    → IsStopValue value
    → decide_write around write ≡ some d
    → ((dispatch_webhook_route process_env route).decision ≡ deny_emergency_stop)
      × ((guarded_exchange process_env client exchange).calls ≡ [])
      × ((d.verdict ≡ deny_write_disabled) ↔ (value ≡ "true"))
      × (((write_check_run_guarded check_run).calls ≡ request ∷ []) ↔ (value ≢ "true"))
stop_switches-disagree env process_env value route client exchange around write d check_run request
      asked set stops decided =
    let (dispatch_stops, exchange_stops) = set-stopped env value set stops in
    (
      dispatch-stopped process_env env route asked.route_env dispatch_stops,
      exchange-stopped process_env env client exchange asked.exchange_env exchange_stops _ refl,
      decision-true_iff env value set around write d asked.policy asked.read asked.named
          asked.write_env decided,
      writer-other_iff env value set check_run request asked.check_run_env asked.executes
          asked.executable asked.allowed asked.requested,
    )
