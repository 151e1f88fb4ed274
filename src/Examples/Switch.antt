-- ===== src/Examples/Switch.antt =====
-- The operations of the actuator where ADMISSORIUM_WRITE_DISABLED is "1".
use admissorium.Prelude.{String, inr, ◌↔◌, ◌≡◌, ◌≢◌, refl, inl, some, [], ◌∷◌}
use admissorium.Js.{Env}
use admissorium.Permissions.Policy.{empty_permission_policy, empty_protected_paths_policy}
use admissorium.Permissions.Decision.{
  WriteInput, WriteDecision, deny_write_disabled, decide_write, permission_policy_of,
  protected_policy_of, protected_path_decision,
}
use admissorium.Plan.CheckRun.{asked}
use admissorium.Token.Exchange.{ExchangeInput, guarded_exchange}
use admissorium.Webhook.Route.{RouteInput, deny_emergency_stop, dispatch_webhook_route}
use admissorium.Text.{split}
use admissorium.Writer.{split_repository}
use admissorium.Writer.CheckRun.{CheckRunWriterInput, check_run_request, write_check_run_guarded}
use admissorium.Switch.{AreAsked, stop_switches-disagree}
use admissorium.Examples.Webhook.{route_input}
use admissorium.Examples.Token.{client, exchange_input}
use admissorium.Examples.Plan.{around, unset, check_run_input}
use admissorium.Examples.Writer.{executable, check_run}

abbrev value : String
value = "1"

abbrev switched : Env
switched name = some value

abbrev route : RouteInput
route = record (route_input "pull_request") { env = some switched }

abbrev exchange : ExchangeInput
exchange = record exchange_input { env = some switched }

abbrev write : WriteInput
write = record (asked check_run_input empty_permission_policy empty_protected_paths_policy) {
  env = some switched;
}

abbrev writer : CheckRunWriterInput
writer = record executable { env = some switched }

write-decided : (d : WriteDecision) × (decide_write around write ≡ some d)
unfolding decide_write permission_policy_of protected_policy_of protected_path_decision
write-decided = (_, refl)

all_asked : AreAsked switched route exchange around write writer check_run
unfolding check_run_request split_repository split
all_asked = record {
  route_env = refl;
  exchange_env = refl;
  write_env = refl;
  check_run_env = refl;
  policy = empty_permission_policy;
  read = refl;
  named = refl;
  executes = refl;
  executable = refl;
  allowed = refl;
  requested = refl;
}

stop_switches-disagree_example :
    ((dispatch_webhook_route unset route).decision ≡ deny_emergency_stop)
    × ((guarded_exchange unset client exchange).calls ≡ [])
    × ((write-decided.0.verdict ≡ deny_write_disabled) ↔ (value ≡ "true"))
    × (((write_check_run_guarded writer).calls ≡ check_run ∷ []) ↔ (value ≢ "true"))
stop_switches-disagree_example =
    stop_switches-disagree switched unset value route client exchange around write write-decided.0
      writer check_run all_asked refl (inr (inl refl)) write-decided.1
