-- ===== src/Webhook/Route/Laws.antt =====
-- What a plan of app/webhook-route-dispatcher.ts says, and when it says it.
use admissorium.Prelude.{
  String, ◌≡◌, refl, ◌≢◌, ◌↔◌, ◌⊎◌, false, none, some, [], eq_iff, eq_other, arith, length,
}
use admissorium.Js.{Env, or_else}
use admissorium.Webhook.Route.{
  dispatch_pull_request_plan, dispatch_push_plan, RouteInput, RoutePlan, repository,
  pull_request_head_sha, push_head_sha, dispatch_stopped, dispatch_webhook_route,
}

-- the plan of the branch for the input's event
module _ (process_env : Env) (input : RouteInput) where
  abbrev pub IsLive : Type 0
  IsLive = dispatch_stopped (or_else input.env process_env) ≡ false

  abbrev plan : RoutePlan
  plan = dispatch_webhook_route process_env input

  -- A pull request is dispatched exactly when no stop is set, the event is `pull_request`, and the
  -- payload names both a repository and a head commit; the plan carries these two.
  pub dispatch-pull_request_iff :
      (repo sha : String)
      → ((plan.decision ≡ dispatch_pull_request_plan)
          × (plan.repository ≡ some repo)
          × (plan.head_sha ≡ some sha))
        ↔ (IsLive
            × (input.event ≡ "pull_request")
            × (repository input.payload ≡ some repo)
            × (pull_request_head_sha input.payload ≡ some sha))
  unfolding dispatch_webhook_route
  dispatch-pull_request_iff repo sha = ground (
    arith,
    eq_iff input.event "ping",
    eq_iff input.event "pull_request",
    eq_other input.event "pull_request" "ping" refl,
  )

  -- A push is dispatched exactly when no stop is set, the event is `push`, and the payload names both
  -- a repository and the commit after it; the plan carries these two.
  pub dispatch-push_iff :
      (repo sha : String)
      → ((plan.decision ≡ dispatch_push_plan)
          × (plan.repository ≡ some repo)
          × (plan.head_sha ≡ some sha))
        ↔ (IsLive
            × (input.event ≡ "push")
            × (repository input.payload ≡ some repo)
            × (push_head_sha input.payload ≡ some sha))
  unfolding dispatch_webhook_route
  dispatch-push_iff repo sha = ground (
    arith,
    eq_iff input.event "ping",
    eq_iff input.event "pull_request",
    eq_iff input.event "push",
    eq_other input.event "push" "ping" refl,
    eq_other input.event "push" "pull_request" refl,
  )

  -- A pull request is dispatched exactly when no stop is set, the event is `pull_request`, and the
  -- payload names both a repository and a head commit; a push exactly when no stop is set, the event
  -- is `push`, and the payload names a repository and the commit after it. The plan carries the two.
  pub dispatch_iff :
      (repo sha : String)
      → (((plan.decision ≡ dispatch_pull_request_plan)
            × (plan.repository ≡ some repo)
            × (plan.head_sha ≡ some sha))
          ↔ (IsLive
              × (input.event ≡ "pull_request")
              × (repository input.payload ≡ some repo)
              × (pull_request_head_sha input.payload ≡ some sha)))
        × (((plan.decision ≡ dispatch_push_plan)
              × (plan.repository ≡ some repo)
              × (plan.head_sha ≡ some sha))
            ↔ (IsLive
                × (input.event ≡ "push")
                × (repository input.payload ≡ some repo)
                × (push_head_sha input.payload ≡ some sha)))
  dispatch_iff repo sha = (dispatch-pull_request_iff repo sha, dispatch-push_iff repo sha)

  -- Steps are planned only under one of the two dispatching decisions, and then the plan has a
  -- repository and a head commit; every plan gives exactly one reason.
  pub dispatch-planned :
      (plan.planned_steps ≢ []
        → ((plan.decision ≡ dispatch_pull_request_plan) ⊎ (plan.decision ≡ dispatch_push_plan))
          × (plan.repository ≢ none)
          × (plan.head_sha ≢ none)
          × IsLive)
      × (length plan.reasons ≡ 1)
  unfolding dispatch_webhook_route
  dispatch-planned = ground arith
