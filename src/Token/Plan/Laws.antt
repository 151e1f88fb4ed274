-- ===== src/Token/Plan/Laws.antt =====
-- When a plan of app/installation-token-plan.ts is ready, and what it asks for.
use admissorium.Prelude.{
  ℕ, ◌≤◌, String, ◌≡◌, refl, ◌↔◌, Bool, true, false, Option, none, some, arith,
}
use admissorium.Js.{Number, finite, nan, infinite, Env, or_else}
use admissorium.Token.Plan.{
  Mode, dry_run, guarded_exchange, ready_for_guarded_exchange, PlanInput, TokenPlan, clean_ref,
  contains_raw_private_key, ttl, exchange_stopped, decide, build_installation_token_plan,
}

-- The preconditions of a guarded exchange.
pub record IsReady (stopped : Bool) (mode : Mode) (app installation key : Option String)
    : Type 0 where
  pub not_stopped : stopped ≡ false
  pub guarded : mode ≡ guarded_exchange
  pub app_given : (a : String) × (app ≡ some a)
  pub installation_given : (i : String) × (installation ≡ some i)
  pub key_given : (k : String) × (key ≡ some k)
  pub key_by_reference : contains_raw_private_key key ≡ false

decide_sound :
    (stopped : Bool) (mode : Mode) (app installation key : Option String)
    → decide stopped mode app installation key ≡ ready_for_guarded_exchange
    → IsReady stopped mode app installation key
unfolding decide
decide_sound stopped mode (some a) (some i) (some k) e = record {
  not_stopped = ground arith;
  guarded = ground arith;
  app_given = (a, refl);
  installation_given = (i, refl);
  key_given = (k, refl);
  key_by_reference = ground arith;
}
decide_sound stopped mode none i k e = absurd (ground arith)
decide_sound stopped mode (some a) none k e = absurd (ground arith)
decide_sound stopped mode (some a) (some i) none e = absurd (ground arith)

decide_complete :
    (stopped : Bool) (mode : Mode) (app installation key : Option String)
    → IsReady stopped mode app installation key
    → decide stopped mode app installation key ≡ ready_for_guarded_exchange
unfolding decide
decide_complete stopped mode app installation key r = rw (
  r.not_stopped, r.key_by_reference, r.guarded, r.app_given.1, r.installation_given.1,
  r.key_given.1,
)

module _ (process_env : Env) (input : PlanInput) where
  abbrev plan : TokenPlan
  plan = build_installation_token_plan process_env input

  -- A plan is ready exactly under the preconditions, and allows the exchange exactly when it is ready.
  pub build_installation_token_plan-IsReady_iff :
      ((plan.decision ≡ ready_for_guarded_exchange)
        ↔ IsReady
            (exchange_stopped (or_else input.env process_env))
            (or_else input.mode dry_run)
            (clean_ref input.app_id)
            (clean_ref input.installation_id)
            (clean_ref input.private_key_ref))
      × ((plan.allowed_to_exchange ≡ true) ↔ (plan.decision ≡ ready_for_guarded_exchange))
  unfolding build_installation_token_plan
  build_installation_token_plan-IsReady_iff =
      ((decide_sound _ _ _ _ _, decide_complete _ _ _ _ _), ground arith)

  -- Raw key material that is recognised is refused, and still stands in the plan that is returned.
  pub build_installation_token_plan-raw_key :
      (key : String)
      → clean_ref input.private_key_ref ≡ some key
      → contains_raw_private_key (some key) ≡ true
      → (plan.allowed_to_exchange ≡ false) × (plan.private_key_ref ≡ some key)
  unfolding build_installation_token_plan decide
  build_installation_token_plan-raw_key key e raw = rw e (ground arith, refl)

-- The lifetime lies between one minute and one hour; a number in this range is truncated and kept.
pub ttl_bounds :
    (requested : Option Number)
    → (60 ≤ ttl requested)
      × (ttl requested ≤ 3600)
      × ((whole fraction : ℕ)
          → requested ≡ some (finite false whole fraction)
          → 60 ≤ whole
          → whole ≤ 3600
          → ttl requested ≡ whole)
unfolding ttl
ttl_bounds none = ground arith
ttl_bounds (some nan) = ground arith
ttl_bounds (some (infinite negative)) = ground arith
ttl_bounds (some (finite negative whole fraction)) =
    (ground arith, ground arith, λ w f e low high. ground arith)
