-- ===== src/Token/Plan.antt =====
-- app/installation-token-plan.ts: whether an exchange of an installation token would be admissible.
-- The plan's fields whose type has one value are left out, and so are the two lists of fixed texts
-- (`required_guards`, `forbidden_materialization`).
pub mod Laws
use admissorium.Prelude.{
  ℕ, String, Bool, true, false, ◌&&◌, ◌||◌, Option, none, some, List, [], ◌∷◌, ◌==◌, ltb, nat_eq,
  if◌then◌else◌,
}
use admissorium.Text.{is_empty, trim, contains}
use admissorium.Js.{Number, nan, infinite, finite, Env, or_else, enabled}

pub data Mode : Type 0 where
  audit dry_run guarded_exchange : Mode

pub data PlanDecision : Type 0 where
  no_token_exchange : PlanDecision
  deny_emergency_stop : PlanDecision
  deny_missing_app_id : PlanDecision
  deny_missing_installation_id : PlanDecision
  deny_missing_private_key_ref : PlanDecision
  deny_raw_private_key_material : PlanDecision
  ready_for_guarded_exchange : PlanDecision

pub data Access : Type 0 where
  read write : Access

-- the type `"read"`
pub data ReadOnly : Type 0 where
  read_only : ReadOnly

pub record Permissions : Type 0 where
  pub metadata : ReadOnly
  pub contents : ReadOnly
  pub pull_requests : Access
  pub issues : Access
  pub checks : Access
  pub actions : ReadOnly
  pub statuses : Access

-- `Partial<InstallationTokenPermissions>`
pub record RequestedPermissions : Type 0 where
  pub metadata : Option ReadOnly
  pub contents : Option ReadOnly
  pub pull_requests : Option Access
  pub issues : Option Access
  pub checks : Option Access
  pub actions : Option ReadOnly
  pub statuses : Option Access

pub record PlanInput : Type 0 where
  pub mode : Option Mode
  pub repository_full_name : String
  pub app_id : Option String
  pub installation_id : Option String
  pub private_key_ref : Option String
  pub requested_repositories : Option (List String)
  pub requested_permissions : Option RequestedPermissions
  pub ttl_seconds : Option Number
  pub env : Option Env

pub record TokenPlan : Type 0 where
  pub mode : Mode
  pub repository : String
  pub allowed_to_exchange : Bool
  pub decision : PlanDecision
  pub reasons : List String
  pub app_id_ref : Option String
  pub installation_id_ref : Option String
  pub private_key_ref : Option String
  pub requested_repositories : List String
  pub requested_permissions : Permissions
  pub ttl_seconds : ℕ

-- `cleanRef`
unfoldable pub clean_ref : Option String → Option String
clean_ref none = none
clean_ref (some value) = let trimmed = trim value in if is_empty trimmed then none else some trimmed

-- `containsRawPrivateKeyMaterial`
unfoldable pub contains_raw_private_key : Option String → Bool
contains_raw_private_key none = false
contains_raw_private_key (some value) =
    contains value "-----BEGIN"
    || contains value "PRIVATE KEY-----"
    || contains value "\n"
    || contains value "\r"

-- `ttl`, in seconds. A number that is negative or -0 is below 60.
unfoldable pub ttl : Option Number → ℕ
ttl none = 3600
ttl (some nan) = 3600
ttl (some (infinite negative)) = 3600
ttl (some (finite negative whole fraction)) =
    if negative || ltb whole 60
    then 60
    else if ltb 3600 whole || nat_eq whole 3600 && ltb 0 fraction
    then 3600
    else whole

abbrev no_request : RequestedPermissions
no_request = record {
  metadata = none;
  contents = none;
  pull_requests = none;
  issues = none;
  checks = none;
  actions = none;
  statuses = none;
}

-- `permissions`: the defaults, overridden by what was asked for
unfoldable pub permissions : Option RequestedPermissions → Permissions
permissions input =
    let asked = or_else input no_request in
    record {
      metadata = read_only;
      contents = or_else asked.contents read_only;
      pull_requests = or_else asked.pull_requests write;
      issues = or_else asked.issues write;
      checks = or_else asked.checks write;
      actions = read_only;
      statuses = or_else asked.statuses write;
    }

unfoldable pub exchange_stopped : Env → Bool
exchange_stopped env =
    enabled (env "ADMISSORIUM_WRITE_DISABLED")
    || enabled (env "ADMISSORIUM_TOKEN_EXCHANGE_DISABLED")

abbrev is_missing : Option String → Bool
is_missing none = true
is_missing (some _) = false

abbrev is_guarded : Mode → Bool
is_guarded guarded_exchange = true
is_guarded _ = false

-- the chain of conditions, in the order of the source
unfoldable pub decide :
    (stopped : Bool) → Mode → (app installation key : Option String) → PlanDecision
decide stopped mode app installation key =
    if stopped
    then deny_emergency_stop
    else if contains_raw_private_key key
    then deny_raw_private_key_material
    else if is_guarded mode
    then (if is_missing app
        then deny_missing_app_id
        else if is_missing installation
        then deny_missing_installation_id
        else if is_missing key
        then deny_missing_private_key_ref
        else ready_for_guarded_exchange)
    else no_token_exchange

abbrev reason_for : PlanDecision → String
reason_for deny_emergency_stop = "Emergency stop prevents installation token exchange."
reason_for deny_raw_private_key_material =
    "Private key material was provided directly instead of by reference."
reason_for no_token_exchange =
    "Planner is not in guarded-exchange mode; no token exchange may occur."
reason_for deny_missing_app_id = "GitHub App id reference is required before guarded exchange."
reason_for deny_missing_installation_id =
    "GitHub App installation id reference is required before guarded exchange."
reason_for deny_missing_private_key_ref =
    "GitHub App private key reference is required before guarded exchange."
reason_for ready_for_guarded_exchange =
    "All request preconditions are present, but this planner still performs no token exchange."

abbrev pub is_ready : PlanDecision → Bool
is_ready ready_for_guarded_exchange = true
is_ready _ = false

abbrev repositories : Option (List String) → String → List String
repositories none own = own ∷ []
repositories (some []) own = own ∷ []
repositories (some (r ∷ rs)) own = r ∷ rs

-- `buildInstallationTokenPlan`
unfoldable pub build_installation_token_plan : (process_env : Env) → PlanInput → TokenPlan
build_installation_token_plan process_env input =
    let mode = or_else input.mode dry_run in
    let app = clean_ref input.app_id in
    let installation = clean_ref input.installation_id in
    let key = clean_ref input.private_key_ref in
    let stopped = exchange_stopped (or_else input.env process_env) in
    let decision = decide stopped mode app installation key in
    record {
      mode = mode;
      repository = input.repository_full_name;
      allowed_to_exchange = is_ready decision;
      decision = decision;
      reasons = reason_for decision ∷ [];
      app_id_ref = app;
      installation_id_ref = installation;
      private_key_ref = key;
      requested_repositories = repositories input.requested_repositories input.repository_full_name;
      requested_permissions = permissions input.requested_permissions;
      ttl_seconds = ttl input.ttl_seconds;
    }
