-- ===== src/Examples/Permissions.antt =====
-- app/permissions.ts with the default policies, on a few writes.
use mathlib.Core.List.{Memᴰ}
use admissorium.Prelude.{
  ◌==◌, if◌then◌else◌, String, ◌≡◌, refl, ◌↔◌, ◌⊎◌, Bool, true, false, not, Option, none, some,
  List, [], ◌∷◌,
}
use admissorium.Js.{Env}
use admissorium.Text.{◌⧺◌, to_upper_case, contains}
use admissorium.Sorting.{sort_by}
use admissorium.Permissions.Glob.{glob_to_regexp, test}
use admissorium.Permissions.Policy.{
  missing, malformed, PermissionPolicy, ProtectedPathsPolicy, ProtectedPathClass,
  empty_permission_policy, empty_protected_paths_policy, with_permission_defaults,
  with_protected_path_defaults, normalize_protected_class, canonical_id,
  load_protected_paths_policy, load_permission_policy, lookup,
}
use admissorium.Permissions.Decision.{
  some_glob, first_class, protected_path_class_for, protected_path_decision, PathDecision,
  WriteInput, WriteDecision, allow, allow_projection_repair, deny_write_disabled, Surroundings,
  decide_write, permission_policy_of, protected_policy_of, executes, mode_of, mode_flags, permitted,
  settled, stopped, switch_variable, is_write_disabled, flag, underscored,
}
use admissorium.Permissions.Writes.{
  class_of, is_stopped, IsReport, IsJustified, decide_write-IsJustified, decide_write-protected,
  decide_write-pull_request,
}
use admissorium.Permissions.Stop.{IsSwitchedOff, switch_name, decide_write-stopped}
use admissorium.Permissions.Total.{
  LacksPermissionPolicy, LacksProtectedPolicy, Halts, decide_write-throws_iff,
}
use admissorium.Permissions.Requests.{is_forbidden, order_of, forbidden_permission_requests}
use admissorium.Permissions.Protected.{IsDirectoryOf, protected_directories-IsDirectoryOf}

abbrev unset : Env
unset name = none

-- no policy file, no variable, and no letter above ASCII
abbrev around : Surroundings
around = record {
  process_env = unset;
  files = record { permission_policy = missing; protected_paths = missing };
  capitals = λ c. String.◌∷◌ c "";
}

abbrev write : (mode write_class : String) → List String → Bool → WriteInput
write mode write_class paths execute = record {
  mode = some mode;
  write_class_camel = some write_class;
  write_class = none;
  action = none;
  target_path_camel = none;
  target_path = none;
  changed_paths_camel = some paths;
  changed_paths = none;
  execute_write_camel = some execute;
  execute_write = none;
  permission_policy_camel = none;
  permission_policy = none;
  policy = none;
  protected_paths_policy_camel = none;
  protected_paths_policy = none;
  env = none;
}

abbrev check_run : WriteInput
check_run = write "block" "CHECK_RUN" ("law/a.json" ∷ []) true

abbrev repair_pr : WriteInput
repair_pr = write "repair-projection" "projection_repair_pr" ("docs/a.md" ∷ []) false

abbrev decision : Bool → Option String → Bool → Bool → Bool → Bool → WriteDecision
decision touched class check_run repair dry denied = record {
  verdict = allow;
  reason = "ALLOWED";
  allowed = not denied;
  denied = denied;
  emergency_stop_active = false;
  dry_run = dry;
  requires_governance = touched;
  path_touched = touched;
  matched_class = class;
  check_run_allowed = check_run;
  projection_repair_allowed = repair;
  quarantine_issue_allowed = false;
}

-- the two decisions
abbrev check_run_decision : WriteDecision
check_run_decision = decision true (some "constitutional-law") true false false false

abbrev repair_pr_decision : WriteDecision
repair_pr_decision = decision false none false true true false

check_run-decided : decide_write around check_run ≡ some check_run_decision
unfolding decide_write permission_policy_of protected_policy_of load_permission_policy
    load_protected_paths_policy with_permission_defaults with_protected_path_defaults
    normalize_protected_class canonical_id lookup mode_of underscored to_upper_case
    is_write_disabled switch_variable protected_path_decision protected_path_class_for first_class
    some_glob glob_to_regexp mode_flags flag permitted stopped settled test contains
check_run-decided = refl

repair_pr-decided : decide_write around repair_pr ≡ some repair_pr_decision
unfolding decide_write permission_policy_of protected_policy_of load_permission_policy
    load_protected_paths_policy with_permission_defaults with_protected_path_defaults
    normalize_protected_class canonical_id lookup mode_of underscored to_upper_case
    is_write_disabled switch_variable protected_path_decision protected_path_class_for first_class
    some_glob glob_to_regexp mode_flags flag permitted stopped settled test contains
repair_pr-decided = refl

-- the class of the first path
abbrev law : ProtectedPathClass
law = record {
  id = some "constitutional-law";
  class = some "constitutional-law";
  paths = some ("law/**" ∷ "laws/**" ∷ []);
  path_patterns = none;
  patterns = none;
  globs = none;
}

-- the policy that is read
abbrev default_policy : ProtectedPathsPolicy
default_policy =
    with_protected_path_defaults (with_protected_path_defaults empty_protected_paths_policy)

default_policy-read : protected_policy_of around check_run ≡ some default_policy
unfolding protected_policy_of load_protected_paths_policy
default_policy-read = refl

law-found : protected_path_class_for "law/a.json" default_policy ≡ some (some law)
unfolding protected_path_class_for with_protected_path_defaults normalize_protected_class
    canonical_id first_class some_glob glob_to_regexp test
law-found = refl

law-default : protected_path_class_for "law/a.json" empty_protected_paths_policy ≡ some (some law)
unfolding protected_path_class_for with_protected_path_defaults normalize_protected_class
    canonical_id first_class some_glob glob_to_regexp test
law-default = refl

decide_write-protected_example :
    (check_run_decision.path_touched ≡ true)
    × (check_run_decision.allowed ≡ true
        → (class_of around check_run ≡ "CHECK_RUN") ⊎ IsReport (class_of around check_run))
decide_write-protected_example =
    decide_write-protected around check_run check_run_decision default_policy "law/a.json" law
      check_run-decided default_policy-read (Memᴰ.head refl) law-found

decide_write-IsJustified_example : IsJustified around check_run check_run_decision
decide_write-IsJustified_example =
    decide_write-IsJustified around check_run check_run_decision check_run-decided refl

-- a policy that gives the switch a name of its own, and an environment in which it is set
abbrev renamed : PermissionPolicy
renamed = record empty_permission_policy {
  emergency_stop = some (record { write_disabled_variable = some "STOP" });
}

abbrev halted : WriteInput
halted = record check_run {
  permission_policy = some renamed;
  env = some (λ name. if name == "STOP" then some "true" else none);
}

halted-decided : (d : WriteDecision) × (decide_write around halted ≡ some d)
unfolding decide_write permission_policy_of protected_policy_of load_protected_paths_policy
    with_permission_defaults with_protected_path_defaults normalize_protected_class canonical_id
    protected_path_decision protected_path_class_for first_class some_glob glob_to_regexp test
halted-decided = (_, refl)

decide_write-stopped_example :
    ((halted-decided.0.verdict ≡ deny_write_disabled) ↔ IsSwitchedOff around halted renamed)
    × (IsSwitchedOff around halted renamed
        → (halted-decided.0.allowed ≡ false)
          × (halted-decided.0.reason ≡ switch_name renamed ⧺ " disables actuator writes."))
decide_write-stopped_example =
    decide_write-stopped around halted renamed halted-decided.0 refl halted-decided.1

repair_pr-class : class_of around repair_pr ≡ "PROJECTION_REPAIR_PR"
unfolding to_upper_case
repair_pr-class = refl

repair_pr-mode : mode_of repair_pr.mode ≡ "projection_repair"
unfolding mode_of underscored
repair_pr-mode = refl

repair_pr-live : is_stopped around repair_pr ≡ false
unfolding is_write_disabled switch_variable permission_policy_of load_permission_policy
    with_permission_defaults
repair_pr-live = refl

decide_write-pull_request_example :
    (repair_pr_decision.allowed ≡ true) × (repair_pr_decision.dry_run ≡ not (executes repair_pr))
decide_write-pull_request_example =
    decide_write-pull_request around repair_pr repair_pr_decision repair_pr-decided repair_pr-class
      repair_pr-mode repair_pr-live refl

decide_write-throws_iff_example : (decide_write around check_run ≡ none) ↔ (
    LacksPermissionPolicy around check_run
    ⊎ (LacksProtectedPolicy around check_run
        ⊎ ((policy : ProtectedPathsPolicy) × (protected_policy_of around check_run ≡ some policy)
            × Halts policy ("law/a.json" ∷ []))))
decide_write-throws_iff_example = decide_write-throws_iff around check_run

-- a policy file that is there and cannot be read
abbrev broken : Surroundings
broken = record around {
  files = record { permission_policy = malformed; protected_paths = missing };
}

broken-throws : decide_write broken check_run ≡ none
unfolding decide_write permission_policy_of load_permission_policy
broken-throws = refl

abbrev docs_paths : List String
docs_paths = "docs/a.md" ∷ "README.md" ∷ []

abbrev docs_decision : PathDecision
docs_decision = record { touched = false; matched_class = none; verdict = allow_projection_repair }

docs-decided : protected_path_decision docs_paths empty_protected_paths_policy ≡ some docs_decision
unfolding protected_path_decision protected_path_class_for with_protected_path_defaults
    normalize_protected_class canonical_id first_class some_glob glob_to_regexp test
docs-decided = refl

protected_directories-IsDirectoryOf_example : IsDirectoryOf "law/" "a.json" "constitutional-law"
protected_directories-IsDirectoryOf_example =
    protected_directories-IsDirectoryOf "law/" "constitutional-law" "a.json" (Memᴰ.head refl)

abbrev requested : List (String × String)
requested = ("members", "write") ∷ ("contents", "write") ∷ ("checks", "write") ∷ []

-- the two permissions that are forbidden, in the policy's order
requested-refused :
    forbidden_permission_requests requested empty_permission_policy ≡ "contents" ∷ "members" ∷ []
unfolding forbidden_permission_requests order_of is_forbidden with_permission_defaults sort_by
requested-refused = refl
