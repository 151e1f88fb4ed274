-- ===== src/Permissions/Decision.antt =====
-- The decisions of app/permissions.ts: which class of protected paths a path belongs to, whether
-- writing is switched off, and `decideWrite`.
--
-- `none` is an exception: the `SyntaxError` of a glob that is no regular expression, or a policy file
-- that is there and cannot be read as JSON. Each field of the result that the source spells twice (`writeAllowed`, `write_allowed`) is one field here.
use admissorium.Prelude.{
  Char, code, String, ◌==◌, Bool, true, false, not, ◌&&◌, ◌||◌, Option, none, some, List, [], ◌∷◌,
  nat_eq, includes, if◌then◌else◌,
}
use admissorium.Text.{is_empty, ◌⧺◌, contains, to_upper_case}
use admissorium.Js.{Env, is_set_to, or_else, or_also, or_text}
use admissorium.Fallible.{◌>>=◌}
use mathlib.Core.Option
use admissorium.Permissions.Glob.{glob_to_regexp, test}
use admissorium.Permissions.Policy.{
  Flags, PermissionPolicy, ProtectedPathClass, ProtectedPathsPolicy, PolicyFiles, lookup,
  default_variable, with_permission_defaults, with_protected_path_defaults, load_permission_policy,
  load_protected_paths_policy,
}

-- `paths.some(glob => globToRegExp(glob).test(path))`, which stops at the first hit
unfoldable pub some_glob : String → List String → Option Bool
some_glob path [] = some false
some_glob path (glob ∷ globs) = do
  regexp ← glob_to_regexp glob
  let rest = some_glob path globs
  if test regexp path then some true else rest

-- the loop of `protectedPathClassFor`
unfoldable pub first_class : String → List ProtectedPathClass → Option (Option ProtectedPathClass)
first_class path [] = some none
first_class path (entry ∷ entries) = do
  hit ← some_glob path (or_else entry.paths [])
  let rest = first_class path entries
  if hit then some (some entry) else rest

-- `protectedPathClassFor`
unfoldable pub protected_path_class_for :
    String → ProtectedPathsPolicy → Option (Option ProtectedPathClass)
protected_path_class_for path policy =
    first_class path (or_else (with_protected_path_defaults policy).protected_classes [])

pub data PathVerdict : Type 0 where
  allow_projection_repair : PathVerdict
  requires_governance_review : PathVerdict
  deny_automatic_mutation : PathVerdict

pub record PathDecision : Type 0 where
  pub touched : Bool
  pub matched_class : Option String
  pub verdict : PathVerdict

abbrev untouched : PathDecision
untouched = record { touched = false; matched_class = none; verdict = allow_projection_repair }

abbrev is_governance : Option String → Bool
is_governance id = is_set_to id "governance-registries"

abbrev touched_by : ProtectedPathClass → PathDecision
touched_by entry = record {
  touched = true;
  matched_class = entry.id;
  verdict = if is_governance entry.id then requires_governance_review else deny_automatic_mutation;
}

abbrev pub decided : Option ProtectedPathClass → Option PathDecision → Option PathDecision
decided none rest = rest
decided (some entry) rest = some (touched_by entry)

-- `protectedPathDecision`, on a list of changed paths
unfoldable pub protected_path_decision : List String → ProtectedPathsPolicy → Option PathDecision
protected_path_decision [] policy = some untouched
protected_path_decision (path ∷ paths) policy = do
  matched ← protected_path_class_for path policy
  let rest = protected_path_decision paths policy
  decided matched rest

-- the name of the variable that switches writing off
unfoldable pub switch_variable : PermissionPolicy → String
switch_variable policy = elim policy.environment [
  | none ↦ default_variable
  | some switch ↦ or_text switch.write_disabled_variable default_variable
]

-- `isWriteDisabled`
unfoldable pub is_write_disabled : PermissionPolicy → Env → Bool
unfolding switch_variable
is_write_disabled policy env =
    is_set_to (env (switch_variable (with_permission_defaults policy))) "true"

-- `decideWrite`'s input. What the source names twice stands here twice.
pub record WriteInput : Type 0 where
  pub mode : Option String
  pub write_class_camel : Option String
  pub write_class : Option String
  pub action : Option String
  pub target_path_camel : Option String
  pub target_path : Option String
  pub changed_paths_camel : Option (List String)
  pub changed_paths : Option (List String)
  pub execute_write_camel : Option Bool
  pub execute_write : Option Bool
  pub permission_policy_camel : Option PermissionPolicy
  pub permission_policy : Option PermissionPolicy
  pub policy : Option PermissionPolicy
  pub protected_paths_policy_camel : Option ProtectedPathsPolicy
  pub protected_paths_policy : Option ProtectedPathsPolicy
  pub env : Option Env

pub data Verdict : Type 0 where
  allow deny deny_protected_path governance_review deny_write_disabled : Verdict

pub record WriteDecision : Type 0 where
  pub verdict : Verdict
  pub reason : String
  pub allowed : Bool
  pub denied : Bool
  pub emergency_stop_active : Bool
  pub dry_run : Bool
  pub requires_governance : Bool
  pub path_touched : Bool
  pub matched_class : Option String
  pub check_run_allowed : Bool
  pub projection_repair_allowed : Bool
  pub quarantine_issue_allowed : Bool

-- `.replace(/-/g, "_")`
unfoldable pub underscored : String → String
underscored String.[] = ""
underscored (String.◌∷◌ c s) =
    (if nat_eq (code c) b'-' then "_" else String.◌∷◌ c "") ⧺ underscored s

unfoldable pub mode_of : Option String → String
unfolding underscored
mode_of given =
    let raw = underscored (or_text given "audit") in
    if raw == "repair_projection" then "projection_repair" else raw

-- The names that every object inherits: looked up in `modes`, they give a value with no flags.
abbrev inherited : List String
inherited =
    "constructor" ∷ "__defineGetter__" ∷ "__defineSetter__" ∷ "hasOwnProperty" ∷ "__lookupGetter__"
    ∷ "__lookupSetter__" ∷ "isPrototypeOf" ∷ "propertyIsEnumerable" ∷ "toString" ∷ "valueOf"
    ∷ "__proto__" ∷ "toLocaleString" ∷ []

-- `modes[mode] || modes.audit || {}`
unfoldable pub mode_flags : List (String × Flags) → String → Flags
mode_flags modes mode =
    let audit = or_else (lookup modes "audit") [] in
    or_else (lookup modes mode) (if includes inherited mode then [] else audit)

-- `modePolicy.flag === true`
unfoldable pub flag : Flags → String → Bool
flag flags name = elim (lookup flags name) [ none ↦ false | some b ↦ b ]

abbrev pub report_classes : List String
report_classes = "REPORT" ∷ "LOCAL_REPORT" ∷ "LOCAL_VERDICT" ∷ "AUDIT" ∷ []

abbrev pub remote_classes : List String
remote_classes =
    "CHECK_RUN" ∷ "PROJECTION_REPAIR_BRANCH" ∷ "QUARANTINE_ISSUE" ∷ "PR_COMMENT" ∷ "ISSUE" ∷ "LABEL"
    ∷ "BRANCH" ∷ "CONTENTS" ∷ []

-- the three permissions by class of write, and `allowedByClass` after its two corrections
pub record Permitted : Type 0 where
  pub check_run : Bool
  pub projection_repair : Bool
  pub quarantine_issue : Bool
  pub by_class : Bool

unfoldable pub permitted : Flags → (mode write_class : String) → (touched : Bool) → Permitted
unfolding flag
permitted flags mode write_class touched =
    let check_run = flag flags "may_emit_check_runs" && write_class == "CHECK_RUN" in
    let is_repair =
      write_class == "PROJECTION_REPAIR_BRANCH"
      || write_class == "PROJECTION_REPAIR_PR"
      || write_class == "PROJECTION_REPAIR"
      || contains write_class "PROJECTION_REPAIR" in
    let projection_repair =
      is_repair
      && not touched
      && (flag flags "may_open_projection_repair_pr"
          || mode == "audit"
          || mode == "projection_repair") in
    let quarantine_issue =
      flag flags "may_open_quarantine_issue" && write_class == "QUARANTINE_ISSUE" in
    let is_report = includes report_classes write_class in
    let by_class = is_report || check_run || projection_repair || quarantine_issue in
    let by_class = if mode == "audit" && not is_report then false else by_class in
    let by_class =
      if touched && not (write_class == "CHECK_RUN" || is_report) then false else by_class in
    record {
      check_run = check_run;
      projection_repair = projection_repair;
      quarantine_issue = quarantine_issue;
      by_class = by_class;
    }

-- the result under an emergency stop
unfoldable pub stopped : String → PathDecision → WriteDecision
stopped variable path = record {
  verdict = deny_write_disabled;
  reason = variable ⧺ " disables actuator writes.";
  allowed = false;
  denied = true;
  emergency_stop_active = true;
  dry_run = true;
  requires_governance = path.touched;
  path_touched = path.touched;
  matched_class = path.matched_class;
  check_run_allowed = false;
  projection_repair_allowed = false;
  quarantine_issue_allowed = false;
}

-- the result otherwise
unfoldable pub settled :
    (write_class : String) → (execute : Bool) → Permitted → PathDecision → WriteDecision
settled write_class execute p path =
    let write_allowed = p.by_class && (not (includes remote_classes write_class) || execute) in
    record {
      verdict =
          if p.by_class
          then allow
          else if path.touched
          then (if is_governance path.matched_class then governance_review else deny_protected_path)
          else deny;
      reason =
          if p.by_class
          then "ALLOWED"
          else if path.touched
          then "GOVERNANCE_REVIEW_REQUIRED"
          else "PERMISSION_DENIED";
      allowed = write_allowed;
      denied = not write_allowed;
      emergency_stop_active = false;
      dry_run = not execute;
      requires_governance = path.touched;
      path_touched = path.touched;
      matched_class = path.matched_class;
      check_run_allowed = p.check_run;
      projection_repair_allowed = p.projection_repair;
      quarantine_issue_allowed = p.quarantine_issue;
    }

abbrev is_true : Option Bool → Bool
is_true none = false
is_true (some b) = b

-- `a || b || c || d` on texts
abbrev pub write_class_of : WriteInput → String
write_class_of input =
    or_text input.write_class_camel (or_text input.write_class (or_text input.action "REPORT"))

abbrev one_path : String → List String
one_path target = if is_empty target then [] else target ∷ []

-- the paths that the write changes
abbrev pub changed_paths_of : WriteInput → List String
changed_paths_of input = or_else input.changed_paths_camel (
    or_else input.changed_paths
      (one_path (or_text input.target_path_camel (or_else input.target_path ""))))

abbrev pub executes : WriteInput → Bool
executes input = is_true input.execute_write_camel || is_true input.execute_write

-- What `decideWrite` reads besides its input: `process.env`, the policy files, and Unicode's table of
-- capital letters.
pub record Surroundings : Type 0 where
  pub process_env : Env
  pub files : PolicyFiles
  pub capitals : Char → String

-- the policies that the input gives, or else those of the files, which are read only then
abbrev pub given_permission_policy : Surroundings → WriteInput → Option PermissionPolicy
given_permission_policy around input =
    or_also input.permission_policy_camel
      (or_also input.permission_policy (or_also input.policy (load_permission_policy around.files)))

abbrev pub given_protected_policy : Surroundings → WriteInput → Option ProtectedPathsPolicy
given_protected_policy around input =
    or_also input.protected_paths_policy_camel
      (or_also input.protected_paths_policy (load_protected_paths_policy around.files))

unfoldable pub permission_policy_of : Surroundings → WriteInput → Option PermissionPolicy
permission_policy_of around input =
    Option.map with_permission_defaults (given_permission_policy around input)

unfoldable pub protected_policy_of : Surroundings → WriteInput → Option ProtectedPathsPolicy
protected_policy_of around input =
    Option.map with_protected_path_defaults (given_protected_policy around input)

-- `decideWrite`
unfoldable pub decide_write : Surroundings → WriteInput → Option WriteDecision
unfolding stopped settled
decide_write around input = do
  policy ← permission_policy_of around input
  protected ← protected_policy_of around input
  let env = or_else input.env around.process_env
  let mode = mode_of input.mode
  let write_class = to_upper_case around.capitals (write_class_of input)
  let emergency = is_write_disabled policy env
  path ← protected_path_decision (changed_paths_of input) protected
  let flags = mode_flags (or_else policy.modes []) mode
  let p = permitted flags mode write_class path.touched
  some (
      if emergency
      then stopped (switch_variable policy) path
      else settled write_class (executes input) p path)
