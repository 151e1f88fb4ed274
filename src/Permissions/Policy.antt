-- ===== src/Permissions/Policy.antt =====
-- The policies of app/permissions.ts, their defaults, and the merging of the two.
--
-- An object with arbitrary keys is an association list in which the first entry of a key counts, so
-- a spread puts the later object's entries in front. A policy that is read from a file is taken as
-- typed; that the reading throws is a state of the file.
use admissorium.Prelude.{
  String, ◌==◌, Bool, true, false, Option, none, some, List, [], ◌∷◌, ◌++◌, map, if◌then◌else◌,
}
use admissorium.Text.{is_empty}
use admissorium.Js.{or_else, or_also, or_text}
use mathlib.Core.Option

pub record WriteSwitch : Type 0 where
  pub write_disabled_variable : Option String

-- the flags of a mode, `may_emit_check_runs` and the like
abbrev pub Flags : Type 0
Flags = List (String × Bool)

pub record PermissionPolicy : Type 0 where
  pub environment : Option WriteSwitch
  pub emergency_stop : Option WriteSwitch
  pub forbidden_first_app : Option (List String)
  pub modes : Option (List (String × Flags))

-- A class of protected paths as a policy gives it: the paths stand under one of four names.
pub record ProtectedPathClass : Type 0 where
  pub id : Option String
  pub class : Option String
  pub paths : Option (List String)
  pub path_patterns : Option (List String)
  pub patterns : Option (List String)
  pub globs : Option (List String)

pub record IfTouched : Type 0 where
  pub automatic_projection_repair_allowed : Option Bool
  pub direct_write_allowed : Option Bool
  pub required_decision : Option String

pub record ProtectedPathsPolicy : Type 0 where
  pub policy_type : Option String
  pub schema_version : Option String
  pub protected_classes : Option (List ProtectedPathClass)
  pub protected_classes_camel : Option (List ProtectedPathClass)
  pub classes : Option (List ProtectedPathClass)
  pub if_touched : Option IfTouched

unfoldable pub lookup {ℓ} : {A : Type ℓ} → List (String × A) → String → Option A
lookup [] key = none
lookup ((k, v) ∷ r) key = if k == key then some v else lookup r key

abbrev pub default_variable : String
default_variable = "ADMISSORIUM_WRITE_DISABLED"

abbrev pub default_forbidden : List String
default_forbidden =
    "administration:write" ∷ "contents:write" ∷ "secrets:write" ∷ "variables:write"
    ∷ "environments:write" ∷ "deployments:write" ∷ "packages:write" ∷ "members:write" ∷ []

abbrev flags : Bool → Bool → Bool → Flags
flags check_runs repair_pr quarantine =
    ("may_emit_reports", true)
    ∷ ("may_emit_check_runs", check_runs)
    ∷ ("may_open_projection_repair_pr", repair_pr)
    ∷ ("may_open_quarantine_issue", quarantine)
    ∷ ("may_write_repository_contents", false)
    ∷ []

abbrev pub default_modes : List (String × Flags)
default_modes =
    ("audit", flags false false false)
    ∷ ("block", flags true false false)
    ∷ ("projection_repair", flags true true false)
    ∷ ("quarantine", flags true false true)
    ∷ []

abbrev plain_class : String → List String → ProtectedPathClass
plain_class id paths = record {
  id = some id;
  class = some id;
  paths = some paths;
  path_patterns = none;
  patterns = none;
  globs = none;
}

abbrev pub default_protected_classes : List ProtectedPathClass
default_protected_classes =
    plain_class "constitutional-law" ("law/**" ∷ "laws/**" ∷ [])
    ∷ plain_class "freeze" ("freeze/**" ∷ "freezes/**" ∷ [])
    ∷ plain_class "accepted-state" ("current/**" ∷ "epochs/current/**" ∷ "state/current/**" ∷ [])
    ∷ plain_class "authority" ("authorities/current/**" ∷ [])
    ∷ plain_class "execution-receipts" ("receipts/current/**" ∷ [])
    ∷ plain_class "verification" ("verification/results/current/**" ∷ [])
    ∷ plain_class "recognition" ("recognitions/current/**" ∷ [])
    ∷ plain_class "recourse" ("recourse/current/**" ∷ "recourses/current/**" ∷ [])
    ∷ plain_class "claims" ("claims/current/**" ∷ [])
    ∷ plain_class "continuity" ("continuity/current/**" ∷ "transfer/current/**" ∷ [])
    ∷ plain_class "release-identity"
        ("LICENSE" ∷ "package.json" ∷ ".github/workflows/*release*" ∷ [])
    ∷ plain_class "governance-registries" (
        ".github/GOVERNED_REPOS.txt" ∷ ".github/LICENSES.json" ∷ ".github/PACKAGES.json"
        ∷ ".github/REPO_CLASSES.json" ∷ [])
    ∷ []

-- `{ ...a, ...b }` on the switches
abbrev pub spread_switch : WriteSwitch → Option WriteSwitch → WriteSwitch
spread_switch a none = a
spread_switch a (some b) = record {
  write_disabled_variable = or_also b.write_disabled_variable a.write_disabled_variable;
}

-- `withPermissionDefaults`
unfoldable pub with_permission_defaults : PermissionPolicy → PermissionPolicy
with_permission_defaults policy =
    let defaults : WriteSwitch = record { write_disabled_variable = some default_variable } in
    let environment =
      spread_switch (spread_switch defaults policy.environment) policy.emergency_stop in
    record {
      environment = some environment;
      emergency_stop = some environment;
      forbidden_first_app = some (or_else policy.forbidden_first_app default_forbidden);
      modes = some (or_else policy.modes [] ++ default_modes);
    }

-- `a || b` where `b` may be missing
abbrev pub or_also_text : Option String → Option String → Option String
or_also_text none o = o
or_also_text (some s) o = if is_empty s then o else some s

-- `idMap[rawId] || rawId`
unfoldable pub canonical_id : String → String
canonical_id raw =
    if raw == "verification"
    then "verification-results"
    else if raw == "recognition"
    then "terminal-recognition"
    else if raw == "recourse"
    then "terminal-recourse"
    else if raw == "continuity"
    then "continuity-transfer"
    else raw

-- `normalizeProtectedClass`
unfoldable pub normalize_protected_class : ProtectedPathClass → ProtectedPathClass
normalize_protected_class entry =
    let id = Option.map canonical_id (or_also_text entry.id entry.class) in
    record {
      id = id;
      class = or_also_text entry.class id;
      paths = some (
          or_else
            (or_also entry.paths (or_also entry.path_patterns (or_also entry.patterns entry.globs)))
            []);
      path_patterns = none;
      patterns = none;
      globs = none;
    }

abbrev pub default_if_touched : IfTouched
default_if_touched = record {
  automatic_projection_repair_allowed = some false;
  direct_write_allowed = some false;
  required_decision = some "GOVERNANCE_REVIEW_REQUIRED_OR_BLOCKED";
}

abbrev pub spread_if_touched : IfTouched → Option IfTouched → IfTouched
spread_if_touched a none = a
spread_if_touched a (some b) = record {
  automatic_projection_repair_allowed =
      or_also b.automatic_projection_repair_allowed a.automatic_projection_repair_allowed;
  direct_write_allowed = or_also b.direct_write_allowed a.direct_write_allowed;
  required_decision = or_also b.required_decision a.required_decision;
}

-- `withProtectedPathDefaults`
unfoldable pub with_protected_path_defaults : ProtectedPathsPolicy → ProtectedPathsPolicy
with_protected_path_defaults policy =
    let given =
      or_also policy.protected_classes (or_also policy.protected_classes_camel policy.classes) in
    let classes = map normalize_protected_class (or_else given default_protected_classes) in
    record {
      policy_type = some (or_text policy.policy_type "ADMISSORIUM_PROTECTED_TRUTH_PATHS");
      schema_version = some (or_text policy.schema_version "1.0.0");
      protected_classes = some classes;
      protected_classes_camel = some classes;
      classes = none;
      if_touched = some (spread_if_touched default_if_touched policy.if_touched);
    }

abbrev pub empty_permission_policy : PermissionPolicy
empty_permission_policy = record {
  environment = none;
  emergency_stop = none;
  forbidden_first_app = none;
  modes = none;
}

abbrev pub empty_protected_paths_policy : ProtectedPathsPolicy
empty_protected_paths_policy = record {
  policy_type = none;
  schema_version = none;
  protected_classes = none;
  protected_classes_camel = none;
  classes = none;
  if_touched = none;
}

-- A policy file as its loader finds it: not there; there, but reading it, parsing it or filling in its
-- value (`null`) throws; or there with a policy.
pub data PolicyFile (A : Type 0) : Type 0 where
  missing : PolicyFile A
  malformed : PolicyFile A
  holds : A → PolicyFile A

-- The files that the loaders read.
pub record PolicyFiles : Type 0 where
  pub permission_policy : PolicyFile PermissionPolicy
  pub protected_paths : PolicyFile ProtectedPathsPolicy

-- `existsSync`, then `readJson`; without a file the loaders fill in a policy that sets nothing
abbrev pub read_policy : {A : Type 0} → (absent : A) → PolicyFile A → Option A
read_policy absent missing = some absent
read_policy absent malformed = none
read_policy absent (holds policy) = some policy

-- `loadPermissionPolicy`; `none` is the exception
unfoldable pub load_permission_policy : PolicyFiles → Option PermissionPolicy
unfolding with_permission_defaults
load_permission_policy files =
    Option.map with_permission_defaults
      (read_policy empty_permission_policy files.permission_policy)

-- `loadProtectedPathsPolicy`; `none` is the exception
unfoldable pub load_protected_paths_policy : PolicyFiles → Option ProtectedPathsPolicy
unfolding with_protected_path_defaults
load_protected_paths_policy files =
    Option.map with_protected_path_defaults
      (read_policy empty_protected_paths_policy files.protected_paths)
