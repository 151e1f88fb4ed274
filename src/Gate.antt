-- ===== src/Gate.antt =====
-- What the gates of src/admission/assert-*-required.ts share: findings, the status they add up to, and
-- the conditions on fields of unknown type. A gate's sequence of `if (condition) red(code, message)`
-- is a list of checks in the order of the source, of which those whose condition holds are reported.
--
-- The objects that a gate looks at are plain JSON objects, each present or missing.
pub mod Laws
pub mod Demands
pub mod Recourse
pub mod Recognition
pub mod Verification
pub mod Continuity
pub mod Cognition
pub mod ClaimClass
pub mod TruthTyping
pub mod Epoch
pub mod ChainLock
pub mod Counts
pub mod Freeze
pub mod Objects
use admissorium.Prelude.{
  String, Bool, true, false, not, ◌||◌, Option, none, some, List, [], ◌∷◌, ◌++◌, map, any,
  if◌then◌else◌,
}
use admissorium.Text.{is_empty, ends_with}
use admissorium.Js.{
  Value, Items, Fields, undef, arr, obj, str, items, get, has_own, is_str, is_bool, truthy,
}

pub data Status : Type 0 where
  green yellow red : Status

pub record Finding : Type 0 where
  pub status : Status
  pub code : String
  pub message : String

pub record Report : Type 0 where
  pub status : Status
  pub gate : String
  pub findings : List Finding

-- a condition, and the code and message of the finding that it leads to
pub data Check : Type 0 where
  red_if : (condition : Bool) (code message : String) → Check
  yellow_if : (condition : Bool) (code message : String) → Check

abbrev pub fails : Check → Bool
fails (red_if condition _ _) = condition
fails (yellow_if condition _ _) = condition

abbrev pub finding : Check → Finding
finding (red_if _ code message) = record { status = red; code = code; message = message }
finding (yellow_if _ code message) = record { status = yellow; code = code; message = message }

abbrev pub findings_of : List Check → List Finding
findings_of [] = []
findings_of (check ∷ checks) =
    let rest = findings_of checks in if fails check then finding check ∷ rest else rest

abbrev pub is_red : Finding → Bool
is_red finding = elim finding.status [ red ↦ true | _ ↦ false ]

abbrev pub is_yellow : Finding → Bool
is_yellow finding = elim finding.status [ yellow ↦ true | _ ↦ false ]

unfoldable pub status_of : List Finding → Status
status_of findings =
    if any is_red findings then red else if any is_yellow findings then yellow else green

unfoldable pub report : String → List Check → Report
report gate checks = record {
  status = status_of (findings_of checks);
  gate = gate;
  findings = findings_of checks;
}

-- `v !== "s"`, `v !== true`, `v !== false`
abbrev pub differs : Value → String → Bool
differs v s = not (is_str v s)

abbrev pub is_not : Value → Bool → Bool
is_not v b = not (is_bool v b)

-- `suffix(v, expected)`
abbrev pub suffix : Value → String → Bool
suffix (str s) expected = ends_with s expected
suffix _ expected = false

-- `typeof v !== "string" || v.length === 0`
abbrev pub is_unstated : Value → Bool
is_unstated (str s) = is_empty s
is_unstated _ = true

-- `!o || fails(o)`
abbrev pub missing_or : Option Fields → (Fields → Bool) → Bool
missing_or none fails = true
missing_or (some fields) fails = fails fields

-- `o && fails(o)`
abbrev pub present_and : Option Fields → (Fields → Bool) → Bool
present_and none fails = false
present_and (some fields) fails = fails fields

-- One check for each key that a projection may not have.
unfoldable pub projection_checks : Option Fields → List String → String → String → List Check
projection_checks none keys code message = []
projection_checks (some projection) keys code message =
    map (λ key. red_if (has_own projection key) code message) keys

abbrev pub claim_class_of : Value → Value
claim_class_of (obj fields) = get fields "claim_class"
claim_class_of _ = undef

-- `.map(...).filter(Boolean)`
abbrev pub claim_classes : List Value → List Value
claim_classes [] = []
claim_classes (item ∷ rest) =
    let classes = claim_classes rest in
    if truthy (claim_class_of item) then claim_class_of item ∷ classes else classes

abbrev pub class_checks : Value → String → String → String → List Check
class_checks (arr chain) claim_class code message =
    yellow_if (not (any (λ class. is_str class claim_class) (claim_classes (items chain)))) code
      message
    ∷ []
class_checks _ claim_class code message = []

-- The check that an active chain lock exposes a claim class.
unfoldable pub chain_checks : Option Fields → String → String → String → List Check
chain_checks none claim_class code message = []
chain_checks (some lock) claim_class code message =
    class_checks (get lock "chain") claim_class code message
