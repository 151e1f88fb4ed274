-- ===== src/Gate/Cognition.antt =====
-- src/admission/assert-cognition-boundary-required.ts: what a boundary of cognition must forbid, and
-- who may not claim to be one.
pub mod Surfaces
pub mod Index
pub mod Laws
use admissorium.Prelude.{
  String, Bool, true, false, not, ◌||◌, Option, none, some, List, [], ◌∷◌, ◌++◌, map, any, length,
  ltb, includes, ◌&&◌,
}
use admissorium.Text.{◌⧺◌}
use admissorium.Js.{
  Value, undef, null, Fields, end, str, arr, obj, items, get, has_own, is_str, is_bool,
}
use admissorium.Gate.{Check, red_if, yellow_if, Report, report, differs, is_not, present_and}

pub record CognitionInput : Type 0 where
  pub cognition_boundary : Option Fields
  pub cognition_boundary_index : Option Fields
  pub projection : Option Fields
  pub status_surface : Option Fields
  pub merge_gate_result : Option Fields

abbrev pub required_allowed : List String
required_allowed =
    "CANDIDATE_ANALYSIS" ∷ "AMBIGUITY_COMPRESSION" ∷ "TOPOLOGY_EXPLANATION"
    ∷ "CONTRADICTION_SUMMARY" ∷ "ROUTE_PROPOSAL" ∷ "PROJECTION_DRAFT" ∷ "BOUNDARY_RISK_REPORT"
    ∷ "RECOGNITION_READINESS_ASSESSMENT" ∷ "RECOURSE_PREREQUISITE_ASSESSMENT" ∷ []

abbrev pub required_forbidden : List String
required_forbidden =
    "LAW_OBJECT" ∷ "ACCEPTED_EPOCH_OBJECT" ∷ "AUTHORITY_OBJECT" ∷ "EXECUTION_RECEIPT"
    ∷ "VERIFICATION_VERDICT_OF_RECORD" ∷ "RECOGNITION_OBJECT_OF_RECORD"
    ∷ "RECOURSE_OBJECT_OF_RECORD" ∷ "MERGE_GATE_RESULT" ∷ []

abbrev pub required_boundary_true : List String
required_boundary_true =
    "tachyrium_may_make_stack_machine_legible" ∷ "tachyrium_may_not_let_machines_skip_stack"
    ∷ "tachyrium_does_not_author_law" ∷ "tachyrium_does_not_accept_state"
    ∷ "tachyrium_does_not_issue_authority" ∷ "tachyrium_does_not_execute_governed_actions"
    ∷ "tachyrium_does_not_verify_as_record" ∷ "tachyrium_does_not_recognize_terminal_truth"
    ∷ "tachyrium_does_not_assign_recourse" ∷ "tachyrium_does_not_emit_merge_gate_results" ∷ []

abbrev pub strings : List Value → List String
strings [] = []
strings (str s ∷ vs) = s ∷ strings vs
strings (_ ∷ vs) = strings vs

abbrev pub string_array : Value → List String
string_array (arr vs) = strings (items vs)
string_array _ = []

-- an object, or an array, which has none of the keys that are read
abbrev pub fields_of : Value → Option Fields
fields_of (obj fields) = some fields
fields_of (arr vs) = some end
fields_of _ = none

abbrev pub objects : List Value → List Fields
objects [] = []
objects (obj fields ∷ vs) = fields ∷ objects vs
objects (arr entries ∷ vs) = end ∷ objects vs
objects (_ ∷ vs) = objects vs

abbrev pub object_array : Value → List Fields
object_array (arr vs) = objects (items vs)
object_array _ = []

abbrev pub sovereign : Fields → Bool
sovereign value =
    is_str (get value "object_type") "CognitionBoundary"
    || is_str (get value "object_id") "cognition-boundary-0001"
    || is_str (get value "status") "ACTIVE_CURRENT_BOUNDARY"
    || is_str (get value "truth_kind") "ACTIVE_TRUTH"
    || is_bool (get value "truth_source") true
    || is_bool (get value "is_truth_source") true
    || has_own value "cognition_boundary_id"
    || has_own value "cognitionBoundary"
    || has_own value "cognition_boundary"

unfoldable pub claims_sovereign_cognition : Option Fields → Bool
claims_sovereign_cognition value = present_and value sovereign

-- `a ?? b`
abbrev or_value : Value → Value → Value
or_value undef b = b
or_value null b = b
or_value a b = a

abbrev pub source_of : Fields → Value
source_of result =
    or_value (or_value (get result "source") (get result "producer")) (get result "author")

abbrev pub allowed_check : Fields → String → Check
allowed_check boundary class =
    yellow_if (not (includes (string_array (get boundary "allowed_output_classes")) class))
      "COGNITION_ALLOWED_OUTPUT_CLASS_MISSING" ("cognition boundary should expose " ⧺ class ⧺ ".")

abbrev pub forbidden_check : Fields → String → Check
forbidden_check boundary class =
    red_if (not (includes (string_array (get boundary "forbidden_output_classes")) class))
      "COGNITION_FORBIDDEN_OUTPUT_CLASS_MISSING" ("cognition boundary must forbid " ⧺ class ⧺ ".")

abbrev pub flag_check : Fields → String → Check
flag_check flags flag =
    red_if (is_not (get flags flag) true) "COGNITION_BOUNDARY_FLAG_NOT_TRUE"
      ("cognition boundary must set " ⧺ flag ⧺ "=true.")

abbrev pub flag_checks : Option Fields → List Check
flag_checks none =
    red_if true "COGNITION_BOUNDARY_FLAGS_MISSING" "cognition boundary must expose boundary flags."
    ∷ []
flag_checks (some flags) = map (flag_check flags) required_boundary_true

abbrev pub identity_checks : Fields → List Check
identity_checks boundary =
    red_if (differs (get boundary "object_type") "CognitionBoundary")
      "COGNITION_BOUNDARY_WRONG_OBJECT_TYPE"
      "cognition boundary object_type must be CognitionBoundary."
    ∷ red_if (differs (get boundary "object_id") "cognition-boundary-0001")
        "COGNITION_BOUNDARY_SUBSTITUTION"
        "cognition boundary object id must be cognition-boundary-0001."
    ∷ red_if (differs (get boundary "repo") "Verifrax/TACHYRIUM") "COGNITION_BOUNDARY_WRONG_REPO"
        "cognition boundary must belong to Verifrax/TACHYRIUM."
    ∷ red_if (differs (get boundary "status") "ACTIVE_CURRENT_BOUNDARY")
        "COGNITION_BOUNDARY_NOT_ACTIVE" "cognition boundary must be ACTIVE_CURRENT_BOUNDARY."
    ∷ []

abbrev pub rule_checks : Fields → List Check
rule_checks boundary =
    red_if (ltb (length (string_array (get boundary "minimum_machine_deference_inputs"))) 6)
      "COGNITION_DEFERENCE_INPUTS_INCOMPLETE"
      "cognition boundary must require machine deference inputs before sovereign interpretation."
    ∷ red_if
        (differs (get boundary "anti_overread_rule")
          "Cognition may expose missing public objects; cognition may not socially patch those absences.")
        "COGNITION_ANTI_OVERREAD_RULE_DRIFT"
        "cognition boundary must preserve the anti-overread rule."
    ∷ []

unfoldable pub cognition_boundary_checks : Option Fields → List Check
cognition_boundary_checks none =
    red_if true "COGNITION_BOUNDARY_MISSING" "cognition-boundary-0001 is absent." ∷ []
cognition_boundary_checks (some boundary) =
    identity_checks boundary
    ++ map (allowed_check boundary) required_allowed
    ++ map (forbidden_check boundary) required_forbidden
    ++ flag_checks (fields_of (get boundary "boundary"))
    ++ rule_checks boundary

abbrev pub binds_path : Fields → Bool
binds_path entry =
    is_str (get entry "object_id") "cognition-boundary-0001"
    && is_str (get entry "path") "cognition/current/cognition-boundary-0001.json"

abbrev pub index_drift : Check
index_drift =
    red_if true "COGNITION_BOUNDARY_INDEX_DRIFT"
      "cognition boundary index must point to cognition-boundary-0001."

abbrev pub path_check : Bool → Fields → Check
path_check true index = index_drift
path_check false index =
    red_if (not (any binds_path (object_array (get index "objects"))))
      "COGNITION_BOUNDARY_INDEX_PATH_DRIFT"
      "cognition boundary index must bind cognition/current/cognition-boundary-0001.json."

unfoldable pub cognition_index_checks : Option Fields → List Check
cognition_index_checks none = index_drift ∷ []
cognition_index_checks (some index) =
    path_check (differs (get index "current") "cognition-boundary-0001") index ∷ []

unfoldable pub cognition_surface_checks : CognitionInput → List Check
cognition_surface_checks input =
    red_if (claims_sovereign_cognition input.projection) "PROJECTION_ADDED_COGNITION_BOUNDARY"
      "projection surfaces may not add or substitute cognition boundary truth."
    ∷ red_if (claims_sovereign_cognition input.status_surface)
        "STATUS_SURFACE_CLAIMS_COGNITION_TRUTH"
        "status surfaces may not claim cognition boundary truth-source status."
    ∷ red_if
        (present_and input.merge_gate_result (λ result.
          is_str (source_of result) "TACHYRIUM" || is_str (source_of result) "Verifrax/TACHYRIUM"))
        "TACHYRIUM_MERGE_GATE_OVERCLAIM" "TACHYRIUM may not emit merge-gate results."
    ∷ []

-- `assertCognitionBoundaryRequired`
unfoldable pub assert_cognition_boundary_required : CognitionInput → Report
assert_cognition_boundary_required input = report "COGNITION_BOUNDARY_REQUIRED" (
    cognition_boundary_checks input.cognition_boundary
    ++ cognition_index_checks input.cognition_boundary_index
    ++ cognition_surface_checks input)
