-- ===== src/Gate/Recourse.antt =====
-- src/admission/assert-recourse-object-required.ts: whether a recourse object stands on recognized truth.
pub mod Laws
use admissorium.Prelude.{
  String, Bool, true, false, not, ◌||◌, Option, none, some, List, [], ◌∷◌, ◌++◌,
}
use admissorium.Js.{Fields, get}
use admissorium.Gate.{
  Check, red_if, Report, report, differs, is_not, suffix, is_unstated, missing_or, present_and,
  projection_checks, chain_checks,
}

pub record RecourseInput : Type 0 where
  pub recourse_object : Option Fields
  pub recourse_object_index : Option Fields
  pub recognition_object : Option Fields
  pub verification_result : Option Fields
  pub authority_object : Option Fields
  pub freeze_object : Option Fields
  pub accepted_epoch : Option Fields
  pub chain_lock : Option Fields
  pub projection : Option Fields

unfoldable pub recourse_object_checks : Option Fields → List Check
recourse_object_checks none =
    red_if true "RECOURSE_OBJECT_MISSING" "recourse-object-0001 is absent." ∷ []
recourse_object_checks (some recourse) =
    red_if (differs (get recourse "object_type") "RecourseObject")
      "RECOURSE_OBJECT_WRONG_OBJECT_TYPE" "recourse object_type must be RecourseObject."
    ∷ red_if (differs (get recourse "recourse_object_id") "recourse-object-0001")
        "RECOURSE_OBJECT_SUBSTITUTION" "recourse object id is not recourse-object-0001."
    ∷ red_if (differs (get recourse "status") "ACTIVE_TRUTH") "RECOURSE_OBJECT_NOT_ACTIVE_TRUTH"
        "recourse object must be ACTIVE_TRUTH."
    ∷ red_if (differs (get recourse "claim_class") "recourse-object")
        "RECOURSE_OBJECT_WRONG_CLAIM_CLASS" "recourse object must bind claim_class=recourse-object."
    ∷ red_if (differs (get recourse "artifact_id") "artifact-0005") "RECOURSE_OBJECT_WRONG_ARTIFACT"
        "recourse object must bind artifact-0005."
    ∷ red_if
        (not (
          suffix (get recourse "recognition_object_ref")
            "/recognition/current/recognition-object-0001.json"))
        "RECOURSE_OBJECT_RECOGNITION_REF_DRIFT" "recourse object must bind recognition-object-0001."
    ∷ red_if
        (not (
          suffix (get recourse "verification_result_ref")
            "/verification/current/verification-result-0001.json"))
        "RECOURSE_OBJECT_VERIFICATION_REF_DRIFT"
        "recourse object must bind verification-result-0001."
    ∷ red_if
        (not (
          suffix (get recourse "authority_object_ref")
            "/authorities/current/authority-object-0001.json"))
        "RECOURSE_OBJECT_AUTHORITY_REF_DRIFT" "recourse object must bind authority-object-0001."
    ∷ red_if
        (not (
          suffix (get recourse "freeze_object_ref")
            "/freeze/objects/current/freeze-object-0001.json"))
        "RECOURSE_OBJECT_FREEZE_REF_DRIFT" "recourse object must bind freeze-object-0001."
    ∷ red_if
        (not
          (suffix (get recourse "accepted_epoch_ref") "/epochs/current/accepted-epoch-0001.json"))
        "RECOURSE_OBJECT_ACCEPTED_EPOCH_REF_DRIFT" "recourse object must bind accepted-epoch-0001."
    ∷ red_if
        (not (
          suffix (get recourse "chain_lock_ref")
            "/chains/current/minimum-object-chain-lock-0001.json"))
        "RECOURSE_OBJECT_CHAIN_LOCK_REF_DRIFT"
        "recourse object must bind minimum-object-chain-lock-0001."
    ∷ red_if (is_not (get recourse "recognized_truth_bound") true)
        "RECOURSE_WITHOUT_BOUND_RECOGNITION"
        "recourse object must bind recognized truth before consequence."
    ∷ red_if (is_unstated (get recourse "claim_posture")) "RECOURSE_CLAIM_POSTURE_MISSING"
        "recourse object must state claim posture."
    ∷ red_if (is_unstated (get recourse "burden_assignment")) "RECOURSE_BURDEN_ASSIGNMENT_MISSING"
        "recourse object must state burden assignment."
    ∷ red_if (is_unstated (get recourse "remedy_path")) "RECOURSE_REMEDY_PATH_MISSING"
        "recourse object must state remedy path."
    ∷ red_if (is_unstated (get recourse "escalation_path")) "RECOURSE_ESCALATION_PATH_MISSING"
        "recourse object must state escalation path."
    ∷ red_if (is_unstated (get recourse "closure_state")) "RECOURSE_CLOSURE_STATE_MISSING"
        "recourse object must state closure state."
    ∷ red_if
        (is_not (get recourse "may_redefine_recognition") false
          || is_not (get recourse "may_generate_recognition") false
          || is_not (get recourse "may_mutate_recognition") false)
        "RECOURSE_RECOGNITION_COLLAPSE"
        "recourse object may not redefine, generate, or mutate recognition."
    ∷ red_if
        (is_not (get recourse "may_mutate_verification") false
          || is_not (get recourse "may_mutate_authority") false
          || is_not (get recourse "may_mutate_accepted_epoch") false
          || is_not (get recourse "may_mutate_chain_lock") false)
        "RECOURSE_MUTATION_OVERCLAIM"
        "recourse object may not mutate verification, authority, accepted epoch, or chain lock."
    ∷ red_if (is_not (get recourse "may_infer_missing_truth") false) "RECOURSE_INFERENCE_OVERCLAIM"
        "recourse object may not infer missing truth."
    ∷ []

unfoldable pub recourse_bound_checks : RecourseInput → List Check
recourse_bound_checks input =
    red_if
      (missing_or input.recourse_object_index (λ index.
        differs (get index "current_recourse_object_ref")
          "recourse/current/recourse-object-0001.json"))
      "RECOURSE_OBJECT_INDEX_DRIFT" "recourse object index must point to recourse-object-0001."
    ∷ red_if
        (missing_or input.recognition_object
          (λ bound. differs (get bound "recognition_object_id") "recognition-object-0001"))
        "BOUND_RECOGNITION_OBJECT_MISSING_OR_SUBSTITUTED"
        "recourse requires bound recognition-object-0001."
    ∷ red_if
        (present_and input.recognition_object
          (λ bound. is_not (get bound "terminal_recognition") true))
        "BOUND_RECOGNITION_NOT_TERMINAL"
        "bound recognition object must be terminal before recourse."
    ∷ red_if
        (present_and input.verification_result
          (λ bound. differs (get bound "verification_result_id") "verification-result-0001"))
        "VERIFICATION_RESULT_SUBSTITUTION"
        "bound verification result must be verification-result-0001."
    ∷ red_if
        (present_and input.authority_object
          (λ bound. differs (get bound "authority_object_id") "authority-object-0001"))
        "AUTHORITY_OBJECT_SUBSTITUTION" "bound authority object must be authority-object-0001."
    ∷ red_if
        (present_and input.freeze_object
          (λ bound. differs (get bound "freeze_object_id") "freeze-object-0001"))
        "FREEZE_OBJECT_SUBSTITUTION" "bound freeze object must be freeze-object-0001."
    ∷ red_if
        (present_and input.accepted_epoch
          (λ bound. differs (get bound "accepted_epoch_id") "accepted-epoch-0001"))
        "ACCEPTED_EPOCH_SUBSTITUTION" "bound accepted epoch must be accepted-epoch-0001."
    ∷ []

abbrev pub recourse_projection_keys : List String
recourse_projection_keys =
    "recourse_object_id" ∷ "recourseObject" ∷ "recourse_object" ∷ "recourse" ∷ []

-- `assertRecourseObjectRequired`
unfoldable pub assert_recourse_object_required : RecourseInput → Report
assert_recourse_object_required input = report "RECOURSE_OBJECT_REQUIRED" (
    recourse_object_checks input.recourse_object
    ++ recourse_bound_checks input
    ++ projection_checks input.projection recourse_projection_keys
        "PROJECTION_ADDED_RECOURSE_OBJECT"
        "projection surfaces may not add or substitute recourse object truth."
    ++ chain_checks input.chain_lock "recourse-object" "CHAIN_LOCK_RECOURSE_CLASS_NOT_VISIBLE"
        "active chain lock does not expose recourse-object claim class.")
