-- ===== src/Gate/Recognition.antt =====
-- src/admission/assert-recognition-object-required.ts: whether a recognition object is terminal and stays within its role.
pub mod Laws
use admissorium.Prelude.{
  String, Bool, true, false, not, ◌||◌, Option, none, some, List, [], ◌∷◌, ◌++◌,
}
use admissorium.Js.{Fields, get}
use admissorium.Gate.{
  Check, red_if, Report, report, differs, is_not, suffix, is_unstated, missing_or, present_and,
  projection_checks, chain_checks,
}

pub record RecognitionInput : Type 0 where
  pub recognition_object : Option Fields
  pub recognition_object_index : Option Fields
  pub verification_result : Option Fields
  pub replay_bundle : Option Fields
  pub authority_object : Option Fields
  pub freeze_object : Option Fields
  pub accepted_epoch : Option Fields
  pub chain_lock : Option Fields
  pub projection : Option Fields

unfoldable pub recognition_object_checks : Option Fields → List Check
recognition_object_checks none =
    red_if true "RECOGNITION_OBJECT_MISSING" "recognition-object-0001 is absent." ∷ []
recognition_object_checks (some recognition) =
    red_if (differs (get recognition "object_type") "RecognitionObject")
      "RECOGNITION_OBJECT_WRONG_OBJECT_TYPE" "recognition object_type must be RecognitionObject."
    ∷ red_if (differs (get recognition "recognition_object_id") "recognition-object-0001")
        "RECOGNITION_OBJECT_SUBSTITUTION" "recognition object id is not recognition-object-0001."
    ∷ red_if (differs (get recognition "status") "ACTIVE_TRUTH")
        "RECOGNITION_OBJECT_NOT_ACTIVE_TRUTH" "recognition object must be ACTIVE_TRUTH."
    ∷ red_if (differs (get recognition "claim_class") "recognition-object")
        "RECOGNITION_OBJECT_WRONG_CLAIM_CLASS"
        "recognition object must bind claim_class=recognition-object."
    ∷ red_if (differs (get recognition "artifact_id") "artifact-0005")
        "RECOGNITION_OBJECT_WRONG_ARTIFACT" "recognition object must bind artifact-0005."
    ∷ red_if
        (is_not (get recognition "recognition_passed") true
          || is_not (get recognition "terminal_recognition") true)
        "RECOGNITION_OBJECT_NOT_TERMINAL" "recognition object must record terminal recognition."
    ∷ red_if
        (not (
          suffix (get recognition "verification_result_ref")
            "/verification/current/verification-result-0001.json"))
        "RECOGNITION_OBJECT_VERIFICATION_REF_DRIFT"
        "recognition object must bind verification-result-0001."
    ∷ red_if
        (not
          (suffix (get recognition "replay_bundle_ref") "/replay/current/replay-bundle-0001.json"))
        "RECOGNITION_OBJECT_REPLAY_BUNDLE_REF_DRIFT"
        "recognition object must bind replay-bundle-0001."
    ∷ red_if
        (not (
          suffix (get recognition "authority_object_ref")
            "/authorities/current/authority-object-0001.json"))
        "RECOGNITION_OBJECT_AUTHORITY_REF_DRIFT"
        "recognition object must bind authority-object-0001."
    ∷ red_if
        (not (
          suffix (get recognition "freeze_object_ref")
            "/freeze/objects/current/freeze-object-0001.json"))
        "RECOGNITION_OBJECT_FREEZE_REF_DRIFT" "recognition object must bind freeze-object-0001."
    ∷ red_if
        (not (
          suffix (get recognition "accepted_epoch_ref") "/epochs/current/accepted-epoch-0001.json"))
        "RECOGNITION_OBJECT_ACCEPTED_EPOCH_REF_DRIFT"
        "recognition object must bind accepted-epoch-0001."
    ∷ red_if
        (not (
          suffix (get recognition "chain_lock_ref")
            "/chains/current/minimum-object-chain-lock-0001.json"))
        "RECOGNITION_OBJECT_CHAIN_LOCK_REF_DRIFT"
        "recognition object must bind minimum-object-chain-lock-0001."
    ∷ red_if (is_not (get recognition "recourse_ready") false)
        "RECOGNITION_OBJECT_RECOURSE_READY_OVERCLAIM"
        "recognition object may not make recourse ready by itself."
    ∷ red_if
        (is_not (get recognition "may_assign_recourse") false
          || is_not (get recognition "may_select_remedy") false
          || is_not (get recognition "may_close_recourse") false)
        "RECOGNITION_RECOURSE_COLLAPSE"
        "recognition object may not assign recourse, select remedy, or close recourse."
    ∷ red_if
        (is_not (get recognition "may_mutate_verification") false
          || is_not (get recognition "may_mutate_authority") false
          || is_not (get recognition "may_mutate_accepted_epoch") false)
        "RECOGNITION_MUTATION_OVERCLAIM"
        "recognition object may not mutate verification, authority, or accepted epoch."
    ∷ red_if (is_not (get recognition "may_infer_missing_truth") false)
        "RECOGNITION_INFERENCE_OVERCLAIM" "recognition object may not infer missing truth."
    ∷ []

unfoldable pub recognition_bound_checks : RecognitionInput → List Check
recognition_bound_checks input =
    red_if
      (missing_or input.recognition_object_index (λ index.
        differs (get index "current_recognition_object_ref")
          "recognition/current/recognition-object-0001.json"))
      "RECOGNITION_OBJECT_INDEX_DRIFT"
      "recognition object index must point to recognition-object-0001."
    ∷ red_if
        (present_and input.verification_result
          (λ bound. differs (get bound "verification_result_id") "verification-result-0001"))
        "VERIFICATION_RESULT_SUBSTITUTION"
        "bound verification result must be verification-result-0001."
    ∷ red_if
        (present_and input.replay_bundle
          (λ bound. differs (get bound "replay_bundle_id") "replay-bundle-0001"))
        "REPLAY_BUNDLE_SUBSTITUTION" "bound replay bundle must be replay-bundle-0001."
    ∷ red_if
        (present_and input.authority_object
          (λ bound. differs (get bound "authority_object_id") "authority-object-0001"))
        "AUTHORITY_OBJECT_SUBSTITUTION" "bound authority object must be authority-object-0001."
    ∷ red_if
        (present_and input.freeze_object
          (λ bound. differs (get bound "freeze_object_id") "freeze-object-0001"))
        "FREEZE_OBJECT_SUBSTITUTION" "bound freeze object must be freeze-object-0001."
    ∷ red_if
        (present_and input.accepted_epoch
          (λ bound. differs (get bound "accepted_epoch_id") "accepted-epoch-0001"))
        "ACCEPTED_EPOCH_SUBSTITUTION" "bound accepted epoch must be accepted-epoch-0001."
    ∷ []

abbrev pub recognition_projection_keys : List String
recognition_projection_keys =
    "recognition_object_id" ∷ "recognitionObject" ∷ "recognition_object" ∷ "recognition" ∷ []

-- `assertRecognitionObjectRequired`
unfoldable pub assert_recognition_object_required : RecognitionInput → Report
assert_recognition_object_required input = report "RECOGNITION_OBJECT_REQUIRED" (
    recognition_object_checks input.recognition_object
    ++ recognition_bound_checks input
    ++ projection_checks input.projection recognition_projection_keys
        "PROJECTION_ADDED_RECOGNITION_OBJECT"
        "projection surfaces may not add or substitute recognition object truth."
    ++ chain_checks input.chain_lock "recognition-object" "CHAIN_LOCK_RECOGNITION_CLASS_NOT_VISIBLE"
        "active chain lock does not expose recognition-object claim class.")
