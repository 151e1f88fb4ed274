-- ===== src/Gate/Verification.antt =====
-- src/admission/assert-verification-result-required.ts: whether a verification result passed and stays within its role.
pub mod Laws
use admissorium.Prelude.{
  String, Bool, true, false, not, ◌||◌, Option, none, some, List, [], ◌∷◌, ◌++◌,
}
use admissorium.Js.{Fields, get}
use admissorium.Gate.{
  Check, red_if, Report, report, differs, is_not, suffix, is_unstated, missing_or, present_and,
  projection_checks, chain_checks,
}

pub record VerificationInput : Type 0 where
  pub verification_result : Option Fields
  pub verification_result_index : Option Fields
  pub replay_bundle : Option Fields
  pub authority_object : Option Fields
  pub freeze_object : Option Fields
  pub accepted_epoch : Option Fields
  pub chain_lock : Option Fields
  pub projection : Option Fields

unfoldable pub verification_result_checks : Option Fields → List Check
verification_result_checks none =
    red_if true "VERIFICATION_RESULT_MISSING" "verification-result-0001 is absent." ∷ []
verification_result_checks (some result) =
    red_if (differs (get result "object_type") "VerificationResult")
      "VERIFICATION_RESULT_WRONG_OBJECT_TYPE"
      "verification result object_type must be VerificationResult."
    ∷ red_if (differs (get result "verification_result_id") "verification-result-0001")
        "VERIFICATION_RESULT_SUBSTITUTION" "verification result id is not verification-result-0001."
    ∷ red_if (differs (get result "status") "ACTIVE_TRUTH") "VERIFICATION_RESULT_NOT_ACTIVE_TRUTH"
        "verification result must be ACTIVE_TRUTH."
    ∷ red_if (differs (get result "claim_class") "verification-result")
        "VERIFICATION_RESULT_WRONG_CLAIM_CLASS"
        "verification result must bind claim_class=verification-result."
    ∷ red_if (differs (get result "artifact_id") "artifact-0005")
        "VERIFICATION_RESULT_WRONG_ARTIFACT" "verification result must bind artifact-0005."
    ∷ red_if (is_not (get result "verification_passed") true) "VERIFICATION_RESULT_NOT_PASSED"
        "verification result must pass before later recognition surfaces."
    ∷ red_if
        (not (suffix (get result "replay_bundle_ref") "/replay/current/replay-bundle-0001.json"))
        "VERIFICATION_RESULT_REPLAY_BUNDLE_REF_DRIFT"
        "verification result must bind replay-bundle-0001."
    ∷ red_if
        (not (
          suffix (get result "authority_object_ref")
            "/authorities/current/authority-object-0001.json"))
        "VERIFICATION_RESULT_AUTHORITY_REF_DRIFT"
        "verification result must bind authority-object-0001."
    ∷ red_if
        (not (
          suffix (get result "freeze_object_ref")
            "/freeze/objects/current/freeze-object-0001.json"))
        "VERIFICATION_RESULT_FREEZE_REF_DRIFT" "verification result must bind freeze-object-0001."
    ∷ red_if
        (not (suffix (get result "accepted_epoch_ref") "/epochs/current/accepted-epoch-0001.json"))
        "VERIFICATION_RESULT_ACCEPTED_EPOCH_REF_DRIFT"
        "verification result must bind accepted-epoch-0001."
    ∷ red_if
        (not (
          suffix (get result "chain_lock_ref")
            "/chains/current/minimum-object-chain-lock-0001.json"))
        "VERIFICATION_RESULT_CHAIN_LOCK_REF_DRIFT"
        "verification result must bind minimum-object-chain-lock-0001."
    ∷ red_if (is_not (get result "may_recognize_terminal_truth") false)
        "VERIFICATION_RESULT_RECOGNITION_COLLAPSE"
        "verification result may not recognize terminal truth."
    ∷ red_if (is_not (get result "may_assign_recourse") false)
        "VERIFICATION_RESULT_RECOURSE_COLLAPSE" "verification result may not assign recourse."
    ∷ red_if
        (is_not (get result "may_mutate_authority") false
          || is_not (get result "may_mutate_accepted_epoch") false)
        "VERIFICATION_RESULT_MUTATION_OVERCLAIM"
        "verification result may not mutate authority or accepted epoch."
    ∷ red_if (is_not (get result "may_infer_missing_truth") false)
        "VERIFICATION_RESULT_INFERENCE_OVERCLAIM" "verification result may not infer missing truth."
    ∷ []

unfoldable pub verification_bound_checks : VerificationInput → List Check
verification_bound_checks input =
    red_if
      (missing_or input.verification_result_index (λ index.
        differs (get index "current_verification_result_ref")
          "verification/current/verification-result-0001.json"))
      "VERIFICATION_RESULT_INDEX_DRIFT"
      "verification result index must point to verification-result-0001."
    ∷ red_if
        (present_and input.replay_bundle
          (λ bound. differs (get bound "replay_bundle_id") "replay-bundle-0001"))
        "REPLAY_BUNDLE_SUBSTITUTION" "bound replay bundle must be replay-bundle-0001."
    ∷ red_if
        (present_and input.authority_object
          (λ bound. differs (get bound "authority_object_id") "authority-object-0001"))
        "AUTHORITY_OBJECT_SUBSTITUTION" "bound authority object must be authority-object-0001."
    ∷ red_if
        (present_and input.freeze_object
          (λ bound. differs (get bound "freeze_object_id") "freeze-object-0001"))
        "FREEZE_OBJECT_SUBSTITUTION" "bound freeze object must be freeze-object-0001."
    ∷ red_if
        (present_and input.accepted_epoch
          (λ bound. differs (get bound "accepted_epoch_id") "accepted-epoch-0001"))
        "ACCEPTED_EPOCH_SUBSTITUTION" "bound accepted epoch must be accepted-epoch-0001."
    ∷ []

abbrev pub verification_projection_keys : List String
verification_projection_keys =
    "verification_result_id" ∷ "verificationResult" ∷ "verification_result" ∷ "verification" ∷ []

-- `assertVerificationResultRequired`
unfoldable pub assert_verification_result_required : VerificationInput → Report
assert_verification_result_required input = report "VERIFICATION_RESULT_REQUIRED" (
    verification_result_checks input.verification_result
    ++ verification_bound_checks input
    ++ projection_checks input.projection verification_projection_keys
        "PROJECTION_ADDED_VERIFICATION_RESULT"
        "projection surfaces may not add or substitute verification result truth."
    ++ chain_checks input.chain_lock "verification-result"
        "CHAIN_LOCK_VERIFICATION_CLASS_NOT_VISIBLE"
        "active chain lock does not expose verification-result claim class.")
